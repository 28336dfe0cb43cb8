-- ===== src/Body/RoundTrip/Parts.antt =====
-- What it means that a part of a body is read back, with the lists of such parts.
use cuda_tile.Base.{
  ℕ, zero, suc, ◌+◌, ◌^◌, ◌<◌, ◌≡◌, sym, ◌∙◌, List, [], ◌++◌, length, length-append, append_assoc,
  append-nil, arith, Outcome,
}
use mathlib.Core.Path.{subst}
use cuda_tile.Encoding.Writer.{var_int}
use cuda_tile.Encoding.Reader.{at}
use cuda_tile.Encoding.VarInt.{read_var_int-var_int}
use cuda_tile.Body.Schema.{
  Operation, Regions, no_regions, region, Blocks, no_blocks, Operations, no_operations,
  next_operation, Pools,
}
use cuda_tile.Body.Write.{Scope, count_regions, count_blocks, count_operations}
use cuda_tile.Body.Read.{Parser, ParseOperation, parse_operations, parse_blocks, parse_regions}
use cuda_tile.Body.RoundTrip.Scopes.{Agree}
use cuda_tile.Body.RoundTrip.Heads.{parser, parsed, parsed_at}

pub record Trip {ℓ} {A : Type ℓ} (parse : Parser → Outcome (A × Parser)) (a : A) (found : List ℕ)
    (s s' : Scope) (bytes values values' : List ℕ) (next next' : ℕ) : Type ℓ where
  pub reads :
      (o : ℕ) (rest locations : List ℕ)
      → parse (parser (at o (bytes ++ rest)) values next (found ++ locations))
        ≡ parsed a (o + length bytes) rest values' next' locations
  pub agrees : Agree s' values' next'
  pub kept : s'.locations ≡ s.locations ++ found

length_three : (a b c : List ℕ) → length (a ++ (b ++ c)) ≡ length a + length b + length c
length_three a b c = omega (arith, length-append a (b ++ c), length-append b c)

pub length_four :
    (a b c d : List ℕ) → length (a ++ (b ++ (c ++ d))) ≡ length a + length b + length c + length d
length_four a b c d = omega (arith, length-append a (b ++ (c ++ d)), length_three b c d)

module _ (p : Pools) (parse : ParseOperation) (s : Scope) (values : List ℕ) (next : ℕ)
    (agree : Agree s values next) where
  pub no_operations-Trip :
      Trip
        (parse_operations p parse zero)
        no_operations
        []
        s
        s
        []
        values
        (values ++ [])
        next
        (next + 0)
  unfolding parse_operations
  no_operations-Trip = record {
    reads = λ o rest locations.
        rw append-nil (parsed_at no_operations rest values locations (omega arith) (omega arith));
    agrees = rw append-nil (subst (Agree s values) (omega arith) agree);
    kept = sym (append-nil s.locations);
  }

  pub no_blocks-Trip :
      Trip (parse_blocks p parse zero) no_blocks [] s s [] values values next (next + 0)
  unfolding parse_blocks
  no_blocks-Trip = record {
    reads =
        λ o rest locations. parsed_at no_blocks rest values locations (omega arith) (omega arith);
    agrees = subst (Agree s values) (omega arith) agree;
    kept = sym (append-nil s.locations);
  }

  pub no_regions-Trip :
      Trip (parse_regions p parse zero) no_regions [] s s [] values values next (next + 0)
  unfolding parse_regions
  no_regions-Trip = record {
    reads =
        λ o rest locations. parsed_at no_regions rest values locations (omega arith) (omega arith);
    agrees = subst (Agree s values) (omega arith) agree;
    kept = sym (append-nil s.locations);
  }

module _ (p : Pools) (parse : ParseOperation) (s s₁ s₂ : Scope) where
  pub next_operation-Trip :
      (x : Operation) (xs : Operations) (found found' first others values v₁ v₂ : List ℕ)
      (next a b : ℕ)
      → Trip parse x found s s₁ first values (values ++ v₁) next (next + a)
      → Trip
          (parse_operations p parse (count_operations xs))
          xs
          found'
          s₁
          s₂
          others
          (values ++ v₁)
          ((values ++ v₁) ++ v₂)
          (next + a)
          (next + a + b)
      → Trip
          (parse_operations p parse (suc (count_operations xs)))
          (next_operation x xs)
          (found ++ found')
          s
          s₂
          (first ++ others)
          values
          (values ++ (v₁ ++ v₂))
          next
          (next + (a + b))
  unfolding parse_operations
  next_operation-Trip x xs found found' first others values v₁ v₂ next a b t u = record {
    reads = λ o rest locations.
        rw
          (
            append_assoc,
            append_assoc,
            t.reads o (others ++ rest) (found' ++ locations),
            u.reads (o + length first) rest locations,
            append_assoc,
          )
          (parsed_at (next_operation x xs) rest (values ++ (v₁ ++ v₂)) locations
            (omega (arith, length-append first others)) (omega arith));
    agrees = subst (Agree s₂ (values ++ (v₁ ++ v₂))) (omega arith) (rw append_assoc at u.agrees);
    kept = u.kept ∙ rw t.kept (append_assoc s.locations found found');
  }

  pub region-Trip :
      (bs : Blocks) (rs : Regions) (found found' blocks regions values : List ℕ) (next a b : ℕ)
      → count_blocks bs < 2 ^ 64
      → Trip
          (parse_blocks p parse (count_blocks bs))
          bs
          found
          s
          s₁
          blocks
          values
          values
          next
          (next + a)
      → Trip
          (parse_regions p parse (count_regions rs))
          rs
          found'
          s₁
          s₂
          regions
          values
          values
          (next + a)
          (next + a + b)
      → Trip
          (parse_regions p parse (suc (count_regions rs)))
          (region bs rs)
          (found ++ found')
          s
          s₂
          (var_int (count_blocks bs) ++ (blocks ++ regions))
          values
          values
          next
          (next + (a + b))
  unfolding parse_regions
  region-Trip bs rs found found' blocks regions values next a b few t u = record {
    reads = λ o rest locations.
        rw
          (
            append_assoc,
            append_assoc,
            append_assoc,
            read_var_int-var_int (count_blocks bs) o (blocks ++ (regions ++ rest)) few,
            t.reads (o + length (var_int (count_blocks bs))) (regions ++ rest)
                (found' ++ locations),
            u.reads (o + length (var_int (count_blocks bs)) + length blocks) rest locations,
          )
          (parsed_at (region bs rs) rest values locations
            (omega (arith, length_three (var_int (count_blocks bs)) blocks regions)) (omega arith));
    agrees = subst (Agree s₂ values) (omega arith) u.agrees;
    kept = u.kept ∙ rw t.kept (append_assoc s.locations found found');
  }
