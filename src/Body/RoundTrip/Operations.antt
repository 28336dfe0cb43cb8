-- ===== src/Body/RoundTrip/Operations.antt =====
-- A function body that was written is read back: by induction on its operations.
use cuda_tile.Base.{
  ℕ, zero, suc, ◌+◌, ◌^◌, ◌≤◌, ◌≡◌, ap, sym, ◌∙◌, List, [], ◌∷◌, ◌++◌, length, length-append,
  append_assoc, take, arith, ok, silent, >>=-eq-ok, guard-eq-ok, ok-injective,
}
use mathlib.Core.Path.{subst}
use cuda_tile.Encoding.Writer.{var_int}
use cuda_tile.Body.Schema.{
  OpDef, Head, Operation, operation, Regions, no_regions, region, Blocks, no_blocks, block,
  Operations, no_operations, next_operation, Pools,
}
use cuda_tile.Body.Results.{serialized_types}
use cuda_tile.Body.Write.{
  Scope, assign, leave_block, write_head, add_debug_info, count_regions, count_blocks,
  count_operations, region_count, write_operation, write_regions, write_blocks, write_operations,
}
use cuda_tile.Body.Read.{new_values, parse_operations, parse_blocks, parse_regions, parse_operation}
use cuda_tile.Body.RoundTrip.HeadTrip.{write_head-count}
use cuda_tile.Body.RoundTrip.Numbering.{
  created, created_regions, created_blocks, created_operations, depth, depth_regions, depth_blocks,
  depth_operations, locations_of, locations_of_regions, locations_of_blocks,
  locations_of_operations, noted, count_ok, visible, visible_operations, argument_values, Fits,
  FitRegions, FitBlocks, FitOperations,
}
use cuda_tile.Body.RoundTrip.Scopes.{Agree, assign-all, leave_block-outer, length-new_values}
use cuda_tile.Body.RoundTrip.Parts.{
  Trip, no_operations-Trip, no_blocks-Trip, no_regions-Trip, next_operation-Trip, region-Trip,
}
use cuda_tile.Body.RoundTrip.Trips.{block-Trip, operation-Trip_of}

-- The results that got an index are those that a later operation can use.
visible-take :
    (p : Pools) (h : Head) (rs : Regions) (n : ℕ) (types : List ℕ)
    → serialized_types p h.definition h.result_types h.result_values ≡ ok types
    → n ≡ length types
    → take n h.result_values ≡ visible p (operation h rs)
unfolding visible
visible-take p h rs n types e q = ap (λ (k : ℕ). take k h.result_values) (q ∙ ap count_ok (sym e))

length-take-le : (n : ℕ) (xs : List ℕ) → length (take n xs) ≤ length xs
length-take-le zero xs = omega arith
length-take-le (suc n) [] = omega arith
length-take-le (suc n) (x ∷ xs) = omega (arith, length-take-le n xs)

pub visible-length :
    (p : Pools) (defs : List OpDef) (values : List ℕ) (next : ℕ) (x : Operation)
    → Fits p defs values next x
    → length (visible p x) ≤ created x
unfolding visible created Fits
visible-length p defs values next (operation h rs) (head_fits, fits) =
    let n : ℕ = count_ok (serialized_types p h.definition h.result_types h.result_values) in
    omega (
      arith,
      length-take-le n h.result_values,
      ap length head_fits.new_results,
      length-new_values (next + created_regions rs) (length h.result_types),
    )

module _ (p : Pools) (defs : List OpDef) where
  mutual
    unfolding write_operation created depth locations_of Fits count_regions count_blocks
        count_operations visible_operations

    pub operation-Trip :
        (x : Operation) (fuel : ℕ) (s s' : Scope) (bytes values : List ℕ) (next : ℕ)
        → depth x ≤ fuel
        → Fits p defs values next x
        → Agree s values next
        → length values + created x ≤ 2 ^ 64
        → write_operation p x s ≡ ok (bytes, s')
        → Trip
            (parse_operation p defs fuel)
            x
            (locations_of p x)
            s
            s'
            bytes
            values
            (values ++ visible p x)
            next
            (next + created x)
    operation-Trip (operation h rs) zero s s' bytes values next deep fits agree few e =
        absurd (omega arith)
    operation-Trip (operation h rs) (suc fuel) s s' bytes values next deep (head_fits, fits) agree
          few e =
        let (available, e₀) = guard-eq-ok (p.available h.definition.opcode) silent _ e in
        let (valid, e₁) = guard-eq-ok (p.valid_debuginfo h.location) silent _ e₀ in
        let s₁ : Scope = record s {
          locations = add_debug_info p.function_loc_index h.location s.locations;
        } in
        let ((head, n), e₂, e₃) = >>=-eq-ok (write_head p h s.value_index_map) _ e₁ in
        let ((regions, s₂), e₄, e₅) = >>=-eq-ok (write_regions p rs s₁) _ e₃ in
        let (types, serialized, count) = write_head-count p h s.value_index_map head n e₂ in
        let agree₁ : Agree s₁ values next = record {
          same_values = agree.same_values;
          same_length = agree.same_length;
          before_next = agree.before_next;
        } in
        let t =
          operation-Trip_of p defs fuel h rs (created_regions rs) values next s s₂ head_fits agree
            (omega arith) available head regions (locations_of_regions p rs) n e₂
            (regions-Trip rs fuel s₁ s₂ regions values next (omega arith) fits agree₁ (omega arith)
              e₄) in
        subst
          (λ (r : List ℕ × Scope).
            Trip (parse_operation p defs (suc fuel)) (operation h rs)
              (noted p.function_loc_index h.location ++ locations_of_regions p rs) s r.1 r.0 values
              (values ++ visible p (operation h rs)) next
              (next + (created_regions rs + length h.result_types)))
          (ok-injective e₅)
          (subst
            (λ (vs : List ℕ).
              Trip (parse_operation p defs (suc fuel)) (operation h rs)
                (noted p.function_loc_index h.location ++ locations_of_regions p rs) s
                (assign (take n h.result_values) s₂)
                (var_int h.definition.opcode
                  ++ (head ++ (region_count h.definition (count_regions rs) ++ regions)))
                values (values ++ vs) next (next + (created_regions rs + length h.result_types)))
            (visible-take p h rs n types serialized count) t)

    regions-Trip :
        (rs : Regions) (fuel : ℕ) (s s' : Scope) (bytes values : List ℕ) (next : ℕ)
        → depth_regions rs ≤ fuel
        → FitRegions p defs values next rs
        → Agree s values next
        → length values + created_regions rs ≤ 2 ^ 64
        → write_regions p rs s ≡ ok (bytes, s')
        → Trip
            (parse_regions p (parse_operation p defs fuel) (count_regions rs))
            rs
            (locations_of_regions p rs)
            s
            s'
            bytes
            values
            values
            next
            (next + created_regions rs)
    regions-Trip no_regions fuel s s' bytes values next deep fits agree few e =
        subst
          (λ (r : List ℕ × Scope).
            Trip (parse_regions p (parse_operation p defs fuel) zero) no_regions [] s r.1 r.0 values
              values next (next + 0))
          (ok-injective e) (no_regions-Trip p (parse_operation p defs fuel) s values next agree)
    regions-Trip (region bs rs) fuel s s' bytes values next deep (counted, fits, others) agree few
          e =
        let ((first, s₁), e₁, e₂) = >>=-eq-ok (write_blocks p bs s) _ e in
        let ((rest, s₂), e₃, e₄) = >>=-eq-ok (write_regions p rs s₁) _ e₂ in
        let parse = parse_operation p defs fuel in
        let t : Trip (parse_blocks p parse (count_blocks bs)) bs (locations_of_blocks p bs) s s₁
            first values values next (next + created_blocks bs) =
          blocks-Trip bs fuel s s₁ first values next (omega arith) fits agree (omega arith) e₁ in
        subst
          (λ (r : List ℕ × Scope).
            Trip (parse_regions p parse (suc (count_regions rs))) (region bs rs)
              (locations_of_blocks p bs ++ locations_of_regions p rs) s r.1 r.0 values values next
              (next + (created_blocks bs + created_regions rs)))
          (ok-injective e₄)
          (region-Trip p parse s s₁ s₂ bs rs (locations_of_blocks p bs) (locations_of_regions p rs)
            first rest values next (created_blocks bs) (created_regions rs) counted t
            (regions-Trip rs fuel s₁ s₂ rest values (next + created_blocks bs) (omega arith) others
              t.agrees (omega arith) e₃))

    blocks-Trip :
        (bs : Blocks) (fuel : ℕ) (s s' : Scope) (bytes values : List ℕ) (next : ℕ)
        → depth_blocks bs ≤ fuel
        → FitBlocks p defs values next bs
        → Agree s values next
        → length values + created_blocks bs ≤ 2 ^ 64
        → write_blocks p bs s ≡ ok (bytes, s')
        → Trip
            (parse_blocks p (parse_operation p defs fuel) (count_blocks bs))
            bs
            (locations_of_blocks p bs)
            s
            s'
            bytes
            values
            values
            next
            (next + created_blocks bs)
    blocks-Trip no_blocks fuel s s' bytes values next deep fits agree few e =
        subst
          (λ (r : List ℕ × Scope).
            Trip (parse_blocks p (parse_operation p defs fuel) zero) no_blocks [] s r.1 r.0 values
              values next (next + 0))
          (ok-injective e) (no_blocks-Trip p (parse_operation p defs fuel) s values next agree)
    blocks-Trip (block arguments xs bs) fuel s s' bytes values next deep (block_fits, fits, others)
          agree few e =
        let new : List ℕ = new_values next (length arguments) in
        let s₁ : Scope = assign (argument_values arguments) s in
        let ((first, s₂), e₁, e₂) = >>=-eq-ok (write_operations p xs s₁) _ e in
        let ((rest, s₃), e₃, e₄) =
          >>=-eq-ok (write_blocks p bs (leave_block s.next_value_index s₂)) _ e₂ in
        let parse = parse_operation p defs fuel in
        let (agree₁, kept₁) =
          subst
            (λ (vs : List ℕ).
              Agree (assign vs s) (values ++ new) (next + length arguments)
              × ((assign vs s).locations ≡ s.locations))
            (sym block_fits.new_arguments) (assign-all (length arguments) next s values agree) in
        let few' : length (values ++ new) + created_operations xs ≤ 2 ^ 64 =
          omega (arith, length-append values new, length-new_values next (length arguments)) in
        let t : Trip (parse_operations p parse (count_operations xs)) xs
            (locations_of_operations p xs) s₁ s₂ first (values ++ new)
            ((values ++ new) ++ visible_operations p xs) (next + length arguments)
            (next + length arguments + created_operations xs) =
          operations-Trip xs fuel s₁ s₂ first (values ++ new) (next + length arguments)
            (omega arith) fits agree₁ few' e₁ in
        let (agree₂, kept₂) =
          leave_block-outer s₂ values (new ++ visible_operations p xs) s.next_value_index
            (next + length arguments + created_operations xs) agree.same_length
            (rw append_assoc at t.agrees) in
        subst
          (λ (r : List ℕ × Scope).
            Trip (parse_blocks p parse (suc (count_blocks bs))) (block arguments xs bs)
              (locations_of_operations p xs ++ locations_of_blocks p bs) s r.1 r.0 values values
              next (next + (length arguments + created_operations xs + created_blocks bs)))
          (ok-injective e₄)
          (block-Trip p parse s s₁ s₂ s₃ arguments xs bs (locations_of_operations p xs)
            (locations_of_blocks p bs) first rest values (visible_operations p xs) next
            (created_operations xs) (created_blocks bs) block_fits agree.same_length kept₁ t
            (blocks-Trip bs fuel (leave_block s.next_value_index s₂) s₃ rest values
              (next + length arguments + created_operations xs) (omega arith) others agree₂
              (omega arith) e₃))

    operations-Trip :
        (xs : Operations) (fuel : ℕ) (s s' : Scope) (bytes values : List ℕ) (next : ℕ)
        → depth_operations xs ≤ fuel
        → FitOperations p defs values next xs
        → Agree s values next
        → length values + created_operations xs ≤ 2 ^ 64
        → write_operations p xs s ≡ ok (bytes, s')
        → Trip
            (parse_operations p (parse_operation p defs fuel) (count_operations xs))
            xs
            (locations_of_operations p xs)
            s
            s'
            bytes
            values
            (values ++ visible_operations p xs)
            next
            (next + created_operations xs)
    operations-Trip no_operations fuel s s' bytes values next deep fits agree few e =
        subst
          (λ (r : List ℕ × Scope).
            Trip (parse_operations p (parse_operation p defs fuel) zero) no_operations [] s r.1 r.0
              values (values ++ []) next (next + 0))
          (ok-injective e) (no_operations-Trip p (parse_operation p defs fuel) s values next agree)
    operations-Trip (next_operation x xs) fuel s s' bytes values next deep (fits, others) agree few
          e =
        let ((first, s₁), e₁, e₂) = >>=-eq-ok (write_operation p x s) _ e in
        let ((rest, s₂), e₃, e₄) = >>=-eq-ok (write_operations p xs s₁) _ e₂ in
        let parse = parse_operation p defs fuel in
        let t : Trip parse x (locations_of p x) s s₁ first values (values ++ visible p x) next
            (next + created x) =
          operation-Trip x fuel s s₁ first values next (omega arith) fits agree (omega arith) e₁ in
        let shorter : length (visible p x) ≤ created x = visible-length p defs values next x fits in
        let few' : length (values ++ visible p x) + created_operations xs ≤ 2 ^ 64 =
          omega (arith, length-append values (visible p x)) in
        subst
          (λ (r : List ℕ × Scope).
            Trip (parse_operations p parse (suc (count_operations xs))) (next_operation x xs)
              (locations_of p x ++ locations_of_operations p xs) s r.1 r.0 values
              (values ++ (visible p x ++ visible_operations p xs)) next
              (next + (created x + created_operations xs)))
          (ok-injective e₄)
          (next_operation-Trip p parse s s₁ s₂ x xs (locations_of p x)
            (locations_of_operations p xs) first rest values (visible p x) (visible_operations p xs)
            next (created x) (created_operations xs) t
            (operations-Trip xs fuel s₁ s₂ rest (values ++ visible p x) (next + created x)
              (omega arith) others t.agrees few' e₃))
