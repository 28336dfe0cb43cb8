-- ===== src/Body/Results/Trip.antt =====
-- The result types that were written are read back.
use cuda_tile.Base.{
  ℕ, suc, ◌+◌, ◌-◌, ◌^◌, ◌≤◌, ◌<◌, ◌≡◌, refl, Bool, true, false, not, ◌||◌, ◌==◌, List, [], ◌∷◌,
  ◌++◌, length, append_assoc, length-append, All, Bool-cases, inl, inr, arith, Outcome, ok,
  >>=-eq-ok, ok-injective, ==_true,
}
use cuda_tile.Encoding.Writer.{var_int}
use cuda_tile.Encoding.Reader.{Cursor, at}
use cuda_tile.Encoding.VarInt.{read_var_int-var_int, read_var_int_max-var_int}
use cuda_tile.Encoding.Fixed.{ok_at}
use cuda_tile.Types.Function.{index_bytes}
use cuda_tile.Body.Schema.{ResultDef, OpDef, Pools}
use cuda_tile.Body.Results.{
  any_versioned, is_compatible, compatible_types, serialized_types, result_bytes, read_type,
  read_result_types, read_result_count, read_versioned, read_results,
}

abbrev pub TypesOk : Pools → List ℕ → Type 0
TypesOk p types = All (λ t. (t < 2 ^ 64) × (p.has_type t ≡ true)) types

-- A result that the version does not have is of the type that its constraint builds.
abbrev pub BuiltTypes : Pools → OpDef → List ResultDef → List ℕ → List ℕ → Type 0
BuiltTypes p d [] [] [] = Unit {0}
BuiltTypes p d (r ∷ defs) (t ∷ types) (x ∷ values) =
    (is_compatible p.file_version d r ≡ false → t ≡ r.built_type) × BuiltTypes p d defs types values
BuiltTypes p d _ _ _ = ⊥

-- What holds of the results of an operation that matches its definition.
pub record ResultsOk (p : Pools) (d : OpDef) (types values : List ℕ) : Type 0 where
  pub types_ok : TypesOk p types
  pub few_results : length types < 2 ^ 32 - 1
  pub built : any_versioned d d.results ≡ true → BuiltTypes p d d.results types values
  pub counted :
      any_versioned d d.results ≡ false → d.is_variadic ≡ false → length types ≡ length d.results

counted_at {ℓ} :
    {A : Type ℓ} (a : A) (n : ℕ) {o o' : ℕ} (rest : List ℕ)
    → o ≡ o'
    → ◌≡◌ {A = Outcome (A × ℕ × Cursor)} (ok (a, n, at o rest)) (ok (a, n, at o' rest))
counted_at a n rest e = λ i. ok (a, n, at (e i) rest)

count_matches :
    (variadic : Bool) (n count : ℕ)
    → (variadic ≡ true → n ≡ count)
    → (not variadic || n == count) ≡ true
count_matches true n count h = ==_true n count (h refl)
count_matches false n count h = refl

count_known :
    (variadic : Bool) (n count fixed : ℕ)
    → (variadic ≡ true → n ≡ count)
    → (variadic ≡ false → n ≡ fixed)
    → (variadic ≡ false → count ≡ fixed)
    → n ≡ count
count_known true n count fixed h k l = h refl
count_known false n count fixed h k l = omega (arith, k refl, l refl)

module _ (p : Pools) where
  pub read_type-index :
      (t o : ℕ) (rest : List ℕ)
      → t < 2 ^ 64
      → p.has_type t ≡ true
      → read_type p (at o (var_int t ++ rest)) ≡ ok (t, at (o + length (var_int t)) rest)
  unfolding read_type
  read_type-index t o rest h k = rw (read_var_int-var_int t o rest h, k)

  pub read_result_types-index_bytes :
      (types : List ℕ) (o : ℕ) (rest : List ℕ)
      → TypesOk p types
      → read_result_types p (length types) (at o (index_bytes types ++ rest))
        ≡ ok (types, at (o + length (index_bytes types)) rest)
  unfolding read_result_types
  read_result_types-index_bytes [] o rest h = ok_at {A = List ℕ} [] rest (omega arith)
  read_result_types-index_bytes (t ∷ types) o rest ((h, k), hs) =
      rw
        (
          append_assoc,
          read_type-index t o (index_bytes types ++ rest) h k,
          read_result_types-index_bytes types (o + length (var_int t)) rest hs,
        )
        (ok_at (t ∷ types) rest (omega (arith, length-append (var_int t) (index_bytes types))))

  module _ (d : OpDef) where
    compatible_cons :
        (r : ResultDef) (defs : List ResultDef) (t x : ℕ) (types values ts : List ℕ)
        → is_compatible p.file_version d r ≡ true
        → compatible_types p d (r ∷ defs) (t ∷ types) (x ∷ values) ≡ ok ts
        → (ts' : List ℕ) × (compatible_types p d defs types values ≡ ok ts') × (t ∷ ts' ≡ ts)
    unfolding compatible_types
    compatible_cons r defs t x types values ts h e =
        let e' = rw h at e in
        let (ts', first, last) = >>=-eq-ok (compatible_types p d defs types values) _ e' in
        (ts', first, ok-injective last)

    incompatible_cons :
        (r : ResultDef) (defs : List ResultDef) (t x : ℕ) (types values ts : List ℕ)
        → is_compatible p.file_version d r ≡ false
        → compatible_types p d (r ∷ defs) (t ∷ types) (x ∷ values) ≡ ok ts
        → compatible_types p d defs types values ≡ ok ts
    unfolding compatible_types
    incompatible_cons r defs t x types values ts h e = elim (Bool-cases (p.is_used x)) [
      | inl used ↦ let e' = rw (h, used) at e in cc
      | inr unused ↦ rw (h, unused) at e
    ]

    read_versioned-compatible_types :
        (defs : List ResultDef) (types values ts : List ℕ) (o : ℕ) (rest : List ℕ)
        → TypesOk p types
        → BuiltTypes p d defs types values
        → compatible_types p d defs types values ≡ ok ts
        → (read_versioned p d defs (at o (index_bytes ts ++ rest))
            ≡ ok (types, length ts, at (o + length (index_bytes ts)) rest))
          × (length ts ≤ length types)
    unfolding read_versioned compatible_types
    read_versioned-compatible_types [] [] [] ts o rest h b e =
        rw (← ok-injective e) (counted_at {A = List ℕ} [] 0 rest (omega arith), omega arith)
    read_versioned-compatible_types (r ∷ defs) (t ∷ types) (x ∷ values) ts o rest ((h, k), hs)
          (b, bs) e =
        elim (Bool-cases (is_compatible p.file_version d r)) [
          | inl new ↦
              let (ts', e', q) = compatible_cons r defs t x types values ts new e in
              let (ih, le) =
                read_versioned-compatible_types defs types values ts' (o + length (var_int t)) rest
                  hs bs e' in
              rw (← q) (
                rw (new, append_assoc, read_type-index t o (index_bytes ts' ++ rest) h k, ih)
                    (counted_at (t ∷ types) (suc (length ts')) rest
                      (omega (arith, length-append (var_int t) (index_bytes ts')))),
                omega arith,
              )
          | inr old ↦
              let (ih, le) =
                read_versioned-compatible_types defs types values ts o rest hs bs
                  (incompatible_cons r defs t x types values ts old e) in
              (rw (old, ih, b old), omega arith)
        ]
    read_versioned-compatible_types [] (t ∷ types) values ts o rest h b e = absurd b
    read_versioned-compatible_types [] [] (x ∷ values) ts o rest h b e = absurd b
    read_versioned-compatible_types (r ∷ defs) [] values ts o rest h b e = absurd b
    read_versioned-compatible_types (r ∷ defs) (t ∷ types) [] ts o rest h b e = absurd b

    -- The number of types, if it is written.
    read_result_count-bytes :
        (fixed o : ℕ) (types rest : List ℕ)
        → length types < 2 ^ 32 - 1
        → (n : ℕ) × (read_result_count d fixed (at o (result_bytes d types ++ rest))
            ≡ ok (
              n,
              at
                  (o + length (result_bytes d types) - length (index_bytes types))
                  (index_bytes types ++ rest),
            ))
          × (length (index_bytes types) ≤ length (result_bytes d types))
          × (d.is_variadic ≡ true → n ≡ length types)
          × (d.is_variadic ≡ false → n ≡ fixed)
    unfolding read_result_count result_bytes
    read_result_count-bytes fixed o types rest few = elim (Bool-cases d.is_variadic) [
      | inl variadic ↦
          let size : length (var_int (length types) ++ index_bytes types)
              ≡ length (var_int (length types)) + length (index_bytes types) =
            length-append (var_int (length types)) (index_bytes types) in
          (
            length types,
            rw
                (
                  variadic,
                  append_assoc,
                  read_var_int_max-var_int (2 ^ 32 - 1 - 1) (length types) o
                      (index_bytes types ++ rest) (omega arith) (omega arith),
                )
                (ok_at (length types) (index_bytes types ++ rest) (omega arith)),
            rw variadic (omega arith),
            λ h. refl,
            λ h. cc,
          )
      | inr fixed_count ↦ (
        fixed,
        rw fixed_count (ok_at fixed (index_bytes types ++ rest) (omega arith)),
        rw fixed_count (omega arith),
        λ h. cc,
        λ h. refl,
      )
    ]

    -- The result types that were written for an operation are read back, those too that the version
    -- does not have, with the number of those that were written. The types are in the table, fewer
    -- than 2^32 - 1, and as many as the definition has results, if it is not variadic; where some
    -- result came after the operation, there is a type for each result, and one that the version
    -- does not have is of the type that its constraint builds.
    pub read_results-result_bytes :
        (types values ts : List ℕ) (o : ℕ) (rest : List ℕ)
        → ResultsOk p d types values
        → serialized_types p d types values ≡ ok ts
        → read_results p d (at o (result_bytes d ts ++ rest))
          ≡ ok (types, length ts, at (o + length (result_bytes d ts)) rest)
    unfolding read_results serialized_types
    read_results-result_bytes types values ts o rest h e =
        elim (Bool-cases (any_versioned d d.results)) [
          | inl versioned ↦
              let written = rw versioned at e in
              let o₁ : ℕ = o + length (result_bytes d ts) - length (index_bytes ts) in
              let (read, few) =
                read_versioned-compatible_types d.results types values ts o₁ rest h.types_ok
                  (h.built versioned) written in
              let (n, count, le, variadic, fixed) =
                read_result_count-bytes 0 o ts rest (omega arith) in
              rw (versioned, count, read, count_matches d.is_variadic n (length ts) variadic)
                (counted_at types (length ts) rest (omega arith))
          | inr simple ↦
              let all : types ≡ ts = ok-injective (rw simple at e) in
              let o₁ : ℕ = o + length (result_bytes d types) - length (index_bytes types) in
              let (n, count, le, variadic, fixed) =
                read_result_count-bytes (length d.results) o types rest h.few_results in
              let number : n ≡ length types =
                count_known d.is_variadic n (length types) (length d.results) variadic fixed
                  (h.counted simple) in
              rw
                (
                  ← all,
                  simple,
                  count,
                  number,
                  read_result_types-index_bytes types o₁ rest h.types_ok,
                )
                (counted_at types (length types) rest (omega arith))
        ]
