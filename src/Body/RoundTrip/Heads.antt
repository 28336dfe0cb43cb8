-- ===== src/Body/RoundTrip/Heads.antt =====
-- An operation whose parts are read back.
use cuda_tile.Base.{
  ℕ, zero, refl, [], suc, ◌+◌, ◌-◌, ◌%◌, ◌^◌, ◌≤◌, ◌<◌, ◌≡◌, ap, sym, ◌∙◌, true, ◌==◌, List, ◌∷◌,
  ◌++◌, length, take, All-map, concat, Bool-cases, inl, inr, ==_true, ==_false, arith, Outcome, ok,
}
use cuda_tile.Encoding.Writer.{var_int}
use cuda_tile.Encoding.Reader.{Cursor, at}
use cuda_tile.Encoding.VarInt.{read_var_int-var_int, read_var_int_max-var_int}
use cuda_tile.Body.Schema.{OpDef, Head, operation, Regions, Pools}
use cuda_tile.Body.Write.{Scope, write_head, region_count, count_regions}
use cuda_tile.Body.Read.{
  Parser, new_values, read_region_count, parse_regions, create_operation, parse_operation,
  next_location,
}
use cuda_tile.Body.RoundTrip.HeadTrip.{parse_head-write_head}
use cuda_tile.Body.RoundTrip.Numbering.{noted, HeadFits}
use cuda_tile.Body.RoundTrip.Scopes.{Agree, in_scope-HasIndex}

abbrev pub parser : Cursor → List ℕ → ℕ → List ℕ → Parser
parser c values next locations = record {
  cursor = c;
  value_index_list = values;
  next_value = next;
  di_locations = locations;
}

abbrev pub parsed {ℓ} : {A : Type ℓ} → A → ℕ → List ℕ → List ℕ → ℕ → List ℕ → Outcome (A × Parser)
parsed a o rest values next locations = ok (a, parser (at o rest) values next locations)

pub parsed_at {ℓ} :
    {A : Type ℓ} (a : A) (rest values : List ℕ) (locations : List ℕ) {o o' next next' : ℕ}
    → o ≡ o'
    → next ≡ next'
    → parsed a o rest values next locations ≡ parsed a o' rest values next' locations
parsed_at a rest values locations e e' = λ i. parsed a (e i) rest values (e' i) locations

cursor_at :
    (rest : List ℕ) {o o' : ℕ}
    → o ≡ o'
    → ◌≡◌ {A = Outcome Cursor} (ok (at o rest)) (ok (at o' rest))
cursor_at rest e = λ i. ok (at (e i) rest)

read_region_count-region_count :
    (d : OpDef) (n o : ℕ) (rest : List ℕ)
    → n ≡ d.num_regions
    → n < 2 ^ 32 - 1
    → read_region_count d (at o (region_count d n ++ rest))
      ≡ ok (at (o + length (region_count d n)) rest)
unfolding read_region_count region_count
read_region_count-region_count d n o rest q few = elim (Bool-cases (d.num_regions == 0)) [
  | inl none ↦ rw none (cursor_at rest (omega arith))
  | inr some_regions ↦ rw (
    some_regions,
    read_var_int_max-var_int (2 ^ 32 - 1 - 1) n o rest (omega arith) (omega arith),
    ==_true n d.num_regions q,
  )
]

next_location-noted :
    (op_index location : ℕ) (locations : List ℕ)
    → (op_index ≡ 0 → location ≡ 0)
    → next_location op_index (noted op_index location ++ locations) ≡ ok (location, locations)
unfolding next_location noted
next_location-noted zero location [] h = rw (h refl) refl
next_location-noted zero location (l ∷ locations) h = rw (h refl) refl
next_location-noted (suc op_index) location locations h =
    rw (==_false (suc op_index) 0 (λ e. absurd (omega arith))) refl

module _ (p : Pools) (defs : List OpDef) (fuel : ℕ) (h : Head) (rs : Regions) (inner : ℕ)
    (values : List ℕ) (next : ℕ) (s : Scope)
    (fits : HeadFits p defs values (next + inner) h (count_regions rs))
    (agree : Agree s values next) (few : length values ≤ 2 ^ 64)
    (available : p.available h.definition.opcode ≡ true) where
  pub operation_step :
      (head regions : List ℕ) (n o : ℕ) (rest locations locations' : List ℕ)
      → write_head p h s.value_index_map ≡ ok (head, n)
      → parse_regions p (parse_operation p defs fuel) (count_regions rs) (
          parser
            (at
              (o
                + length (var_int h.definition.opcode)
                + length head
                + length (region_count h.definition (count_regions rs)))
              (regions ++ rest))
            values
            next
            locations)
        ≡ parsed rs
            (o
              + length (var_int h.definition.opcode)
              + length head
              + length (region_count h.definition (count_regions rs))
              + length regions)
            rest
            values
            (next + inner)
            locations'
      → parse_operation p defs (suc fuel) (
          parser
            (at o (
              var_int h.definition.opcode
              ++ (head ++ (region_count h.definition (count_regions rs) ++ (regions ++ rest)))))
            values
            next
            (noted p.function_loc_index h.location ++ locations))
        ≡ parsed
            (operation h rs)
            (o
              + length (var_int h.definition.opcode)
              + length head
              + length (region_count h.definition (count_regions rs))
              + length regions)
            rest
            (values ++ take n h.result_values)
            (next + inner + length h.result_types)
            locations'
  unfolding parse_operation create_operation
  operation_step head regions n o rest locations locations' e sub =
      let d : OpDef = h.definition in
      let opcode : ℕ = h.definition.opcode in
      let counted : List ℕ = region_count d (count_regions rs) in
      let o₁ : ℕ = o + length (var_int opcode) in
      let o₂ : ℕ = o₁ + length head in
      let small : opcode % 2 ^ 32 ≡ opcode = omega (arith, fits.small_opcode) in
      let indices =
        All-map (concat h.operand_groups) (λ x k. in_scope-HasIndex s values next x agree few k)
          fits.in_scope in
      let o₃ : ℕ = o₂ + length counted in
      let start : Parser = parser (at o₃ (regions ++ rest)) values next locations in
      let results : new_values (next + inner) (length h.result_types) ≡ h.result_values =
        sym fits.new_results in
      let sub' : parse_regions p (parse_operation p defs fuel) d.num_regions start
          ≡ parsed rs (o₃ + length regions) rest values (next + inner) locations' =
        ap (λ (k : ℕ). parse_regions p (parse_operation p defs fuel) k start) (sym fits.all_regions)
        ∙ sub in
      rw
        (
          read_var_int-var_int opcode o (head ++ (counted ++ (regions ++ rest)))
              (omega (arith, fits.small_opcode)),
          small,
          available,
          next_location-noted p.function_loc_index h.location locations fits.kept_location,
          fits.defined,
          parse_head-write_head p h s.value_index_map values head n o₁
              (counted ++ (regions ++ rest)) fits.head_ok indices e,
          read_region_count-region_count d (count_regions rs) o₂ (regions ++ rest) fits.all_regions
              fits.few_regions,
          sub',
        )
        (λ i. ok (
          operation (record h { result_values = results i }) rs,
          parser (at (o₃ + length regions) rest) (values ++ take n (results i))
              (next + inner + length h.result_types) locations',
        ))
