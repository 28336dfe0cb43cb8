-- ===== src/Constants.antt =====
-- The constant section: `ConstantManager` of lib/Bytecode/Writer/BytecodeWriter.cpp and
-- `parseConstantSection` of lib/Bytecode/Reader/BytecodeReader.cpp. `serialize` stands for
-- `serializeAttribute`, whose attributes are MLIR's; an equal attribute is the same attribute.
pub mod Slices
pub mod RoundTrip
use cuda_tile.Base.{ℕ, zero, suc, ◌+◌, ◌-◌, ◌*◌, ◌/◌, ◌%◌, ◌^◌, List, [], ◌∷◌, ◌++◌, length, map}
use cuda_tile.Base.{take, drop, ltb, ◌==◌, if◌then◌else◌, Bool, true, false, not, ◌||◌}
use cuda_tile.Base.{Outcome, ok, err, ◌>>=◌, ◌>>◌, guard, silent, Option, none, some}
use cuda_tile.Base.{empty_constant, constant_indices, constant_order, constant_bounds}
use cuda_tile.Encoding.Writer.{Writer}
use cuda_tile.Encoding.Reader.{Cursor, start, read_var_int_max, skip_padding, skip, remaining}
use cuda_tile.MapVector.{Eq}
use cuda_tile.Section.Ids
use cuda_tile.Section.Header.{write_section}
use cuda_tile.Table.{write_table, le_groups}

module _ {ℓ} {A : Type ℓ} ⦃e : Eq A⦄ where
  -- `std::distance(constantsMap.begin(), it)`, if the attribute is in the map.
  unfoldable pub position : A → ℕ → List (A × List ℕ) → Option ℕ
  position attr i [] = none
  position attr i ((a, blob) ∷ m) = if e.same_key a attr then some i else position attr (suc i) m

  unfoldable pub enter_constant :
      A → List (A × List ℕ) → Option ℕ → Outcome (List ℕ) → Outcome (ℕ × List (A × List ℕ))
  enter_constant attr m (some i) blob = ok (i, m)
  enter_constant attr m none (ok blob) = ok (length m, m ++ (attr, blob) ∷ [])
  enter_constant attr m none (err e) = err silent

  unfoldable pub add_constant :
      (A → Outcome (List ℕ)) → A → List (A × List ℕ) → Outcome (ℕ × List (A × List ℕ))
  add_constant serialize attr m = enter_constant attr m (position attr 0 m) (serialize attr)

  unfoldable pub get_constant_index : A → List (A × List ℕ) → Outcome ℕ
  get_constant_index attr m = elim (position attr 0 m) [ some i ↦ ok i | none ↦ err silent ]

unfoldable pub is_empty : List ℕ → Bool
is_empty [] = true
is_empty (b ∷ bytes) = false

unfoldable pub any_empty : List (List ℕ) → Bool
any_empty [] = false
any_empty (blob ∷ rest) = is_empty blob || any_empty rest

-- The buffer of `writeConstantSection`, for a map that is not empty: offsets are `uint64_t`, and an
-- entry that is empty stops the loop over the map.
unfoldable pub constant_section : List (List ℕ) → Outcome Writer
constant_section constants =
    if any_empty constants then err empty_constant else ok (write_table 8 constants)

unfoldable pub write_constant_section : List (List ℕ) → List ℕ → Outcome (List ℕ)
write_constant_section [] stream = ok stream
write_constant_section (c ∷ cs) stream = do
  buffer ← constant_section (c ∷ cs)
  ok (write_section Ids.constant buffer stream)

-- `(i + 1 < numConstants) ? constantStartIndices[i + 1] : constantData.size()`
unfoldable pub next_start : List ℕ → List ℕ → ℕ
next_start blob [] = length blob
next_start blob (next ∷ rest) = next

-- The loop of `parseConstantSection` over the start indices.
unfoldable pub constant_slices : List ℕ → List ℕ → Outcome (List (List ℕ))
constant_slices blob [] = ok []
constant_slices blob (first ∷ rest) =
    let last = next_start blob rest in
    guard (not (ltb last first)) constant_order
    >> (guard (not (ltb (length blob) ((last - first + first) % 2 ^ 64))) constant_bounds
        >> (constant_slices blob rest >>= λ slices.
            ok (take (last - first) (drop first blob) ∷ slices)))

-- The part of `parseConstantSection` for at least one constant.
unfoldable pub parse_constants : ℕ → Cursor → Outcome (List (List ℕ))
parse_constants num_constants c = skip_padding 8 c >>= λ c₁.
    guard (not (ltb (remaining c₁ / 8) num_constants)) constant_indices
    >> (guard (ltb 0 (remaining c₁)) silent
        >> (skip (num_constants * 8) c₁ >>= λ c₂.
            constant_slices c₂.rest (le_groups 8 num_constants c₁.rest)))

unfoldable pub parse_constant_section : List ℕ → Outcome (List (List ℕ))
parse_constant_section payload = do
  (num_constants, c) ← read_var_int_max (2 ^ 32 - 1 - 1) (start payload)
  if num_constants == 0 then ok [] else parse_constants num_constants c
