-- ===== src/Types/RoundTrip.antt =====
-- A type that is looked up in the section gives the bytes that were written for it.
use cuda_tile.Table.Entries.{bytes_before, bytes_before-suc, slice-entry, offset-entry, end-entry}
use cuda_tile.Base.{
  ℕ, suc, ◌+◌, ◌%◌, ◌-◌, ◌*◌, ◌/◌, ◌^◌, ◌≤◌, ◌<◌, ◌≡◌, ap, ◌∙◌, arith, inl, inr, List, [], ◌∷◌,
  ◌++◌, length, length-append, append_assoc, concat, get_elem?, some, leb-true, ltb-true, ltb-false,
  ==_false, padding,
}
use cuda_tile.Base.{ok}
use cuda_tile.Encoding.Writer.{var_int, le_array}
use cuda_tile.Encoding.Reader.{at}
use cuda_tile.Encoding.VarInt.{read_var_int-start}
use cuda_tile.Encoding.Fixed.{skip-append, length-le_array}
use cuda_tile.Encoding.Align.{pad, skip_padding-pad}
use cuda_tile.Table.{write_table, le_groups}
use cuda_tile.Table.Layout.{
  offsets_from, length-offsets_from, offsets_from-lt, le_groups-le_array, write_table-stream,
}
use cuda_tile.Types.{
  TypeTable, type_section, parse_type_section, parse_types, type_end, type_at, type_from,
  get_type_bytes,
}
use native.Mathlib.Numerals.{add-one}
use native.Mathlib.Nat.{zero-add, mod-eq_of_lt}

-- The string table of a list of types.
abbrev pub types_of : List (List ℕ) → TypeTable
types_of types = record { payload = concat types; type_start_indices = offsets_from 4 0 types }

parse_types-table :
    (types : List (List ℕ)) (o : ℕ)
    → 1 ≤ length types
    → parse_types
        (length types)
        (at o (pad o 4 ++ (le_array 4 (offsets_from 4 0 types) ++ concat types)))
      ≡ ok (types_of types)
unfolding parse_types
parse_types-table types o some_type =
    let n : ℕ = length types in
    let offsets : List ℕ = offsets_from 4 0 types in
    let array : List ℕ = le_array 4 offsets in
    let count : length array ≡ 4 * n =
      length-le_array 4 offsets ∙ ap (λ (k : ℕ). 4 * k) (length-offsets_from 4 0 types) in
    let behind : length (array ++ concat types) ≡ 4 * n + length (concat types) =
      length-append array (concat types) ∙ omega arith in
    let whole : length (pad o 4 ++ (array ++ concat types))
        ≡ length (pad o 4) + (4 * n + length (concat types)) =
      length-append (pad o 4) (array ++ concat types) ∙ omega arith in
    let bytes : n * 4 ≡ length array = omega arith in
    let read : le_groups 4 n (array ++ concat types) ≡ offsets = rw length-offsets_from at (
      le_groups-le_array 4 offsets (concat types)
        (offsets_from-lt 4 0 types (omega arith) (omega arith))) in
    rw (
      leb-true n (length (pad o 4 ++ (array ++ concat types)) / 4) (omega arith),
      skip_padding-pad 4 o (array ++ concat types) (omega arith) (omega arith),
      ltb-true 0 (length (array ++ concat types)) (omega arith),
      bytes,
      skip-append (o + padding o 4) array (concat types),
      read,
    )

pub parse_type_section-table :
    (types : List (List ℕ))
    → length types < 2 ^ 64
    → parse_type_section (write_table 4 types).stream ≡ ok (types_of types)
unfolding parse_type_section
parse_type_section-table [] small =
    rw (write_table-stream 4 [] (omega arith), append_assoc, read_var_int-start 0 _ small)
parse_type_section-table (s ∷ ss) small =
    rw
      (
        write_table-stream 4 (s ∷ ss) (omega arith),
        append_assoc,
        read_var_int-start (length (s ∷ ss)) _ small,
        ==_false (length (s ∷ ss)) 0 (omega arith),
        zero-add (length (var_int (length (s ∷ ss)))),
      )
      (parse_types-table (s ∷ ss) (length (var_int (length (s ∷ ss)))) (omega arith))

-- The end that `getType` computes is the end of the type.
type_end-table :
    (types : List (List ℕ)) (i : ℕ) (s : List ℕ)
    → length (concat types) < 2 ^ 32
    → get_elem? types i ≡ some s
    → type_end (types_of types) (get_elem? (offsets_from 4 0 types) (suc i))
      ≡ bytes_before types i + length s
unfolding type_end
type_end-table types i s fits is_s = elim (end-entry 4 types i 0 s is_s (omega arith)) [
  | inl next ↦ rw next (omega arith)
  | inr (last, whole) ↦ rw (last, mod-eq_of_lt fits) (omega arith)
]

-- For less than 2^64 types, of less than 2^32 bytes together, the section parses, and what `getType`
-- hands to the parser of types, for a type that was written with its tag, is the low
-- byte of the tag and the bytes behind it.
pub get_type_bytes-type_section :
    (types : List (List ℕ)) (i tag : ℕ) (payload : List ℕ)
    → length types < 2 ^ 64
    → length (concat types) < 2 ^ 32
    → tag < 2 ^ 64
    → get_elem? types i ≡ some (var_int tag ++ payload)
    → (t : TypeTable) × (parse_type_section (type_section types).stream ≡ ok t)
      × (get_type_bytes t i ≡ ok (tag % 256, payload))
unfolding type_section get_type_bytes type_from type_at
get_type_bytes-type_section types i tag payload small fits tag_fits is_type =
    let bytes : List ℕ = var_int tag ++ payload in
    let (next, within) = bytes_before-suc types i bytes is_type in
    let before : ℕ = bytes_before types i in
    let size : before + length bytes - before ≡ length bytes = omega arith in
    let at_zero : 0 + before ≡ before = omega arith in
    (
      types_of types,
      parse_type_section-table types small,
      rw (
        add-one i,
        offset-entry 4 types i 0 bytes is_type (omega arith),
        type_end-table types i bytes fits is_type,
        at_zero,
        ltb-false (before + length bytes) before (omega arith),
        ltb-false (length (concat types)) (before + length bytes) (omega arith),
        size,
        slice-entry types i bytes is_type,
        read_var_int-start tag payload tag_fits,
      ),
    )
