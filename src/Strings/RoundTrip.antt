-- ===== src/Strings/RoundTrip.antt =====
-- A string that is read through its index is the string that the index was given for.
use cuda_tile.Table.Entries.{bytes_before, bytes_before-suc, slice-entry, offset-entry, end-entry}
use cuda_tile.Base.{
  ℕ, suc, ◌+◌, ◌-◌, ◌*◌, ◌/◌, ◌%◌, ◌^◌, ◌≤◌, ◌<◌, ◌≡◌, ap, ◌∙◌, arith, inl, inr, List, [], ◌∷◌,
  ◌++◌, length, length-append, length-map, append_assoc, concat, get_elem?, some, leb-true,
  ltb-true, ==_false, padding,
}
use cuda_tile.Base.{ok}
use cuda_tile.Encoding.Writer.{var_int, le_array}
use cuda_tile.Encoding.Reader.{at, StringTable, string_end, string_from, get_string}
use cuda_tile.Encoding.VarInt.{read_var_int-start}
use cuda_tile.Encoding.Fixed.{skip-append, length-le_array}
use cuda_tile.Encoding.Align.{pad, skip_padding-pad}
use cuda_tile.Table.{write_table, le_groups}
use cuda_tile.Table.Layout.{
  offsets_from, length-offsets_from, offsets_from-lt, le_groups-le_array, write_table-stream,
}
use cuda_tile.MapVector.Laws.{keys}
use cuda_tile.Strings.{StringManager, string_section, parse_string_section, parse_strings}
use native.Mathlib.Numerals.{add-one}
use native.Mathlib.Nat.{zero-add, mod-eq_of_lt}

-- The string table of a list of strings.
abbrev pub table_of : List (List ℕ) → StringTable
table_of strings = record {
  string_data = concat strings;
  string_offsets = offsets_from 4 0 strings;
}

parse_strings-table :
    (strings : List (List ℕ)) (o : ℕ)
    → 1 ≤ length strings
    → parse_strings
        (length strings)
        (at o (pad o 4 ++ (le_array 4 (offsets_from 4 0 strings) ++ concat strings)))
      ≡ ok (table_of strings)
unfolding parse_strings
parse_strings-table strings o some_string =
    let n : ℕ = length strings in
    let offsets : List ℕ = offsets_from 4 0 strings in
    let array : List ℕ = le_array 4 offsets in
    let count : length array ≡ 4 * n =
      length-le_array 4 offsets ∙ ap (λ (k : ℕ). 4 * k) (length-offsets_from 4 0 strings) in
    let behind : length (array ++ concat strings) ≡ 4 * n + length (concat strings) =
      length-append array (concat strings) ∙ omega arith in
    let whole : length (pad o 4 ++ (array ++ concat strings))
        ≡ length (pad o 4) + (4 * n + length (concat strings)) =
      length-append (pad o 4) (array ++ concat strings) ∙ omega arith in
    let bytes : n * 4 ≡ length array = omega arith in
    let read : le_groups 4 n (array ++ concat strings) ≡ offsets = rw length-offsets_from at (
      le_groups-le_array 4 offsets (concat strings)
        (offsets_from-lt 4 0 strings (omega arith) (omega arith))) in
    rw (
      leb-true n (length (pad o 4 ++ (array ++ concat strings)) / 4) (omega arith),
      skip_padding-pad 4 o (array ++ concat strings) (omega arith) (omega arith),
      ltb-true 0 (length (array ++ concat strings)) (omega arith),
      bytes,
      skip-append (o + padding o 4) array (concat strings),
      read,
    )

pub parse_string_section-table :
    (strings : List (List ℕ))
    → length strings < 2 ^ 64
    → parse_string_section (write_table 4 strings).stream ≡ ok (table_of strings)
unfolding parse_string_section
parse_string_section-table [] small =
    rw (write_table-stream 4 [] (omega arith), append_assoc, read_var_int-start 0 _ small)
parse_string_section-table (s ∷ ss) small =
    rw
      (
        write_table-stream 4 (s ∷ ss) (omega arith),
        append_assoc,
        read_var_int-start (length (s ∷ ss)) _ small,
        ==_false (length (s ∷ ss)) 0 (omega arith),
        zero-add (length (var_int (length (s ∷ ss)))),
      )
      (parse_strings-table (s ∷ ss) (length (var_int (length (s ∷ ss)))) (omega arith))

-- The end that `getString` computes is the end of the string.
string_end-table :
    (strings : List (List ℕ)) (i : ℕ) (s : List ℕ)
    → length (concat strings) < 2 ^ 32
    → get_elem? strings i ≡ some s
    → string_end (table_of strings) (get_elem? (offsets_from 4 0 strings) (suc i))
      ≡ bytes_before strings i + length s
unfolding string_end
string_end-table strings i s fits is_s = elim (end-entry 4 strings i 0 s is_s (omega arith)) [
  | inl next ↦ rw next (omega arith)
  | inr (last, whole) ↦ rw (last, mod-eq_of_lt fits) (omega arith)
]

get_string-table :
    (strings : List (List ℕ)) (i : ℕ) (s : List ℕ)
    → length (concat strings) < 2 ^ 32
    → get_elem? strings i ≡ some s
    → get_string (table_of strings) i ≡ ok s
unfolding get_string
get_string-table strings i s fits is_s =
    let (next, within) = bytes_before-suc strings i s is_s in
    let before : ℕ = bytes_before strings i in
    let difference : (before + length s + 2 ^ 32 - before) % 2 ^ 32 ≡ length s = omega arith in
    let at_zero : 0 + before ≡ before = omega arith in
    rw
      (
        add-one i,
        offset-entry 4 strings i 0 s is_s (omega arith),
        string_end-table strings i s fits is_s,
      )
      (rw (string_from, at_zero, difference) (ap ok (slice-entry strings i s is_s)))

-- What was written is read back: for less than 2^64 strings, of less than 2^32 bytes together, the
-- section parses, and `getString` of an index gives the string at that position.
pub get_string-string_section :
    (m : StringManager) (i : ℕ) (s : List ℕ)
    → length m < 2 ^ 64
    → length (concat (keys m)) < 2 ^ 32
    → get_elem? (keys m) i ≡ some s
    → (t : StringTable) × (parse_string_section (string_section m).stream ≡ ok t)
      × (get_string t i ≡ ok s)
unfolding string_section
get_string-string_section m i s small fits is_s = (
  table_of (keys m),
  parse_string_section-table (keys m) (rw length-map small),
  get_string-table (keys m) i s fits is_s,
)
