-- ===== src/Constants/RoundTrip.antt =====
-- What the constant section holds is read back.
use cuda_tile.Base.{
  ℕ, ◌+◌, ◌-◌, ◌*◌, ◌/◌, ◌%◌, ◌^◌, ◌≤◌, ◌<◌, ◌≡◌, refl, sym, ap, ◌∙◌, arith, false, List, [], ◌∷◌,
  ◌++◌, length, length-append, append_assoc, take-length, drop-length, concat, ltb-true, ltb-false,
  All, ==_false, padding, ok,
}
use cuda_tile.Encoding.Writer.{Writer, var_int, le_array}
use cuda_tile.Encoding.Reader.{at}
use cuda_tile.Encoding.VarInt.{read_var_int_max-var_int}
use cuda_tile.Encoding.Fixed.{skip-append, length-le_array}
use cuda_tile.Encoding.Align.{pad, skip_padding-pad}
use cuda_tile.Table.{write_table, le_groups}
use cuda_tile.Table.Layout.{
  offsets_from, length-offsets_from, offsets_from-lt, le_groups-le_array, write_table-stream,
}
use native.Mathlib.Nat.{zero-add, mod-eq_of_lt}
use cuda_tile.Constants.{
  any_empty, is_empty, constant_section, next_start, constant_slices, parse_constants,
  parse_constant_section,
}

any_empty-false :
    (constants : List (List ℕ)) → All (λ c. 0 < length c) constants → any_empty constants ≡ false
unfolding any_empty is_empty
any_empty-false [] h = refl
any_empty-false ([] ∷ cs) (h, hs) = absurd (omega arith)
any_empty-false ((b ∷ c) ∷ cs) (h, hs) = any_empty-false cs hs

-- The end of a constant is where the next one begins, also for the last one.
next_start-offsets :
    (front : List ℕ) (constants : List (List ℕ))
    → length front + length (concat constants) < 2 ^ 64
    → next_start (front ++ concat constants) (offsets_from 8 (length front) constants)
      ≡ length front
unfolding next_start
next_start-offsets front [] fits = length-append front [] ∙ omega arith
next_start-offsets front (c ∷ cs) fits = refl

slices-offsets :
    (front : List ℕ) (constants : List (List ℕ))
    → length front + length (concat constants) < 2 ^ 64
    → constant_slices (front ++ concat constants) (offsets_from 8 (length front) constants)
      ≡ ok constants
unfolding constant_slices
slices-offsets front [] fits = refl
slices-offsets front (c ∷ cs) fits =
    let behind : length front + length c + length (concat cs) < 2 ^ 64 =
      omega (arith, length-append c (concat cs)) in
    let here : length (front ++ c) ≡ length front + length c = length-append front c in
    let all : length (front ++ (c ++ concat cs)) ≡ length front + (length c + length (concat cs)) =
      length-append front (c ++ concat cs)
      ∙ ap (λ (n : ℕ). length front + n) (length-append c (concat cs)) in
    let kept : (length front + length c) % 256 ^ 8 ≡ length (front ++ c) =
      mod-eq_of_lt (omega arith) ∙ sym here in
    let others : constant_slices (front ++ (c ++ concat cs))
          (offsets_from 8 (length (front ++ c)) cs)
        ≡ ok cs =
      rw append_assoc at (slices-offsets (front ++ c) cs (omega arith)) in
    let end : next_start (front ++ (c ++ concat cs)) (offsets_from 8 (length (front ++ c)) cs)
        ≡ length (front ++ c) =
      rw append_assoc at (next_start-offsets (front ++ c) cs (omega arith)) in
    let size : length (front ++ c) - length front ≡ length c = omega arith in
    let sum : (length c + length front) % 2 ^ 64 ≡ length front + length c =
      ap (λ (n : ℕ). n % 2 ^ 64) (omega arith) ∙ mod-eq_of_lt (omega arith) in
    rw (
      kept,
      end,
      others,
      ltb-false (length (front ++ c)) (length front) (omega arith),
      size,
      sum,
      ltb-false (length (front ++ (c ++ concat cs))) (length front + length c) (omega arith),
      drop-length front (c ++ concat cs),
      take-length c (concat cs),
    )

parse_constants-table :
    (constants : List (List ℕ)) (o : ℕ)
    → 1 ≤ length constants
    → length (concat constants) < 2 ^ 64
    → parse_constants
        (length constants)
        (at o (pad o 8 ++ (le_array 8 (offsets_from 8 0 constants) ++ concat constants)))
      ≡ ok constants
unfolding parse_constants
parse_constants-table constants o some_constant fits =
    let n : ℕ = length constants in
    let offsets : List ℕ = offsets_from 8 0 constants in
    let array : List ℕ = le_array 8 offsets in
    let count : length array ≡ 8 * n =
      length-le_array 8 offsets ∙ ap (λ (k : ℕ). 8 * k) (length-offsets_from 8 0 constants) in
    let behind : length (array ++ concat constants) ≡ 8 * n + length (concat constants) =
      length-append array (concat constants) ∙ omega arith in
    let whole : length (pad o 8 ++ (array ++ concat constants))
        ≡ length (pad o 8) + (8 * n + length (concat constants)) =
      length-append (pad o 8) (array ++ concat constants) ∙ omega arith in
    let bytes : n * 8 ≡ length array = omega arith in
    let read : le_groups 8 n (array ++ concat constants) ≡ offsets = rw length-offsets_from at (
      le_groups-le_array 8 offsets (concat constants)
        (offsets_from-lt 8 0 constants (omega arith) (omega arith))) in
    rw (
      skip_padding-pad 8 o (array ++ concat constants) (omega arith) (omega arith),
      ltb-false (length (array ++ concat constants) / 8) n (omega arith),
      ltb-true 0 (length (array ++ concat constants)) (omega arith),
      bytes,
      skip-append (o + padding o 8) array (concat constants),
      read,
      slices-offsets [] constants (omega arith),
    )

-- For less than 2^32 - 1 constants, of less than 2^64 bytes together and none of them empty, the
-- section is written, and the reader finds the same constants in the same order.
pub parse_constant_section-constant_section :
    (constants : List (List ℕ))
    → length constants < 2 ^ 32 - 1
    → length (concat constants) < 2 ^ 64
    → All (λ c. 0 < length c) constants
    → (buffer : Writer) × (constant_section constants ≡ ok buffer)
      × (parse_constant_section buffer.stream ≡ ok constants)
unfolding constant_section parse_constant_section
parse_constant_section-constant_section [] small fits filled = (
  write_table 8 [],
  rw (any_empty-false [] filled),
  rw (
    write_table-stream 8 [] (omega arith),
    append_assoc,
    read_var_int_max-var_int (2 ^ 32 - 1 - 1) 0 0 _ (omega arith) (omega arith),
  ),
)
parse_constant_section-constant_section (c ∷ cs) small fits filled =
    let n : ℕ = length (c ∷ cs) in
    (
      write_table 8 (c ∷ cs),
      rw (any_empty-false (c ∷ cs) filled),
      rw
          (
            write_table-stream 8 (c ∷ cs) (omega arith),
            append_assoc,
            read_var_int_max-var_int (2 ^ 32 - 1 - 1) n 0 _ (omega arith) (omega arith),
            zero-add (length (var_int n)),
            ==_false n 0 (omega arith),
          )
          (parse_constants-table (c ∷ cs) (length (var_int n)) (omega arith) fits),
    )
