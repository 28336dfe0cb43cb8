-- ===== src/Debug/RoundTrip.antt =====
-- The debug section that is written is parsed.
use cuda_tile.Debug.Arrays.{parse_debug_section-arrays}
use cuda_tile.Base.{
  ℕ, ◌+◌, ◌%◌, ◌^◌, ◌<◌, ◌≡◌, refl, ◌∙◌, arith, List, [], ◌∷◌, ◌++◌, length, length-append,
  append_assoc, append-nil, concat, All, ok,
}
use cuda_tile.Encoding.Writer.{
  Writer, write, write_var_int, write_le, new_writer, align_to, le_bytes, le_array, var_int,
}
use cuda_tile.Encoding.Align.{align_to-stream}
use cuda_tile.Table.Layout.{
  offsets_from, length-offsets_from, offsets_from-lt, write_table_at-stream, table_front,
}
use native.Mathlib.Nat.{zero-add, mod-eq_of_lt}
use cuda_tile.Debug.{write_index_offsets, write_indices, debug_section_buffer, parse_debug_section}

-- What the loop over the operations ends with.
abbrev last_offset : ℕ → List (List ℕ) → ℕ
last_offset offset [] = offset
last_offset offset (indices ∷ rest) = last_offset ((offset + length indices) % 2 ^ 32) rest

write_index_offsets-eq :
    (offset : ℕ) (indices : List (List ℕ)) (w : Writer)
    → write_index_offsets offset indices w
      ≡ (last_offset offset indices, write (le_array 4 (offsets_from 4 offset indices)) w)
unfolding write_index_offsets le_array
write_index_offsets-eq offset [] w = rw (append-nil w.stream)
write_index_offsets-eq offset (is ∷ rest) w =
    write_index_offsets-eq ((offset + length is) % 2 ^ 32) rest (write_le 4 offset w)
    ∙ rw (append_assoc w.stream (le_bytes 4 offset) _)

le_array-append :
    (size : ℕ) (xs ys : List ℕ) → le_array size (xs ++ ys) ≡ le_array size xs ++ le_array size ys
unfolding le_array
le_array-append size [] ys = refl
le_array-append size (x ∷ xs) ys = rw (le_array-append size xs ys, append_assoc)

write_indices-eq :
    (indices : List (List ℕ)) (w : Writer)
    → write_indices indices w ≡ write (le_array 8 (concat indices)) w
unfolding write_indices le_array
write_indices-eq [] w = rw (append-nil w.stream)
write_indices-eq (is ∷ rest) w =
    write_indices-eq rest (write (le_array 8 is) w)
    ∙ rw (append_assoc w.stream (le_array 8 is) _, le_array-append 8 is (concat rest))

last_offset-concat :
    (offset : ℕ) (indices : List (List ℕ))
    → offset + length (concat indices) < 2 ^ 32
    → last_offset offset indices ≡ offset + length (concat indices)
last_offset-concat offset [] h = omega arith
last_offset-concat offset (is ∷ rest) h =
    let whole : length (is ++ concat rest) ≡ length is + length (concat rest) =
      length-append is (concat rest) in
    let kept : (offset + length is) % 2 ^ 32 ≡ offset + length is = mod-eq_of_lt (omega arith) in
    rw kept (last_offset-concat (offset + length is) rest (omega arith) ∙ omega arith)

-- The bytes up to the attributes.
abbrev pub debug_front : List (List ℕ) → List ℕ
debug_front indices =
    let front : List ℕ =
      table_front 4 (length indices) 0 ++ le_array 4 (offsets_from 4 0 indices) in
    front ++ (table_front 8 (length (concat indices)) (length front) ++ le_array 8 (concat indices))

debug_section_buffer-stream :
    (indices serialized : List (List ℕ))
    → length (concat indices) < 2 ^ 32
    → (debug_section_buffer indices serialized).stream
      ≡ debug_front indices
        ++ (table_front 4 (length serialized) (length (debug_front indices))
            ++ (le_array 4 (offsets_from 4 0 serialized) ++ concat serialized))
unfolding debug_section_buffer
debug_section_buffer-stream indices serialized fits =
    let n : ℕ = length indices in
    let w₁ : Writer = align_to 4 (write_var_int n (new_writer [])) in
    let front : List ℕ = table_front 4 n 0 ++ le_array 4 (offsets_from 4 0 indices) in
    let w₂ : Writer = write (le_array 4 (offsets_from 4 0 indices)) w₁ in
    let w₃ : Writer = align_to 8 (write_var_int (length (concat indices)) w₂) in
    let first : w₁.stream ≡ table_front 4 n 0 =
      rw (zero-add (length (var_int n)))
        (align_to-stream 4 (write_var_int n (new_writer [])) (omega arith)) in
    let second : w₃.stream ≡ front ++ table_front 8 (length (concat indices)) (length front) =
      align_to-stream 8 (write_var_int (length (concat indices)) w₂) (omega arith)
      ∙ rw (first, length-append front (var_int (length (concat indices))), append_assoc front) in
    rw (
      write_index_offsets-eq 0 indices w₁,
      last_offset-concat 0 indices (omega arith),
      zero-add (length (concat indices)),
      write_indices-eq indices w₃,
      write_table_at-stream 4 serialized (write (le_array 8 (concat indices)) w₃) (omega arith),
      second,
      append_assoc front,
    )

-- For at least one attribute and less than 2^32 indices, the section parses, and gives back the
-- indices, where those of each operation begin, the data and where each attribute begins.
pub parse_debug_section-debug_section_buffer :
    (indices serialized : List (List ℕ))
    → length indices < 2 ^ 64
    → length (concat indices) < 2 ^ 32
    → All (λ v. v < 256 ^ 8) (concat indices)
    → 0 < length serialized
    → length serialized < 2 ^ 64
    → parse_debug_section (debug_section_buffer indices serialized).stream
      ≡ ok (record {
        di_indices = concat indices;
        di_index_offsets = offsets_from 4 0 indices;
        di_data = concat serialized;
        di_offsets = offsets_from 4 0 serialized;
      })
unfolding parse_debug_section
parse_debug_section-debug_section_buffer indices serialized few fits words some_info few' =
    let n : ℕ = length indices in
    let firsts : List ℕ = offsets_from 4 0 indices in
    let all : List ℕ = concat indices in
    let starts : List ℕ = offsets_from 4 0 serialized in
    let front : List ℕ = table_front 4 n 0 ++ le_array 4 firsts in
    let second : List ℕ = table_front 8 (length all) (length front) ++ le_array 8 all in
    rw
      (
        debug_section_buffer-stream indices serialized fits,
        append_assoc front second,
        append_assoc (table_front 4 n 0) (le_array 4 firsts),
        append_assoc (table_front 8 (length all) (length front)) (le_array 8 all),
      )
      (parse_debug_section-arrays n (length all) (length serialized) (length front)
        (length (debug_front indices)) firsts all starts (concat serialized)
        (length-offsets_from 4 0 indices) refl (length-offsets_from 4 0 serialized) few
        (omega arith) some_info few' (offsets_from-lt 4 0 indices (omega arith) (omega arith)) words
        (offsets_from-lt 4 0 serialized (omega arith) (omega arith))
        (omega (arith, length-append (table_front 4 n 0) (le_array 4 firsts)))
        (omega (
          arith,
          length-append front second,
          length-append (table_front 8 (length all) (length front)) (le_array 8 all),
        )))
