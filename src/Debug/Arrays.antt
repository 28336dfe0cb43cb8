-- ===== src/Debug/Arrays.antt =====
-- The arrays of the debug section, as `parseDebugSection` reads them.
use cuda_tile.Base.{
  ℕ, ◌+◌, ◌*◌, ◌/◌, ◌^◌, ◌≤◌, ◌<◌, ◌≡◌, sym, ap, ◌∙◌, arith, List, ◌++◌, length, length-append,
  length-replicate, append_assoc, leb-true, ltb-true, All, padding, ok,
}
use cuda_tile.Encoding.Writer.{alignment_byte, le_array, var_int}
use cuda_tile.Encoding.Reader.{at}
use cuda_tile.Encoding.VarInt.{read_var_int-var_int}
use cuda_tile.Encoding.Fixed.{ok_at, skip-append, length-le_array}
use cuda_tile.Encoding.Align.{pad, skip_padding-pad}
use cuda_tile.Table.{le_groups}
use cuda_tile.Table.Layout.{le_groups-le_array, table_front}
use native.Mathlib.Nat.{le-div_iff_mul-le, mul_comm}
use cuda_tile.Debug.{debug_array, debug_offsets, parse_debug_section}

-- A count and its array are read where they were written.
pub debug_array-le_array :
    (size n o o' : ℕ) (vs rest : List ℕ)
    → length vs ≡ n
    → o + length (table_front size n o) + length (le_array size vs) ≡ o'
    → 2 ≤ size
    → n < 2 ^ 64
    → All (λ v. v < 256 ^ size) vs
    → 0 < length rest
    → debug_array size (at o (table_front size n o ++ (le_array size vs ++ rest)))
      ≡ ok (vs, at o' rest)
unfolding debug_array
debug_array-le_array size n o o' vs rest count ends h small fit some_byte =
    let o₁ : ℕ = o + length (var_int n) in
    let body : List ℕ = le_array size vs ++ rest in
    let bytes : n * size ≡ length (le_array size vs) =
      mul_comm n size ∙ sym (length-le_array size vs ∙ ap (λ (k : ℕ). size * k) count) in
    let whole : length body ≡ length (le_array size vs) + length rest =
      length-append (le_array size vs) rest in
    let room : n * size ≤ length body = omega arith in
    let groups : le_groups size n body ≡ vs = rw count at (le_groups-le_array size vs rest fit) in
    rw
      (
        append_assoc (var_int n) (pad o₁ size) body,
        read_var_int-var_int n o (pad o₁ size ++ body) small,
        skip_padding-pad size o₁ body h (omega (arith, length-append (pad o₁ size) body)),
        leb-true n (length body / size) ((le-div_iff_mul-le (omega arith)).1 room),
        ltb-true 0 (length body) (omega arith),
        bytes,
        skip-append (o₁ + padding o₁ size) (le_array size vs) rest,
        groups,
      )
      (ok_at vs rest (
        omega (
          arith,
          ends,
          length-append (var_int n) (pad o₁ size),
          length-replicate (padding o₁ size) alignment_byte,
        )))

pub debug_offsets-le_array :
    (n o : ℕ) (vs rest : List ℕ)
    → length vs ≡ n
    → 0 < n
    → n < 2 ^ 64
    → All (λ v. v < 256 ^ 4) vs
    → debug_offsets (at o (table_front 4 n o ++ (le_array 4 vs ++ rest))) ≡ ok (vs, rest)
unfolding debug_offsets
debug_offsets-le_array n o vs rest count some_value small fit =
    let o₁ : ℕ = o + length (var_int n) in
    let body : List ℕ = le_array 4 vs ++ rest in
    let bytes : n * 4 ≡ length (le_array 4 vs) =
      mul_comm n 4 ∙ sym (length-le_array 4 vs ∙ ap (λ (k : ℕ). 4 * k) count) in
    let whole : length body ≡ length (le_array 4 vs) + length rest =
      length-append (le_array 4 vs) rest in
    let padded : length (pad o₁ 4 ++ body) ≡ length (pad o₁ 4) + length body =
      length-append (pad o₁ 4) body in
    let groups : le_groups 4 n body ≡ vs = rw count at (le_groups-le_array 4 vs rest fit) in
    rw (
      append_assoc (var_int n) (pad o₁ 4) body,
      read_var_int-var_int n o (pad o₁ 4 ++ body) small,
      leb-true n (length (pad o₁ 4 ++ body) / 4) (omega arith),
      skip_padding-pad 4 o₁ body (omega arith) (omega arith),
      ltb-true 0 (length body) (omega arith),
      bytes,
      skip-append (o₁ + padding o₁ 4) (le_array 4 vs) rest,
      groups,
    )

-- The three arrays in a row, each padded for where it stands.
pub parse_debug_section-arrays :
    (n m k p q : ℕ) (firsts all starts rest : List ℕ)
    → length firsts ≡ n
    → length all ≡ m
    → length starts ≡ k
    → n < 2 ^ 64
    → m < 2 ^ 64
    → 0 < k
    → k < 2 ^ 64
    → All (λ v. v < 256 ^ 4) firsts
    → All (λ v. v < 256 ^ 8) all
    → All (λ v. v < 256 ^ 4) starts
    → 0 + length (table_front 4 n 0) + length (le_array 4 firsts) ≡ p
    → p + length (table_front 8 m p) + length (le_array 8 all) ≡ q
    → parse_debug_section (
        table_front 4 n 0
        ++ (le_array 4 firsts
            ++ (table_front 8 m p
                ++ (le_array 8 all ++ (table_front 4 k q ++ (le_array 4 starts ++ rest))))))
      ≡ ok (record {
        di_indices = all;
        di_index_offsets = firsts;
        di_data = rest;
        di_offsets = starts;
      })
unfolding parse_debug_section
parse_debug_section-arrays n m k p q firsts all starts rest ln lm lk hn hm k_pos hk fn fm fk ep eq =
    let last : List ℕ = table_front 4 k q ++ (le_array 4 starts ++ rest) in
    let middle : List ℕ = table_front 8 m p ++ (le_array 8 all ++ last) in
    let array : length (le_array 4 starts ++ rest) ≡ 4 * k + length rest =
      length-append (le_array 4 starts) rest
      ∙ ap (λ (i : ℕ). i + length rest) (length-le_array 4 starts ∙ ap (λ (i : ℕ). 4 * i) lk) in
    let some_last : 0 < length last =
      omega (arith, array, length-append (table_front 4 k q) (le_array 4 starts ++ rest)) in
    let some_middle : 0 < length middle = omega (
      arith,
      length-append (table_front 8 m p) (le_array 8 all ++ last),
      length-append (le_array 8 all) last,
    ) in
    rw (
      debug_array-le_array 4 n 0 p firsts middle ln ep (omega arith) hn fn some_middle,
      debug_array-le_array 8 m p q all last lm eq (omega arith) hm fm some_last,
      debug_offsets-le_array k q starts rest lk k_pos hk fk,
    )
