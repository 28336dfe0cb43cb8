-- ===== src/ApInt/RoundTrip.antt =====
-- A number that is written is read back.
use cuda_tile.ApInt.Words.{word_bytes, write_words-eq, read_words-word_bytes, active_words-take}
use cuda_tile.Base.{
  ℕ, zero, suc, ◌+◌, ◌-◌, ◌/◌, ◌%◌, ◌^◌, ◌≤◌, ◌<◌, ◌≡◌, refl, ◌∙◌, arith, inl, inr, Bool, true,
  false, ◌||◌, Bool-cases, List, [], ◌∷◌, ◌++◌, length, length-append, append_assoc, All, leb,
  leb-true, leb-false, ltb-true, ok, take, ==_false,
}
use cuda_tile.Encoding.Writer.{Writer, write_var_int, var_int, zigzag}
use cuda_tile.Encoding.Reader.{at}
use cuda_tile.Encoding.VarInt.{read_var_int-var_int}
use cuda_tile.Encoding.Fixed.{ok_at, read_signed_var_int-zigzag}
use cuda_tile.Section.HeaderTrip.{read_byte}
use cuda_tile.Base.{leb→le, length-take_le}
use native.Mathlib.Nat.{pow-le-pow_right, mod-eq_of_lt}
use cuda_tile.ApInt.{
  ApInt, low_word, active_words, write_ap_int, is_uint_n, ap_int, fitting, parse_words,
  parse_ap_int,
}

or_true : (b : Bool) → (b || true) ≡ true
or_true true = refl
or_true false = refl

-- A value of one word that fits.
small_read :
    (bit_width x o : ℕ) (rest : List ℕ)
    → 1 ≤ bit_width
    → bit_width ≤ 64
    → x < 2 ^ bit_width
    → fitting bit_width (x, at o rest)
      ≡ ok (record { bit_width = bit_width; words = x ∷ [] }, at o rest)
unfolding fitting is_uint_n ap_int
small_read bit_width x o rest h h' fits =
    let one : (bit_width + 63) / 64 ≡ 1 = omega arith in
    rw (ltb-true x (2 ^ bit_width) fits, or_true (leb 64 bit_width), one)

-- What is written for a number, up to 64 bits.
one_word :
    (bit_width x : ℕ) (w : Writer)
    → 1 ≤ bit_width
    → bit_width ≤ 64
    → x < 2 ^ bit_width
    → (bytes : List ℕ) × ((write_ap_int (record { bit_width = bit_width; words = x ∷ [] }) w).stream
        ≡ w.stream ++ bytes)
      × ((o : ℕ) (rest : List ℕ)
          → parse_ap_int bit_width (at o (bytes ++ rest))
            ≡ ok (record { bit_width = bit_width; words = x ∷ [] }, at (o + length bytes) rest))
unfolding write_ap_int parse_ap_int low_word
one_word bit_width x w h h' fits = elim (Bool-cases (leb bit_width 8)) [
  | inl byte ↦
      let limit : 2 ^ bit_width ≤ 2 ^ 8 =
        pow-le-pow_right (omega arith) (leb→le bit_width 8 byte) in
      let kept : x % 256 ≡ x = mod-eq_of_lt (omega arith) in
      (
        x ∷ [],
        rw (byte, kept),
        λ o rest. rw (byte, read_byte x o rest) (small_read bit_width x (o + 1) rest h h' fits),
      )
  | inr more ↦
      let limit : 2 ^ bit_width ≤ 2 ^ 64 = pow-le-pow_right (omega arith) h' in
      (
        var_int (zigzag x),
        rw (more, leb-true bit_width 64 h'),
        λ o rest.
            rw (more, leb-true bit_width 64 h', read_signed_var_int-zigzag x o rest (omega arith))
              (small_read bit_width x (o + length (var_int (zigzag x))) rest h h' fits),
      )
]

All-take :
    (n : ℕ) (words : List ℕ) → All (λ v. v < 2 ^ 64) words → All (λ v. v < 2 ^ 64) (take n words)
All-take zero words h = tt
All-take (suc n) [] h = tt
All-take (suc n) (w ∷ words) (hw, h) = (hw, All-take n words h)

-- The active words of a larger number.
many_words :
    (bit_width : ℕ) (words : List ℕ) (w : Writer)
    → 64 < bit_width
    → bit_width < 2 ^ 32 - 63
    → length words ≡ (bit_width + 63) / 64
    → All (λ v. v < 2 ^ 64) words
    → (bytes : List ℕ) × ((write_ap_int (record { bit_width = bit_width; words = words }) w).stream
        ≡ w.stream ++ bytes)
      × ((o : ℕ) (rest : List ℕ)
          → parse_ap_int bit_width (at o (bytes ++ rest))
            ≡ ok (record { bit_width = bit_width; words = words }, at (o + length bytes) rest))
unfolding write_ap_int parse_ap_int parse_words ap_int
many_words bit_width words w big bounded count h =
    let n : ℕ = active_words words in
    let (most, least, same) = active_words-take words (omega arith) in
    let active : List ℕ = take n words in
    let size : length active ≡ n = length-take_le n words most in
    let left : (bit_width + 63) / 64 - length active ≡ length words - n = omega arith in
    let not_byte : leb bit_width 8 ≡ false = leb-false bit_width 8 (omega arith) in
    let not_word : leb bit_width 64 ≡ false = leb-false bit_width 64 (omega arith) in
    (
      var_int n ++ word_bytes active,
      rw (not_byte, not_word)
          (write_words-eq active (write_var_int n w)
            ∙ append_assoc w.stream (var_int n) (word_bytes active)),
      λ o rest.
          let loop =
            rw size at
              (read_words-word_bytes active (o + length (var_int n)) rest (All-take n words h)) in
          rw
            (
              not_byte,
              not_word,
              append_assoc,
              read_var_int-var_int n o _ (omega arith),
              leb-true n ((bit_width + 63) % 2 ^ 32 / 64) (omega arith),
              ==_false n 0 (omega arith),
              loop,
              left,
              same,
            )
            (ok_at (record { bit_width = bit_width; words = words }) rest
              (omega (arith, length-append (var_int n) (word_bytes active)))),
    )

-- A number is well formed when it has the words of its width, each of 64 bits, and fits in its width
-- when that is at most 64.
abbrev pub IsApInt : ApInt → Type 0
IsApInt value =
    (length value.words ≡ (value.bit_width + 63) / 64)
    × (1 ≤ value.bit_width)
    × (value.bit_width < 2 ^ 32 - 63)
    × All (λ v. v < 2 ^ 64) value.words
    × (value.bit_width ≤ 64 → low_word value.words < 2 ^ value.bit_width)

by_width :
    (bit_width : ℕ) (words : List ℕ) (w : Writer)
    → length words ≡ (bit_width + 63) / 64
    → 1 ≤ bit_width
    → bit_width < 2 ^ 32 - 63
    → All (λ v. v < 2 ^ 64) words
    → (bit_width ≤ 64 → low_word words < 2 ^ bit_width)
    → (bytes : List ℕ) × ((write_ap_int (record { bit_width = bit_width; words = words }) w).stream
        ≡ w.stream ++ bytes)
      × ((o : ℕ) (rest : List ℕ)
          → parse_ap_int bit_width (at o (bytes ++ rest))
            ≡ ok (record { bit_width = bit_width; words = words }, at (o + length bytes) rest))
unfolding low_word
by_width bit_width [] w count some_bit bounded in_range fits = absurd (omega arith)
by_width bit_width (x ∷ []) w count some_bit bounded in_range fits =
    let one : bit_width ≤ 64 = omega arith in one_word bit_width x w some_bit one (fits one)
by_width bit_width (x ∷ y ∷ words) w count some_bit bounded in_range fits =
    many_words bit_width (x ∷ y ∷ words) w (omega arith) bounded count in_range

-- A number with the words of its width, each below 2^64, that fits its width, of 1 to 2^32 - 64 bits,
-- is written as bytes that the parser, told the width, reads as the same number and nothing more,
-- wherever they stand.
pub parse_ap_int-write_ap_int :
    (value : ApInt) (w : Writer)
    → IsApInt value
    → (bytes : List ℕ) × ((write_ap_int value w).stream ≡ w.stream ++ bytes)
      × ((o : ℕ) (rest : List ℕ)
          → parse_ap_int value.bit_width (at o (bytes ++ rest))
            ≡ ok (value, at (o + length bytes) rest))
parse_ap_int-write_ap_int value w (count, some_bit, bounded, in_range, fits) =
    by_width value.bit_width value.words w count some_bit bounded in_range fits
