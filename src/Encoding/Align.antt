-- ===== src/Encoding/Align.antt =====
-- `alignTo` against `skipPadding`.
use cuda_tile.Base.{ℕ, ◌+◌, ◌-◌, ◌*◌, ◌/◌, ◌%◌, ◌≤◌, ◌<◌, ◌≡◌, ap, ◌∙◌, arith, max}
use cuda_tile.Base.{
  List, ◌++◌, length, length-append, length-replicate, replicate, ltb-false, ==_false, padding,
}
use cuda_tile.Base.{ok}
use cuda_tile.Encoding.Writer.{Writer, align_to, alignment_byte, tell}
use cuda_tile.Encoding.Reader.{at, skip_padding}
use cuda_tile.Encoding.Fixed.{skip-append}
use native.Mathlib.Nat.{mod-lt, mod_self, add-mod-mod, div-add-mod, mul-add-mod_self_left}

-- The bytes that `alignTo` adds at a position.
abbrev pub pad : ℕ → ℕ → List ℕ
pad pos alignment = replicate (padding pos alignment) alignment_byte

pub align_to-stream :
    (a : ℕ) (w : Writer) → 2 ≤ a → (align_to a w).stream ≡ w.stream ++ pad (tell w) a
unfolding align_to
align_to-stream a w h = rw (ltb-false a 2 h)

pub align_to-required :
    (a : ℕ) (w : Writer) → 2 ≤ a → (align_to a w).required_alignment ≡ max w.required_alignment a
unfolding align_to
align_to-required a w h = rw (ltb-false a 2 h)

pub padding_aligns : (pos a : ℕ) → 0 < a → (pos + padding pos a) % a ≡ 0
padding_aligns pos a h =
    let up : pos + (a - pos % a) ≡ a * (pos / a) + a =
      omega (arith, div-add-mod pos a, mod-lt pos h) in
    add-mod-mod pos (a - pos % a) a
    ∙ ap (λ (n : ℕ). n % a) up
    ∙ mul-add-mod_self_left a (pos / a) a
    ∙ mod_self a

-- The padding at an offset is passed over.
pub skip_padding-pad :
    (a o : ℕ) (rest : List ℕ)
    → 2 ≤ a
    → 0 < length (pad o a ++ rest)
    → skip_padding a (at o (pad o a ++ rest)) ≡ ok (at (o + padding o a) rest)
unfolding skip_padding
skip_padding-pad a o rest h some_byte =
    let size : length (pad o a ++ rest) ≡ padding o a + length rest =
      length-append (pad o a) rest
      ∙ ap (λ (n : ℕ). n + length rest) (length-replicate (padding o a) alignment_byte) in
    rw
      (
        ltb-false a 2 h,
        ==_false (length (pad o a ++ rest)) 0 (omega arith),
        ltb-false (length (pad o a ++ rest)) (padding o a) (omega (arith, size)),
      )
      (rw length-replicate at (skip-append o (pad o a) rest))

-- For an alignment of at least 2, what `alignTo` appends ends at a multiple of the alignment, and
-- `skipPadding` at the same offset passes over it, if some byte is left.
pub skip_padding-align_to :
    (a : ℕ) (w : Writer)
    → 2 ≤ a
    → (bytes : List ℕ) × ((align_to a w).stream ≡ w.stream ++ bytes)
      × (length (align_to a w).stream % a ≡ 0)
      × ((rest : List ℕ)
          → 0 < length (bytes ++ rest)
          → skip_padding a (at (tell w) (bytes ++ rest))
            ≡ ok (at (length (align_to a w).stream) rest))
skip_padding-align_to a w h =
    let size : length (align_to a w).stream ≡ tell w + padding (tell w) a =
      ap length (align_to-stream a w h)
      ∙ length-append w.stream (pad (tell w) a)
      ∙ ap (λ (n : ℕ). tell w + n) (length-replicate (padding (tell w) a) alignment_byte) in
    (
      pad (tell w) a,
      align_to-stream a w h,
      rw size (padding_aligns (tell w) a (omega arith)),
      λ rest some_byte. rw size (skip_padding-pad a (tell w) rest h some_byte),
    )
