-- ===== src/ApInt/Words.antt =====
-- The words of a number of more than 64 bits.
use cuda_tile.Base.{
  ℕ, suc, ◌+◌, ◌-◌, ◌^◌, ◌≤◌, ◌<◌, ◌≡◌, refl, sym, ap, ◌∙◌, arith, inl, inr, true, false,
  Bool-cases, List, [], ◌∷◌, ◌++◌, length, length-append, append_assoc, append-nil, All, ◌==◌, ok,
  replicate, take,
}
use cuda_tile.Encoding.Writer.{Writer, write_signed_var_int, var_int, zigzag}
use cuda_tile.Encoding.Reader.{at}
use cuda_tile.Encoding.Fixed.{ok_at, read_signed_var_int-zigzag}
use cuda_tile.ApInt.{any_set, active_words, write_words, read_words}

abbrev pub word_bytes : List ℕ → List ℕ
word_bytes [] = []
word_bytes (word ∷ words) = var_int (zigzag word) ++ word_bytes words

pub write_words-eq :
    (words : List ℕ) (w : Writer) → (write_words words w).stream ≡ w.stream ++ word_bytes words
unfolding write_words
write_words-eq [] w = sym (append-nil w.stream)
write_words-eq (word ∷ words) w =
    write_words-eq words (write_signed_var_int word w)
    ∙ append_assoc w.stream (var_int (zigzag word)) (word_bytes words)

pub read_words-word_bytes :
    (words : List ℕ) (o : ℕ) (rest : List ℕ)
    → All (λ v. v < 2 ^ 64) words
    → read_words (length words) (at o (word_bytes words ++ rest))
      ≡ ok (words, at (o + length (word_bytes words)) rest)
unfolding read_words
read_words-word_bytes [] o rest h = ok_at [] rest (omega arith)
read_words-word_bytes (word ∷ words) o rest (hw, h) =
    rw
      (
        append_assoc,
        read_signed_var_int-zigzag word o _ hw,
        read_words-word_bytes words (o + length (var_int (zigzag word))) rest h,
      )
      (ok_at (word ∷ words) rest
        (omega (arith, length-append (var_int (zigzag word)) (word_bytes words))))

-- Words that are not active are zero.
pub active_words-zeros :
    (words : List ℕ) → any_set words ≡ false → words ≡ replicate (length words) 0
unfolding any_set
active_words-zeros [] h = refl
active_words-zeros (w ∷ words) h = elim (Bool-cases (w == 0)) [
  | inl zero_word ↦
      let others : any_set words ≡ false = rw zero_word at h in
      let equal : w ≡ 0 = ground arith in
      rw equal (ap (λ ws. 0 ∷ ws) (active_words-zeros words others))
  | inr set ↦ let contradiction : true ≡ false = rw set at h in cc
]

pub any_set-some : (words : List ℕ) → any_set words ≡ true → 1 ≤ length words
unfolding any_set
any_set-some [] h = cc
any_set-some (w ∷ words) h = omega arith

pub active_words-take :
    (words : List ℕ)
    → 1 ≤ length words
    → (active_words words ≤ length words)
      × (1 ≤ active_words words)
      × (take (active_words words) words ++ replicate (length words - active_words words) 0 ≡ words)
unfolding active_words
active_words-take [] h = absurd (omega arith)
active_words-take (x ∷ xs) h = elim (Bool-cases (any_set xs)) [
  | inl set ↦
      let (most, least, same) = active_words-take xs (any_set-some xs set) in
      let left : suc (length xs) - suc (active_words xs) ≡ length xs - active_words xs =
        omega arith in
      rw (set, left) (omega arith, omega arith, ap (λ ws. x ∷ ws) same)
  | inr clear ↦
      let left : suc (length xs) - 1 ≡ length xs = omega arith in
      rw (clear, left)
        (omega arith, omega arith, ap (λ ws. x ∷ ws) (sym (active_words-zeros xs clear)))
]
