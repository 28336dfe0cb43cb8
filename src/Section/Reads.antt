-- ===== src/Section/Reads.antt =====
-- What the reads of EncodingReader leave, and that they end.
use cuda_tile.Base.{
  ℕ, suc, ◌+◌, ◌-◌, ◌%◌, ◌*◌, ◌^◌, ◌≤◌, ◌<◌, arith, ◌==◌, List, [], ◌∷◌, length, length-drop, ltb,
  padding,
}
use cuda_tile.Base.{weaken-Settles, Settles, bind-Settles, branch-Settles}
use cuda_tile.Encoding.Reader.{
  Cursor, remaining, size, read_var_int_loop, read_var_int, read_le, read_bytes, skip, skip_padding,
}
use cuda_tile.Section.Container.{Progress, finished, go_on}

-- No more is left than `n` bytes.
abbrev pub AtMost : ℕ → Cursor → Type 0
AtMost n c = remaining c ≤ n

abbrev pub Leaves {ℓ} : {A : Type ℓ} → ℕ → (A × Cursor) → Type 0
Leaves n r = remaining r.1 ≤ n

-- A round ends the loop or leaves no more than `n` bytes.
abbrev pub RoundLeaves : {R S : Type 0} → ℕ → Progress R S → Type 0
RoundLeaves n (finished result) = Unit {0}
RoundLeaves n (go_on state c) = remaining c ≤ n

-- A round ends the loop or leaves less than `n` bytes.
abbrev pub RoundEnds : {R S : Type 0} → ℕ → Progress R S → Type 0
RoundEnds n (finished result) = Unit {0}
RoundEnds n (go_on state c) = remaining c < n

pub round_ends :
    {R S : Type 0} (m n : ℕ) (progress : Progress R S)
    → m < n
    → RoundLeaves m progress
    → RoundEnds n progress
round_ends m n (finished result) h k = tt
round_ends m n (go_on state c) h k = omega arith

read_var_int_loop-Settles :
    (offset shift result : ℕ) (bytes : List ℕ)
    → Settles (Leaves (length bytes)) (read_var_int_loop offset shift result bytes)
unfolding read_var_int_loop
read_var_int_loop-Settles offset shift result [] = λ h. cc
read_var_int_loop-Settles offset shift result (byte ∷ bytes) =
    branch-Settles (Leaves (suc (length bytes))) (ltb 63 shift) _ _ (λ h. λ e. cc)
      (λ h.
        branch-Settles (Leaves (suc (length bytes))) (ltb byte 128) _ _ (λ k. omega arith)
          (λ k.
            weaken-Settles (Leaves (length bytes)) (Leaves (suc (length bytes))) _
              (read_var_int_loop-Settles (offset + 1) (shift + 7)
                (result + byte % 128 * 2 ^ shift % 2 ^ 64) bytes)
              (λ r l. omega arith)))

pub read_var_int-Settles : (c : Cursor) → Settles (Leaves (remaining c)) (read_var_int c)
unfolding read_var_int
read_var_int-Settles c =
    bind-Settles (Leaves (remaining c)) (Leaves (remaining c))
      (read_var_int_loop c.offset 0 0 c.rest) _ (read_var_int_loop-Settles c.offset 0 0 c.rest)
      (λ r h. h)

-- A byte that is read is taken.
pub read_le-Settles :
    (n : ℕ) (c : Cursor) → Settles (λ r. remaining r.1 + n ≤ remaining c) (read_le n c)
unfolding read_le
read_le-Settles n c =
    branch-Settles (λ (r : ℕ × Cursor). remaining r.1 + n ≤ remaining c)
      (ltb (size c) (c.offset + n)) _ _ (λ h. λ e. cc) (λ h. ground (arith, length-drop n c.rest))

pub skip-Settles : (n : ℕ) (c : Cursor) → Settles (AtMost (remaining c)) (skip n c)
unfolding skip
skip-Settles n c =
    branch-Settles (AtMost (remaining c)) (ltb (size c - c.offset) n) _ _ (λ h. λ e. cc)
      (λ h. omega (arith, length-drop n c.rest))

pub read_bytes-Settles : (n : ℕ) (c : Cursor) → Settles (Leaves (remaining c)) (read_bytes n c)
unfolding read_bytes
read_bytes-Settles n c =
    branch-Settles (Leaves (remaining c)) (ltb (size c - c.offset) n) _ _ (λ h. λ e. cc)
      (λ h. omega (arith, length-drop n c.rest))

pub skip_padding-Settles : (n : ℕ) (c : Cursor) → Settles (AtMost (remaining c)) (skip_padding n c)
unfolding skip_padding
skip_padding-Settles n c =
    branch-Settles (AtMost (remaining c)) (ltb n 2) _ _ (λ h. omega arith)
      (λ h.
        branch-Settles (AtMost (remaining c)) (remaining c == 0) _ _ (λ k. λ e. cc)
          (λ k.
            branch-Settles (AtMost (remaining c)) (ltb (remaining c) (padding c.offset n)) _ _
              (λ l. λ e. cc) (λ l. skip-Settles (padding c.offset n) c)))
