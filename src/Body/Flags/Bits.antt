-- ===== src/Body/Flags/Bits.antt =====
-- Bits that are set and tested.
use cuda_tile.Base.{
  ℕ, zero, suc, ◌+◌, ◌*◌, ◌/◌, ◌%◌, ◌^◌, ◌<◌, ◌≡◌, refl, false, ◌||◌, ◌==◌, arith, ==_false, ◌∙◌,
}
use cuda_tile.Body.Flags.{test_bit, set_bit}

pub test_bit-zero : (b : ℕ) → test_bit b 0 ≡ false
unfolding test_bit
test_bit-zero zero = refl
test_bit-zero (suc b) = test_bit-zero b

suc_test : (b j : ℕ) → (suc b == suc j) ≡ (b == j)
suc_test b j = ground arith

pub test_bit-set_bit : (b j flags : ℕ) → test_bit j (set_bit b flags) ≡ (b == j || test_bit j flags)
unfolding test_bit set_bit
test_bit-set_bit zero zero flags = ground arith
test_bit-set_bit zero (suc j) flags =
    let half : (flags / 2 * 2 + 1) / 2 ≡ flags / 2 = omega arith in
    rw (half, ==_false 0 (suc j) (omega arith))
test_bit-set_bit (suc b) zero flags =
    let low : (set_bit b (flags / 2) * 2 + flags % 2) % 2 ≡ flags % 2 = omega arith in
    rw (low, ==_false (suc b) 0 (omega arith))
test_bit-set_bit (suc b) (suc j) flags =
    let half : (set_bit b (flags / 2) * 2 + flags % 2) / 2 ≡ set_bit b (flags / 2) = omega arith in
    rw half (test_bit-set_bit b j (flags / 2) ∙ rw suc_test)

pub set_bit-lt : (b w flags : ℕ) → b < w → flags < 2 ^ w → set_bit b flags < 2 ^ w
unfolding set_bit
set_bit-lt b zero flags h k = absurd (omega arith)
set_bit-lt zero (suc w) flags h k = omega arith
set_bit-lt (suc b) (suc w) flags h k =
    omega (arith, set_bit-lt b w (flags / 2) (omega arith) (omega arith))
