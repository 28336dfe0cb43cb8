-- ===== src/Base/Arith.antt =====
-- Padding up to a multiple of an alignment.
use Prim.Native.Nat.{ℕ, ◌-◌, ◌%◌, ◌<◌}
use native.Mathlib.Nat.{mod-lt}

-- (alignment - (pos % alignment)) % alignment
abbrev pub padding : ℕ → ℕ → ℕ
padding pos alignment = (alignment - pos % alignment) % alignment

pub padding-lt : (pos a : ℕ) → 0 < a → padding pos a < a
padding-lt pos a h = mod-lt (a - pos % a) h
