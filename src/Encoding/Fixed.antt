-- ===== src/Encoding/Fixed.antt =====
-- Fixed-width little-endian numbers, zigzag numbers and raw bytes: writer against reader.
use cuda_tile.Base.{◌↔◌, ◌⊎◌, inl, inr, Bool-cases}
use cuda_tile.Base.{ℕ, zero, suc, ◌+◌, ◌-◌, ◌*◌, ◌/◌, ◌^◌, ◌≤◌, ◌<◌, ◌≡◌, refl, ap, arith}
use cuda_tile.Base.{
  List, [], ◌∷◌, ◌++◌, length, length-append, take-length, drop-length, ltb, All, ltb-false,
  append_assoc,
}
use cuda_tile.Base.{Outcome, ok}
use cuda_tile.Encoding.Writer.{Writer, le_bytes, le_array, zigzag, var_int, write_le_var_size}
use cuda_tile.Encoding.Reader.{
  Cursor, at, le_value, read_le, read_le_values, read_le_array, read_le_var_size, unzigzag,
  read_signed_var_int, read_bytes, skip,
}
use cuda_tile.Encoding.VarInt.{read_var_int-var_int}

-- Two results at offsets that are equal.
pub ok_at {ℓ} :
    {A : Type ℓ} (a : A) {o o' : ℕ} (rest : List ℕ)
    → o ≡ o'
    → ◌≡◌ {A = Outcome (A × Cursor)} (ok (a, at o rest)) (ok (a, at o' rest))
ok_at a rest e = λ i. ok (a, at (e i) rest)

pub length-le_bytes : (n v : ℕ) → length (le_bytes n v) ≡ n
unfolding le_bytes
length-le_bytes zero v = refl
length-le_bytes (suc n) v = ap suc (length-le_bytes n (v / 256))

pub le_value-le_bytes : (n v : ℕ) → v < 256 ^ n → le_value (le_bytes n v) ≡ v
unfolding le_value le_bytes
le_value-le_bytes zero v h = omega arith
le_value-le_bytes (suc n) v h = omega (arith, le_value-le_bytes n (v / 256) (omega arith))

module _ (o : ℕ) (bytes rest : List ℕ) where
  pub read_bytes-append :
      read_bytes (length bytes) (at o (bytes ++ rest)) ≡ ok (bytes, at (o + length bytes) rest)
  unfolding read_bytes
  read_bytes-append = rw (
    ltb-false (o + length (bytes ++ rest) - o) (length bytes)
        (omega (arith, length-append bytes rest)),
    take-length,
    drop-length,
  )

  pub skip-append : skip (length bytes) (at o (bytes ++ rest)) ≡ ok (at (o + length bytes) rest)
  unfolding skip
  skip-append = rw (
    ltb-false (o + length (bytes ++ rest) - o) (length bytes)
        (omega (arith, length-append bytes rest)),
    drop-length,
  )

  read_le-append :
      read_le (length bytes) (at o (bytes ++ rest))
      ≡ ok (le_value bytes, at (o + length bytes) rest)
  unfolding read_le
  read_le-append = rw (
    ltb-false (o + length (bytes ++ rest)) (o + length bytes)
        (omega (arith, length-append bytes rest)),
    take-length,
    drop-length,
  )

pub read_le-le_bytes :
    (n v o : ℕ) (rest : List ℕ)
    → v < 256 ^ n
    → read_le n (at o (le_bytes n v ++ rest)) ≡ ok (v, at (o + n) rest)
read_le-le_bytes n v o rest h =
    rw (length-le_bytes, le_value-le_bytes n v h) at (read_le-append o (le_bytes n v) rest)

pub length-le_array : (n : ℕ) (vs : List ℕ) → length (le_array n vs) ≡ n * length vs
unfolding le_array
length-le_array n [] = omega arith
length-le_array n (v ∷ vs) =
    rw length-append (omega (arith, length-le_bytes n v, length-le_array n vs))

pub read_le_values-le_array :
    (n : ℕ) (vs : List ℕ) (o : ℕ) (rest : List ℕ)
    → All (λ v. v < 256 ^ n) vs
    → read_le_values n (length vs) (at o (le_array n vs ++ rest))
      ≡ ok (vs, at (o + n * length vs) rest)
unfolding read_le_values le_array
read_le_values-le_array n [] o rest h = ok_at [] rest (omega arith)
read_le_values-le_array n (v ∷ vs) o rest (hv, h) =
    rw
      (
        append_assoc,
        read_le-le_bytes n v o (le_array n vs ++ rest) hv,
        read_le_values-le_array n vs (o + n) rest h,
      )
      (ok_at (v ∷ vs) rest (grind arith))

pub unzigzag-zigzag : (v : ℕ) → v < 2 ^ 64 → unzigzag (zigzag v) ≡ v
unfolding zigzag unzigzag
unzigzag-zigzag v h = ground arith

pub zigzag-lt : (v : ℕ) → zigzag v < 2 ^ 64
unfolding zigzag
zigzag-lt v = ground arith

-- `readSignedVarInt` gives back the 64-bit value that `writeSignedVarInt` wrote.
pub read_signed_var_int-zigzag :
    (v o : ℕ) (rest : List ℕ)
    → v < 2 ^ 64
    → read_signed_var_int (at o (var_int (zigzag v) ++ rest))
      ≡ ok (v, at (o + length (var_int (zigzag v))) rest)
unfolding read_signed_var_int
read_signed_var_int-zigzag v o rest h =
    rw (read_var_int-var_int (zigzag v) o rest (zigzag-lt v), unzigzag-zigzag v h)

-- Of the 64-bit patterns, those of the numbers from -64 to 63, and no others, have a zigzag code below
-- 128, which one byte holds.
pub zigzag_small : (v : ℕ) → v < 2 ^ 64 → (zigzag v < 128) ↔ ((v < 64) ⊎ (2 ^ 64 - 64 ≤ v))
unfolding zigzag
zigzag_small v h = (
  λ k. elim (Bool-cases (ltb v (2 ^ 63))) [
    | inl e ↦ inl (ground arith)
    | inr e ↦ inr (ground arith)
  ],
  λ k. ground arith,
)

-- The bytes of an array with its length are read back.
pub read_le_var_size-le_array :
    (n : ℕ) (vs : List ℕ) (o : ℕ) (rest : List ℕ)
    → All (λ v. v < 256 ^ n) vs
    → length vs ≤ 2 ^ 32 - 2
    → read_le_var_size n (at o (var_int (length vs) ++ (le_array n vs ++ rest)))
      ≡ ok (vs, at (o + length (var_int (length vs)) + n * length vs) rest)
unfolding read_le_var_size read_le_array
read_le_var_size-le_array n vs o rest h small =
    rw
      (
        read_var_int-var_int (length vs) o (le_array n vs ++ rest) (omega arith),
        ltb-false (2 ^ 32 - 2) (length vs) small,
      )
      (read_le_values-le_array n vs _ rest h)

-- `readLEVarSize` gives back the array that `writeLEVarSize` wrote, whatever follows it, and stands
-- behind its bytes, if each value fits its n bytes and there are at most 2^32 - 2 of them.
pub read_le_var_size-write_le_var_size :
    (n : ℕ) (vs : List ℕ) (w : Writer)
    → All (λ v. v < 256 ^ n) vs
    → length vs ≤ 2 ^ 32 - 2
    → (bytes : List ℕ) × ((write_le_var_size n vs w).stream ≡ w.stream ++ bytes)
      × ((o : ℕ) (rest : List ℕ)
          → read_le_var_size n (at o (bytes ++ rest)) ≡ ok (vs, at (o + length bytes) rest))
read_le_var_size-write_le_var_size n vs w h small = (
  var_int (length vs) ++ le_array n vs,
  append_assoc w.stream (var_int (length vs)) (le_array n vs),
  λ o rest.
      rw (append_assoc, read_le_var_size-le_array n vs o rest h small)
        (ok_at vs rest (
          omega
            (arith, length-append (var_int (length vs)) (le_array n vs), length-le_array n vs))),
)
