-- ===== src/Encoding/VarInt.antt =====
-- `writeVarInt` against `readVarInt`.
use cuda_tile.Base.{ℕ, zero, suc, ◌+◌, ◌*◌, ◌/◌, ◌%◌, ◌^◌, ◌≤◌, ◌<◌, ◌≡◌, ap, arith}
use cuda_tile.Base.{List, [], ◌∷◌, ◌++◌, length, All}
use cuda_tile.Base.{ok}
use cuda_tile.Encoding.Writer.{var_int_loop, var_int}
use cuda_tile.Encoding.Reader.{Cursor, at, read_var_int_loop, read_var_int_max, read_var_int}
use native.Mathlib.Nat.{zero-add, div-add-mod, mod-le, mul-le-mul_right}
use native.Mathlib.Numerals.{towards_suc}

-- One round of the reader on the last byte `w`, and on a byte with bit 7 set over the group `g`.
last_byte :
    (o shift acc w : ℕ) (rest : List ℕ)
    → w < 128
    → shift ≤ 63
    → acc + w * 2 ^ shift < 2 ^ 64
    → read_var_int_loop o shift acc (w ∷ rest) ≡ ok (acc + w * 2 ^ shift, at (o + 1) rest)
unfolding read_var_int_loop
last_byte o shift acc w rest hw hs fits = ground arith

inner_byte :
    (o shift acc g : ℕ) (rest : List ℕ)
    → g < 128
    → shift ≤ 63
    → acc + g * 2 ^ shift < 2 ^ 64
    → read_var_int_loop o shift acc ((g + 128) ∷ rest)
      ≡ read_var_int_loop (o + 1) (shift + 7) (acc + g * 2 ^ shift) rest
unfolding read_var_int_loop
inner_byte o shift acc g rest hg hs fits = ground arith

shift_seven : (s : ℕ) → 2 ^ (s + 7) ≡ 128 * 2 ^ s
shift_seven s = simp towards_suc (omega arith)

-- The lowest group of `v` and the rest, both shifted by `s`.
split_group : (v s : ℕ) → v * 2 ^ s ≡ v % 128 * 2 ^ s + v / 128 * 2 ^ (s + 7)
split_group v s = omega (
  arith,
  ap (λ (t : ℕ). t * 2 ^ s) (div-add-mod v 128),
  ap (λ (t : ℕ). v / 128 * t) (shift_seven s),
)

read_var_int_loop-var_int_loop :
    (k v shift acc o : ℕ) (rest : List ℕ)
    → v < 128 ^ suc k
    → shift + 7 * k ≤ 63
    → acc + v * 2 ^ shift < 2 ^ 64
    → read_var_int_loop o shift acc (var_int_loop (suc k) v ++ rest)
      ≡ ok (acc + v * 2 ^ shift, at (o + length (var_int_loop (suc k) v)) rest)
unfolding var_int_loop
read_var_int_loop-var_int_loop zero v shift acc o rest hv hs fits =
    ground (arith, last_byte o shift acc v rest)
read_var_int_loop-var_int_loop (suc k) v shift acc o rest hv hs fits = ground (
  arith,
  last_byte o shift acc v rest,
  split_group v shift,
  inner_byte o shift acc (v % 128) (var_int_loop (suc k) (v / 128) ++ rest),
  read_var_int_loop-var_int_loop k (v / 128) (shift + 7) (acc + v % 128 * 2 ^ shift) (o + 1) rest
      (omega arith),
)

-- `readVarInt` gives back the value below 2^64 that `writeVarInt` wrote, whatever follows it, and
-- stands behind its bytes.
pub read_var_int-var_int :
    (v o : ℕ) (rest : List ℕ)
    → v < 2 ^ 64
    → read_var_int (at o (var_int v ++ rest)) ≡ ok (v, at (o + length (var_int v)) rest)
unfolding read_var_int var_int
read_var_int-var_int v o rest h = ground (arith, read_var_int_loop-var_int_loop 9 v 0 0 o rest)

-- The same at the start of a payload.
pub read_var_int-start :
    (v : ℕ) (rest : List ℕ)
    → v < 2 ^ 64
    → read_var_int (at 0 (var_int v ++ rest)) ≡ ok (v, at (length (var_int v)) rest)
read_var_int-start v rest h = rw (read_var_int-var_int v 0 rest h, zero-add)

-- The same under a limit that the value keeps.
pub read_var_int_max-var_int :
    (limit v o : ℕ) (rest : List ℕ)
    → v < 2 ^ 64
    → v ≤ limit
    → read_var_int_max limit (at o (var_int v ++ rest)) ≡ ok (v, at (o + length (var_int v)) rest)
unfolding read_var_int_max var_int
read_var_int_max-var_int limit v o rest h k =
    ground (arith, read_var_int_loop-var_int_loop 9 v 0 0 o rest)

var_int_loop_shape :
    (k v : ℕ)
    → v < 128 ^ suc k
    → All (λ b. b < 256) (var_int_loop (suc k) v)
      × (1 ≤ length (var_int_loop (suc k) v))
      × (length (var_int_loop (suc k) v) ≤ suc k)
unfolding var_int_loop
var_int_loop_shape zero v h = ground arith
var_int_loop_shape (suc k) v h = ground (arith, var_int_loop_shape k (v / 128) (omega arith))

-- 1 to 10 bytes.
pub var_int_shape :
    (v : ℕ)
    → v < 2 ^ 64
    → All (λ b. b < 256) (var_int v) × (1 ≤ length (var_int v)) × (length (var_int v) ≤ 10)
unfolding var_int
var_int_shape v h = var_int_loop_shape 9 v (omega arith)

-- The encoding is the shortest one: a value below 128 ^ k takes at most k bytes.
pub var_int_loop_short : (k r v : ℕ) → v < 128 ^ suc k → k < r → length (var_int_loop r v) ≤ suc k
unfolding var_int_loop
var_int_loop_short k zero v h l = absurd (omega arith)
var_int_loop_short zero (suc r) v h l = ground arith
var_int_loop_short (suc k) (suc r) v h l =
    ground (arith, var_int_loop_short k r (v / 128) (omega arith) (omega arith))

pow128_pos : (k : ℕ) → 1 ≤ 128 ^ k
pow128_pos zero = omega arith
pow128_pos (suc k) = omega (arith, pow128_pos k)

pub var_int_loop_long : (k r v : ℕ) → 128 ^ k ≤ v → k < r → suc k ≤ length (var_int_loop r v)
unfolding var_int_loop
var_int_loop_long k zero v h l = absurd (omega arith)
var_int_loop_long zero (suc r) v h l = ground arith
var_int_loop_long (suc k) (suc r) v h l =
    let more : 128 ^ k ≤ v / 128 = omega arith in
    ground (arith, pow128_pos k, more, var_int_loop_long k r (v / 128) more (omega arith))

-- The encoding is the shortest one: for k below 10, the values from 128 ^ k up to 128 ^ (k + 1) take
-- k + 1 bytes.
pub var_int_minimal :
    (k v : ℕ) → k < 10 → 128 ^ k ≤ v → v < 128 ^ suc k → length (var_int v) ≡ suc k
unfolding var_int
var_int_minimal k v hk lo hi =
    omega (arith, var_int_loop_long k 10 v lo hk, var_int_loop_short k 10 v hi hk)

-- What any successful read takes: 1 to 10 bytes, from the front.
read_var_int_loop_takes :
    (bytes : List ℕ) (o shift acc j v : ℕ) (c : Cursor)
    → shift ≡ 7 * j
    → j ≤ 10
    → read_var_int_loop o shift acc bytes ≡ ok (v, c)
    → (c.offset + length c.rest ≡ o + length bytes) × (o < c.offset) × (c.offset + j ≤ o + 10)
unfolding read_var_int_loop
read_var_int_loop_takes [] o shift acc j v c hs hj e = cc
read_var_int_loop_takes (b ∷ bs) o shift acc j v c hs hj e = ground (
  arith,
  read_var_int_loop_takes bs (o + 1) (shift + 7) (acc + b % 128 * 2 ^ shift % 2 ^ 64) (j + 1) v c,
)

-- Whatever `readVarInt` accepts, it takes 1 to 10 bytes from the front and stays inside the data.
pub read_var_int_takes :
    (o v : ℕ) (bytes : List ℕ) (c : Cursor)
    → read_var_int (at o bytes) ≡ ok (v, c)
    → (c.offset + length c.rest ≡ o + length bytes) × (o < c.offset) × (c.offset ≤ o + 10)
unfolding read_var_int
read_var_int_takes o v bytes c e = ground (arith, read_var_int_loop_takes bytes o 0 0 0 v c)

last_group_fits :
    (j acc g : ℕ) → j ≤ 9 → acc < 2 ^ (7 * j) → acc + g * 2 ^ (7 * j) % 2 ^ 64 < 2 ^ 64
last_group_fits zero acc g h k = omega arith
last_group_fits (suc zero) acc g h k = omega arith
last_group_fits (suc (suc zero)) acc g h k = omega arith
last_group_fits (suc (suc (suc zero))) acc g h k = omega arith
last_group_fits (suc (suc (suc (suc zero)))) acc g h k = omega arith
last_group_fits (suc (suc (suc (suc (suc zero))))) acc g h k = omega arith
last_group_fits (suc (suc (suc (suc (suc (suc zero)))))) acc g h k = omega arith
last_group_fits (suc (suc (suc (suc (suc (suc (suc zero))))))) acc g h k = omega arith
last_group_fits (suc (suc (suc (suc (suc (suc (suc (suc zero)))))))) acc g h k = omega arith
last_group_fits (suc (suc (suc (suc (suc (suc (suc (suc (suc zero))))))))) acc g h k = omega arith
last_group_fits (suc (suc (suc (suc (suc (suc (suc (suc (suc (suc j)))))))))) acc g h k =
    absurd (omega arith)

next_group-lt : (s acc g : ℕ) → g < 128 → acc < 2 ^ s → acc + g * 2 ^ s % 2 ^ 64 < 2 ^ (s + 7)
next_group-lt s acc g hg h =
    let drops : g * 2 ^ s % 2 ^ 64 ≤ g * 2 ^ s = mod-le (g * 2 ^ s) (2 ^ 64) in
    let most : g * 2 ^ s ≤ 127 * 2 ^ s = mul-le-mul_right (2 ^ s) (omega arith) in
    omega (arith, drops, most, shift_seven s)

read_var_int_loop-lt :
    (bytes : List ℕ) (o shift acc j v : ℕ) (c : Cursor)
    → shift ≡ 7 * j
    → j ≤ 10
    → acc < 2 ^ shift
    → read_var_int_loop o shift acc bytes ≡ ok (v, c)
    → v < 2 ^ 64
unfolding read_var_int_loop
read_var_int_loop-lt [] o shift acc j v c hs hj ha e = cc
read_var_int_loop-lt (b ∷ bs) o shift acc j v c hs hj ha e = ground (
  arith,
  read_var_int_loop-lt bs (o + 1) (shift + 7) (acc + b % 128 * 2 ^ shift % 2 ^ 64) (j + 1) v c,
  next_group-lt shift acc (b % 128),
  λ (k : j ≤ 9). fits k,
)
  where
    fits : j ≤ 9 → acc + b % 128 * 2 ^ shift % 2 ^ 64 < 2 ^ 64
    fits k = rw hs (last_group_fits j acc (b % 128) k (rw hs at ha))

-- A value that `readVarInt` accepts fits 64 bits, whatever the bytes are.
pub read_var_int-lt :
    (o v : ℕ) (bytes : List ℕ) (c : Cursor) → read_var_int (at o bytes) ≡ ok (v, c) → v < 2 ^ 64
unfolding read_var_int
read_var_int-lt o v bytes c e = ground (arith, read_var_int_loop-lt bytes o 0 0 0 v c)

tenth_byte :
    (front : List ℕ) (o shift acc b : ℕ) (rest : List ℕ)
    → All (λ x. 128 ≤ x) front
    → shift + 7 * length front ≡ 63
    → b < 128
    → read_var_int_loop o shift acc (front ++ b ∷ rest)
      ≡ read_var_int_loop o shift acc (front ++ b % 2 ∷ rest)
unfolding read_var_int_loop
tenth_byte [] o shift acc b rest h hs hb = let e : shift ≡ 63 = omega arith in rw e (ground arith)
tenth_byte (x ∷ front) o shift acc b rest (hx, h) hs hb =
    ground
      (arith, tenth_byte front (o + 1) (shift + 7) (acc + x % 128 * 2 ^ shift % 2 ^ 64) b rest h)

-- After nine bytes with the top bit set, `readVarInt` drops all of the tenth byte but its lowest
-- bit, if that byte is below 128: an encoding of a number beyond 64 bits is read as another number,
-- not refused.
pub read_var_int_drops :
    (front : List ℕ) (o b : ℕ) (rest : List ℕ)
    → All (λ x. 128 ≤ x) front
    → length front ≡ 9
    → b < 128
    → read_var_int (at o (front ++ b ∷ rest)) ≡ read_var_int (at o (front ++ b % 2 ∷ rest))
unfolding read_var_int
read_var_int_drops front o b rest h l hb = rw (tenth_byte front o 0 0 b rest h (omega arith) hb)
