-- ===== src/Section/HeaderTrip.antt =====
-- Headers read back as they were written.
use cuda_tile.Base.{
  ℕ, ◌+◌, ◌^◌, ◌≤◌, ◌<◌, ◌≡◌, refl, ap, arith, true, false, List, [], ◌∷◌, ◌++◌, length,
  append_assoc, length-append,
}
use cuda_tile.Base.{some, ==_true}
use cuda_tile.Base.{append-nil}
use cuda_tile.Base.{ok, err, unsupported_version}
use cuda_tile.Version.{Version, version_lt, from_version, min_supported_version}
use cuda_tile.Version.Supported.{from_version_lem}
use cuda_tile.Encoding.Writer.{le_bytes}
use cuda_tile.Encoding.Reader.{at, read_le}
use cuda_tile.Encoding.Fixed.{read_le-le_bytes, length-le_bytes}
use cuda_tile.Section.Header.{magic, write_header, parse_magic, check_version, parse_header}

-- A version that the build supports: fromVersion gives it.
abbrev pub IsSupported : Version → Type 0
IsSupported v = from_version v.major v.minor v.tag ≡ some v

pub read_byte : (b o : ℕ) (rest : List ℕ) → read_le 1 (at o (b ∷ rest)) ≡ ok (b, at (o + 1) rest)
unfolding read_le
read_byte b o rest = ground arith

parse_magic-append :
    (m : List ℕ) (o : ℕ) (rest : List ℕ)
    → parse_magic m (at o (m ++ rest)) ≡ ok (at (o + length m) rest)
unfolding parse_magic
parse_magic-append [] o rest = ap (λ (x : ℕ). ok (at x rest)) (omega arith)
parse_magic-append (b ∷ m) o rest =
    rw (read_byte b o (m ++ rest), ==_true b b refl, parse_magic-append m (o + 1) rest)
      (ap (λ (x : ℕ). ok (at x rest)) (omega arith))

-- The bytes of the header of a supported version, and what follows them.
abbrev pub header_bytes : Version → List ℕ → List ℕ
header_bytes v rest =
    magic ++ (le_bytes 1 v.major ++ (le_bytes 1 v.minor ++ (le_bytes 2 v.tag ++ rest)))

-- A supported version is 13.1 to 13.4.
pub supported_bounds :
    (v : Version) → IsSupported v → (v.major ≡ 13) × (1 ≤ v.minor) × (v.minor ≤ 4)
supported_bounds v h = ground (arith, from_version_lem v.major v.minor v.tag)

supported_not_old : (v : Version) → IsSupported v → version_lt v min_supported_version ≡ false
unfolding version_lt
supported_not_old v h = ground (arith, supported_bounds v h)

pub parse_header_bytes :
    (v : Version) (rest : List ℕ)
    → IsSupported v
    → v.tag < 2 ^ 16
    → parse_header (at 0 (header_bytes v rest)) ≡ ok (v, at 12 rest)
unfolding parse_header check_version
parse_header_bytes v rest h ht =
    let (is13, lo, hi) = supported_bounds v h in
    let tail₃ : List ℕ = le_bytes 2 v.tag ++ rest in
    let tail₂ : List ℕ = le_bytes 1 v.minor ++ tail₃ in
    let tail₁ : List ℕ = le_bytes 1 v.major ++ tail₂ in
    rw (
      parse_magic-append magic 0 tail₁,
      read_le-le_bytes 1 v.major 8 tail₂ (omega arith),
      read_le-le_bytes 1 v.minor 9 tail₃ (omega arith),
      read_le-le_bytes 2 v.tag 10 rest ht,
      h,
      supported_not_old v h,
    )

pub header_bytes_split :
    (v : Version) (rest : List ℕ) → header_bytes v [] ++ rest ≡ header_bytes v rest
header_bytes_split v rest = simp append_assoc

pub write_header-eq : (v : Version) → IsSupported v → write_header v [] ≡ ok (header_bytes v [])
unfolding write_header
write_header-eq v h = rw (supported_not_old v h, append_assoc, append_assoc) (ap ok (rw append-nil))

pub length-header_bytes : (v : Version) → length (header_bytes v []) ≡ 12
length-header_bytes v = omega (
  arith,
  length-append (le_bytes 1 v.major) (le_bytes 1 v.minor ++ (le_bytes 2 v.tag ++ [])),
  length-append (le_bytes 1 v.minor) (le_bytes 2 v.tag ++ []),
  length-append (le_bytes 2 v.tag) [],
  length-le_bytes 1 v.major,
  length-le_bytes 1 v.minor,
  length-le_bytes 2 v.tag,
)

-- A supported version with a 16-bit tag is written as 12 bytes, and `parseHeader` reads it back
-- from them, whatever follows.
pub parse_header-write_header :
    (v : Version) (rest : List ℕ)
    → IsSupported v
    → v.tag < 2 ^ 16
    → (bytes : List ℕ) × (write_header v [] ≡ ok bytes)
      × (length bytes ≡ 12)
      × (parse_header (at 0 (bytes ++ rest)) ≡ ok (v, at 12 rest))
parse_header-write_header v rest h ht = (
  header_bytes v [],
  write_header-eq v h,
  length-header_bytes v,
  rw (header_bytes_split v rest) (parse_header_bytes v rest h ht),
)

-- An older version is refused, and nothing is written.
pub write_header_old :
    (v : Version) (stream : List ℕ)
    → version_lt v min_supported_version ≡ true
    → write_header v stream ≡ err unsupported_version
unfolding write_header
write_header_old v stream h = rw h
