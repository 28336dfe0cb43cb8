-- ===== src/Tests/Encodings.antt =====
-- The primitive encodings and the versions, on concrete values.
use cuda_tile.Base.{ℕ, List, ◌%◌, ◌++◌, ◌<◌, get_elem?, inl, inr}
use cuda_tile.Version.Opcodes.{
  same_version, max_opcode, carried, fill, is_opcode_available, is_opcode_available_own, IsGrowing,
  fill_monotone,
}
use cuda_tile.Base.{
  ◌+◌, ◌-◌, ◌%◌, ◌^◌, ◌≤◌, ◌<◌, ◌≡◌, refl, arith, ◌↔◌, ◌⊎◌, [], ◌∷◌, ◌++◌, length, ok, some, none,
  true, leb, ◌==◌, if◌then◌else◌, ◌&&◌,
}
use cuda_tile.Version.{version, version_le, version_ge, from_version}
use cuda_tile.Version.Order.{version_le_total_order}
use cuda_tile.Version.Supported.{from_version_lem}
use cuda_tile.Encoding.Writer.{new_writer, var_int, zigzag}
use cuda_tile.Encoding.Reader.{
  at, read_var_int, read_signed_var_int, read_le_var_size, skip_padding,
}
use cuda_tile.Encoding.VarInt.{
  read_var_int-var_int, read_var_int_takes, read_var_int-lt, var_int_minimal, read_var_int_drops,
}
use cuda_tile.Encoding.Fixed.{
  read_signed_var_int-zigzag, read_le_var_size-write_le_var_size, zigzag_small,
}
use cuda_tile.Encoding.Align.{skip_padding-align_to}
use cuda_tile.Encoding.Writer.{write_le_var_size, new_writer, align_to}
use cuda_tile.ApInt.{ApInt, write_ap_int, parse_ap_int}
use cuda_tile.ApInt.RoundTrip.{IsApInt, parse_ap_int-write_ap_int}

read_var_int-var_int_example :
    read_var_int (at 3 (var_int 300 ++ 7 ∷ [])) ≡ ok (300, at (3 + length (var_int 300)) (7 ∷ []))
read_var_int-var_int_example = read_var_int-var_int 300 3 (7 ∷ []) (omega arith)

-- 300 is read from two bytes.
three_hundred : read_var_int (at 0 (0xAC ∷ 2 ∷ 9 ∷ [])) ≡ ok (300, at 2 (9 ∷ []))
unfolding read_var_int
three_hundred = refl

read_var_int_takes_example : (2 + 1 ≡ 0 + 3) × (0 < 2) × (2 ≤ 0 + 10)
read_var_int_takes_example =
    read_var_int_takes 0 300 (0xAC ∷ 2 ∷ 9 ∷ []) (at 2 (9 ∷ [])) three_hundred

read_var_int-lt_example : 300 < 2 ^ 64
read_var_int-lt_example = read_var_int-lt 0 300 (0xAC ∷ 2 ∷ 9 ∷ []) (at 2 (9 ∷ [])) three_hundred

var_int_minimal_example : length (var_int 300) ≡ 2
var_int_minimal_example = var_int_minimal 1 300 (omega arith) (omega arith) (omega arith)

read_var_int_drops_example :
    read_var_int (at 0 ((255 ∷ 255 ∷ 255 ∷ 255 ∷ 255 ∷ 255 ∷ 255 ∷ 255 ∷ 255 ∷ []) ++ 127 ∷ 5 ∷ []))
    ≡ read_var_int (at 0 ((255 ∷ 255 ∷ 255 ∷ 255 ∷ 255 ∷ 255 ∷ 255 ∷ 255 ∷ 255 ∷ []) ++ 1 ∷ 5 ∷ []))
read_var_int_drops_example =
    read_var_int_drops (255 ∷ 255 ∷ 255 ∷ 255 ∷ 255 ∷ 255 ∷ 255 ∷ 255 ∷ 255 ∷ []) 0 127 (5 ∷ [])
      (
        omega arith,
        (
          omega arith,
          (
            omega arith,
            (
              omega arith,
              (omega arith, (omega arith, (omega arith, (omega arith, (omega arith, tt))))),
            ),
          ),
        ),
      )
      refl (omega arith)

-- -1, as a 64-bit pattern.
read_signed_var_int-zigzag_example :
    read_signed_var_int (at 0 (var_int (zigzag (2 ^ 64 - 1)) ++ 7 ∷ []))
    ≡ ok (2 ^ 64 - 1, at (0 + length (var_int (zigzag (2 ^ 64 - 1)))) (7 ∷ []))
read_signed_var_int-zigzag_example =
    read_signed_var_int-zigzag (2 ^ 64 - 1) 0 (7 ∷ []) (omega arith)

zigzag_small_example :
    (zigzag (2 ^ 64 - 3) < 128) ↔ ((2 ^ 64 - 3 < 64) ⊎ (2 ^ 64 - 64 ≤ 2 ^ 64 - 3))
zigzag_small_example = zigzag_small (2 ^ 64 - 3) (omega arith)

read_le_var_size-write_le_var_size_example :
    (bytes : List ℕ) × ((write_le_var_size 4 (70000 ∷ 3 ∷ []) (new_writer (5 ∷ []))).stream
      ≡ (5 ∷ []) ++ bytes)
    × ((o : ℕ) (rest : List ℕ)
        → read_le_var_size 4 (at o (bytes ++ rest))
          ≡ ok (70000 ∷ 3 ∷ [], at (o + length bytes) rest))
read_le_var_size-write_le_var_size_example =
    read_le_var_size-write_le_var_size 4 (70000 ∷ 3 ∷ []) (new_writer (5 ∷ []))
      (omega arith, (omega arith, tt)) (omega arith)

skip_padding-align_to_example :
    (bytes : List ℕ) × ((align_to 8 (new_writer (1 ∷ 2 ∷ []))).stream ≡ (1 ∷ 2 ∷ []) ++ bytes)
    × (length (align_to 8 (new_writer (1 ∷ 2 ∷ []))).stream % 8 ≡ 0)
    × ((rest : List ℕ)
        → 0 < length (bytes ++ rest)
        → skip_padding 8 (at 2 (bytes ++ rest))
          ≡ ok (at (length (align_to 8 (new_writer (1 ∷ 2 ∷ []))).stream) rest))
skip_padding-align_to_example = skip_padding-align_to 8 (new_writer (1 ∷ 2 ∷ [])) (omega arith)

abbrev large : ApInt
large = record { bit_width = 128; words = 5 ∷ 9 ∷ [] }

large-IsApInt : IsApInt large
large-IsApInt =
    (refl, omega arith, omega arith, (omega arith, (omega arith, tt)), λ h. absurd (omega arith))

parse_ap_int-write_ap_int_example :
    (bytes : _) × ((write_ap_int large (new_writer [])).stream ≡ [] ++ bytes)
    × ((o : _) (rest : _)
        → parse_ap_int 128 (at o (bytes ++ rest)) ≡ ok (large, at (o + length bytes) rest))
parse_ap_int-write_ap_int_example = parse_ap_int-write_ap_int large (new_writer []) large-IsApInt

version_le_total_order_example :
    (version_le (version 13 2 0) (version 13 2 0) ≡ true)
    × (version_le (version 13 1 0) (version 13 2 0) ≡ true
        → version_le (version 13 2 0) (version 13 4 0) ≡ true
        → version_le (version 13 1 0) (version 13 4 0) ≡ true)
    × ((version_le (version 13 1 0) (version 13 2 0) ≡ true)
        ⊎ (version_le (version 13 2 0) (version 13 1 0) ≡ true))
    × (version_le (version 13 1 0) (version 13 2 0) ≡ true
        → version_le (version 13 2 0) (version 13 1 0) ≡ true
        → version 13 1 0 ≡ version 13 2 0)
    × (version_ge (version 13 1 0) (version 13 2 0) ≡ version_le (version 13 2 0) (version 13 1 0))
version_le_total_order_example =
    version_le_total_order (version 13 1 0) (version 13 2 0) (version 13 4 0)

from_version_lem_example :
    from_version 13 5 0 ≡ (if 13 == 13 && (leb 1 5 && leb 5 4) then some (version 13 5 0) else none)
from_version_lem_example = from_version_lem 13 5 0

-- Two opcodes of 13.1, none of 13.2, and one of 13.3.
is_opcode_available_own_example :
    is_opcode_available
      ((13, 1) ∷ (13, 2) ∷ (13, 3) ∷ [])
      ((5, (13, 1)) ∷ (9, (13, 1)) ∷ (12, (13, 3)) ∷ [])
      12
      (13, 3)
    ≡ true
is_opcode_available_own_example =
    is_opcode_available_own ((13, 1) ∷ (13, 2) ∷ (13, 3) ∷ [])
      ((5, (13, 1)) ∷ (9, (13, 1)) ∷ (12, (13, 3)) ∷ []) 2 12 (13, 3) refl

growing :
    IsGrowing 0
      ((13, 1) ∷ (13, 2) ∷ (13, 3) ∷ [])
      ((5, (13, 1)) ∷ (9, (13, 1)) ∷ (12, (13, 3)) ∷ [])
unfolding max_opcode carried same_version
growing = (inr (omega arith), (inl refl, (inr (omega arith), tt)))

first_filled :
    get_elem?
      (fill 0 ((13, 1) ∷ (13, 2) ∷ (13, 3) ∷ []) ((5, (13, 1)) ∷ (9, (13, 1)) ∷ (12, (13, 3)) ∷ []))
      1
    ≡ some ((13, 2), 9)
unfolding fill max_opcode carried same_version
first_filled = refl

last_filled :
    get_elem?
      (fill 0 ((13, 1) ∷ (13, 2) ∷ (13, 3) ∷ []) ((5, (13, 1)) ∷ (9, (13, 1)) ∷ (12, (13, 3)) ∷ []))
      2
    ≡ some ((13, 3), 12)
unfolding fill max_opcode carried same_version
last_filled = refl

fill_monotone_example : 9 ≤ 12
fill_monotone_example =
    fill_monotone ((13, 1) ∷ (13, 2) ∷ (13, 3) ∷ [])
      ((5, (13, 1)) ∷ (9, (13, 1)) ∷ (12, (13, 3)) ∷ []) 0 1 2 9 12 (13, 2) (13, 3) growing
      (omega arith) first_filled last_filled
