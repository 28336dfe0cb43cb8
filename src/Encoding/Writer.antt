-- ===== src/Encoding/Writer.antt =====
-- `EncodingWriter` of lib/Bytecode/Writer/BytecodeWriter.cpp. The stream is the list of the bytes
-- written so far, so `tell` is its length. `value & 0x7F` is `value % 128`, `value >>= 7` is
-- `value / 128`, and `byte |= 0x80` is `byte + 128`, since bit 7 of `byte` is clear.
use cuda_tile.Base.{ℕ, zero, suc, ◌+◌, ◌-◌, ◌*◌, ◌/◌, ◌%◌, ◌^◌, max}
use cuda_tile.Base.{List, [], ◌∷◌, ◌++◌, length, replicate, ltb, ◌==◌, if◌then◌else◌, padding}

pub record Writer : Type 0 where
  pub stream : List ℕ
  pub required_alignment : ℕ

abbrev pub new_writer : List ℕ → Writer
new_writer stream = record { stream = stream; required_alignment = 1 }

-- `stream.write(data, size)`
abbrev pub write : List ℕ → Writer → Writer
write bytes w = record w { stream = w.stream ++ bytes }

abbrev pub tell : Writer → ℕ
tell w = length w.stream

abbrev pub write_byte : ℕ → Writer → Writer
write_byte b = write (b ∷ [])

-- The `do` loop over `bytes[10]`: `rounds` is `sizeof(bytes) - index`.
unfoldable pub var_int_loop : ℕ → ℕ → List ℕ
var_int_loop zero value = []
var_int_loop (suc rounds) value =
    let rest = var_int_loop rounds (value / 128) in
    if value / 128 == 0 then value % 128 ∷ [] else (value % 128 + 128) ∷ rest

unfoldable pub var_int : ℕ → List ℕ
unfolding var_int_loop
var_int value = var_int_loop 10 value

abbrev pub write_var_int : ℕ → Writer → Writer
write_var_int value = write (var_int value)

-- `(value << 1) ^ (uint64_t)((int64_t)value >> 63)`: the second operand is 0, or all ones for a
-- value with the sign bit set; `x ^ ~0` is `2^64 - 1 - x`.
unfoldable pub zigzag : ℕ → ℕ
zigzag value =
    let doubled = value * 2 % 2 ^ 64 in if ltb value (2 ^ 63) then doubled else 2 ^ 64 - 1 - doubled

abbrev pub write_signed_var_int : ℕ → Writer → Writer
write_signed_var_int value = write_var_int (zigzag value)

-- `writeLE<T>` for `sizeof(T) = size`: one round per byte, lowest byte first.
unfoldable pub le_bytes : ℕ → ℕ → List ℕ
le_bytes zero value = []
le_bytes (suc size) value = value % 256 ∷ le_bytes size (value / 256)

abbrev pub write_le : ℕ → ℕ → Writer → Writer
write_le size value = write (le_bytes size value)

-- `writeLE(ArrayRef<T>)`
unfoldable pub le_array : ℕ → List ℕ → List ℕ
le_array size [] = []
le_array size (v ∷ vs) = le_bytes size v ++ le_array size vs

-- `writeLEVarSize(ArrayRef<T>)`
abbrev pub write_le_var_size : ℕ → List ℕ → Writer → Writer
write_le_var_size size values w = write (le_array size values) (write_var_int (length values) w)

-- `Bytecode::kAlignmentByte`
abbrev pub alignment_byte : ℕ
alignment_byte = 0xCB

unfoldable pub align_to : ℕ → Writer → Writer
align_to alignment w = if ltb alignment 2 then w else record w {
  stream = w.stream ++ replicate (padding (tell w) alignment) alignment_byte;
  required_alignment = max w.required_alignment alignment;
}
