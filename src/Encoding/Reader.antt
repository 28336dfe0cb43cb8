-- ===== src/Encoding/Reader.antt =====
-- `EncodingReader` of lib/Bytecode/Reader/BytecodeReader.cpp. Its four fields are two records here:
-- `Cursor` is `data` and `offset`, and `StringTable` is `stringData` and `stringOffsets`, which no
-- read changes. A read only moves forward, so a cursor holds the offset and the bytes
-- `data[offset], data[offset + 1], ...`; `data.size()` is `offset + length rest`.
use cuda_tile.Base.{ℕ, zero, suc, ◌+◌, ◌-◌, ◌*◌, ◌/◌, ◌%◌, ◌^◌}
use cuda_tile.Base.{◌&&◌, not, List, [], ◌∷◌, length, take, drop, get_elem?}
use cuda_tile.Base.{Option, none, some, ltb, ◌==◌, if◌then◌else◌, padding}
use cuda_tile.Base.{silent, varint_exceeds, array_too_large, string_index}
use cuda_tile.Base.{Outcome, ok, err, ◌>>=◌}

pub record Cursor : Type 0 where
  pub offset : ℕ
  pub rest : List ℕ

abbrev pub at : ℕ → List ℕ → Cursor
at o bytes = record { offset = o; rest = bytes }

-- A reader over a payload.
abbrev pub start : List ℕ → Cursor
start = at 0

abbrev pub remaining : Cursor → ℕ
remaining c = length c.rest

-- `data.size()`
abbrev pub size : Cursor → ℕ
size c = c.offset + length c.rest

-- The `do` loop of `readVarInt`. `shift > 63` fails; `value << shift` loses what passes bit 63.
-- The bits of `result` below `shift` are the only ones set, so `|=` is an addition.
unfoldable pub read_var_int_loop : ℕ → ℕ → ℕ → List ℕ → Outcome (ℕ × Cursor)
read_var_int_loop offset shift result [] = err silent
read_var_int_loop offset shift result (byte ∷ bytes) =
    let result' = result + byte % 128 * 2 ^ shift % 2 ^ 64 in
    let more = read_var_int_loop (offset + 1) (shift + 7) result' bytes in
    if ltb 63 shift
    then err silent
    else if ltb byte 128
    then ok (result', at (offset + 1) bytes)
    else more

-- `readVarInt(result, max)`; a `max` of 0 checks nothing.
unfoldable pub read_var_int_max : ℕ → Cursor → Outcome (ℕ × Cursor)
unfolding read_var_int_loop
read_var_int_max limit c = do
  (result, c') ← read_var_int_loop c.offset 0 0 c.rest
  if not (limit == 0) && ltb limit result then err varint_exceeds else ok (result, c')

unfoldable pub read_var_int : Cursor → Outcome (ℕ × Cursor)
unfolding read_var_int_max
read_var_int = read_var_int_max 0

-- `(result >> 1) ^ (~(result & 1) + 1)`: the second operand is 0 or all ones.
unfoldable pub unzigzag : ℕ → ℕ
unzigzag result = if result % 2 == 0 then result / 2 else 2 ^ 64 - 1 - result / 2

unfoldable pub read_signed_var_int : Cursor → Outcome (ℕ × Cursor)
unfolding read_var_int unzigzag
read_signed_var_int c = do (result, c') ← read_var_int c; ok (unzigzag result, c')

-- The value of `bytes`, lowest byte first.
unfoldable pub le_value : List ℕ → ℕ
le_value [] = 0
le_value (b ∷ bytes) = b + 256 * le_value bytes

-- `readLE(T &value)` for `sizeof(T) = n`.
unfoldable pub read_le : ℕ → Cursor → Outcome (ℕ × Cursor)
unfolding le_value
read_le n c =
    if ltb (size c) (c.offset + n)
    then err silent
    else ok (le_value (take n c.rest), at (c.offset + n) (drop n c.rest))

-- The loop of `readLE(size_t count, SmallVectorImpl<T> &result)`, which reads `count` values.
unfoldable pub read_le_values : ℕ → ℕ → Cursor → Outcome (List ℕ × Cursor)
unfolding read_le
read_le_values n zero c = ok ([], c)
read_le_values n (suc count) c = do
  (v, c₁) ← read_le n c
  (vs, c₂) ← read_le_values n count c₁
  ok (v ∷ vs, c₂)

unfoldable pub read_le_array : ℕ → ℕ → Cursor → Outcome (List ℕ × Cursor)
unfolding read_le_values
read_le_array n count c =
    if ltb (2 ^ 32 - 2) count then err array_too_large else read_le_values n count c

unfoldable pub read_le_var_size : ℕ → Cursor → Outcome (List ℕ × Cursor)
unfolding read_var_int read_le_array
read_le_var_size n c = do (count, c') ← read_var_int c; read_le_array n count c'

unfoldable pub skip : ℕ → Cursor → Outcome Cursor
skip bytes c =
    if ltb (size c - c.offset) bytes
    then err silent
    else ok (at (c.offset + bytes) (drop bytes c.rest))

unfoldable pub read_bytes : ℕ → Cursor → Outcome (List ℕ × Cursor)
read_bytes count c =
    if ltb (size c - c.offset) count
    then err silent
    else ok (take count c.rest, at (c.offset + count) (drop count c.rest))

unfoldable pub skip_padding : ℕ → Cursor → Outcome Cursor
unfolding skip
skip_padding alignment c =
    if ltb alignment 2
    then ok c
    else if remaining c == 0
    then err silent
    else if ltb (remaining c) (padding c.offset alignment)
    then err silent
    else skip (padding c.offset alignment) c

pub record StringTable : Type 0 where
  pub string_data : List ℕ
  pub string_offsets : List ℕ

-- `StringRef::substr(start, n)`: both are cut to what the string has.
abbrev pub substr : List ℕ → ℕ → ℕ → List ℕ
substr text first count = take count (drop first text)

-- Where a string ends: at the next offset, if there is one, or at the end of the data.
unfoldable pub string_end : StringTable → Option ℕ → ℕ
string_end t (some next) = next
string_end t none = length t.string_data % 2 ^ 32

-- The string between two offsets. Offsets are 32-bit, and so is the difference `end - start`.
unfoldable pub string_from : StringTable → Option ℕ → ℕ → Outcome (List ℕ)
string_from t none last = err string_index
string_from t (some first) last = ok (substr t.string_data first ((last + 2 ^ 32 - first) % 2 ^ 32))

unfoldable pub get_string : StringTable → ℕ → Outcome (List ℕ)
unfolding string_end string_from
get_string t index =
    string_from t (get_elem? t.string_offsets index)
      (string_end t (get_elem? t.string_offsets (index + 1)))

unfoldable pub read_and_get_string : StringTable → Cursor → Outcome (List ℕ × Cursor)
unfolding read_var_int get_string
read_and_get_string t c = do (index, c') ← read_var_int c; text ← get_string t index; ok (text, c')
