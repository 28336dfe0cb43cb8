-- ===== src/Types.antt =====
-- The type section: `TypeManager` of lib/Bytecode/Writer/BytecodeWriter.cpp, and `parseTypeSection`
-- and `LazyTypeTable` of lib/Bytecode/Reader/BytecodeReader.cpp. What `serializeType` writes for a
-- type is a list of bytes; the generated code writes it, but for function types.
pub mod RoundTrip
pub mod Function
use cuda_tile.Base.{ℕ, zero, suc, ◌+◌, ◌-◌, ◌*◌, ◌/◌, ◌%◌, ◌^◌, List, [], ◌∷◌, ◌++◌, length, map}
use cuda_tile.Base.{
  take, drop, ltb, leb, ◌==◌, if◌then◌else◌, Bool, true, false, not, ◌||◌, get_elem?,
}
use cuda_tile.Base.{
  Outcome, ok, err, ◌>>=◌, ◌>>◌, guard, silent, Option, none, some, too_many_types,
}
use cuda_tile.Encoding.Writer.{Writer, write_var_int, new_writer}
use cuda_tile.Encoding.Reader.{
  Cursor, start, read_var_int, read_var_int_max, read_bytes, skip_padding, skip, remaining,
}
use cuda_tile.Section.Ids
use cuda_tile.Section.Header.{write_section}
use cuda_tile.Table.{write_table, le_groups}

-- The buffer of `writeTypeSection`: offsets are `uint32_t`.
unfoldable pub type_section : List (List ℕ) → Writer
type_section serialized = write_table 4 serialized

unfoldable pub write_type_section : List (List ℕ) → List ℕ → List ℕ
write_type_section serialized stream = write_section Ids.types (type_section serialized) stream

-- What `LazyTypeTable::initialize` stores.
pub record TypeTable : Type 0 where
  pub payload : List ℕ
  pub type_start_indices : List ℕ

-- The part of `parseTypeSection` for at least one type. `getCurrentPtr` is null at the end.
unfoldable pub parse_types : ℕ → Cursor → Outcome TypeTable
parse_types num_types c =
    guard (leb num_types (remaining c / 4)) too_many_types
    >> (skip_padding 4 c >>= λ c₁.
        guard (ltb 0 (remaining c₁)) silent
        >> (skip (num_types * 4) c₁ >>= λ c₂.
            ok (record { payload = c₂.rest; type_start_indices = le_groups 4 num_types c₁.rest })))

unfoldable pub parse_type_section : List ℕ → Outcome TypeTable
parse_type_section payload = do
  (num_types, c) ← read_var_int (start payload)
  if num_types == 0
      then ok (record { payload = []; type_start_indices = [] })
      else parse_types num_types c

-- Where a type ends, for the next index if there is one: a 32-bit number.
unfoldable pub type_end : TypeTable → Option ℕ → ℕ
type_end t (some next) = next
type_end t none = length t.payload % 2 ^ 32

-- The check of the boundaries, the tag, which `parseTypeImpl` takes as a `uint8_t`, and the rest of
-- the bytes, for a type that starts at `first`.
unfoldable pub type_at : TypeTable → ℕ → ℕ → Outcome (ℕ × List ℕ)
type_at t first last =
    if ltb last first || ltb (length t.payload) last
    then err silent
    else (read_var_int (start (take (last - first) (drop first t.payload))) >>= λ (type_tag, c).
        ok (type_tag % 256, c.rest))

unfoldable pub type_from : TypeTable → Option ℕ → ℕ → Outcome (ℕ × List ℕ)
type_from t none last = err silent
type_from t (some first) last = type_at t first last

-- `getType` for a type that is not cached, up to the call of `parseTypeImpl`: its tag and payload.
unfoldable pub get_type_bytes : TypeTable → ℕ → Outcome (ℕ × List ℕ)
get_type_bytes t type_index =
    type_from t (get_elem? t.type_start_indices type_index)
      (type_end t (get_elem? t.type_start_indices (type_index + 1)))
