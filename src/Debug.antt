-- ===== src/Debug.antt =====
-- The debug section: `DebugInfoWriter::writeDebugInfoSection` of
-- lib/Bytecode/Writer/BytecodeWriter.cpp, and `parseDebugSection` and the lookups of
-- `DebugInfoReader` of lib/Bytecode/Reader/BytecodeReader.cpp.
pub mod Arrays
pub mod RoundTrip
pub mod Lookup
use cuda_tile.Base.{ℕ, zero, suc, ◌+◌, ◌-◌, ◌*◌, ◌/◌, ◌%◌, ◌^◌, List, [], ◌∷◌, ◌++◌, length}
use cuda_tile.Base.{
  take, drop, ltb, leb, ◌==◌, if◌then◌else◌, Bool, true, false, not, ◌||◌, get_elem?,
}
use cuda_tile.Base.{
  Outcome, ok, err, ◌>>=◌, ◌>>◌, guard, or_err, silent, Option, none, some, debug_section,
}
use cuda_tile.Encoding.Writer.{
  Writer, write, write_var_int, write_le, new_writer, align_to, le_array,
}
use cuda_tile.Encoding.Reader.{Cursor, start, read_var_int, skip_padding, skip, remaining}
use cuda_tile.Section.Ids
use cuda_tile.Section.Header.{write_section}
use cuda_tile.Table.{write_table_at, le_groups}

-- `DebugReserved::UnknownLoc` and `DebugReserved::SIZE`
abbrev pub unknown_loc : ℕ
unknown_loc = 0

abbrev pub reserved_size : ℕ
reserved_size = 1

-- The loop that writes each operation's offset into the indices; `offset` is a `uint32_t`.
unfoldable pub write_index_offsets : ℕ → List (List ℕ) → Writer → ℕ × Writer
write_index_offsets offset [] w = (offset, w)
write_index_offsets offset (indices ∷ rest) w =
    write_index_offsets ((offset + length indices) % 2 ^ 32) rest (write_le 4 offset w)

-- The loops that write the indices of all operations.
unfoldable pub write_indices : List (List ℕ) → Writer → Writer
write_indices [] w = w
write_indices (indices ∷ rest) w = write_indices rest (write (le_array 8 indices) w)

-- The buffer of `writeDebugInfoSection`, for `debuginfoIndices` and what `serializeDebugInfo` writes
-- for each attribute of `debuginfoList`.
unfoldable pub debug_section_buffer : List (List ℕ) → List (List ℕ) → Writer
debug_section_buffer debuginfo_indices serialized =
    let w₁ = align_to 4 (write_var_int (length debuginfo_indices) (new_writer [])) in
    let (offset, w₂) = write_index_offsets 0 debuginfo_indices w₁ in
    let w₃ = align_to 8 (write_var_int offset w₂) in
    write_table_at 4 serialized (write_indices debuginfo_indices w₃)

unfoldable pub write_debug_info_section : List (List ℕ) → List (List ℕ) → List ℕ → List ℕ
write_debug_info_section [] [] stream = stream
write_debug_info_section [] (d ∷ serialized) stream =
    write_section Ids.debug (debug_section_buffer [] (d ∷ serialized)) stream
write_debug_info_section (o ∷ debuginfo_indices) serialized stream =
    write_section Ids.debug (debug_section_buffer (o ∷ debuginfo_indices) serialized) stream

-- What `DebugInfoReader::initialize` stores.
pub record DebugInfo : Type 0 where
  pub di_indices : List ℕ
  pub di_index_offsets : List ℕ
  pub di_data : List ℕ
  pub di_offsets : List ℕ

-- A count and an array of that many values of `size` bytes: the offsets of the operations, where
-- `size` is 4, and the indices, where it is 8.
unfoldable pub debug_array : ℕ → Cursor → Outcome (List ℕ × Cursor)
debug_array size c = do
  (num, c₁) ← or_err debug_section (read_var_int c)
  c₂ ← or_err debug_section (skip_padding size c₁)
  guard (leb num (remaining c₂ / size)) debug_section
      >> (guard (ltb 0 (remaining c₂)) debug_section
          >> (or_err debug_section (skip (num * size) c₂) >>= λ c₃.
              ok (le_groups size num c₂.rest, c₃)))

-- The offsets of the attributes, whose count is checked before the padding is skipped, and the data.
unfoldable pub debug_offsets : Cursor → Outcome (List ℕ × List ℕ)
debug_offsets c = do
  (num, c₁) ← or_err debug_section (read_var_int c)
  guard (leb num (remaining c₁ / 4)) debug_section
      >> (or_err debug_section (skip_padding 4 c₁) >>= λ c₂.
          guard (ltb 0 (remaining c₂)) debug_section
          >> (or_err debug_section (skip (num * 4) c₂) >>= λ c₃.
              ok (le_groups 4 num c₂.rest, c₃.rest)))

unfoldable pub parse_debug_section : List ℕ → Outcome DebugInfo
parse_debug_section payload = do
  (index_offsets, c₁) ← debug_array 4 (start payload)
  (indices, c₂) ← debug_array 8 c₁
  (offsets, bytes) ← debug_offsets c₂
  ok (record {
    di_indices = indices;
    di_index_offsets = index_offsets;
    di_data = bytes;
    di_offsets = offsets;
  })

-- The index that `Iterator::next` takes the attribute of, for an operation that is not reserved, when
-- it was called `op_index_offset` times before; the state after it is one call more.
unfoldable pub next_index_from : DebugInfo → Option ℕ → ℕ → Option (ℕ × ℕ)
next_index_from d none op_index_offset = none
next_index_from d (some offset) op_index_offset =
    if ltb (2 ^ 32 - 1 - 1) (length d.di_indices) || ltb (2 ^ 32 - 1 - 1) offset
    then none
    else elim (get_elem? d.di_indices (offset + op_index_offset)) [
      | none ↦ none
      | some index ↦ some (index, suc op_index_offset)
    ]

-- An operation's index, in `next`: `none` is an empty attribute.
unfoldable pub next_index : DebugInfo → ℕ → ℕ → Option (ℕ × ℕ)
next_index d op_index op_index_offset =
    if op_index == unknown_loc
    then some (unknown_loc, op_index_offset)
    else next_index_from d (get_elem? d.di_index_offsets (op_index - reserved_size)) op_index_offset

-- Where the bytes of an attribute end; a 32-bit number.
unfoldable pub info_end : DebugInfo → Option ℕ → ℕ
info_end d (some next) = next
info_end d none = length d.di_data % 2 ^ 32

-- The check of the boundaries, the tag, which `parseDebugInfo` takes as a `uint8_t`, and the rest of
-- the bytes.
unfoldable pub info_at : DebugInfo → ℕ → ℕ → Outcome (ℕ × List ℕ)
info_at d first last =
    if ltb last first || ltb (length d.di_data) last
    then err silent
    else (read_var_int (start (take (last - first) (drop first d.di_data))) >>= λ (di_tag, c).
        ok (di_tag % 256, c.rest))

unfoldable pub info_from : DebugInfo → Option ℕ → ℕ → Outcome (ℕ × List ℕ)
info_from d none last = err silent
info_from d (some first) last = info_at d first last

-- `getDebugInfo(diIndex)` for an attribute that is neither reserved nor cached, up to the call of
-- `parseDebugInfo`: its tag and its data.
unfoldable pub get_debug_info_bytes : DebugInfo → ℕ → Outcome (ℕ × List ℕ)
get_debug_info_bytes d di_index =
    let position = di_index - reserved_size in
    info_from d (get_elem? d.di_offsets position)
      (info_end d (get_elem? d.di_offsets (position + 1)))
