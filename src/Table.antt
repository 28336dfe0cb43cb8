-- ===== src/Table.antt =====
-- The layout that the string, type and constant sections share: a count, padding, a table of offsets
-- and the concatenated data. `writeStringSection`, `writeTypeSection` and `writeConstantSection` of
-- lib/Bytecode/Writer/BytecodeWriter.cpp each write it by the same steps: room is reserved for the
-- table, the data follow, and the offsets are copied into the room.
pub mod Entries
pub mod Layout
use cuda_tile.Base.{ℕ, zero, suc, ◌+◌, ◌*◌, ◌%◌, ◌^◌, List, [], ◌∷◌, ◌++◌, length, take, drop}
use cuda_tile.Encoding.Writer.{
  Writer, new_writer, write, write_le, write_var_int, align_to, tell, le_array,
}
use cuda_tile.Encoding.Reader.{le_value}

-- `for (i = 0; i < n; ++i) writer.writeLE<T>(0)`
unfoldable pub reserve : ℕ → ℕ → Writer → Writer
reserve size zero w = w
reserve size (suc n) w = reserve size n (write_le size 0 w)

-- The loop over the data: `running`, of `size` bytes, is recorded before each entry. The offsets so
-- far are `offsets`.
unfoldable pub write_entries : ℕ → ℕ → List ℕ → List (List ℕ) → Writer → List ℕ × Writer
write_entries size running offsets [] w = (offsets, w)
write_entries size running offsets (entry ∷ entries) w =
    write_entries size ((running + length entry) % 256 ^ size) (offsets ++ running ∷ []) entries
      (write entry w)

-- `std::copy_n(source, ..., buffer.data() + position)`
unfoldable pub copy_n : List ℕ → ℕ → List ℕ → List ℕ
copy_n source position buffer =
    take position buffer ++ (source ++ drop (position + length source) buffer)

-- The count, the padding, the offsets and the data, behind what `w` holds. `alignof(T)` is
-- `sizeof(T)` for the types of the offsets.
unfoldable pub write_table_at : ℕ → List (List ℕ) → Writer → Writer
write_table_at size entries w =
    let w₁ = write_var_int (length entries) w in
    let w₂ = align_to size w₁ in
    let position = tell w₂ in
    let w₃ = reserve size (length entries) w₂ in
    let (offsets, w₄) = write_entries size 0 [] entries w₃ in
    record w₄ { stream = copy_n (le_array size offsets) position w₄.stream }

-- The whole buffer of a section.
unfoldable pub write_table : ℕ → List (List ℕ) → Writer
write_table size entries = write_table_at size entries (new_writer [])

-- `ArrayRef<T>(pointer, count)` over bytes, on a little-endian host.
unfoldable pub le_groups : ℕ → ℕ → List ℕ → List ℕ
le_groups size zero bytes = []
le_groups size (suc count) bytes =
    le_value (take size bytes) ∷ le_groups size count (drop size bytes)
