-- ===== src/Debug/Lookup.antt =====
-- The lookups of `DebugInfoReader` in a section that was written.
use cuda_tile.Table.Entries.{
  bytes_before, bytes_before-suc, slice-entry, offset-entry, end-entry, get_elem?-concat,
}
use cuda_tile.Base.{
  ℕ, suc, ◌+◌, ◌-◌, ◌%◌, ◌^◌, ◌<◌, ◌≡◌, arith, inl, inr, List, ◌++◌, length, concat, get_elem?,
  some, ltb-false, ==_false, ok, All,
}
use cuda_tile.Encoding.Writer.{var_int}
use cuda_tile.Encoding.VarInt.{read_var_int-start}
use cuda_tile.Table.Layout.{offsets_from}
use native.Mathlib.Nat.{mod-eq_of_lt}
use cuda_tile.Debug.{
  DebugInfo, debug_section_buffer, parse_debug_section, reserved_size, next_index, next_index_from,
  info_end, info_at, info_from, get_debug_info_bytes,
}
use cuda_tile.Debug.RoundTrip.{parse_debug_section-debug_section_buffer}

-- What the reader holds after parsing.
abbrev pub info_of : List (List ℕ) → List (List ℕ) → DebugInfo
info_of indices serialized = record {
  di_indices = concat indices;
  di_index_offsets = offsets_from 4 0 indices;
  di_data = concat serialized;
  di_offsets = offsets_from 4 0 serialized;
}

next_index-info_of :
    (indices serialized : List (List ℕ)) (i j x : ℕ) (entry : List ℕ)
    → length (concat indices) < 2 ^ 32 - 1
    → get_elem? indices i ≡ some entry
    → get_elem? entry j ≡ some x
    → next_index (info_of indices serialized) (i + reserved_size) j ≡ some (x, suc j)
unfolding next_index next_index_from
next_index-info_of indices serialized i j x entry fits is_entry is_x =
    let position : i + 1 - 1 ≡ i = omega arith in
    let (next, within) = bytes_before-suc indices i entry is_entry in
    let at_zero : 0 + bytes_before indices i ≡ bytes_before indices i = omega arith in
    rw (
      ==_false (i + 1) 0 (omega arith),
      position,
      offset-entry 4 indices i 0 entry is_entry (omega arith),
      at_zero,
      ltb-false (2 ^ 32 - 1 - 1) (length (concat indices)) (omega arith),
      ltb-false (2 ^ 32 - 1 - 1) (bytes_before indices i) (omega arith),
      get_elem?-concat indices i j x entry is_entry is_x,
    )

info_end-info_of :
    (indices serialized : List (List ℕ)) (i : ℕ) (s : List ℕ)
    → length (concat serialized) < 2 ^ 32
    → get_elem? serialized i ≡ some s
    → info_end (info_of indices serialized) (get_elem? (offsets_from 4 0 serialized) (suc i))
      ≡ bytes_before serialized i + length s
unfolding info_end
info_end-info_of indices serialized i s fits is_s =
    elim (end-entry 4 serialized i 0 s is_s (omega arith)) [
      | inl next ↦ rw next (omega arith)
      | inr (last, whole) ↦ rw (last, mod-eq_of_lt fits) (omega arith)
    ]

get_debug_info_bytes-info_of :
    (indices serialized : List (List ℕ)) (i tag : ℕ) (payload : List ℕ)
    → length (concat serialized) < 2 ^ 32
    → tag < 2 ^ 64
    → get_elem? serialized i ≡ some (var_int tag ++ payload)
    → get_debug_info_bytes (info_of indices serialized) (i + reserved_size)
      ≡ ok (tag % 256, payload)
unfolding get_debug_info_bytes info_from info_at
get_debug_info_bytes-info_of indices serialized i tag payload fits tag_fits is_info =
    let bytes : List ℕ = var_int tag ++ payload in
    let (next, within) = bytes_before-suc serialized i bytes is_info in
    let before : ℕ = bytes_before serialized i in
    let size : before + length bytes - before ≡ length bytes = omega arith in
    let at_zero : 0 + before ≡ before = omega arith in
    let position : i + 1 - 1 ≡ i = omega arith in
    let next_position : i + 1 ≡ suc i = omega arith in
    rw (
      position,
      next_position,
      offset-entry 4 serialized i 0 bytes is_info (omega arith),
      info_end-info_of indices serialized i bytes fits is_info,
      at_zero,
      ltb-false (before + length bytes) before (omega arith),
      ltb-false (length (concat serialized)) (before + length bytes) (omega arith),
      size,
      slice-entry serialized i bytes is_info,
      read_var_int-start tag payload tag_fits,
    )

-- A section that was written parses, if there is some attribute, there are less than 2^64 operations
-- and attributes and less than 2^32 - 1 indices, the indices are 64-bit, and the attributes take less
-- than 2^32 bytes. Then the calls of `next` for an operation give its indices in their order, and
-- the lookup of an attribute gives the low byte of the tag, and the data that were written for it.
pub debug_lookups :
    (indices serialized : List (List ℕ))
    → length indices < 2 ^ 64
    → length (concat indices) < 2 ^ 32 - 1
    → All (λ v. v < 256 ^ 8) (concat indices)
    → 0 < length serialized
    → length serialized < 2 ^ 64
    → length (concat serialized) < 2 ^ 32
    → (d : DebugInfo) × (parse_debug_section (debug_section_buffer indices serialized).stream
        ≡ ok d)
      × ((i j x : ℕ) (entry : List ℕ)
          → get_elem? indices i ≡ some entry
          → get_elem? entry j ≡ some x
          → next_index d (i + reserved_size) j ≡ some (x, suc j))
      × ((i tag : ℕ) (payload : List ℕ)
          → tag < 2 ^ 64
          → get_elem? serialized i ≡ some (var_int tag ++ payload)
          → get_debug_info_bytes d (i + reserved_size) ≡ ok (tag % 256, payload))
debug_lookups indices serialized few fits words some_info few' room = (
  info_of indices serialized,
  parse_debug_section-debug_section_buffer indices serialized few (omega arith) words some_info
      few',
  λ i j x entry is_entry is_x. next_index-info_of indices serialized i j x entry fits is_entry is_x,
  λ i tag payload tag_fits is_info.
      get_debug_info_bytes-info_of indices serialized i tag payload room tag_fits is_info,
)
