-- ===== src/Section/Header.antt =====
-- The file header and the section headers: `writeHeader` and `writeSectionHeader` of
-- lib/Bytecode/Writer/BytecodeWriter.cpp, `parseHeader` and `parseSectionHeader` of
-- lib/Bytecode/Reader/BytecodeReader.cpp.
use cuda_tile.Base.{ℕ, ◌+◌, ◌%◌, Bool, true, false, not, ◌||◌, List, [], ◌∷◌, ◌++◌, length}
use cuda_tile.Base.{Option, none, some, ltb, leb, ◌==◌, if◌then◌else◌}
use cuda_tile.Base.{
  Outcome, ok, err, ◌>>=◌, or_err, truncated_magic, bad_magic, bad_version, unsupported_version,
}
use cuda_tile.Base.{end_of_header, end_has_alignment, unknown_section, bad_length, bad_alignment}
use cuda_tile.Version.{Version, version_lt, from_version, min_supported_version}
use cuda_tile.Section.Ids
use cuda_tile.Encoding.Writer.{
  Writer, new_writer, write, write_byte, write_le, write_var_int, align_to,
}
use cuda_tile.Encoding.Reader.{Cursor, read_le, read_var_int, remaining, skip_padding}

-- `kTileIRBytecodeMagic`: 0x7F, 'T', 'i', 'l', 'e', 'I', 'R', 0.
abbrev pub magic : List ℕ
magic = 0x7F ∷ b'T' ∷ b'i' ∷ b'l' ∷ b'e' ∷ b'I' ∷ b'R' ∷ 0 ∷ []

-- `writeHeader`, on an output stream that holds `stream`.
unfoldable pub write_header : Version → List ℕ → Outcome (List ℕ)
write_header v stream =
    if version_lt v min_supported_version
    then err unsupported_version
    else let w₁ = write magic (new_writer stream) in
      let w₂ = write_le 1 v.major w₁ in
      let w₃ = write_le 1 v.minor w₂ in let w₄ = write_le 2 v.tag w₃ in ok w₄.stream

-- The loop of `parseHeader` over the magic number.
unfoldable pub parse_magic : List ℕ → Cursor → Outcome Cursor
parse_magic [] c = ok c
parse_magic (expected ∷ more) c = do
  (byte, c') ← or_err truncated_magic (read_le 1 c)
  let rest = parse_magic more c'
  if byte == expected then rest else err bad_magic

-- The check on the result of `fromVersion`.
unfoldable pub check_version : Option Version → Cursor → Outcome (Version × Cursor)
check_version none c = err bad_version
check_version (some v) c = if version_lt v min_supported_version then err bad_version else ok (v, c)

unfoldable pub parse_header : Cursor → Outcome (Version × Cursor)
parse_header c = do
  c₁ ← parse_magic magic c
  (major, c₂) ← read_le 1 c₁
  (minor, c₃) ← read_le 1 c₂
  (tag, c₄) ← read_le 2 c₃
  check_version (from_version major minor tag) c₄

-- `writeSectionHeader`; `sectionID & 0x7F` is `id % 128`.
unfoldable pub write_section_header : ℕ → ℕ → ℕ → List ℕ → List ℕ
write_section_header id count alignment stream =
    let flag = if ltb 1 alignment then 128 else 0 in
    let w₁ = write_byte (id % 128 + flag) (new_writer stream) in
    let w₂ = write_var_int count w₁ in
    let w₃ = if ltb 1 alignment then align_to alignment (write_var_int alignment w₂) else w₂ in
    w₃.stream

-- `writeSectionHeader(stream, id, buffer.size(), w.getRequiredAlignment())` and then the buffer: how
-- each section writer ends.
unfoldable pub write_section : ℕ → Writer → List ℕ → List ℕ
write_section id w stream =
    write_section_header id (length w.stream) w.required_alignment stream ++ w.stream

pub record SectionHeader : Type 0 where
  pub section_id : ℕ
  pub count : ℕ
  pub has_alignment : Bool
  pub alignment : ℕ

-- `llvm::isPowerOf2_64` is LLVM's.
module _ (is_power_of_2 : ℕ → Bool) where
  -- The part of `parseSectionHeader` under `if (header.hasAlignment)`.
  unfoldable pub parse_alignment : ℕ → ℕ → Cursor → Outcome (SectionHeader × Cursor)
  parse_alignment id count c = do
    (alignment, c') ← read_var_int c
    if alignment == 0 || not (is_power_of_2 alignment)
        then err bad_alignment
        else skip_padding alignment c' >>= λ c''. ok (
          record { section_id = id; count = count; has_alignment = true; alignment = alignment },
          c'',
        )

  unfoldable pub parse_section_body : ℕ → Bool → Cursor → Outcome (SectionHeader × Cursor)
  parse_section_body id has_alignment c = do
    (count, c') ← or_err bad_length (read_var_int c)
    if ltb (remaining c') count
        then err bad_length
        else if has_alignment
        then parse_alignment id count c'
        else ok
            (record { section_id = id; count = count; has_alignment = false; alignment = 1 }, c')

  -- What follows the first byte.
  unfoldable pub parse_section_id : ℕ → Cursor → Outcome (SectionHeader × Cursor)
  parse_section_id byte c =
      let id = byte % 128 in
      if id == Ids.end_of_bytecode
      then (if leb 128 byte
          then err end_has_alignment
          else ok (record { section_id = id; count = 0; has_alignment = false; alignment = 1 }, c))
      else if leb Ids.num_sections id
      then err unknown_section
      else parse_section_body id (leb 128 byte) c

  unfoldable pub parse_section_header : Cursor → Outcome (SectionHeader × Cursor)
  parse_section_header c =
      if ltb (remaining c) 1
      then err end_of_header
      else read_le 1 c >>= λ p. parse_section_id p.0 p.1
