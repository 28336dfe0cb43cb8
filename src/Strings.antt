-- ===== src/Strings.antt =====
-- The string section: `StringManager` of lib/Bytecode/Writer/BytecodeWriter.cpp and
-- `parseStringSection` of lib/Bytecode/Reader/BytecodeReader.cpp. A string is its list of bytes.
pub mod RoundTrip
use cuda_tile.Base.{ℕ, ◌+◌, ◌-◌, ◌*◌, ◌/◌, List, [], ◌∷◌, length, map, ltb, ◌==◌, if◌then◌else◌}
use cuda_tile.Base.{Outcome, ok, err, ◌>>=◌, ◌>>◌, guard, silent, too_many_strings, leb}
use cuda_tile.Encoding.Writer.{Writer}
use cuda_tile.Encoding.Reader.{
  Cursor, StringTable, start, read_var_int, skip_padding, skip, remaining,
}
use cuda_tile.MapVector.{get_index, bytes_instance}
use cuda_tile.Section.Ids
use cuda_tile.Section.Header.{write_section}
use cuda_tile.Table.{write_table, le_groups}

-- `StringManager::stringIndexMap`
abbrev pub StringManager : Type 0
StringManager = List (List ℕ × ℕ)

unfoldable pub get_string_index : List ℕ → StringManager → ℕ × StringManager
get_string_index str manager = get_index str manager

-- The buffer of `writeStringSection`: offsets are `uint32_t`.
unfoldable pub string_section : StringManager → Writer
string_section manager = write_table 4 (map (λ p. p.0) manager)

unfoldable pub write_string_section : StringManager → List ℕ → List ℕ
write_string_section manager stream = write_section Ids.string (string_section manager) stream

-- The part of `parseStringSection` for at least one string. `getCurrentPtr` is null at the end.
unfoldable pub parse_strings : ℕ → Cursor → Outcome StringTable
parse_strings num_strings c =
    guard (leb num_strings (remaining c / 4)) too_many_strings
    >> (skip_padding 4 c >>= λ c₁.
        guard (ltb 0 (remaining c₁)) silent
        >> (skip (num_strings * 4) c₁ >>= λ c₂.
            ok
              (record { string_data = c₂.rest; string_offsets = le_groups 4 num_strings c₁.rest })))

unfoldable pub parse_string_section : List ℕ → Outcome StringTable
parse_string_section payload = do
  (num_strings, c) ← read_var_int (start payload)
  if num_strings == 0
      then ok (record { string_data = []; string_offsets = [] })
      else parse_strings num_strings c
