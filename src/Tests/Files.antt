-- ===== src/Tests/Files.antt =====
-- A whole file with an empty function table and no strings, byte for byte.
use cuda_tile.Base.{
  ◌≢◌, err, out_of_fuel, ◌>>=◌, length, false, ℕ, ◌≡◌, refl, Bool, List, [], ◌∷◌, ◌++◌, none, ok,
  ◌==◌, ◌||◌, Outcome,
}
use cuda_tile.Version.{version, version_lt, from_version}
use cuda_tile.Encoding.Reader.{Cursor, start, read_le, read_var_int, read_bytes, skip_padding}
use cuda_tile.Section.Header.{
  parse_magic, check_version, parse_header, parse_alignment, parse_section_body, parse_section_id,
  parse_section_header,
}
use cuda_tile.Section.Termination.{read_container_ends}
use cuda_tile.Section.Container.{
  section_alignment_ok, size_sections, take_section, section_round, read_sections, read_container,
}
use cuda_tile.Strings.{parse_string_section}
use cuda_tile.FunctionTable.{parse_functions, parse_function_table_section}
use cuda_tile.Module.{
  Tables, optional, mandatory, no_types, no_debuginfo, parse_sections, read_bytecode,
}

abbrev small_power : ℕ → Bool
small_power n = n == 2 || n == 4 || n == 8

-- Hints are not read here.
abbrev hint_reader : Cursor → Outcome (Bool × Cursor)
hint_reader c = ok (small_power c.offset, c)

-- The header; a function section at 12, aligned to 8; a string section at 17, aligned to 4; the end.
abbrev small_file : List ℕ
small_file =
    (0x7F ∷ 84 ∷ 105 ∷ 108 ∷ 101 ∷ 73 ∷ 82 ∷ 0 ∷ 13 ∷ 4 ∷ 0 ∷ 0 ∷ [])
    ++ ((130 ∷ 1 ∷ 8 ∷ 203 ∷ 0 ∷ []) ++ ((129 ∷ 1 ∷ 4 ∷ 0 ∷ []) ++ 0 ∷ []))

abbrev empty_tables : Tables Bool
empty_tables = record {
  file_version = version 13 4 0;
  strings = record { string_data = []; string_offsets = [] };
  producer = none;
  types = no_types;
  constants = [];
  globals = [];
  debuginfo = no_debuginfo;
  functions = [];
}

small_file_read : read_bytecode small_power hint_reader small_file ≡ ok empty_tables
unfolding read_bytecode parse_sections optional mandatory read_container read_sections section_round
    take_section parse_section_header parse_section_id parse_section_body parse_alignment
    section_alignment_ok parse_header parse_magic check_version from_version version_lt
    parse_string_section parse_function_table_section parse_functions read_var_int read_le
    read_bytes skip_padding
small_file_read = refl

read_container_ends_example :
    (read_container small_power small_file ≢ err out_of_fuel)
    × ((parse_header (start small_file) >>= λ p.
          size_sections small_power (length small_file) p.1 (λ k. false))
        ≢ err out_of_fuel)
read_container_ends_example = read_container_ends small_power small_file
