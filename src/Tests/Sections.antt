-- ===== src/Tests/Sections.antt =====
-- A header, section headers and whole files, on concrete bytes. `llvm::isPowerOf2_64` is a function
-- that knows 2, 4, 8 and 16.
use cuda_tile.Base.{
  ◌%◌, ℕ, ◌≡◌, refl, arith, List, [], ◌∷◌, ◌++◌, length, ok, some, Bool, true, ◌==◌, ◌||◌,
}
use cuda_tile.Version.{version, from_version, version_lt}
use cuda_tile.Encoding.Writer.{Writer}
use cuda_tile.Encoding.Reader.{at}
use cuda_tile.Section.Ids
use cuda_tile.Section.Header.{write_header, parse_header, parse_section_header}
use cuda_tile.Section.HeaderTrip.{IsSupported, parse_header-write_header}
use cuda_tile.Section.Frame.{aligned_header, parse_section_header-write_section_header}
use cuda_tile.Section.Header.{write_section_header}
use cuda_tile.Section.Container.{
  section_alignment_ok, no_payloads, write_sections, read_container, get_bytecode_size,
}
use cuda_tile.Section.ContainerTrip.{IsSection}
use cuda_tile.Section.FileBytes.{collect, Distinct}
use cuda_tile.Section.File.{
  AreSections, read_container-write_sections, get_bytecode_size-write_sections,
}

abbrev power_of_2 : ℕ → Bool
power_of_2 n = n == 2 || n == 4 || n == 8 || n == 16

supported : IsSupported (version 13 4 0)
unfolding from_version
supported = refl

parse_header-write_header_example :
    (bytes : List ℕ) × (write_header (version 13 4 0) [] ≡ ok bytes)
    × (length bytes ≡ 12)
    × (parse_header (at 0 (bytes ++ 5 ∷ [])) ≡ ok (version 13 4 0, at 12 (5 ∷ [])))
parse_header-write_header_example =
    parse_header-write_header (version 13 4 0) (5 ∷ []) supported (omega arith)

older : version_lt (version 12 9 0) (version 13 1 0) ≡ true
unfolding version_lt
older = refl

-- A constant section of three bytes and a string section of two.
abbrev constant_buffer : Writer
constant_buffer = record { stream = 1 ∷ 2 ∷ 3 ∷ []; required_alignment = 8 }

abbrev string_buffer : Writer
string_buffer = record { stream = 0 ∷ 7 ∷ []; required_alignment = 4 }

abbrev producer_buffer : Writer
producer_buffer = record { stream = 0 ∷ []; required_alignment = 1 }

abbrev sections : List (ℕ × Writer)
sections =
    (Ids.constant, constant_buffer)
    ∷ (Ids.producer, producer_buffer)
    ∷ (Ids.string, string_buffer)
    ∷ []

constant-IsSection : IsSection power_of_2 Ids.constant constant_buffer
unfolding section_alignment_ok
constant-IsSection = record {
  is_id = omega arith;
  in_range = omega arith;
  some_byte = omega arith;
  fits = omega arith;
  aligned = (omega arith, omega arith, λ h. refl, λ n. refl);
}

producer-IsSection : IsSection power_of_2 Ids.producer producer_buffer
unfolding section_alignment_ok
producer-IsSection = record {
  is_id = omega arith;
  in_range = omega arith;
  some_byte = omega arith;
  fits = omega arith;
  aligned = (omega arith, omega arith, λ h. absurd (omega arith), λ n. refl);
}

string-IsSection : IsSection power_of_2 Ids.string string_buffer
unfolding section_alignment_ok
string-IsSection = record {
  is_id = omega arith;
  in_range = omega arith;
  some_byte = omega arith;
  fits = omega arith;
  aligned = (omega arith, omega arith, λ h. refl, λ n. refl);
}

sections-AreSections : AreSections power_of_2 sections
sections-AreSections = (constant-IsSection, (producer-IsSection, (string-IsSection, tt)))

sections-Distinct : Distinct sections
sections-Distinct = ((omega arith, (omega arith, tt)), ((omega arith, tt), (tt, tt)))

parse_section_header-write_section_header_example :
    (bytes : List ℕ) × (write_section_header Ids.constant 3 8 (1 ∷ 2 ∷ []) ≡ (1 ∷ 2 ∷ []) ++ bytes)
    × (length (write_section_header Ids.constant 3 8 (1 ∷ 2 ∷ [])) % 8 ≡ 0)
    × (parse_section_header power_of_2 (at 2 (bytes ++ 1 ∷ 2 ∷ 3 ∷ []))
        ≡ ok (
          aligned_header Ids.constant 3 8,
          at (length (write_section_header Ids.constant 3 8 (1 ∷ 2 ∷ []))) (1 ∷ 2 ∷ 3 ∷ []),
        ))
parse_section_header-write_section_header_example =
    parse_section_header-write_section_header power_of_2 Ids.constant 3 8 (1 ∷ 2 ∷ [])
      (1 ∷ 2 ∷ 3 ∷ []) (omega arith) (omega arith) (omega arith) (omega arith) (omega arith)
      (omega arith) (omega arith) refl

read_container-write_sections_example :
    (header : List ℕ) × (write_header (version 13 4 0) [] ≡ ok header)
    × (read_container power_of_2 (write_sections sections header)
        ≡ ok (version 13 4 0, collect sections no_payloads))
read_container-write_sections_example =
    read_container-write_sections power_of_2 (version 13 4 0) sections supported (omega arith)
      sections-AreSections

get_bytecode_size-write_sections_example :
    (header : List ℕ) × (write_header (version 13 4 0) [] ≡ ok header)
    × (get_bytecode_size power_of_2 (write_sections sections header ++ 9 ∷ 9 ∷ [])
        ≡ some (length (write_sections sections header)))
get_bytecode_size-write_sections_example =
    get_bytecode_size-write_sections power_of_2 (version 13 4 0) sections (9 ∷ 9 ∷ []) supported
      (omega arith) sections-AreSections sections-Distinct
