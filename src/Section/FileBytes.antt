-- ===== src/Section/FileBytes.antt =====
-- The bytes of a whole file, section by section, for lib/Bytecode/Writer/BytecodeWriter.cpp.
use cuda_tile.Section.Steps.{header_bytes}
use cuda_tile.Base.{
  ℕ, ◌+◌, ◌%◌, ◌≤◌, ◌<◌, ◌≡◌, ◌≢◌, refl, arith, Bool, true, false, ◌||◌, List, [], ◌∷◌, ◌++◌,
  length, append_assoc, length-append, All,
}
use cuda_tile.Base.{◌==◌, ltb-true, ltb-false, ==_false}
use cuda_tile.Version.{Version}
use cuda_tile.Encoding.Writer.{Writer}
use cuda_tile.Section.HeaderTrip
use cuda_tile.Section.HeaderTrip.{supported_bounds}
use cuda_tile.Section.Container.{is_tile_ir_bytecode, str_n_len, starts_with, first_is_zero}
use cuda_tile.Encoding.Writer.{le_bytes}
use cuda_tile.Base.{drop}
use cuda_tile.Section.HeaderTrip.{
  IsSupported, parse_header_bytes, write_header-eq, header_bytes_split, length-header_bytes,
}
use cuda_tile.Section.Container.{Payloads, put_payload, is_tile_ir_bytecode_at}
use native.Mathlib.Decide.{dec_lt}

-- The bytes of a section, and of the sections of a file from an offset on.
abbrev pub section_bytes : ℕ → ℕ → Writer → List ℕ
section_bytes o id w = header_bytes o id w.required_alignment (length w.stream) ++ w.stream

abbrev pub file_bytes : ℕ → List (ℕ × Writer) → List ℕ → List ℕ
file_bytes o [] rest = 0 ∷ rest
file_bytes o ((id, w) ∷ sections) rest =
    section_bytes o id w ++ file_bytes (o + length (section_bytes o id w)) sections rest

-- The payloads of a list of sections; of two sections with one number the later one stays.
abbrev pub collect : List (ℕ × Writer) → Payloads → Payloads
collect [] payloads = payloads
collect ((id, w) ∷ sections) payloads = collect sections (put_payload id w.stream payloads)

-- The section numbers differ from one another.
abbrev pub Distinct : List (ℕ × Writer) → Type 0
Distinct [] = Unit
Distinct ((id, w) ∷ sections) = All (λ s. s.0 ≢ id) sections × Distinct sections

pub header_bytes_pos : (o id a n : ℕ) → 1 ≤ length (header_bytes o id a n)
header_bytes_pos o id a n = elim (dec_lt 1 a) [
  | yes two ↦ rw (ltb-true 1 a two) (omega arith)
  | no one ↦ rw (ltb-false 1 a (omega arith)) (omega arith)
]

-- There is a byte for each section, and the end marker.
pub file_bytes_longer :
    (o : ℕ) (sections : List (ℕ × Writer)) (rest : List ℕ)
    → length sections < length (file_bytes o sections rest)
file_bytes_longer o [] rest = omega arith
file_bytes_longer o ((id, w) ∷ sections) rest =
    let header : List ℕ = header_bytes o id w.required_alignment (length w.stream) in
    let others : List ℕ = file_bytes (o + length (section_bytes o id w)) sections rest in
    omega (
      arith,
      length-append (section_bytes o id w) others,
      length-append header w.stream,
      header_bytes_pos o id w.required_alignment (length w.stream),
      file_bytes_longer (o + length (section_bytes o id w)) sections rest,
    )

-- Bytes behind the end marker stand at the end.
pub file_bytes-append :
    (o : ℕ) (sections : List (ℕ × Writer)) (rest : List ℕ)
    → file_bytes o sections rest ≡ file_bytes o sections [] ++ rest
file_bytes-append o [] rest = refl
file_bytes-append o ((id, w) ∷ sections) rest = rw (
  append_assoc (section_bytes o id w),
  file_bytes-append (o + length (section_bytes o id w)) sections rest,
)

-- A number that is not among those of the sections stays unseen.
pub seen-other :
    (seen : ℕ → Bool) (id : ℕ) (sections : List (ℕ × Writer))
    → All (λ s. seen s.0 ≡ false) sections
    → All (λ s. s.0 ≢ id) sections
    → All (λ s. (s.0 == id || seen s.0) ≡ false) sections
seen-other seen id [] h k = tt
seen-other seen id ((j, w) ∷ sections) (h, hs) (k, ks) =
    (rw (==_false j id k) h, seen-other seen id sections hs ks)

pub is_tile_ir_bytecode_at-header :
    (v : Version) (rest : List ℕ) → is_tile_ir_bytecode_at (HeaderTrip.header_bytes v rest) ≡ true
unfolding is_tile_ir_bytecode_at is_tile_ir_bytecode str_n_len starts_with
is_tile_ir_bytecode_at-header v rest = refl

pub first_is_zero-header :
    (v : Version) (rest : List ℕ)
    → IsSupported v
    → first_is_zero (drop 8 (HeaderTrip.header_bytes v rest)) ≡ false
unfolding first_is_zero le_bytes
first_is_zero-header v rest h = ==_false (v.major % 256) 0 (omega (arith, (supported_bounds v h).0))

pub All-false : (sections : List (ℕ × Writer)) → All (λ s. false ≡ false) sections
All-false [] = tt
All-false (s ∷ sections) = (refl, All-false sections)
