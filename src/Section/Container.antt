-- ===== src/Section/Container.antt =====
-- A file as a sequence of sections: the loop of `readBytecode` that collects the payloads, and
-- `isTileIRBytecode` and `getBytecodeSize`, of lib/Bytecode/Reader/BytecodeReader.cpp; and the order
-- in which `writeBytecode` of lib/Bytecode/Writer/BytecodeWriter.cpp writes the sections.
use cuda_tile.Base.{
  ℕ, zero, suc, ◌+◌, ◌%◌, Bool, true, false, not, ◌&&◌, ◌||◌, List, [], ◌∷◌, ◌++◌, length, take,
  drop,
}
use cuda_tile.Base.{Option, none, some, ltb, leb, ◌==◌, if◌then◌else◌}
use cuda_tile.Base.{
  Outcome, ok, err, ◌>>=◌, ◌>>◌, guard, section_alignment, end_not_last, bad_length, silent,
  out_of_fuel,
}
use cuda_tile.Version.{Version}
use cuda_tile.Encoding.Writer.{Writer}
use cuda_tile.Encoding.Reader.{Cursor, start, remaining, read_bytes, skip}
use cuda_tile.Section.Ids
use cuda_tile.Section.Header.{
  magic, SectionHeader, parse_header, parse_section_header, write_section,
}

-- `sectionPayloads`: an array of optional payloads, by section number.
abbrev pub Payloads : Type 0
Payloads = ℕ → Option (List ℕ)

abbrev pub no_payloads : Payloads
no_payloads id = none

abbrev pub put_payload : ℕ → List ℕ → Payloads → Payloads
put_payload id payload payloads k = if k == id then some payload else payloads k

-- `validateSectionAlignment(requiredAlignment)`
unfoldable pub validate_section_alignment : SectionHeader → ℕ → Bool
validate_section_alignment header required =
    not (not header.has_alignment || not (header.alignment % required == 0))

-- The `switch (header.sectionID)` that demands an alignment.
unfoldable pub section_alignment_ok : SectionHeader → Bool
unfolding validate_section_alignment
section_alignment_ok header =
    let id = header.section_id in
    if id == Ids.string || id == Ids.types
    then validate_section_alignment header 4
    else if id == Ids.constant || (id == Ids.debug || id == Ids.func)
    then validate_section_alignment header 8
    else true

-- What one round of a loop leaves: a result, or a state to go on with, at a cursor.
pub data Progress (R S : Type 0) : Type 0 where
  finished : R → Progress R S
  go_on : S → Cursor → Progress R S

-- One section; the header's length is checked once more before the payload is read.
unfoldable pub take_section :
    SectionHeader → Cursor → Payloads → Outcome (Progress Payloads Payloads)
take_section header c payloads =
    if header.section_id == Ids.end_of_bytecode
    then (if not (remaining c == 0) then err end_not_last else ok (finished payloads))
    else guard (section_alignment_ok header) section_alignment
      >> (guard (leb header.count (remaining c)) bad_length
          >> (read_bytes header.count c >>= λ p.
              ok (go_on (put_payload header.section_id p.0 payloads) p.1)))

-- What `getBytecodeSize` does with a header: `seen` is the array `seenSections`, and the result is
-- the offset behind the end marker.
unfoldable pub skip_section : SectionHeader → Cursor → (ℕ → Bool) → Outcome (Progress ℕ (ℕ → Bool))
skip_section header c seen = do
  c' ← skip header.count c
  guard (not (seen header.section_id)) silent
  ok (
      if header.section_id == Ids.end_of_bytecode
      then finished c'.offset
      else go_on (λ k. k == header.section_id || seen k) c')

-- `memcmp` of a prefix.
unfoldable pub starts_with : List ℕ → List ℕ → Bool
starts_with [] bytes = true
starts_with (m ∷ ms) [] = false
starts_with (m ∷ ms) (b ∷ bytes) = m == b && starts_with ms bytes

-- `isTileIRBytecode(llvm::MemoryBufferRef)`
unfoldable pub is_tile_ir_bytecode : List ℕ → Bool
is_tile_ir_bytecode buffer = not (ltb (length buffer) 8) && starts_with magic buffer

-- `strnlen`
unfoldable pub str_n_len : ℕ → List ℕ → ℕ
str_n_len zero memory = 0
str_n_len (suc n) [] = 0
str_n_len (suc n) (b ∷ memory) = if b == 0 then 0 else suc (str_n_len n memory)

-- `isTileIRBytecode(const char *)`, on the memory at the pointer.
unfoldable pub is_tile_ir_bytecode_at : List ℕ → Bool
is_tile_ir_bytecode_at memory = is_tile_ir_bytecode (take (str_n_len 7 memory + 1) memory)

-- `charBuffer[sizeof(kTileIRBytecodeMagic)] == 0`, the major version.
unfoldable pub first_is_zero : List ℕ → Bool
first_is_zero [] = false
first_is_zero (b ∷ bytes) = b == 0

abbrev pub to_option {ℓ} : {A : Type ℓ} → Outcome A → Option A
to_option (ok a) = some a
to_option (err e) = none

module _ (is_power_of_2 : ℕ → Bool) where
  unfoldable pub section_round : Cursor → Payloads → Outcome (Progress Payloads Payloads)
  section_round c payloads = do
    (header, c') ← parse_section_header is_power_of_2 c
    take_section header c' payloads

  -- `while (true)`: each round takes a byte at least.
  unfoldable pub read_sections : ℕ → Cursor → Payloads → Outcome Payloads
  read_sections zero c payloads = err out_of_fuel
  read_sections (suc fuel) c payloads =
      section_round c payloads
      >>= elim [ finished result ↦ ok result | go_on next c' ↦ read_sections fuel c' next ]

  -- The part of `readBytecode` up to the collected payloads.
  unfoldable pub read_container : List ℕ → Outcome (Version × Payloads)
  read_container bytes = do
    (v, c) ← parse_header (start bytes)
    payloads ← read_sections (length bytes) c no_payloads
    ok (v, payloads)

  -- A round of `getBytecodeSize`.
  unfoldable pub size_round : Cursor → (ℕ → Bool) → Outcome (Progress ℕ (ℕ → Bool))
  size_round c seen = do
    (header, c') ← parse_section_header is_power_of_2 c
    skip_section header c' seen

  unfoldable pub size_sections : ℕ → Cursor → (ℕ → Bool) → Outcome ℕ
  size_sections zero c seen = err out_of_fuel
  size_sections (suc fuel) c seen =
      size_round c seen
      >>= elim [ finished result ↦ ok result | go_on next c' ↦ size_sections fuel c' next ]

  -- `getBytecodeSize` of the memory at a pointer that is not null. Every failure is `nullopt`.
  unfoldable pub get_bytecode_size : List ℕ → Option ℕ
  get_bytecode_size memory =
      if not (is_tile_ir_bytecode_at memory) || first_is_zero (drop 8 memory)
      then none
      else to_option
          (parse_header (start memory) >>= λ p. size_sections (length memory) p.1 (λ k. false))

-- The sections of a file in the order they are written, and the end marker:
-- `os.write(Bytecode::Section::EndOfBytecode)`.
unfoldable pub write_sections : List (ℕ × Writer) → List ℕ → List ℕ
write_sections [] stream = stream ++ Ids.end_of_bytecode ∷ []
write_sections ((id, w) ∷ sections) stream = write_sections sections (write_section id w stream)
