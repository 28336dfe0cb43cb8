-- ===== src/Section/File.antt =====
-- A whole file: what `readBytecode` and `getBytecodeSize` find in it.
use cuda_tile.Section.Steps.{header_bytes, write_section_header-append}
use cuda_tile.Section.FileBytes.{
  section_bytes, file_bytes, collect, Distinct, file_bytes_longer, seen-other,
  is_tile_ir_bytecode_at-header, first_is_zero-header, All-false,
}
use cuda_tile.Base.{
  ℕ, zero, suc, ◌+◌, ◌^◌, ◌<◌, ◌≡◌, refl, sym, ap, ◌∙◌, arith, Bool, false, ◌||◌, List, [], ◌∷◌,
  ◌++◌, length, append_assoc, length-append, All,
}
use cuda_tile.Base.{some, ◌==◌, ==_false}
use cuda_tile.Base.{ok}
use cuda_tile.Version.{Version}
use cuda_tile.Encoding.Writer.{Writer}
use cuda_tile.Encoding.Reader.{at, start}
use cuda_tile.Section.Header.{write_section, write_header, parse_header}
use cuda_tile.Section.HeaderTrip
use cuda_tile.Section.HeaderTrip.{supported_bounds}
use cuda_tile.Base.{append-nil}
use cuda_tile.Section.HeaderTrip.{
  IsSupported, parse_header_bytes, write_header-eq, header_bytes_split, length-header_bytes,
}
use cuda_tile.Section.Container.{
  Payloads, put_payload, read_sections, size_sections, write_sections, no_payloads, read_container,
  get_bytecode_size,
}
use cuda_tile.Section.ContainerTrip.{
  IsSection, section_round-header, size_round-header, section_round-end, size_round-end,
}

module _ (is_power_of_2 : ℕ → Bool) where
  abbrev pub AreSections : List (ℕ × Writer) → Type 0
  AreSections = All (λ s. IsSection is_power_of_2 s.0 s.1)

  write_sections-append :
      (sections : List (ℕ × Writer)) (stream rest : List ℕ)
      → AreSections sections
      → write_sections sections stream ++ rest ≡ stream ++ file_bytes (length stream) sections rest
  unfolding write_sections
  write_sections-append [] stream rest h = append_assoc stream (0 ∷ []) rest
  write_sections-append ((id, w) ∷ sections) stream rest (h, hs) =
      let bytes : List ℕ = section_bytes (length stream) id w in
      let written : write_section id w stream ≡ stream ++ bytes =
        unfold write_section in
        ap (λ (x : List ℕ). x ++ w.stream)
          (write_section_header-append id w.required_alignment (length w.stream) stream h.in_range
            h.aligned.0)
        ∙ append_assoc stream _ w.stream in
      ap (λ (x : List ℕ). write_sections sections x ++ rest) written
      ∙ write_sections-append sections (stream ++ bytes) rest hs
      ∙ rw (length-append stream bytes) (append_assoc stream bytes _)

  read_sections-file_bytes :
      (sections : List (ℕ × Writer)) (fuel o : ℕ) (payloads : Payloads)
      → AreSections sections
      → length sections < fuel
      → read_sections is_power_of_2 fuel (at o (file_bytes o sections [])) payloads
        ≡ ok (collect sections payloads)
  unfolding read_sections
  read_sections-file_bytes sections zero o payloads h enough = absurd (omega arith)
  read_sections-file_bytes [] (suc fuel) o payloads h enough =
      rw (section_round-end is_power_of_2 o payloads)
  read_sections-file_bytes ((id, w) ∷ sections) (suc fuel) o payloads (h, hs) enough =
      let header : List ℕ = header_bytes o id w.required_alignment (length w.stream) in
      let next : ℕ = o + length (section_bytes o id w) in
      let end : o + length header + length w.stream ≡ next =
        omega (arith, length-append header w.stream) in
      rw
        (
          append_assoc,
          section_round-header is_power_of_2 id w o (file_bytes next sections []) payloads h,
          end,
        )
        (read_sections-file_bytes sections fuel next (put_payload id w.stream payloads) hs
          (omega arith))

  size_sections-file_bytes :
      (sections : List (ℕ × Writer)) (fuel o : ℕ) (rest : List ℕ) (seen : ℕ → Bool)
      → AreSections sections
      → Distinct sections
      → All (λ s. seen s.0 ≡ false) sections
      → seen 0 ≡ false
      → length sections < fuel
      → size_sections is_power_of_2 fuel (at o (file_bytes o sections rest)) seen
        ≡ ok (o + length (file_bytes o sections []))
  unfolding size_sections
  size_sections-file_bytes sections zero o rest seen h d new fresh enough = absurd (omega arith)
  size_sections-file_bytes [] (suc fuel) o rest seen h d new fresh enough =
      rw (size_round-end is_power_of_2 o rest seen fresh)
  size_sections-file_bytes ((id, w) ∷ sections) (suc fuel) o rest seen (h, hs) (d, ds) (new, news)
        fresh enough =
      let header : List ℕ = header_bytes o id w.required_alignment (length w.stream) in
      let next : ℕ = o + length (section_bytes o id w) in
      let seen' : ℕ → Bool = λ k. k == id || seen k in
      let end : o + length header + length w.stream ≡ next =
        omega (arith, length-append header w.stream) in
      let fresh' : seen' 0 ≡ false = rw (==_false 0 id (omega (arith, h.is_id))) fresh in
      rw
        (
          append_assoc,
          size_round-header is_power_of_2 id w o (file_bytes next sections rest) seen h new,
          end,
        )
        (size_sections-file_bytes sections fuel next rest seen' hs ds
            (seen-other seen id sections news d) fresh' (omega arith)
          ∙ ap ok
              (omega (arith, length-append (section_bytes o id w) (file_bytes next sections []))))

  write_sections-header :
      (v : Version) (sections : List (ℕ × Writer)) (after : List ℕ)
      → AreSections sections
      → write_sections sections (HeaderTrip.header_bytes v []) ++ after
        ≡ HeaderTrip.header_bytes v (file_bytes 12 sections after)
  write_sections-header v sections after hs =
      write_sections-append sections (HeaderTrip.header_bytes v []) after hs
      ∙ ap (λ (o : ℕ). HeaderTrip.header_bytes v [] ++ file_bytes o sections after)
          (length-header_bytes v)
      ∙ header_bytes_split v (file_bytes 12 sections after)

  length-write_sections :
      (v : Version) (sections : List (ℕ × Writer))
      → AreSections sections
      → length (write_sections sections (HeaderTrip.header_bytes v []))
        ≡ 12 + length (file_bytes 12 sections [])
  length-write_sections v sections hs =
      let file : List ℕ = file_bytes 12 sections [] in
      ap length (
        sym (append-nil (write_sections sections (HeaderTrip.header_bytes v [])))
        ∙ write_sections-header v sections [] hs)
      ∙ ap length (sym (header_bytes_split v file))
      ∙ omega (arith, length-append (HeaderTrip.header_bytes v []) file, length-header_bytes v)

  -- Reading a file back. Let `v` be a supported version with a 16-bit tag, and let the sections
  -- have numbers 1 to 7, buffers that are not empty, and alignments that are powers of two and
  -- fit their numbers. The header of `v` is written, and `readBytecode` finds in the header,
  -- the sections and the end marker the version and each section's payload, byte for byte; the
  -- later one if a number is used twice.
  pub read_container-write_sections :
      (v : Version) (sections : List (ℕ × Writer))
      → IsSupported v
      → v.tag < 2 ^ 16
      → AreSections sections
      → (header : List ℕ) × (write_header v [] ≡ ok header)
        × (read_container is_power_of_2 (write_sections sections header)
            ≡ ok (v, collect sections no_payloads))
  unfolding read_container
  read_container-write_sections v sections h ht hs =
      let header : List ℕ = HeaderTrip.header_bytes v [] in
      let body : List ℕ = file_bytes 12 sections [] in
      let written : write_sections sections header ≡ HeaderTrip.header_bytes v body =
        sym (append-nil (write_sections sections header))
        ∙ write_sections-header v sections [] hs in
      let enough : length sections < length (write_sections sections header) =
        omega (arith, length-write_sections v sections hs, file_bytes_longer 12 sections []) in
      (
        header,
        write_header-eq v h,
        rw (
          ap (λ (x : List ℕ). parse_header (start x)) written,
          parse_header_bytes v body h ht,
          read_sections-file_bytes sections (length (write_sections sections header)) 12 no_payloads
              hs enough,
        ),
      )

  -- For a supported version with a 16-bit tag, and sections with distinct numbers 1 to 7, buffers
  -- that are not empty, and alignments that are powers of two and fit their numbers,
  -- `getBytecodeSize` finds the end of the file that the writer writes, in memory that goes on
  -- behind it.
  pub get_bytecode_size-write_sections :
      (v : Version) (sections : List (ℕ × Writer)) (after : List ℕ)
      → IsSupported v
      → v.tag < 2 ^ 16
      → AreSections sections
      → Distinct sections
      → (header : List ℕ) × (write_header v [] ≡ ok header)
        × (get_bytecode_size is_power_of_2 (write_sections sections header ++ after)
            ≡ some (length (write_sections sections header)))
  unfolding get_bytecode_size
  get_bytecode_size-write_sections v sections after h ht hs ds =
      let header : List ℕ = HeaderTrip.header_bytes v [] in
      let body : List ℕ = file_bytes 12 sections after in
      let enough : length sections < length (HeaderTrip.header_bytes v body) = omega (
        arith,
        ap length (header_bytes_split v body),
        length-append header body,
        file_bytes_longer 12 sections after,
      ) in
      (
        header,
        write_header-eq v h,
        rw (
          write_sections-header v sections after hs,
          is_tile_ir_bytecode_at-header v body,
          first_is_zero-header v body h,
          parse_header_bytes v body h ht,
          size_sections-file_bytes sections (length (HeaderTrip.header_bytes v body)) 12 after
              (λ k. false) hs ds (All-false sections) refl enough,
          length-write_sections v sections hs,
        ),
      )
