-- ===== src/Section/Termination.antt =====
-- The loops of `readBytecode` and `getBytecodeSize` end on every input: a section takes at least the
-- byte of its header.
use cuda_tile.Base.{
  ℕ, zero, suc, ◌+◌, ◌%◌, ◌≤◌, ◌<◌, ◌≢◌, arith, Bool, false, not, ◌||◌, ◌==◌, List, [], ◌∷◌, length,
  ltb, leb, Option, none, some, Bool-cases, inl, inr, err, silent, out_of_fuel, ◌>>=◌,
  section_alignment, bad_length, truncated_magic,
}
use cuda_tile.Base.{
  or_err, weaken-Settles, Settles, bind-Settles, guard-Settles, branch-Settles, or_err-Settles,
  Settles-ends,
}
use cuda_tile.Version.{Version, from_version, version_lt, min_supported_version}
use cuda_tile.Encoding.Reader.{
  Cursor, start, remaining, read_var_int, read_le, read_bytes, skip, skip_padding,
}
use cuda_tile.Section.Ids
use cuda_tile.Section.Header.{
  magic, SectionHeader, parse_magic, check_version, parse_header, parse_alignment,
  parse_section_body, parse_section_id, parse_section_header,
}
use cuda_tile.Section.Container.{
  Payloads, no_payloads, finished, go_on, section_alignment_ok, take_section, skip_section,
  section_round, read_sections, read_container, size_round, size_sections,
}
use cuda_tile.Section.Reads.{
  AtMost, Leaves, RoundLeaves, RoundEnds, round_ends, read_var_int-Settles, read_le-Settles,
  skip-Settles, read_bytes-Settles, skip_padding-Settles,
}

module _ (is_power_of_2 : ℕ → Bool) where
  parse_alignment-Settles :
      (id count : ℕ) (c : Cursor)
      → Settles (Leaves (remaining c)) (parse_alignment is_power_of_2 id count c)
  unfolding parse_alignment
  parse_alignment-Settles id count c =
      bind-Settles (Leaves (remaining c)) (Leaves (remaining c)) (read_var_int c) _
        (read_var_int-Settles c)
        (λ r h.
          branch-Settles (Leaves (remaining c)) (r.0 == 0 || not (is_power_of_2 r.0)) _ _
            (λ k. λ e. cc)
            (λ k.
              bind-Settles (AtMost (remaining r.1)) (Leaves (remaining c)) (skip_padding r.0 r.1) _
                (skip_padding-Settles r.0 r.1) (λ c' l. omega arith)))

  parse_section_body-Settles :
      (id : ℕ) (has_alignment : Bool) (c : Cursor)
      → Settles (Leaves (remaining c)) (parse_section_body is_power_of_2 id has_alignment c)
  unfolding parse_section_body
  parse_section_body-Settles id has_alignment c =
      bind-Settles (Leaves (remaining c)) (Leaves (remaining c))
        (or_err bad_length (read_var_int c)) _
        (or_err-Settles (Leaves (remaining c)) bad_length (read_var_int c) (λ e. cc)
          (read_var_int-Settles c))
        (λ r h.
          branch-Settles (Leaves (remaining c)) (ltb (remaining r.1) r.0) _ _ (λ k. λ e. cc)
            (λ k.
              branch-Settles (Leaves (remaining c)) has_alignment _ _
                (λ l.
                  weaken-Settles (Leaves (remaining r.1)) (Leaves (remaining c)) _
                    (parse_alignment-Settles id r.0 r.1) (λ a m. omega arith))
                (λ l. h)))

  parse_section_id-Settles :
      (byte : ℕ) (c : Cursor)
      → Settles (Leaves (remaining c)) (parse_section_id is_power_of_2 byte c)
  unfolding parse_section_id
  parse_section_id-Settles byte c =
      branch-Settles (Leaves (remaining c)) (byte % 128 == Ids.end_of_bytecode) _ _
        (λ h.
          branch-Settles (Leaves (remaining c)) (leb 128 byte) _ _ (λ k. λ e. cc)
            (λ k. omega arith))
        (λ h.
          branch-Settles (Leaves (remaining c)) (leb Ids.num_sections (byte % 128)) _ _
            (λ k. λ e. cc) (λ k. parse_section_body-Settles (byte % 128) (leb 128 byte) c))

  -- The header takes a byte at least.
  parse_section_header-Settles :
      (c : Cursor)
      → Settles (λ r. remaining r.1 < remaining c) (parse_section_header is_power_of_2 c)
  unfolding parse_section_header
  parse_section_header-Settles c =
      branch-Settles (λ (r : SectionHeader × Cursor). remaining r.1 < remaining c)
        (ltb (remaining c) 1) _ _ (λ h. λ e. cc)
        (λ h.
          bind-Settles (λ (r : ℕ × Cursor). remaining r.1 + 1 ≤ remaining c)
            (λ (r : SectionHeader × Cursor). remaining r.1 < remaining c) (read_le 1 c) _
            (read_le-Settles 1 c)
            (λ r k.
              weaken-Settles (Leaves (remaining r.1))
                (λ (q : SectionHeader × Cursor). remaining q.1 < remaining c) _
                (parse_section_id-Settles r.0 r.1) (λ q l. omega arith)))

  take_section-Settles :
      (header : SectionHeader) (c : Cursor) (payloads : Payloads)
      → Settles (RoundLeaves (remaining c)) (take_section header c payloads)
  unfolding take_section
  take_section-Settles header c payloads =
      branch-Settles (RoundLeaves (remaining c)) (header.section_id == Ids.end_of_bytecode) _ _
        (λ h.
          branch-Settles (RoundLeaves (remaining c)) (not (remaining c == 0)) _ _ (λ k. λ e. cc)
            (λ k. tt))
        (λ h.
          guard-Settles (RoundLeaves (remaining c)) (section_alignment_ok header) section_alignment
            _ (λ e. cc)
            (guard-Settles (RoundLeaves (remaining c)) (leb header.count (remaining c)) bad_length _
              (λ e. cc)
              (bind-Settles (Leaves (remaining c)) (RoundLeaves (remaining c))
                (read_bytes header.count c) _ (read_bytes-Settles header.count c) (λ r k. k))))

  section_round-Settles :
      (c : Cursor) (payloads : Payloads)
      → Settles (RoundEnds (remaining c)) (section_round is_power_of_2 c payloads)
  unfolding section_round
  section_round-Settles c payloads =
      bind-Settles (λ (r : SectionHeader × Cursor). remaining r.1 < remaining c)
        (RoundEnds (remaining c)) (parse_section_header is_power_of_2 c) _
        (parse_section_header-Settles c)
        (λ r h.
          weaken-Settles (RoundLeaves (remaining r.1)) (RoundEnds (remaining c)) _
            (take_section-Settles r.0 r.1 payloads)
            (λ q. round_ends (remaining r.1) (remaining c) q h))

  read_sections-Settles :
      (fuel : ℕ) (c : Cursor) (payloads : Payloads)
      → remaining c < fuel
      → Settles (λ result. Unit {0}) (read_sections is_power_of_2 fuel c payloads)
  unfolding read_sections
  read_sections-Settles zero c payloads h = absurd (omega arith)
  read_sections-Settles (suc fuel) c payloads h =
      bind-Settles (RoundEnds (remaining c)) (λ (result : Payloads). Unit {0})
        (section_round is_power_of_2 c payloads) _ (section_round-Settles c payloads)
        (elim [
          | finished result ↦ λ k. tt
          | go_on next c' ↦ λ k. read_sections-Settles fuel c' next (omega arith)
        ])

  skip_section-Settles :
      (header : SectionHeader) (c : Cursor) (seen : ℕ → Bool)
      → Settles (RoundLeaves (remaining c)) (skip_section header c seen)
  unfolding skip_section
  skip_section-Settles header c seen =
      bind-Settles (AtMost (remaining c)) (RoundLeaves (remaining c)) (skip header.count c) _
        (skip-Settles header.count c)
        (λ c' h.
          guard-Settles (RoundLeaves (remaining c)) (not (seen header.section_id)) silent _
            (λ e. cc)
            (elim (Bool-cases (header.section_id == Ids.end_of_bytecode)) [
              | inl last ↦ rw last tt
              | inr more ↦ rw more h
            ]))

  size_round-Settles :
      (c : Cursor) (seen : ℕ → Bool)
      → Settles (RoundEnds (remaining c)) (size_round is_power_of_2 c seen)
  unfolding size_round
  size_round-Settles c seen =
      bind-Settles (λ (r : SectionHeader × Cursor). remaining r.1 < remaining c)
        (RoundEnds (remaining c)) (parse_section_header is_power_of_2 c) _
        (parse_section_header-Settles c)
        (λ r h.
          weaken-Settles (RoundLeaves (remaining r.1)) (RoundEnds (remaining c)) _
            (skip_section-Settles r.0 r.1 seen) (λ q. round_ends (remaining r.1) (remaining c) q h))

  size_sections-Settles :
      (fuel : ℕ) (c : Cursor) (seen : ℕ → Bool)
      → remaining c < fuel
      → Settles (λ result. Unit {0}) (size_sections is_power_of_2 fuel c seen)
  unfolding size_sections
  size_sections-Settles zero c seen h = absurd (omega arith)
  size_sections-Settles (suc fuel) c seen h =
      bind-Settles (RoundEnds (remaining c)) (λ (result : ℕ). Unit {0})
        (size_round is_power_of_2 c seen) _ (size_round-Settles c seen)
        (elim [
          | finished result ↦ λ k. tt
          | go_on next c' ↦ λ k. size_sections-Settles fuel c' next (omega arith)
        ])

parse_magic-Settles :
    (expected : List ℕ) (c : Cursor)
    → Settles (λ c'. remaining c' + length expected ≤ remaining c) (parse_magic expected c)
unfolding parse_magic
parse_magic-Settles [] c = omega arith
parse_magic-Settles (m ∷ more) c =
    bind-Settles (λ (r : ℕ × Cursor). remaining r.1 + 1 ≤ remaining c)
      (λ c'. remaining c' + suc (length more) ≤ remaining c) (or_err truncated_magic (read_le 1 c))
      _
      (or_err-Settles (λ (r : ℕ × Cursor). remaining r.1 + 1 ≤ remaining c) truncated_magic
        (read_le 1 c) (λ e. cc) (read_le-Settles 1 c))
      (λ r h.
        branch-Settles (λ c'. remaining c' + suc (length more) ≤ remaining c) (r.0 == m) _ _
          (λ k.
            weaken-Settles (λ c'. remaining c' + length more ≤ remaining r.1)
              (λ c'. remaining c' + suc (length more) ≤ remaining c) _
              (parse_magic-Settles more r.1) (λ c' l. omega arith))
          (λ k. λ e. cc))

check_version-Settles :
    (found : Option Version) (c : Cursor) → Settles (Leaves (remaining c)) (check_version found c)
unfolding check_version
check_version-Settles none c = λ e. cc
check_version-Settles (some v) c =
    branch-Settles (Leaves (remaining c)) (version_lt v min_supported_version) _ _ (λ h. λ e. cc)
      (λ h. omega arith)

parse_header-Settles : (c : Cursor) → Settles (λ r. remaining r.1 < remaining c) (parse_header c)
unfolding parse_header
parse_header-Settles c =
    let P : Version × Cursor → Type 0 = λ r. remaining r.1 < remaining c in
    bind-Settles (λ c'. remaining c' + 8 ≤ remaining c) P (parse_magic magic c) _
      (parse_magic-Settles magic c)
      (λ c₁ h₁.
        bind-Settles (λ (r : ℕ × Cursor). remaining r.1 + 1 ≤ remaining c₁) P (read_le 1 c₁) _
          (read_le-Settles 1 c₁)
          (λ major h₂.
            bind-Settles (λ (r : ℕ × Cursor). remaining r.1 + 1 ≤ remaining major.1) P
              (read_le 1 major.1) _ (read_le-Settles 1 major.1)
              (λ minor h₃.
                bind-Settles (λ (r : ℕ × Cursor). remaining r.1 + 2 ≤ remaining minor.1) P
                  (read_le 2 minor.1) _ (read_le-Settles 2 minor.1)
                  (λ tag h₄.
                    weaken-Settles (Leaves (remaining tag.1)) P _
                      (check_version-Settles (from_version major.0 minor.0 tag.0) tag.1)
                      (λ r l. omega arith)))))

-- On every input the loop of `readBytecode` over the sections ends, and so does that of
-- `getBytecodeSize`: with as many rounds as there are bytes, neither runs out of fuel.
pub read_container_ends :
    (is_power_of_2 : ℕ → Bool) (bytes : List ℕ)
    → (read_container is_power_of_2 bytes ≢ err out_of_fuel)
      × ((parse_header (start bytes) >>= λ p.
            size_sections is_power_of_2 (length bytes) p.1 (λ k. false))
          ≢ err out_of_fuel)
unfolding read_container
read_container_ends is_power_of_2 bytes = (
  Settles-ends (λ r. Unit {0}) _
      (bind-Settles (λ (r : Version × Cursor). remaining r.1 < length bytes) (λ r. Unit {0})
        (parse_header (start bytes)) _ (parse_header-Settles (start bytes))
        (λ r h.
          bind-Settles (λ result. Unit {0}) (λ (r : Version × Payloads). Unit {0})
            (read_sections is_power_of_2 (length bytes) r.1 no_payloads) _
            (read_sections-Settles is_power_of_2 (length bytes) r.1 no_payloads h) (λ q k. tt))),
  Settles-ends (λ r. Unit {0}) _
      (bind-Settles (λ (r : Version × Cursor). remaining r.1 < length bytes) (λ r. Unit {0})
        (parse_header (start bytes)) _ (parse_header-Settles (start bytes))
        (λ r h. size_sections-Settles is_power_of_2 (length bytes) r.1 (λ k. false) h)),
)
