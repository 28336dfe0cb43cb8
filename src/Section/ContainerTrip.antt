-- ===== src/Section/ContainerTrip.antt =====
-- What `readBytecode` and `getBytecodeSize` find in a file that was written section by section.
use cuda_tile.Section.Steps.{
  header_of, header_bytes, take_section-header, parse_end, skip_section-header,
}
use cuda_tile.Section.Container.{skip_section}
use cuda_tile.Base.{
  ℕ, ◌+◌, ◌^◌, ◌≤◌, ◌<◌, ◌≡◌, refl, ap, arith, Bool, true, false, ◌||◌, List, [], ◌∷◌, ◌++◌, length,
  length-append,
}
use cuda_tile.Base.{◌==◌, ltb-true, ltb-false}
use cuda_tile.Base.{ok}
use cuda_tile.Encoding.Writer.{Writer}
use cuda_tile.Encoding.Reader.{at}
use cuda_tile.Encoding.Fixed.{skip-append}
use native.Mathlib.Decide.{dec_lt}
use cuda_tile.Section.Header.{parse_section_header}
use cuda_tile.Section.Frame.{parse_section_header-plain, parse_section_header-aligned}
use cuda_tile.Section.Container.{
  Payloads, put_payload, finished, go_on, section_alignment_ok, take_section, section_round,
  size_round,
}

module _ (is_power_of_2 : ℕ → Bool) where
  -- The alignment of a section buffer is 1, or one that the reader takes; it is one that the section
  -- number demands.
  abbrev pub AlignmentFits : ℕ → ℕ → Type 0
  AlignmentFits id a =
      (1 ≤ a)
      × (a < 2 ^ 64)
      × (1 < a → is_power_of_2 a ≡ true)
      × ((n : ℕ) → section_alignment_ok (header_of id a n) ≡ true)

  -- A section number and a buffer that make a section.
  pub record IsSection (id : ℕ) (w : Writer) : Type 0 where
    pub is_id : 1 ≤ id
    pub in_range : id < 8
    pub some_byte : 1 ≤ length w.stream
    pub fits : length w.stream < 2 ^ 64
    pub aligned : AlignmentFits id w.required_alignment

  parse_header_of :
      (id a n o : ℕ) (payload : List ℕ)
      → 1 ≤ id
      → id < 8
      → 1 ≤ n
      → n < 2 ^ 64
      → n ≤ length payload
      → a < 2 ^ 64
      → (1 < a → is_power_of_2 a ≡ true)
      → parse_section_header is_power_of_2 (at o (header_bytes o id a n ++ payload))
        ≡ ok (header_of id a n, at (o + length (header_bytes o id a n)) payload)
  parse_header_of id a n o payload lo hi some_byte fits enough small pow = elim (dec_lt 1 a) [
    | yes two ↦ rw (ltb-true 1 a two) (
        parse_section_header-aligned is_power_of_2 o id n payload lo hi fits enough a two small
          (pow two) some_byte)
    | no one ↦
        rw (ltb-false 1 a (omega arith))
          (parse_section_header-plain is_power_of_2 o id n payload lo hi fits enough)
  ]

  -- A section is read in one round, and its payload is what the writer had in its buffer.
  pub section_round-header :
      (id : ℕ) (w : Writer) (o : ℕ) (rest : List ℕ) (payloads : Payloads)
      → IsSection id w
      → section_round is_power_of_2
          (at o (header_bytes o id w.required_alignment (length w.stream) ++ (w.stream ++ rest)))
          payloads
        ≡ ok (
            go_on (put_payload id w.stream payloads) (
              at
                (o
                  + length (header_bytes o id w.required_alignment (length w.stream))
                  + length w.stream)
                rest))
  unfolding section_round
  section_round-header id w o rest payloads h =
      let (pos, small, pow, okay) = h.aligned in
      let n : ℕ = length w.stream in
      let enough : n ≤ length (w.stream ++ rest) = omega (arith, length-append w.stream rest) in
      rw
        (parse_header_of id w.required_alignment n o (w.stream ++ rest) h.is_id h.in_range
          h.some_byte h.fits enough small pow)
        (take_section-header id w.required_alignment
          (o + length (header_bytes o id w.required_alignment n)) w.stream rest payloads h.is_id
          (okay n))

  -- The same for `getBytecodeSize`, which skips the payload and notes the number.
  pub size_round-header :
      (id : ℕ) (w : Writer) (o : ℕ) (rest : List ℕ) (seen : ℕ → Bool)
      → IsSection id w
      → seen id ≡ false
      → size_round is_power_of_2
          (at o (header_bytes o id w.required_alignment (length w.stream) ++ (w.stream ++ rest)))
          seen
        ≡ ok (
            go_on
              (λ k. k == id || seen k)
              (at
                (o
                  + length (header_bytes o id w.required_alignment (length w.stream))
                  + length w.stream)
                rest))
  unfolding size_round
  size_round-header id w o rest seen h new =
      let (pos, small, pow, okay) = h.aligned in
      let n : ℕ = length w.stream in
      let enough : n ≤ length (w.stream ++ rest) = omega (arith, length-append w.stream rest) in
      rw
        (parse_header_of id w.required_alignment n o (w.stream ++ rest) h.is_id h.in_range
          h.some_byte h.fits enough small pow)
        (skip_section-header id w.required_alignment
          (o + length (header_bytes o id w.required_alignment n)) w.stream rest seen h.is_id new)

  -- The end marker.
  pub section_round-end :
      (o : ℕ) (payloads : Payloads)
      → section_round is_power_of_2 (at o (0 ∷ [])) payloads ≡ ok (finished payloads)
  unfolding section_round
  section_round-end o payloads = rw (parse_end is_power_of_2 o []) (unfold take_section in refl)

  pub size_round-end :
      (o : ℕ) (rest : List ℕ) (seen : ℕ → Bool)
      → seen 0 ≡ false
      → size_round is_power_of_2 (at o (0 ∷ rest)) seen ≡ ok (finished (o + 1))
  unfolding size_round skip_section
  size_round-end o rest seen new =
      rw (parse_end is_power_of_2 o rest, skip_section, skip-append (o + 1) [] rest, new)
        (ap (λ (x : ℕ). ok (finished x)) (omega arith))
