-- ===== src/Section/Steps.antt =====
-- One section in the loops of `readBytecode` and `getBytecodeSize`, its header given.
use cuda_tile.Section.Container.{skip_section}
use cuda_tile.Base.{
  ℕ, ◌+◌, ◌≤◌, ◌<◌, ◌≡◌, arith, Bool, true, false, ◌||◌, List, ◌∷◌, ◌++◌, length, length-append,
}
use cuda_tile.Base.{ltb, ◌==◌, if◌then◌else◌, ltb-true, leb-true, ==_false}
use cuda_tile.Base.{ok}
use cuda_tile.Encoding.Reader.{at}
use cuda_tile.Encoding.Fixed.{read_bytes-append, skip-append}
use native.Mathlib.Decide.{dec_lt}
use cuda_tile.Section.Header.{
  parse_section_id, write_section_header, parse_section_header, SectionHeader,
}
use cuda_tile.Section.Frame.{
  plain_header, aligned_header, plain_bytes, aligned_bytes, write_section_header-plain,
  write_section_header-aligned, parse_section_header-read,
}
use cuda_tile.Section.Container.{Payloads, put_payload, go_on, section_alignment_ok, take_section}

-- The header that the reader finds for a section number, an alignment and a length, and the bytes
-- that the writer writes for it at an offset.
abbrev pub header_of : ℕ → ℕ → ℕ → SectionHeader
header_of id a n = if ltb 1 a then aligned_header id n a else plain_header id n

abbrev pub header_bytes : ℕ → ℕ → ℕ → ℕ → List ℕ
header_bytes o id a n = if ltb 1 a then aligned_bytes o id n a else plain_bytes id n

pub write_section_header-append :
    (id a n : ℕ) (stream : List ℕ)
    → id < 8
    → 1 ≤ a
    → write_section_header id n a stream ≡ stream ++ header_bytes (length stream) id a n
write_section_header-append id a n stream h pos = elim (dec_lt 1 a) [
  | yes two ↦ rw (ltb-true 1 a two) (write_section_header-aligned id n a stream h two)
  | no one ↦ let e : a ≡ 1 = omega arith in rw e (write_section_header-plain id n stream h)
]

pub take_section-literal :
    (id a : ℕ) (b : Bool) (o : ℕ) (payload rest : List ℕ) (payloads : Payloads)
    → let header : SectionHeader = record {
      section_id = id;
      count = length payload;
      has_alignment = b;
      alignment = a;
    } in
      1 ≤ id
      → section_alignment_ok header ≡ true
      → take_section header (at o (payload ++ rest)) payloads
        ≡ ok (go_on (put_payload id payload payloads) (at (o + length payload) rest))
unfolding take_section
take_section-literal id a b o payload rest payloads lo okay = rw (
  ==_false id 0 (omega arith),
  okay,
  leb-true (length payload) (length (payload ++ rest)) (omega (arith, length-append payload rest)),
  read_bytes-append o payload rest,
)

pub take_section-header :
    (id a o : ℕ) (payload rest : List ℕ) (payloads : Payloads)
    → 1 ≤ id
    → section_alignment_ok (header_of id a (length payload)) ≡ true
    → take_section (header_of id a (length payload)) (at o (payload ++ rest)) payloads
      ≡ ok (go_on (put_payload id payload payloads) (at (o + length payload) rest))
take_section-header id a o payload rest payloads lo =
    elim (ltb 1 a)
      as (λ b.
        let header : SectionHeader =
          if b then aligned_header id (length payload) a else plain_header id (length payload) in
        section_alignment_ok header ≡ true
        → take_section header (at o (payload ++ rest)) payloads
          ≡ ok (go_on (put_payload id payload payloads) (at (o + length payload) rest))) [
            | true ↦ take_section-literal id a true o payload rest payloads lo
            | false ↦ take_section-literal id 1 false o payload rest payloads lo
          ]

pub parse_end :
    (is_power_of_2 : ℕ → Bool) (o : ℕ) (rest : List ℕ)
    → parse_section_header is_power_of_2 (at o (0 ∷ rest)) ≡ ok (plain_header 0 0, at (o + 1) rest)
unfolding parse_section_id
parse_end is_power_of_2 o rest = rw (parse_section_header-read is_power_of_2 0 o rest)

pub skip_section-literal :
    (id a : ℕ) (b : Bool) (o : ℕ) (payload rest : List ℕ) (seen : ℕ → Bool)
    → 1 ≤ id
    → seen id ≡ false
    → skip_section
        (record { section_id = id; count = length payload; has_alignment = b; alignment = a })
        (at o (payload ++ rest))
        seen
      ≡ ok (go_on (λ k. k == id || seen k) (at (o + length payload) rest))
unfolding skip_section
skip_section-literal id a b o payload rest seen lo new =
    rw (skip-append o payload rest, new, ==_false id 0 (omega arith))

pub skip_section-header :
    (id a o : ℕ) (payload rest : List ℕ) (seen : ℕ → Bool)
    → 1 ≤ id
    → seen id ≡ false
    → skip_section (header_of id a (length payload)) (at o (payload ++ rest)) seen
      ≡ ok (go_on (λ k. k == id || seen k) (at (o + length payload) rest))
skip_section-header id a o payload rest seen lo new =
    elim (ltb 1 a)
      as (λ b.
        skip_section
          (if b then aligned_header id (length payload) a else plain_header id (length payload))
          (at o (payload ++ rest)) seen
        ≡ ok (go_on (λ k. k == id || seen k) (at (o + length payload) rest))) [
          | true ↦ skip_section-literal id a true o payload rest seen lo new
          | false ↦ skip_section-literal id 1 false o payload rest seen lo new
        ]
