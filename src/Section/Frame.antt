-- ===== src/Section/Frame.antt =====
-- Section headers read back as they were written, with the payload behind them.
use cuda_tile.Base.{
  ℕ, suc, ◌+◌, ◌^◌, ◌%◌, ◌≤◌, ◌<◌, ◌≡◌, sym, ap, ◌∙◌, arith, Bool, true, false, List, [], ◌∷◌, ◌++◌,
  length, append_assoc, length-append,
}
use cuda_tile.Base.{padding, ltb-true, ltb-false, leb-true, leb-false, ==_false}
use cuda_tile.Base.{ok}
use cuda_tile.Base.{length-replicate}
use cuda_tile.Encoding.Writer.{alignment_byte, var_int}
use cuda_tile.Encoding.Reader.{Cursor, at}
use cuda_tile.Encoding.VarInt.{read_var_int-var_int}
use cuda_tile.Encoding.Align.{pad, skip_padding-pad, align_to-stream, padding_aligns}
use cuda_tile.Section.Header.{
  write_section_header, SectionHeader, parse_section_header, parse_section_id, parse_section_body,
  parse_alignment,
}
use cuda_tile.Encoding.Fixed.{ok_at}
use native.Mathlib.Nat.{mod-eq_of_lt}
use cuda_tile.Section.HeaderTrip.{read_byte}

abbrev pub plain_header : ℕ → ℕ → SectionHeader
plain_header id n = record { section_id = id; count = n; has_alignment = false; alignment = 1 }

abbrev pub aligned_header : ℕ → ℕ → ℕ → SectionHeader
aligned_header id n a = record { section_id = id; count = n; has_alignment = true; alignment = a }

-- The bytes of a header, with no alignment, and of one that starts at offset `o`.
abbrev pub plain_bytes : ℕ → ℕ → List ℕ
plain_bytes id n = id ∷ var_int n

-- Where the padding of an aligned header begins.
abbrev pub pad_start : ℕ → ℕ → ℕ → ℕ
pad_start o n a = o + 1 + length (var_int n) + length (var_int a)

abbrev pub aligned_bytes : ℕ → ℕ → ℕ → ℕ → List ℕ
aligned_bytes o id n a = (id + 128) ∷ (var_int n ++ (var_int a ++ pad (pad_start o n a) a))

pub write_section_header-plain :
    (id n : ℕ) (stream : List ℕ)
    → id < 8
    → write_section_header id n 1 stream ≡ stream ++ plain_bytes id n
unfolding write_section_header
write_section_header-plain id n stream h =
    rw (mod-eq_of_lt {n = id} {m = 128} (omega arith), append_assoc)
      (ap (λ (x : ℕ). stream ++ x ∷ var_int n) (omega arith))

pub write_section_header-aligned :
    (id n a : ℕ) (stream : List ℕ)
    → id < 8
    → 2 ≤ a
    → write_section_header id n a stream ≡ stream ++ aligned_bytes (length stream) id n a
unfolding write_section_header
write_section_header-aligned id n a stream h ha =
    let first : List ℕ = (id % 128 + 128) ∷ [] in
    let pos : length (stream ++ first ++ var_int n ++ var_int a) ≡ pad_start (length stream) n a =
      omega (
        arith,
        length-append (stream ++ first ++ var_int n) (var_int a),
        length-append (stream ++ first) (var_int n),
        length-append stream first,
      ) in
    rw (ltb-true 1 a ha, write_section_header, align_to-stream a _ ha, pos)
      (simp (append_assoc, mod-eq_of_lt {n = id} {m = 128} (omega arith)))

-- The padding ends where the payload begins, at a multiple of the alignment.
pub aligned_bytes_end :
    (o id n a : ℕ)
    → o + length (aligned_bytes o id n a) ≡ pad_start o n a + padding (pad_start o n a) a
aligned_bytes_end o id n a =
    let padded : List ℕ = pad (pad_start o n a) a in
    omega (
      arith,
      length-append (var_int n) (var_int a ++ padded),
      length-append (var_int a) padded,
      length-replicate (padding (pad_start o n a) a) alignment_byte,
    )

pub aligned_bytes-aligned : (o id n a : ℕ) → 2 ≤ a → (o + length (aligned_bytes o id n a)) % a ≡ 0
aligned_bytes-aligned o id n a h =
    rw (aligned_bytes_end o id n a) (padding_aligns (pad_start o n a) a (omega arith))

-- A byte of a known section goes on to the length.
parse_section_id-body :
    (is_power_of_2 : ℕ → Bool) (id : ℕ) (c : Cursor)
    → 1 ≤ id
    → id < 8
    → (parse_section_id is_power_of_2 id c ≡ parse_section_body is_power_of_2 id false c)
      × (parse_section_id is_power_of_2 (id + 128) c ≡ parse_section_body is_power_of_2 id true c)
unfolding parse_section_id
parse_section_id-body is_power_of_2 id c lo hi =
    let small : id % 128 ≡ id = mod-eq_of_lt (omega arith) in
    let flagged : (id + 128) % 128 ≡ id = omega arith in
    (
      rw (small, ==_false id 0 (omega arith), leb-false 8 id hi, leb-false 128 id (omega arith)),
      rw (
        flagged,
        ==_false id 0 (omega arith),
        leb-false 8 id hi,
        leb-true 128 (id + 128) (omega arith),
      ),
    )

pub parse_section_header-read :
    (is_power_of_2 : ℕ → Bool) (b o : ℕ) (rest : List ℕ)
    → parse_section_header is_power_of_2 (at o (b ∷ rest))
      ≡ parse_section_id is_power_of_2 b (at (o + 1) rest)
unfolding parse_section_header
parse_section_header-read is_power_of_2 b o rest =
    rw (ltb-false (suc (length rest)) 1 (omega arith), read_byte b o rest)

module _ (is_power_of_2 : ℕ → Bool) (o id n : ℕ) (payload : List ℕ) (is_id : 1 ≤ id)
    (in_range : id < 8) (fits : n < 2 ^ 64) (enough : n ≤ length payload) where
  pub parse_section_header-plain :
      parse_section_header is_power_of_2 (at o (plain_bytes id n ++ payload))
      ≡ ok (plain_header id n, at (o + length (plain_bytes id n)) payload)
  unfolding parse_section_body
  parse_section_header-plain =
      rw
        (
          parse_section_header-read is_power_of_2 id o (var_int n ++ payload),
          (parse_section_id-body is_power_of_2 id (at (o + 1) (var_int n ++ payload)) is_id
              in_range).0,
          read_var_int-var_int n (o + 1) payload fits,
          ltb-false (length payload) n enough,
        )
        (ok_at (plain_header id n) payload (omega arith))

  parse_alignment-pad :
      (a p : ℕ)
      → 2 ≤ a
      → a < 2 ^ 64
      → is_power_of_2 a ≡ true
      → 1 ≤ n
      → parse_alignment is_power_of_2 id n
          (at p (var_int a ++ (pad (p + length (var_int a)) a ++ payload)))
        ≡ ok (
          aligned_header id n a,
          at (p + length (var_int a) + padding (p + length (var_int a)) a) payload,
        )
  unfolding parse_alignment
  parse_alignment-pad a p ha small pow some_byte =
      let q : ℕ = p + length (var_int a) in
      let left : 0 < length (pad q a ++ payload) = omega (arith, length-append (pad q a) payload) in
      rw (
        read_var_int-var_int a p (pad q a ++ payload) small,
        ==_false a 0 (omega arith),
        pow,
        skip_padding-pad a q payload ha left,
      )

  -- The bytes of an aligned header are read back.
  pub parse_section_header-aligned :
      (a : ℕ)
      → 2 ≤ a
      → a < 2 ^ 64
      → is_power_of_2 a ≡ true
      → 1 ≤ n
      → parse_section_header is_power_of_2 (at o (aligned_bytes o id n a ++ payload))
        ≡ ok (aligned_header id n a, at (o + length (aligned_bytes o id n a)) payload)
  unfolding parse_section_body
  parse_section_header-aligned a ha small pow some_byte =
      let p : ℕ = o + 1 + length (var_int n) in
      let padded : List ℕ = pad (pad_start o n a) a in
      let tail : List ℕ = var_int a ++ (padded ++ payload) in
      let room : n ≤ length tail = omega (
        arith,
        enough,
        length-append (var_int a) (padded ++ payload),
        length-append padded payload,
      ) in
      rw
        (
          append_assoc,
          append_assoc,
          parse_section_header-read is_power_of_2 (id + 128) o (var_int n ++ tail),
          (parse_section_id-body is_power_of_2 id (at (o + 1) (var_int n ++ tail)) is_id
              in_range).1,
          read_var_int-var_int n (o + 1) tail fits,
          ltb-false (length tail) n room,
          parse_alignment-pad a p ha small pow some_byte,
        )
        (ok_at (aligned_header id n a) payload (sym (aligned_bytes_end o id n a)))

-- A section header that is written is read back: for a section number of 1 to 7, a length from 1 to
-- that of the payload, and an alignment of at least 2 that is a power of two, all below 2^64, the
-- header with its padding ends at a multiple of the alignment, and the reader finds the number, the
-- length and the alignment, and stands at the payload.
pub parse_section_header-write_section_header :
    (is_power_of_2 : ℕ → Bool) (id n a : ℕ) (stream payload : List ℕ)
    → 1 ≤ id
    → id < 8
    → 1 ≤ n
    → n < 2 ^ 64
    → n ≤ length payload
    → 2 ≤ a
    → a < 2 ^ 64
    → is_power_of_2 a ≡ true
    → (bytes : List ℕ) × (write_section_header id n a stream ≡ stream ++ bytes)
      × (length (write_section_header id n a stream) % a ≡ 0)
      × (parse_section_header is_power_of_2 (at (length stream) (bytes ++ payload))
          ≡ ok (aligned_header id n a, at (length (write_section_header id n a stream)) payload))
parse_section_header-write_section_header is_power_of_2 id n a stream payload is_id in_range
      some_byte fits enough ha small pow =
    let bytes : List ℕ = aligned_bytes (length stream) id n a in
    let written : write_section_header id n a stream ≡ stream ++ bytes =
      write_section_header-aligned id n a stream in_range ha in
    let size : length (write_section_header id n a stream) ≡ length stream + length bytes =
      ap length written ∙ length-append stream bytes in
    (
      bytes,
      written,
      rw size (aligned_bytes-aligned (length stream) id n a ha),
      rw size (
          parse_section_header-aligned is_power_of_2 (length stream) id n payload is_id in_range
            fits enough a ha small pow some_byte),
    )
