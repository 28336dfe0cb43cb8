-- ===== src/Body/AttributesTrip.antt =====
-- An attribute that was written is read back.
use cuda_tile.Base.{
  ℕ, ◌+◌, ◌%◌, ◌^◌, ◌-◌, ◌<◌, ◌≡◌, refl, Bool, true, false, not, ◌||◌, List, ◌∷◌, ◌++◌, length,
  append_assoc, All, ltb-true, ltb, ◌==◌, if◌then◌else◌, ok, guard-eq-ok, ok-injective,
  length-append, silent, zero, suc, ◌≤◌, arith, Bool-cases, inl, inr,
}
use cuda_tile.Encoding.Writer.{var_int, le_array, le_bytes}
use cuda_tile.Encoding.Reader.{at, get_string, read_and_get_string}
use cuda_tile.Encoding.VarInt.{read_var_int-var_int}
use native.Mathlib.Nat.{lt_of_lt_of_le, pow-le-pow_right}
use cuda_tile.Encoding.Fixed.{ok_at, length-le_array, read_le_var_size-le_array, read_le-le_bytes}
use cuda_tile.Body.Schema.{
  EnumDef, Kind, unit_kind, bool_kind, type_kind, string_kind, symbol_kind, dense_kind,
  integer_kind, array_kind, enum_kind, Attr, unit, bool, integer, enum, type, dense, string, array,
  Pools,
}
use cuda_tile.Body.Attributes.{
  enum_value_available, enum_attr_available, is_case, write_attr, all_supported, as_elements,
  parse_integer, parse_enum, parse_attr,
}

-- What the reader takes for an attribute of a kind.
abbrev pub IsReadable : Pools → Kind → Attr → Type 0
IsReadable p (enum_kind e) (enum value) =
    (value < 2 ^ 32)
    × (enum_attr_available p.file_version e ≡ true)
    × (is_case value e.cases ≡ true)
IsReadable p (array_kind n) (array values) =
    (length values < 2 ^ 32 - 1)
    × All (λ x. x < 256 ^ n) values
    × (all_supported n values ≡ true)
    × (as_elements n values ≡ values)
IsReadable p (integer_kind width) (integer value) = value < 2 ^ width
IsReadable p type_kind (type index) = (index < 2 ^ 64) × (p.has_type index ≡ true)
IsReadable p string_kind (string text) =
    (p.string_index text < 2 ^ 64) × (get_string p.strings (p.string_index text) ≡ ok text)
IsReadable p symbol_kind (string text) =
    (p.string_index text < 2 ^ 64)
    × (get_string p.strings (p.string_index text) ≡ ok text)
    × (0 < length text)
IsReadable p dense_kind (dense index) = (index < 2 ^ 64) × (index < p.num_constants)
IsReadable p _ _ = Unit {0}

not-true : (b : Bool) → not b ≡ true → b ≡ false
not-true true h = cc
not-true false h = refl

module _ (p : Pools) (o : ℕ) (rest : List ℕ) where
  read_and_get_string-index :
      (text : List ℕ)
      → p.string_index text < 2 ^ 64
      → get_string p.strings (p.string_index text) ≡ ok text
      → read_and_get_string p.strings (at o (var_int (p.string_index text) ++ rest))
        ≡ ok (text, at (o + length (var_int (p.string_index text))) rest)
  unfolding read_and_get_string
  read_and_get_string-index text h found =
      rw (read_var_int-var_int (p.string_index text) o rest h, found)

  parse_enum-var_int :
      (e : EnumDef) (value : ℕ)
      → value < 2 ^ 32
      → is_case value e.cases ≡ true
      → parse_enum e (at o (var_int value ++ rest))
        ≡ ok (enum value, at (o + length (var_int value)) rest)
  unfolding parse_enum
  parse_enum-var_int e value h k =
      let small : value % 2 ^ 32 ≡ value = omega arith in
      rw (read_var_int-var_int value o rest (omega arith), small, k)

  parse_integer-bit :
      (b : Bool)
      → parse_integer 1 (at o ((if b then 1 else 0) ∷ rest))
        ≡ ok (if b then 1 else 0, at (o + 1) rest)
  unfolding parse_integer le_bytes
  parse_integer-bit true = rw (read_le-le_bytes 1 1 o rest (omega arith))
  parse_integer-bit false = rw (read_le-le_bytes 1 0 o rest (omega arith))

  -- One bit is a byte 0 or 1, which is also its varint.
  parse_integer-one :
      (value : ℕ)
      → value < 2
      → parse_integer 1 (at o (var_int value ++ rest))
        ≡ ok (value, at (o + length (var_int value)) rest)
  unfolding var_int
  parse_integer-one zero h = parse_integer-bit false
  parse_integer-one (suc zero) h = parse_integer-bit true
  parse_integer-one (suc (suc value)) h = absurd (omega arith)

  parse_integer-wide :
      (width value : ℕ)
      → (width == 0 || ltb 64 width) ≡ false
      → (width == 1) ≡ false
      → value < 2 ^ width
      → value < 2 ^ 64
      → parse_integer width (at o (var_int value ++ rest))
        ≡ ok (value, at (o + length (var_int value)) rest)
  unfolding parse_integer
  parse_integer-wide width value h k fits small =
      rw (h, k, read_var_int-var_int value o rest small, ltb-true value (2 ^ width) fits)

  parse_integer-var_int :
      (width value : ℕ)
      → (width == 0 || ltb 64 width) ≡ false
      → value < 2 ^ width
      → parse_integer width (at o (var_int value ++ rest))
        ≡ ok (value, at (o + length (var_int value)) rest)
  parse_integer-var_int width value h fits = elim (Bool-cases (width == 1)) [
    | inl one ↦
        let width_one : width ≡ 1 = ground arith in
        let fits' = rw width_one at fits in
        rw width_one (parse_integer-one value (omega (arith, fits')))
    | inr more ↦
        let narrow : width ≤ 64 = ground arith in
        parse_integer-wide width value h more fits
          (lt_of_lt_of_le fits (pow-le-pow_right (omega arith) narrow))
  ]

  -- An attribute that is written for a kind is read back as it was, and the reader stands behind its
  -- bytes, if the reader takes it: an enumeration's type is in the version and has the case, an
  -- array has fewer than 2^32 - 1 elements, which fit their size and are not excluded (0 or 1, if of
  -- one byte), an integer fits its width, the string at the index is the one that was written, and
  -- an index is in its table.
  pub parse_attr-write_attr :
      (k : Kind) (a : Attr) (bytes : List ℕ)
      → IsReadable p k a
      → write_attr p k a ≡ ok bytes
      → parse_attr p k (at o (bytes ++ rest)) ≡ ok (a, at (o + length bytes) rest)
  unfolding write_attr parse_attr
  parse_attr-write_attr unit_kind unit bytes h e =
      rw (← ok-injective e) (ok_at unit rest (omega arith))
  parse_attr-write_attr bool_kind (bool true) bytes h e =
      rw (← ok-injective e) (rw (parse_integer-bit true))
  parse_attr-write_attr bool_kind (bool false) bytes h e =
      rw (← ok-injective e) (rw (parse_integer-bit false))
  parse_attr-write_attr (enum_kind d) (enum value) bytes (h, available, known) e =
      let (checked, written) =
        guard-eq-ok (enum_value_available p.file_version d value) silent (ok (var_int value)) e in
      rw (← ok-injective written, available) (parse_enum-var_int d value h known)
  parse_attr-write_attr (array_kind n) (array values) bytes (few, fit, supported, elements) e =
      rw
        (
          ← ok-injective e,
          append_assoc,
          read_le_var_size-le_array n values o rest fit (omega arith),
          supported,
          elements,
        )
        (ok_at (array values) rest (
          omega (
            arith,
            length-append (var_int (length values)) (le_array n values),
            length-le_array n values,
          )))
  parse_attr-write_attr (integer_kind width) (integer value) bytes h e =
      let (checked, written) =
        guard-eq-ok (not (width == 0 || ltb 64 width)) silent (ok (var_int value)) e in
      let width_ok : (width == 0 || ltb 64 width) ≡ false = not-true _ checked in
      rw (← ok-injective written, parse_integer-var_int width value width_ok h)
  parse_attr-write_attr type_kind (type index) bytes (h, found) e =
      rw (← ok-injective e, read_var_int-var_int index o rest h, found)
  parse_attr-write_attr string_kind (string text) bytes (h, found) e =
      rw (← ok-injective e, read_and_get_string-index text h found)
  parse_attr-write_attr symbol_kind (string text) bytes (h, found, some_text) e =
      rw (
        ← ok-injective e,
        read_and_get_string-index text h found,
        ltb-true 0 (length text) some_text,
      )
  parse_attr-write_attr dense_kind (dense index) bytes (h, small) e =
      rw (
        ← ok-injective e,
        read_var_int-var_int index o rest h,
        ltb-true index p.num_constants small,
      )
  parse_attr-write_attr _ _ bytes h e = cc
