-- ===== src/Body/AttributeList/Single.antt =====
-- One attribute that was written is read back.
use cuda_tile.Base.{
  ℕ, ◌+◌, ◌≡◌, ◌≢◌, ◌⊎◌, true, false, not, ◌&&◌, List, [], ◌∷◌, ◌++◌, length, Option, none, some,
  Bool-cases, inl, inr, arith, ok, ok-injective,
}
use cuda_tile.Version.{Version, version_lt, version_eq}
use cuda_tile.Encoding.Reader.{at}
use cuda_tile.Encoding.Fixed.{ok_at}
use cuda_tile.Body.Schema.{Kind, Attr, AttrDef, OpDef, Pools}
use cuda_tile.Body.AttributesTrip.{parse_attr-write_attr}
use cuda_tile.Body.Flags.{test_bit, bit_of, attribute_presence, is_some, too_new}
use cuda_tile.Body.Flags.Setting.{BitsSay, AllAllowed}
use cuda_tile.Body.AttributeList.{
  write_value, write_optional, check_default, write_attribute, parse_some, missing_attribute,
  read_attribute,
}
use cuda_tile.Body.AttributeList.Conditions.{
  ReadableValue, AttributeOk, unfixed_by, unfixed_unranked, unfixed_new, optional_unranked, one_of,
  not_older, older_value,
}

module _ (d : OpDef) (a : AttrDef) (defs : List AttrDef) (value : Option Attr)
    (values : List (Option Attr)) where
  pub presence_bits :
      (flags : ℕ)
      → BitsSay d (attribute_presence (a ∷ defs) (value ∷ values)) flags
      → (a.attr_optional ≡ true → test_bit (bit_of d a.attr_name) flags ≡ is_some value)
        × BitsSay d (attribute_presence defs values) flags
  unfolding attribute_presence
  presence_bits flags b = elim (Bool-cases a.attr_optional) [
    | inl e ↦ let (k, ks) = rw e at b in (λ h. k, ks)
    | inr e ↦ (λ h. cc, rw e at b)
  ]

  pub presence_allowed :
      (v : Version)
      → AllAllowed v d (attribute_presence (a ∷ defs) (value ∷ values))
      → (a.attr_optional ≡ true
          → (is_some value
              && (not (version_eq a.attr_since d.op_since) && version_lt v a.attr_since))
            ≡ false)
        × AllAllowed v d (attribute_presence defs values)
  unfolding attribute_presence too_new
  presence_allowed v b = elim (Bool-cases a.attr_optional) [
    | inl e ↦ let (k, ks) = rw e at b in (λ h. k, ks)
    | inr e ↦ (λ h. cc, rw e at b)
  ]

module _ (p : Pools) (o : ℕ) (rest : List ℕ) where
  parse_some-write_value :
      (k : Kind) (value : Option Attr) (bytes : List ℕ)
      → ReadableValue p k value
      → write_value p k value ≡ ok bytes
      → parse_some p k (at o (bytes ++ rest)) ≡ ok (value, at (o + length bytes) rest)
  unfolding parse_some write_value
  parse_some-write_value k none bytes h e = cc
  parse_some-write_value k (some value) bytes h e =
      rw (parse_attr-write_attr p o rest k value bytes h e)

  check_default-bytes :
      (default : Option Attr) (rank : Option ℕ) (value : Option Attr) (bytes : List ℕ)
      → check_default default rank value ≡ ok bytes
      → bytes ≡ []
  unfolding check_default
  check_default-bytes (some b) rank value bytes e = ground arith
  check_default-bytes none (some operand) value bytes e = ground arith
  check_default-bytes none none value bytes e = ground arith

  -- The four ways in which an attribute is written.
  read_optional :
      (d : OpDef) (a : AttrDef) (value : Option Attr) (bytes : List ℕ) (flags : ℕ)
      → a.attr_optional ≡ true
      → a.same_operand_rank ≡ none
      → version_lt p.file_version d.op_since ≡ false
      → ReadableValue p a.kind value
      → test_bit (bit_of d a.attr_name) flags ≡ is_some value
      → (is_some value
          && (not (version_eq a.attr_since d.op_since) && version_lt p.file_version a.attr_since))
        ≡ false
      → write_attribute p a value ≡ ok bytes
      → read_attribute p d flags a (at o (bytes ++ rest)) ≡ ok (value, at (o + length bytes) rest)
  unfolding write_attribute read_attribute write_optional missing_attribute parse_some
  read_optional d a none bytes flags optional ranked available h bit allowed e =
      let written = rw optional at e in
      elim (Bool-cases (version_lt p.file_version a.attr_since)) [
        | inl old ↦
            rw (old, optional, ← ok-injective written)
              (ok_at {A = Option Attr} none rest (omega arith))
        | inr new ↦
            rw (new, optional, bit, ← ok-injective written)
              (ok_at {A = Option Attr} none rest (omega arith))
      ]
  read_optional d a (some value) bytes flags optional ranked available h bit allowed e =
      let written = rw optional at e in
      let new : version_lt p.file_version a.attr_since ≡ false =
        not_older p.file_version a.attr_since d.op_since available allowed in
      rw (new, optional, bit, parse_attr-write_attr p o rest a.kind value bytes h written)

  read_required :
      (d : OpDef) (a : AttrDef) (value : Option Attr) (bytes : List ℕ) (flags : ℕ)
      → a.attr_optional ≡ false
      → version_lt p.file_version a.attr_since ≡ false
      → ReadableValue p a.kind value
      → write_attribute p a value ≡ ok bytes
      → read_attribute p d flags a (at o (bytes ++ rest)) ≡ ok (value, at (o + length bytes) rest)
  unfolding write_attribute read_attribute
  read_required d a value bytes flags required new h e =
      rw (new, required) (parse_some-write_value a.kind value bytes h (rw (required, new) at e))

  read_older :
      (d : OpDef) (a : AttrDef) (value : Option Attr) (bytes : List ℕ) (flags : ℕ)
      → a.attr_optional ≡ false
      → version_lt p.file_version a.attr_since ≡ true
      → (a.same_operand_rank ≡ none) ⊎ (a.default_value ≡ none)
      → (a.default_value ≡ none → a.same_operand_rank ≢ none)
      → write_attribute p a value ≡ ok bytes
      → read_attribute p d flags a (at o (bytes ++ rest))
        ≡ ok (unfixed_by p.file_version a value a.same_operand_rank, at (o + length bytes) rest)
  unfolding write_attribute read_attribute missing_attribute
  read_older d a value bytes flags required old one known e =
      let check = rw (required, old) at e in
      let nothing : bytes ≡ [] =
        check_default-bytes a.default_value a.same_operand_rank value bytes check in
      rw
        (
          old,
          required,
          nothing,
          older_value p.file_version a a.default_value a.same_operand_rank value bytes old one known
              check,
        )
        (ok_at (unfixed_by p.file_version a value a.same_operand_rank) rest (omega arith))

  -- One attribute, before the fixups.
  pub read_attribute-write_attribute :
      (d : OpDef) (sizes : List ℕ) (a : AttrDef) (value : Option Attr) (bytes : List ℕ) (flags : ℕ)
      → version_lt p.file_version d.op_since ≡ false
      → AttributeOk p d sizes a value
      → (a.attr_optional ≡ true → test_bit (bit_of d a.attr_name) flags ≡ is_some value)
      → (a.attr_optional ≡ true
          → (is_some value
              && (not (version_eq a.attr_since d.op_since)
                  && version_lt p.file_version a.attr_since))
            ≡ false)
      → write_attribute p a value ≡ ok bytes
      → read_attribute p d flags a (at o (bytes ++ rest))
        ≡ ok (unfixed_by p.file_version a value a.same_operand_rank, at (o + length bytes) rest)
  read_attribute-write_attribute d sizes a value bytes flags available h bit allowed e =
      elim (Bool-cases a.attr_optional) [
        | inl optional ↦
            let ranked : a.same_operand_rank ≡ none = optional_unranked d a h.segments optional in
            rw (unfixed_unranked p.file_version a value a.same_operand_rank ranked) (
              read_optional d a value bytes flags optional ranked available h.readable
                (bit optional) (allowed optional) e)
        | inr required ↦ elim (Bool-cases (version_lt p.file_version a.attr_since)) [
          | inl old ↦
              read_older d a value bytes flags required old (one_of d a h.segments)
                (h.known old required) e
          | inr new ↦
              rw (unfixed_new p.file_version a value a.same_operand_rank new)
                (read_required d a value bytes flags required new h.readable e)
        ]
      ]
