-- ===== src/Body/Flags/Older.antt =====
-- A version that has no flags has no field that needs one.
use cuda_tile.Base.{
  ℕ, ◌≡◌, refl, ◌∙◌, Bool, true, false, not, ◌&&◌, List, [], ◌∷◌, All, All-split, All-append,
  All-map, Option, Bool-cases, inl, inr, arith,
}
use cuda_tile.Version.{Version, version_lt, version_eq}
use cuda_tile.Body.Schema.{Attr, AttrDef, OperandDef, OpDef}
use cuda_tile.Body.Flags.{
  optional_fields, ordered_fields, bit_of, later_flags, has_flags, Field, presence,
  attribute_presence, operand_presence, attribute_fields, operand_fields, add_fields, too_new,
}
use cuda_tile.Body.Flags.Bits.{test_bit-zero}
use cuda_tile.Body.Flags.Order.{has_name, has_name-add_fields}
use cuda_tile.Body.Flags.Setting.{HaveBits, AllAllowed, BitsSay}

-- The fields that an operation has are among the optional ones, with their versions.
module _ {ℓ} (P : Version × ℕ → Type ℓ) where
  attribute_presence-All :
      (defs : List AttrDef) (values : List (Option Attr))
      → All P (attribute_fields defs)
      → All (λ f. P (f.since, f.name)) (attribute_presence defs values)
  unfolding attribute_fields attribute_presence
  attribute_presence-All [] values h = tt
  attribute_presence-All (a ∷ defs) [] h = tt
  attribute_presence-All (a ∷ defs) (value ∷ values) h = elim (Bool-cases a.attr_optional) [
    | inl e ↦ let (k, ks) = rw e at h in rw e (k, attribute_presence-All defs values ks)
    | inr e ↦ rw e (attribute_presence-All defs values (rw e at h))
  ]

  operand_presence-All :
      (defs : List OperandDef) (groups : List (List ℕ))
      → All P (operand_fields defs)
      → All (λ f. P (f.since, f.name)) (operand_presence defs groups)
  unfolding operand_fields operand_presence
  operand_presence-All [] groups h = tt
  operand_presence-All (x ∷ defs) [] h = tt
  operand_presence-All (x ∷ defs) (group ∷ groups) h = elim (Bool-cases x.optional_operand) [
    | inl e ↦ let (k, ks) = rw e at h in rw e (k, operand_presence-All defs groups ks)
    | inr e ↦ rw e (operand_presence-All defs groups (rw e at h))
  ]

  pub presence-All :
      (d : OpDef) (values : List (Option Attr)) (groups : List (List ℕ))
      → All P (optional_fields d)
      → All (λ f. P (f.since, f.name)) (presence d values groups)
  unfolding optional_fields presence
  presence-All d values groups h = elim (Bool-cases d.sized_segments) [
    | inl e ↦
        let (a, b) = All-split P (attribute_fields d.attributes) _ (rw e at h) in
        rw e (
          All-append _ (attribute_presence d.attributes values) _
            (attribute_presence-All d.attributes values a)
            (operand_presence-All d.operands groups b))
    | inr e ↦
        let (a, b) = All-split P (attribute_fields d.attributes) _ (rw e at h) in
        rw e (
          All-append _ (attribute_presence d.attributes values) _
            (attribute_presence-All d.attributes values a) tt)
  ]

-- Every field that an operation has has a bit.
names_later :
    (v : Version) (m : ℕ) (all fields : List (Version × ℕ))
    → All (λ f. has_name f.1 all ≡ true) fields
    → All (λ f. has_name f.1 ((v, m) ∷ all) ≡ true) fields
names_later v m all [] h = tt
names_later v m all (f ∷ fields) (h, hs) = (ground arith, names_later v m all fields hs)

self_names : (fields : List (Version × ℕ)) → All (λ f. has_name f.1 fields ≡ true) fields
self_names [] = tt
self_names ((v, m) ∷ fields) = (ground arith, names_later v m fields fields (self_names fields))

own_names :
    (fields : List (Version × ℕ)) → All (λ f. has_name f.1 (add_fields fields []) ≡ true) fields
own_names fields =
    All-map fields (λ f h. has_name-add_fields f.1 fields [] ∙ rw h refl) (self_names fields)

pub presence-HaveBits :
    (d : OpDef) (values : List (Option Attr)) (groups : List (List ℕ))
    → HaveBits d (presence d values groups)
unfolding ordered_fields
presence-HaveBits d values groups =
    presence-All (λ f. has_name f.1 (add_fields (optional_fields d) []) ≡ true) d values groups
      (own_names (optional_fields d))

absent_when_old :
    (v least since op_since : Version) (present : Bool)
    → version_lt v op_since ≡ false
    → version_lt v least ≡ true
    → (present && (not (version_eq since op_since) && version_lt v since)) ≡ false
    → version_lt since least ≡ false
    → false ≡ present
unfolding version_lt version_eq
absent_when_old v least since op_since present h k a l = ground arith

module _ (v : Version) (d : OpDef) where
  -- No field is there in a version that has no flags.
  pub none_present :
      (least : Version) (fields : List Field)
      → version_lt v d.op_since ≡ false
      → version_lt v least ≡ true
      → AllAllowed v d fields
      → All (λ f. version_lt f.since least ≡ false) fields
      → All (λ f. false ≡ f.present) fields
  unfolding too_new
  none_present least [] h k a l = tt
  none_present least (f ∷ fields) h k (a, more) (l, ls) = (
    absent_when_old v least f.since d.op_since f.present h k a l,
    none_present least fields h k more ls,
  )

  pub zero_flags : (fields : List Field) → All (λ f. false ≡ f.present) fields → BitsSay d fields 0
  zero_flags [] h = tt
  zero_flags (f ∷ fields) (h, hs) = (test_bit-zero (bit_of d f.name) ∙ h, zero_flags fields hs)

pub older_version :
    (v : Version) (d : OpDef) (w : Version) (n : ℕ) (ordered : List (Version × ℕ))
    → has_flags v (later_flags d ((w, n) ∷ ordered)) ≡ false
    → version_lt v w ≡ true
unfolding has_flags later_flags
older_version v d w n ordered h = ground arith

pub no_bits :
    (d : OpDef) (fields : List Field)
    → ordered_fields d ≡ []
    → HaveBits d fields
    → BitsSay d fields 0
no_bits d [] q h = tt
no_bits d (f ∷ fields) q (h, hs) = let h' = rw q at h in cc
