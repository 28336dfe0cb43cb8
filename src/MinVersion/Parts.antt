-- ===== src/MinVersion/Parts.antt =====
-- In a version that has the parts of an operation, they are written.
use cuda_tile.Base.{
  ℕ, ◌≡◌, refl, Bool, true, false, not, ◌&&◌, ◌||◌, ◌==◌, List, [], ◌∷◌, length, ltb, Option, none,
  some, if◌then◌else◌, Bool-cases, inl, inr, arith, Outcome, ok, err, silent, ◌>>=◌,
}
use cuda_tile.Version.{Version, version_lt, version_eq, version_ge, min_supported_version}
use cuda_tile.Body.Schema.{
  EnumDef, Kind, unit_kind, bool_kind, type_kind, string_kind, symbol_kind, dense_kind,
  integer_kind, array_kind, enum_kind, Attr, unit, bool, integer, enum, type, dense, string, array,
  AttrDef, OperandDef, OpDef, Pools,
}
use cuda_tile.Body.Attributes.{case_available, enum_value_available, is_case, write_attr}
use cuda_tile.Body.Flags.{
  Field, is_nonempty, attribute_presence, operand_presence, too_new, set_flags, set_bit, bit_of,
  write_flags_of,
}
use cuda_tile.Body.Flags.Setting.{AllAllowed}
use cuda_tile.Body.AttributeList.{write_value, write_optional, write_attribute, write_attributes}
use cuda_tile.MinVersion.{is_unit, attr_version, case_version, or_min}
use cuda_tile.MinVersion.Reached.{Has, HasAttribute}

-- The step succeeds.
abbrev pub Succeeds {ℓ} : {A : Type ℓ} → Outcome A → Type ℓ
Succeeds {A = A} m = (a : A) × (m ≡ ok a)

-- An attribute of its kind; an enumeration has one of its cases.
abbrev pub IsOfKind : Kind → Attr → Type 0
IsOfKind unit_kind unit = Unit {0}
IsOfKind bool_kind (bool b) = Unit {0}
IsOfKind (enum_kind e) (enum value) = is_case value e.cases ≡ true
IsOfKind (array_kind n) (array values) = Unit {0}
IsOfKind (integer_kind width) (integer value) = (width == 0 || ltb 64 width) ≡ false
IsOfKind type_kind (type index) = Unit {0}
IsOfKind string_kind (string text) = Unit {0}
IsOfKind symbol_kind (string text) = Unit {0}
IsOfKind dense_kind (dense index) = Unit {0}
IsOfKind _ _ = ⊥

-- A required attribute is there.
abbrev pub IsWritable : AttrDef → Option Attr → Type 0
IsWritable a none = a.attr_optional ≡ true
IsWritable a (some value) = IsOfKind a.kind value

abbrev pub AreWritable : List AttrDef → List (Option Attr) → Type 0
AreWritable (a ∷ defs) (value ∷ values) = IsWritable a value × AreWritable defs values
AreWritable _ _ = Unit {0}

abbrev pub HasAttributes : Version → List AttrDef → List (Option Attr) → Type 0
HasAttributes v (a ∷ defs) (value ∷ values) = HasAttribute v a value × HasAttributes v defs values
HasAttributes v _ _ = Unit {0}

abbrev pub HasOperands : Version → List OperandDef → List (List ℕ) → Type 0
HasOperands v (x ∷ defs) (group ∷ groups) =
    (is_nonempty group ≡ true → Has v x.operand_since) × HasOperands v defs groups
HasOperands v _ _ = Unit {0}

case_available-Has :
    (v : Version) (value : ℕ) (cases : List (ℕ × Version))
    → is_case value cases ≡ true
    → Has v (or_min (case_version value cases))
    → case_available v value cases ≡ true
unfolding case_available case_version is_case version_ge version_lt version_eq
case_available-Has v value [] k h = cc
case_available-Has v value ((c, since) ∷ cases) k h = elim (Bool-cases (c == value)) [
  | inl e ↦ elim (Bool-cases (version_eq since min_supported_version)) [
    | inl m ↦ let g : Has v min_supported_version = rw (e, m) at h in rw e (ground arith)
    | inr m ↦ let g : Has v since = rw (e, m) at h in rw (e, g)
  ]
  | inr e ↦ rw e (case_available-Has v value cases (rw e at k) (rw e at h))
]

enum_value_available-Has :
    (v : Version) (e : EnumDef) (value : ℕ)
    → is_case value e.cases ≡ true
    → Has v (attr_version (enum_kind e) (enum value))
    → enum_value_available v e value ≡ true
unfolding enum_value_available attr_version
enum_value_available-Has v e value h k = elim (Bool-cases e.skips_version_check) [
  | inl s ↦ rw s
  | inr s ↦ elim (Bool-cases (length e.cases == 0)) [
    | inl empty ↦ rw (s, empty)
    | inr some_case ↦ rw (s, some_case) (case_available-Has v value e.cases h (rw s at k))
  ]
]

pub compatible_step :
    (compatible used : Bool) (m : Outcome (List ℕ)) (t : ℕ) (ts : List ℕ)
    → m ≡ ok ts
    → (compatible ≡ false → used ≡ false)
    → Succeeds
        (if compatible then (m >>= λ rest. ok (t ∷ rest)) else if used then err silent else m)
compatible_step true used m t ts e h = rw e (t ∷ ts, refl)
compatible_step false used m t ts e h = rw (h refl, e) (ts, refl)

pub and_not : (a b : Bool) → (a && not b) ≡ true → b ≡ false
and_not true true h = cc
and_not true false h = refl
and_not false b h = cc

module _ (p : Pools) where
  write_attr-Succeeds :
      (k : Kind) (a : Attr)
      → IsOfKind k a
      → (is_unit k ≡ false → Has p.file_version (attr_version k a))
      → Succeeds (write_attr p k a)
  unfolding write_attr
  write_attr-Succeeds unit_kind unit h k = ([], refl)
  write_attr-Succeeds bool_kind (bool b) h k = (_, refl)
  write_attr-Succeeds (enum_kind e) (enum value) h k =
      rw (enum_value_available-Has p.file_version e value h (k refl)) (_, refl)
  write_attr-Succeeds (array_kind n) (array values) h k = (_, refl)
  write_attr-Succeeds (integer_kind width) (integer value) h k = rw h (_, refl)
  write_attr-Succeeds type_kind (type index) h k = (_, refl)
  write_attr-Succeeds string_kind (string text) h k = (_, refl)
  write_attr-Succeeds symbol_kind (string text) h k = (_, refl)
  write_attr-Succeeds dense_kind (dense index) h k = (_, refl)
  write_attr-Succeeds _ _ h k = absurd h

  write_attribute-Succeeds :
      (a : AttrDef) (value : Option Attr)
      → IsWritable a value
      → HasAttribute p.file_version a value
      → Succeeds (write_attribute p a value)
  unfolding write_attribute write_optional write_value
  write_attribute-Succeeds a none h k = rw h ([], refl)
  write_attribute-Succeeds a (some value) h (since, own) =
      let written = write_attr-Succeeds a.kind value h own in
      elim (Bool-cases a.attr_optional) [ inl e ↦ rw e written | inr e ↦ rw (e, since) written ]

  pub write_attributes-Succeeds :
      (defs : List AttrDef) (values : List (Option Attr))
      → AreWritable defs values
      → HasAttributes p.file_version defs values
      → Succeeds (write_attributes p defs values)
  unfolding write_attributes
  write_attributes-Succeeds [] values h k = (_, refl)
  write_attributes-Succeeds (a ∷ defs) [] h k = (_, refl)
  write_attributes-Succeeds (a ∷ defs) (value ∷ values) (h, hs) (k, ks) =
      let (first, e) = write_attribute-Succeeds a value h k in
      let (rest, e') = write_attributes-Succeeds defs values hs ks in rw (e, e') (_, refl)

  set_flags-Succeeds :
      (d : OpDef) (fields : List Field) (flags : ℕ)
      → AllAllowed p.file_version d fields
      → Succeeds (set_flags p.file_version d fields flags)
  unfolding set_flags
  set_flags-Succeeds d [] flags h = (flags, refl)
  set_flags-Succeeds d (f ∷ fields) flags (h, hs) = rw h (
      set_flags-Succeeds d fields (if f.present then set_bit (bit_of d f.name) flags else flags) hs)

  pub write_flags_of-Succeeds :
      (d : OpDef) (ordered : List (Version × ℕ)) (fields : List Field)
      → AllAllowed p.file_version d fields
      → Succeeds (write_flags_of p d ordered fields)
  unfolding write_flags_of
  write_flags_of-Succeeds d [] fields h = (_, refl)
  write_flags_of-Succeeds d (first ∷ ordered) fields h =
      let (flags, e) = set_flags-Succeeds d fields 0 h in rw e (_, refl)

  pub attribute_presence-AllAllowed :
      (d : OpDef) (defs : List AttrDef) (values : List (Option Attr))
      → HasAttributes p.file_version defs values
      → AllAllowed p.file_version d (attribute_presence defs values)
  unfolding attribute_presence too_new
  attribute_presence-AllAllowed d [] values h = tt
  attribute_presence-AllAllowed d (a ∷ defs) [] h = tt
  attribute_presence-AllAllowed d (a ∷ defs) (none ∷ values) (h, hs) =
      elim (Bool-cases a.attr_optional) [
        | inl e ↦ rw e (refl, attribute_presence-AllAllowed d defs values hs)
        | inr e ↦ rw e (attribute_presence-AllAllowed d defs values hs)
      ]
  attribute_presence-AllAllowed d (a ∷ defs) (some value ∷ values) ((since, own), hs) =
      elim (Bool-cases a.attr_optional) [
        | inl e ↦ rw e (ground arith, attribute_presence-AllAllowed d defs values hs)
        | inr e ↦ rw e (attribute_presence-AllAllowed d defs values hs)
      ]

  pub operand_presence-AllAllowed :
      (d : OpDef) (defs : List OperandDef) (groups : List (List ℕ))
      → HasOperands p.file_version defs groups
      → AllAllowed p.file_version d (operand_presence defs groups)
  unfolding operand_presence too_new
  operand_presence-AllAllowed d [] groups h = tt
  operand_presence-AllAllowed d (x ∷ defs) [] h = tt
  operand_presence-AllAllowed d (x ∷ defs) (group ∷ groups) (h, hs) =
      elim (Bool-cases x.optional_operand) [
        | inl e ↦ rw e (ground (arith, h), operand_presence-AllAllowed d defs groups hs)
        | inr e ↦ rw e (operand_presence-AllAllowed d defs groups hs)
      ]
