-- ===== src/Body/AttributeList/Conditions.antt =====
-- What holds of attributes that match their definitions, and what the version of the file leaves of them.
use cuda_tile.Base.{
  ℕ, ◌≡◌, ◌≢◌, refl, ap, sym, ◌⊎◌, Bool, true, false, not, ◌&&◌, List, [], ◌∷◌, length, replicate,
  get_elem?, Option, none, some, if◌then◌else◌, Bool-cases, inl, inr, arith, ok,
}
use cuda_tile.Version.{Version, version_lt, version_eq}
use cuda_tile.MapVector.{bytes_eq_iff}
use cuda_tile.Body.Schema.{
  Kind, Attr, unit, bool, integer, enum, type, dense, string, array, AttrDef, OpDef, Pools,
}
use cuda_tile.Body.Attributes.{attr_eq}
use cuda_tile.Body.AttributesTrip.{IsReadable}
use cuda_tile.Body.AttributeList.{contains_true, is_all_false, equals, check_default}

attr_eq_sound : (a b : Attr) → attr_eq a b ≡ true → a ≡ b
unfolding attr_eq
attr_eq_sound unit unit h = refl
attr_eq_sound (bool true) (bool true) h = refl
attr_eq_sound (bool false) (bool false) h = refl
attr_eq_sound (bool true) (bool false) h = cc
attr_eq_sound (bool false) (bool true) h = cc
attr_eq_sound (integer a) (integer b) h = ground arith
attr_eq_sound (enum a) (enum b) h = ground arith
attr_eq_sound (type a) (type b) h = ground arith
attr_eq_sound (dense a) (dense b) h = ground arith
attr_eq_sound (string a) (string b) h = ap string ((bytes_eq_iff a b).0 h)
attr_eq_sound (array a) (array b) h = ap array ((bytes_eq_iff a b).0 h)
attr_eq_sound _ _ h = cc

pub all_zero : (xs : List ℕ) → contains_true xs ≡ false → xs ≡ replicate (length xs) 0
unfolding contains_true
all_zero [] h = refl
all_zero (x ∷ xs) h =
    let here : x ≡ 0 = ground arith in
    let later : xs ≡ replicate (length xs) 0 = all_zero xs (ground arith) in rw (here, ← later)

abbrev pub ReadableValue : Pools → Kind → Option Attr → Type 0
ReadableValue p k none = Unit {0}
ReadableValue p k (some value) = IsReadable p k value

-- A Boolean for each operand of the group that the attribute is about.
abbrev pub HasRank : List ℕ → Option Attr → Option ℕ → Type 0
HasRank sizes value none = Unit {0}
HasRank sizes (some (array bits)) (some operand) = get_elem? sizes operand ≡ some (length bits)
HasRank sizes _ (some operand) = ⊥

-- What holds of an attribute that matches its definition, for the lengths of the operand groups. A
-- version that does not have a required attribute has a value for it, or a rank to make one of.
pub record AttributeOk (p : Pools) (d : OpDef) (sizes : List ℕ) (a : AttrDef) (value : Option Attr)
    : Type 0 where
  pub readable : ReadableValue p a.kind value
  pub has_rank : HasRank sizes value a.same_operand_rank
  pub segments :
      (a.same_operand_rank ≡ none)
      ⊎ ((d.sized_segments ≡ true) × (a.default_value ≡ none) × (a.attr_optional ≡ false))
  pub known :
      version_lt p.file_version a.attr_since ≡ true
      → a.attr_optional ≡ false
      → a.default_value ≡ none
      → a.same_operand_rank ≢ none

abbrev pub AttributesOk : Pools → OpDef → List ℕ → List AttrDef → List (Option Attr) → Type 0
AttributesOk p d sizes [] [] = Unit {0}
AttributesOk p d sizes (a ∷ defs) (value ∷ values) =
    AttributeOk p d sizes a value × AttributesOk p d sizes defs values
AttributesOk p d sizes _ _ = ⊥

-- An attribute before the fixups.
abbrev pub unfixed_by : Version → AttrDef → Option Attr → Option ℕ → Option Attr
unfixed_by v a value none = value
unfixed_by v a value (some operand) = if version_lt v a.attr_since then none else value

abbrev pub unfixed : Version → List AttrDef → List (Option Attr) → List (Option Attr)
unfixed v [] values = []
unfixed v (a ∷ defs) [] = []
unfixed v (a ∷ defs) (value ∷ values) =
    unfixed_by v a value a.same_operand_rank ∷ unfixed v defs values

pub unfixed_unranked :
    (v : Version) (a : AttrDef) (value : Option Attr) (rank : Option ℕ)
    → rank ≡ none
    → unfixed_by v a value rank ≡ value
unfixed_unranked v a value none h = refl
unfixed_unranked v a value (some operand) h = cc

pub unfixed_new :
    (v : Version) (a : AttrDef) (value : Option Attr) (rank : Option ℕ)
    → version_lt v a.attr_since ≡ false
    → unfixed_by v a value rank ≡ value
unfixed_new v a value none h = refl
unfixed_new v a value (some operand) h = rw h

pub optional_unranked :
    (d : OpDef) (a : AttrDef)
    → (a.same_operand_rank ≡ none)
      ⊎ ((d.sized_segments ≡ true) × (a.default_value ≡ none) × (a.attr_optional ≡ false))
    → a.attr_optional ≡ true
    → a.same_operand_rank ≡ none
optional_unranked d a (inl h) k = h
optional_unranked d a (inr (g, h, l)) k = cc

pub one_of :
    (d : OpDef) (a : AttrDef)
    → (a.same_operand_rank ≡ none)
      ⊎ ((d.sized_segments ≡ true) × (a.default_value ≡ none) × (a.attr_optional ≡ false))
    → (a.same_operand_rank ≡ none) ⊎ (a.default_value ≡ none)
one_of d a (inl h) = inl h
one_of d a (inr (g, h, l)) = inr h

pub not_older :
    (v since op_since : Version)
    → version_lt v op_since ≡ false
    → (true && (not (version_eq since op_since) && version_lt v since)) ≡ false
    → version_lt v since ≡ false
unfolding version_lt version_eq
not_older v since op_since h k = ground arith

equals-some : (value : Option Attr) (b : Attr) → equals value b ≡ true → value ≡ some b
unfolding equals
equals-some none b h = cc
equals-some (some a) b h = ap (λ (x : Attr). some x) (attr_eq_sound a b h)

pub not-true : (b : Bool) → not b ≡ true → b ≡ false
not-true true h = cc
not-true false h = refl

pub unsized_unranked :
    (d : OpDef) (a : AttrDef)
    → (a.same_operand_rank ≡ none)
      ⊎ ((d.sized_segments ≡ true) × (a.default_value ≡ none) × (a.attr_optional ≡ false))
    → d.sized_segments ≡ false
    → a.same_operand_rank ≡ none
unsized_unranked d a (inl h) u = h
unsized_unranked d a (inr (g, h, l)) u = cc

pub checked_all_false :
    (default : Option Attr) (rank : Option ℕ) (value : Option Attr) (bytes : List ℕ)
    → default ≡ none
    → rank ≢ none
    → check_default default rank value ≡ ok bytes
    → is_all_false value ≡ true
unfolding check_default
checked_all_false (some b) rank value bytes h k e = cc
checked_all_false none none value bytes h k e = absurd (k refl)
checked_all_false none (some operand) value bytes h k e = elim (Bool-cases (is_all_false value)) [
  | inl all ↦ all
  | inr some_true ↦ let e' = rw some_true at e in cc
]

pub older_value :
    (v : Version) (a : AttrDef) (default : Option Attr) (rank : Option ℕ) (value : Option Attr)
    (bytes : List ℕ)
    → version_lt v a.attr_since ≡ true
    → (rank ≡ none) ⊎ (default ≡ none)
    → (default ≡ none → rank ≢ none)
    → check_default default rank value ≡ ok bytes
    → default ≡ unfixed_by v a value rank
unfolding check_default
older_value v a (some b) none value bytes old one known e = elim (Bool-cases (equals value b)) [
  | inl same ↦ sym (equals-some value b same)
  | inr other ↦ let e' = rw other at e in cc
]
older_value v a (some b) (some r) value bytes old (inl h) known e = cc
older_value v a (some b) (some r) value bytes old (inr h) known e = cc
older_value v a none (some r) value bytes old one known e = rw old
older_value v a none none value bytes old one known e = absurd (known refl refl)

-- What the flags and the checks say of the first attribute, and of the others.
