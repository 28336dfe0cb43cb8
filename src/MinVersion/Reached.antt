-- ===== src/MinVersion/Reached.antt =====
-- A version that has reached the maximum of an analysis has reached every part of it.
use cuda_tile.Base.{
  ℕ, ◌≡◌, Bool, true, false, not, ◌&&◌, ◌||◌, List, [], ◌∷◌, map, Option, none, some, if◌then◌else◌,
  Bool-cases, inl, inr, arith,
}
use cuda_tile.Version.{Version, version_lt, min_supported_version}
use cuda_tile.Body.Schema.{
  Attr, AttrDef, OperandDef, OpDef, Regions, no_regions, region, Blocks, no_blocks, block,
}
use cuda_tile.Body.Flags.{is_some, is_nonempty}
use cuda_tile.MinVersion.{
  max_version, Analysis, update_max, bump, is_processed, is_unit, attr_version, check_value,
  check_attribute, check_type, check_types, check_operand, check_arguments, check_regions,
}

-- `w` is not above `v`.
abbrev pub Has : Version → Version → Type 0
Has v w = version_lt v w ≡ false

abbrev pub Reached : Version → Analysis → Type 0
Reached v s = Has v s.max

pub max_version-Has : (v w u : Version) → Has v (max_version w u) → Has v w × Has v u
unfolding max_version version_lt
max_version-Has v w u h = (ground arith, ground arith)

pub update_max-Reached :
    (v w : Version) (s : Analysis) → Reached v (update_max w s) → Has v w × Reached v s
unfolding update_max
update_max-Reached v w s h = let (old, new) = max_version-Has v s.max w h in (new, old)

not_later :
    (v op_since since : Version) → Has v op_since → version_lt op_since since ≡ false → Has v since
unfolding version_lt
not_later v op_since since h k = ground arith

pub bump-Reached :
    (v since : Version) (d : OpDef) (s : Analysis)
    → Reached v (bump d since s)
    → (Has v d.op_since → Has v since) × Reached v s
unfolding bump
bump-Reached v since d s h = elim (Bool-cases (version_lt d.op_since since)) [
  | inl e ↦ let (new, old) = update_max-Reached v since s (rw e at h) in (λ k. new, old)
  | inr e ↦ (λ k. not_later v d.op_since since k e, rw e at h)
]

module _ (type_version : ℕ → Version) (type_of : ℕ → ℕ) (is_used : ℕ → Bool) (v : Version) where
  pub check_type-Reached :
      (t : ℕ) (s : Analysis) → Reached v (check_type type_version type_of is_used t s) → Reached v s
  unfolding check_type
  check_type-Reached t s h = elim (Bool-cases (is_processed t s.processed_types)) [
    | inl e ↦ (update_max-Reached v min_supported_version s (rw e at h)).1
    | inr e ↦
        (update_max-Reached v (type_version t)
          (record s { processed_types = t ∷ s.processed_types }) (rw e at h)).1
  ]

  pub check_types-Reached :
      (types : List ℕ) (s : Analysis)
      → Reached v (check_types type_version type_of is_used types s)
      → Reached v s
  unfolding check_types
  check_types-Reached [] s h = h
  check_types-Reached (t ∷ types) s h =
      check_type-Reached t s
        (check_types-Reached types (check_type type_version type_of is_used t s) h)

  pub check_arguments-Reached :
      (bs : Blocks) (s : Analysis)
      → Reached v (check_arguments type_version type_of is_used bs s)
      → Reached v s
  unfolding check_arguments
  check_arguments-Reached no_blocks s h = h
  check_arguments-Reached (block arguments xs bs) s h =
      check_types-Reached (map (λ (argument : ℕ × ℕ). argument.0) arguments) s
        (check_arguments-Reached bs _ h)

  pub check_regions-Reached :
      (rs : Regions) (s : Analysis)
      → Reached v (check_regions type_version type_of is_used rs s)
      → Reached v s
  unfolding check_regions
  check_regions-Reached no_regions s h = h
  check_regions-Reached (region bs rs) s h =
      check_arguments-Reached bs s (check_regions-Reached rs _ h)

  -- An operand that is there is one that the version has.
  pub check_operand-Reached :
      (d : OpDef) (x : OperandDef) (group : List ℕ) (s : Analysis)
      → Reached v (check_operand type_version type_of is_used d x group s)
      → (Has v d.op_since → is_nonempty group ≡ true → Has v x.operand_since) × Reached v s
  unfolding check_operand
  check_operand-Reached d x group s h =
      let inner = check_types-Reached (map type_of group) _ h in
      elim (Bool-cases ((x.optional_operand || x.variadic_operand) && not (is_nonempty group))) [
        | inl e ↦ (λ a k. ground arith, rw e at inner)
        | inr e ↦
            let (since, old) = bump-Reached v x.operand_since d s (rw e at inner) in
            (λ a k. since a, old)
      ]

-- An attribute that is there is one that the version has, and so is its value.
abbrev pub HasAttribute : Version → AttrDef → Option Attr → Type 0
HasAttribute v a none = Unit {0}
HasAttribute v a (some value) =
    Has v a.attr_since × (is_unit a.kind ≡ false → Has v (attr_version a.kind value))

module _ (v : Version) (d : OpDef) (a : AttrDef) (s : Analysis) where
  check_value-Reached :
      (value : Option Attr)
      → Reached v (check_value a.kind value (bump d a.attr_since s))
      → (Has v d.op_since → HasAttribute v a value) × Reached v s
  unfolding check_value
  check_value-Reached none h =
      let (least, bumped) = update_max-Reached v min_supported_version (bump d a.attr_since s) h in
      (λ k. tt, (bump-Reached v a.attr_since d s bumped).1)
  check_value-Reached (some value) h =
      let (own, bumped) =
        update_max-Reached v (attr_version a.kind value) (bump d a.attr_since s) h in
      let (since, old) = bump-Reached v a.attr_since d s bumped in (λ l. (since l, λ k. own), old)

  check_unit-Reached :
      (value : Option Attr)
      → is_unit a.kind ≡ true
      → Reached v (if is_some value then bump d a.attr_since s else s)
      → (Has v d.op_since → HasAttribute v a value) × Reached v s
  check_unit-Reached none k h = (λ l. tt, h)
  check_unit-Reached (some value) k h =
      let (since, old) = bump-Reached v a.attr_since d s h in (λ m. (since m, λ l. cc), old)

  absent_attribute :
      (optional : Bool) (value : Option Attr)
      → (optional && not (is_some value)) ≡ true
      → HasAttribute v a value
  absent_attribute optional none k = tt
  absent_attribute true (some value) k = cc
  absent_attribute false (some value) k = cc

  pub check_attribute-Reached :
      (value : Option Attr)
      → Reached v (check_attribute d a value s)
      → (Has v d.op_since → HasAttribute v a value) × Reached v s
  unfolding check_attribute
  check_attribute-Reached value h = elim (Bool-cases (is_unit a.kind)) [
    | inl e ↦ check_unit-Reached value e (rw e at h)
    | inr e ↦ elim (Bool-cases (a.attr_optional && not (is_some value))) [
      | inl k ↦ (λ l. absent_attribute a.attr_optional value k, rw (e, k) at h)
      | inr k ↦ check_value-Reached value (rw (e, k) at h)
    ]
  ]
