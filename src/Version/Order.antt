-- ===== src/Version/Order.antt =====
-- The comparison operators of `BytecodeVersion`.
use cuda_tile.Base.{◌≡◌, ◌⊎◌, inl, inr, true, arith, Bool-cases}
use cuda_tile.Version.{Version, version_le, version_ge}

version_le_refl : (v : Version) → version_le v v ≡ true
unfolding version_le
version_le_refl v = ground arith

version_le_trans :
    (u v w : Version) → version_le u v ≡ true → version_le v w ≡ true → version_le u w ≡ true
unfolding version_le
version_le_trans u v w h k = ground arith

version_le_total : (u v : Version) → (version_le u v ≡ true) ⊎ (version_le v u ≡ true)
unfolding version_le
version_le_total u v = elim (Bool-cases (version_le u v)) [
  | inl e ↦ inl e
  | inr e ↦ inr (ground arith)
]

version_le_antisymm : (u v : Version) → version_le u v ≡ true → version_le v u ≡ true → u ≡ v
unfolding version_le
version_le_antisymm u v h k = ground arith

version_ge_lem : (u v : Version) → version_ge u v ≡ version_le v u
unfolding version_ge version_le
version_ge_lem u v = ground arith

-- `operator<=` is a total order: it is reflexive and transitive, of two versions one is below the
-- other, and both are only if they are equal; `operator>=` is its converse.
pub version_le_total_order :
    (u v w : Version)
    → (version_le v v ≡ true)
      × (version_le u v ≡ true → version_le v w ≡ true → version_le u w ≡ true)
      × ((version_le u v ≡ true) ⊎ (version_le v u ≡ true))
      × (version_le u v ≡ true → version_le v u ≡ true → u ≡ v)
      × (version_ge u v ≡ version_le v u)
version_le_total_order u v w = (
  version_le_refl v,
  version_le_trans u v w,
  version_le_total u v,
  version_le_antisymm u v,
  version_ge_lem u v,
)
