-- ===== src/Body/Operands/Groups.antt =====
-- The bits and the bytes of one group of operands.
use cuda_tile.Base.{
  ℕ, ◌≡◌, refl, Bool, true, false, not, ◌&&◌, List, [], ◌∷◌, ◌++◌, length, if◌then◌else◌,
  Bool-cases, inl, inr,
}
use cuda_tile.Version.{Version, version_lt, version_eq}
use cuda_tile.Encoding.Writer.{var_int}
use cuda_tile.MapVector.{nat_instance}
use cuda_tile.Body.Schema.{OperandDef, OpDef}
use cuda_tile.Body.Flags.{test_bit, bit_of, operand_presence, is_nonempty, too_new}
use cuda_tile.Body.Flags.Setting.{BitsSay, AllAllowed}
use cuda_tile.Body.Operands.{operand_bytes, write_group}

-- What the flags and the checks say of the first operand, and of the others.
module _ (d : OpDef) (x : OperandDef) (defs : List OperandDef) (group : List ℕ)
    (groups : List (List ℕ)) where
  pub presence_bits :
      (flags : ℕ)
      → BitsSay d (operand_presence (x ∷ defs) (group ∷ groups)) flags
      → (x.optional_operand ≡ true → test_bit (bit_of d x.operand_name) flags ≡ is_nonempty group)
        × BitsSay d (operand_presence defs groups) flags
  unfolding operand_presence
  presence_bits flags b = elim (Bool-cases x.optional_operand) [
    | inl e ↦ let (k, ks) = rw e at b in (λ h. k, ks)
    | inr e ↦ (λ h. cc, rw e at b)
  ]

  pub presence_allowed :
      (v : Version)
      → AllAllowed v d (operand_presence (x ∷ defs) (group ∷ groups))
      → (x.optional_operand ≡ true
          → (is_nonempty group
              && (not (version_eq x.operand_since d.op_since) && version_lt v x.operand_since))
            ≡ false)
        × AllAllowed v d (operand_presence defs groups)
  unfolding operand_presence too_new
  presence_allowed v b = elim (Bool-cases x.optional_operand) [
    | inl e ↦ let (k, ks) = rw e at b in (λ h. k, ks)
    | inr e ↦ (λ h. cc, rw e at b)
  ]

pub if_same {ℓ} : {A : Type ℓ} (b : Bool) {a : A} → (if b then a else a) ≡ a
if_same true = refl
if_same false = refl

module _ (indices : List (ℕ × ℕ)) (x : OperandDef) where
  pub write_group_optional :
      (group : List ℕ)
      → x.optional_operand ≡ true
      → write_group indices x group ≡ operand_bytes indices group
  unfolding write_group operand_bytes
  write_group_optional [] h = rw h
  write_group_optional (y ∷ group) h = rw h

  pub write_group_variadic :
      (group : List ℕ)
      → x.optional_operand ≡ false
      → x.variadic_operand ≡ true
      → write_group indices x group ≡ var_int (length group) ++ operand_bytes indices group
  unfolding write_group
  write_group_variadic group h k = rw (h, k)

  pub write_group_fixed :
      (group : List ℕ)
      → x.optional_operand ≡ false
      → x.variadic_operand ≡ false
      → write_group indices x group ≡ operand_bytes indices group
  unfolding write_group
  write_group_fixed group h k = rw (h, k)
