-- ===== src/MapVector.antt =====
-- `llvm::MapVector` as the managers of lib/Bytecode/Writer/BytecodeWriter.cpp use it: a map that
-- keeps the order of insertion, with the index of a new key taken from the size. LLVM's container
-- is its documented behaviour here: `find` by equality of keys, and insertion at the end.
pub mod Laws
use cuda_tile.Base.{
  ℕ, zero, suc, ◌≡◌, refl, ◌↔◌, Bool, true, false, ◌&&◌, List, [], ◌∷◌, ◌++◌, length, Option, none,
  some, if◌then◌else◌, ◌==◌, arith,
}

pub record Eq {ℓ} (A : Type ℓ) : Type ℓ where
  pub same_key : A → A → Bool
  pub same_key_iff : (a b : A) → (same_key a b ≡ true) ↔ (a ≡ b)

module _ {ℓ κ} {K : Type ℓ} {V : Type κ} ⦃e : Eq K⦄ where
  -- `find`
  unfoldable pub find : K → List (K × V) → Option V
  find k [] = none
  find k ((j, v) ∷ m) = if e.same_key j k then some v else find k m

module _ {ℓ} {K : Type ℓ} ⦃e : Eq K⦄ where
  -- A key that was found has its index; a new one is entered at the end.
  unfoldable pub enter : K → List (K × ℕ) → Option ℕ → ℕ × List (K × ℕ)
  enter k m (some i) = (i, m)
  enter k m none = (length m, m ++ (k, length m) ∷ [])

  -- `getStringIndex`, and the shape of the other managers' lookups.
  unfoldable pub get_index : K → List (K × ℕ) → ℕ × List (K × ℕ)
  get_index k m = enter k m (find k m)

-- Equality of byte strings.
unfoldable pub bytes_eq : List ℕ → List ℕ → Bool
bytes_eq [] [] = true
bytes_eq [] (b ∷ bs) = false
bytes_eq (a ∷ xs) [] = false
bytes_eq (a ∷ xs) (b ∷ bs) = a == b && bytes_eq xs bs

pub bytes_eq_iff : (xs bs : List ℕ) → (bytes_eq xs bs ≡ true) ↔ (xs ≡ bs)
unfolding bytes_eq
bytes_eq_iff [] [] = (λ h. refl, λ h. refl)
bytes_eq_iff [] (b ∷ bs) = (λ h. cc, λ h. cc)
bytes_eq_iff (a ∷ xs) [] = (λ h. cc, λ h. cc)
bytes_eq_iff (a ∷ xs) (b ∷ bs) =
    let (sound, complete) = bytes_eq_iff xs bs in
    (λ h. ground (arith, bytes_eq_iff xs bs), λ h. ground (arith, bytes_eq_iff xs bs))

instance abbrev pub bytes_instance : Eq (List ℕ)
bytes_instance = record { same_key = bytes_eq; same_key_iff = bytes_eq_iff }

-- Equality of numbers.
pub ==_iff : (a b : ℕ) → ((a == b) ≡ true) ↔ (a ≡ b)
==_iff a b = (λ h. ground arith, λ h. ground arith)

instance abbrev pub nat_instance : Eq ℕ
nat_instance = record { same_key = λ a b. a == b; same_key_iff = ==_iff }
