-- ===== src/Body/Flags/Order.antt =====
-- The order of the optional fields: no name is lost, different names have different bits, and the
-- first field has the least version.
use cuda_tile.Base.{
  ℕ, suc, ◌+◌, ◌≤◌, ◌<◌, ◌≡◌, refl, Bool, true, false, ◌||◌, ◌==◌, List, [], ◌∷◌, length, All,
  Bool-cases, inl, inr, arith,
}
use cuda_tile.Version.{Version, version_lt}
use cuda_tile.Body.Flags.{add_field, add_fields, bit_from}

abbrev pub has_name : ℕ → List (Version × ℕ) → Bool
has_name n [] = false
has_name n ((v, m) ∷ fields) = m == n || has_name n fields

has_name-add_field :
    (n : ℕ) (f : Version × ℕ) (g : List (Version × ℕ))
    → has_name n (add_field f g) ≡ (f.1 == n || has_name n g)
unfolding add_field
has_name-add_field n (v, m) [] = refl
has_name-add_field n (v, m) ((w, k) ∷ g) = ground (arith, has_name-add_field n (v, m) g)

pub has_name-add_fields :
    (n : ℕ) (fields g : List (Version × ℕ))
    → has_name n (add_fields fields g) ≡ (has_name n fields || has_name n g)
unfolding add_fields
has_name-add_fields n [] g = refl
has_name-add_fields n ((v, m) ∷ fields) g =
    ground (arith, has_name-add_fields n fields (add_field (v, m) g), has_name-add_field n (v, m) g)

length-add_field :
    (f : Version × ℕ) (g : List (Version × ℕ)) → length (add_field f g) ≡ suc (length g)
unfolding add_field
length-add_field (v, m) [] = refl
length-add_field (v, m) ((w, k) ∷ g) = ground (arith, length-add_field (v, m) g)

pub length-add_fields :
    (fields g : List (Version × ℕ)) → length (add_fields fields g) ≡ length fields + length g
unfolding add_fields
length-add_fields [] g = omega arith
length-add_fields (f ∷ fields) g =
    omega (arith, length-add_fields fields (add_field f g), length-add_field f g)

bit_from_bounds :
    (i : ℕ) (fields : List (Version × ℕ)) (n : ℕ)
    → has_name n fields ≡ true
    → (i ≤ bit_from i fields n) × (bit_from i fields n < i + length fields)
unfolding bit_from
bit_from_bounds i [] n h = cc
bit_from_bounds i ((v, m) ∷ fields) n h = elim (Bool-cases (m == n)) [
  | inl same ↦ rw same (omega arith, omega arith)
  | inr other ↦
      let (low, high) = bit_from_bounds (suc i) fields n (ground arith) in
      rw other (omega arith, omega arith)
]

pub bit_from-lt :
    (fields : List (Version × ℕ)) (n : ℕ)
    → has_name n fields ≡ true
    → bit_from 0 fields n < length fields
bit_from-lt fields n h = omega (arith, (bit_from_bounds 0 fields n h).1)

-- The bits of two names are one bit exactly if the names are one.
pub bit_from-same :
    (i : ℕ) (fields : List (Version × ℕ)) (n m : ℕ)
    → has_name n fields ≡ true
    → has_name m fields ≡ true
    → (bit_from i fields n == bit_from i fields m) ≡ (n == m)
unfolding bit_from
bit_from-same i [] n m h k = cc
bit_from-same i ((v, x) ∷ fields) n m h k = ground (
  arith,
  bit_from-same (suc i) fields n m,
  bit_from_bounds (suc i) fields n,
  bit_from_bounds (suc i) fields m,
)

-- A property of all fields in the order is one of all fields, and the other way round.
module _ {ℓ} (P : Version × ℕ → Type ℓ) where
  All-add_field : (f : Version × ℕ) (g : List (Version × ℕ)) → P f → All P g → All P (add_field f g)
  unfolding add_field
  All-add_field (v, m) [] h k = (h, tt)
  All-add_field (v, m) ((w, n) ∷ g) h (k, ks) = elim (Bool-cases (version_lt v w)) [
    | inl less ↦ rw less (h, (k, ks))
    | inr more ↦ rw more (k, All-add_field (v, m) g h ks)
  ]

  add_field-All : (f : Version × ℕ) (g : List (Version × ℕ)) → All P (add_field f g) → P f × All P g
  unfolding add_field
  add_field-All (v, m) [] (h, t) = (h, tt)
  add_field-All (v, m) ((w, n) ∷ g) h = elim (Bool-cases (version_lt v w)) [
    | inl less ↦ rw less at h
    | inr more ↦ let (a, b) = rw more at h in let (c, d) = add_field-All (v, m) g b in (c, (a, d))
  ]

  pub add_fields-All :
      (fields g : List (Version × ℕ)) → All P (add_fields fields g) → All P fields × All P g
  unfolding add_fields
  add_fields-All [] g h = (tt, h)
  add_fields-All (f ∷ fields) g h =
      let (a, b) = add_fields-All fields (add_field f g) h in
      let (c, d) = add_field-All f g b in ((c, a), d)

-- No field is older than the first one.
abbrev pub IsLeast : Version → List (Version × ℕ) → Type 0
IsLeast v fields = All (λ f. version_lt f.0 v ≡ false) fields

abbrev pub FirstIsLeast : List (Version × ℕ) → Type 0
FirstIsLeast [] = Unit {0}
FirstIsLeast ((v, n) ∷ fields) = IsLeast v fields

version_lt_least :
    (u v w : Version) → version_lt v w ≡ true → version_lt u w ≡ false → version_lt u v ≡ false
unfolding version_lt
version_lt_least u v w h k = ground arith

pub version_lt_irrefl : (v : Version) → version_lt v v ≡ false
unfolding version_lt
version_lt_irrefl v = ground arith

version_lt_asym : (v w : Version) → version_lt v w ≡ true → version_lt w v ≡ false
unfolding version_lt
version_lt_asym v w h = ground arith

IsLeast-lt :
    (v w : Version) (fields : List (Version × ℕ))
    → version_lt v w ≡ true
    → IsLeast w fields
    → IsLeast v fields
IsLeast-lt v w [] h k = tt
IsLeast-lt v w ((u, n) ∷ fields) h (k, ks) =
    (version_lt_least u v w h k, IsLeast-lt v w fields h ks)

FirstIsLeast-add_field :
    (f : Version × ℕ) (g : List (Version × ℕ)) → FirstIsLeast g → FirstIsLeast (add_field f g)
unfolding add_field
FirstIsLeast-add_field (v, m) [] h = tt
FirstIsLeast-add_field (v, m) ((w, n) ∷ g) h = elim (Bool-cases (version_lt v w)) [
  | inl less ↦ rw less (version_lt_asym v w less, IsLeast-lt v w g less h)
  | inr more ↦ rw more (All-add_field (λ f. version_lt f.0 w ≡ false) (v, m) g more h)
]

pub FirstIsLeast-add_fields :
    (fields g : List (Version × ℕ)) → FirstIsLeast g → FirstIsLeast (add_fields fields g)
unfolding add_fields
FirstIsLeast-add_fields [] g h = h
FirstIsLeast-add_fields (f ∷ fields) g h =
    FirstIsLeast-add_fields fields (add_field f g) (FirstIsLeast-add_field f g h)
