-- ===== src/MapVector/Laws.antt =====
-- The indices that `get_index` gives are positions, they are stable, and equal keys share one.
use cuda_tile.Base.{
  ℕ, zero, suc, ◌+◌, ◌≡◌, refl, ap, arith, inl, inr, Bool-cases, List, [], ◌∷◌, ◌++◌, length, map,
  get_elem?, map-append, Option-cases, none, some,
}
use cuda_tile.MapVector.{Eq, find, enter, get_index}

module _ {ℓ} {K : Type ℓ} where
  -- The keys, in order of insertion.
  abbrev pub keys : List (K × ℕ) → List K
  keys m = map (λ p. p.0) m

  -- Each key's value is its position, counted from `i`.
  abbrev pub IsNumbered : ℕ → List (K × ℕ) → Type ℓ
  IsNumbered i [] = Unit
  IsNumbered i ((k, v) ∷ m) = (v ≡ i) × IsNumbered (suc i) m

  pub get_elem?-append :
      (xs ys : List K) (i : ℕ) (k : K) → get_elem? xs i ≡ some k → get_elem? (xs ++ ys) i ≡ some k
  get_elem?-append [] ys i k h = cc
  get_elem?-append (x ∷ xs) ys zero k h = h
  get_elem?-append (x ∷ xs) ys (suc i) k h = get_elem?-append xs ys i k h

  get_elem?-last :
      (m : List (K × ℕ)) (k : K) (v : ℕ) → get_elem? (keys (m ++ (k, v) ∷ [])) (length m) ≡ some k
  get_elem?-last [] k v = refl
  get_elem?-last (p ∷ m) k v = get_elem?-last m k v

  IsNumbered-append :
      (n : ℕ) (m : List (K × ℕ)) (k : K) (v : ℕ)
      → v ≡ n + length m
      → IsNumbered n m
      → IsNumbered n (m ++ (k, v) ∷ [])
  IsNumbered-append n [] k v e h = (omega arith, tt)
  IsNumbered-append n ((j, w) ∷ m) k v e (hw, h) =
      (hw, IsNumbered-append (suc n) m k v (omega arith) h)

module _ {ℓ} {K : Type ℓ} ⦃e : Eq K⦄ where
  find-IsNumbered :
      (k : K) (m : List (K × ℕ)) (n v : ℕ)
      → IsNumbered n m
      → find k m ≡ some v
      → (i : ℕ) × (v ≡ n + i) × (get_elem? (keys m) i ≡ some k)
  unfolding find
  find-IsNumbered k [] n v h f = cc
  find-IsNumbered k ((j, w) ∷ m) n v (hw, h) f = elim (Bool-cases (e.same_key j k)) [
    | inl same ↦
        let found : some w ≡ some v = rw same at f in
        let equal : w ≡ v = cc in (0, omega arith, ap some ((e.same_key_iff j k).0 same))
    | inr other ↦
        let (i, at_i, is_k) = find-IsNumbered k m (suc n) v h (rw other at f) in
        (suc i, omega arith, is_k)
  ]

  find-append_new :
      (k : K) (m : List (K × ℕ)) (v : ℕ) → find k m ≡ none → find k (m ++ (k, v) ∷ []) ≡ some v
  unfolding find
  find-append_new k [] v f = rw ((e.same_key_iff k k).1 refl)
  find-append_new k ((j, w) ∷ m) v f = elim (Bool-cases (e.same_key j k)) [
    | inl same ↦ let found : some w ≡ none = rw same at f in cc
    | inr other ↦ rw other (find-append_new k m v (rw other at f))
  ]

  -- In a map whose values are the positions of its keys, a lookup gives the position of the key,
  -- which is entered at the end if it is new; the other keys keep theirs, and the values stay the
  -- positions.
  pub get_index_lem :
      (k : K) (m : List (K × ℕ))
      → IsNumbered 0 m
      → IsNumbered 0 (get_index k m).1
        × (get_elem? (keys (get_index k m).1) (get_index k m).0 ≡ some k)
        × ((i : ℕ) (j : K)
            → get_elem? (keys m) i ≡ some j
            → get_elem? (keys (get_index k m).1) i ≡ some j)
  unfolding get_index enter
  get_index_lem k m h = elim (Option-cases (find k m)) [
    | inl new ↦ rw new (
      IsNumbered-append 0 m k (length m) (omega arith) h,
      get_elem?-last m k (length m),
      λ i j at_i. rw map-append (get_elem?-append (keys m) (k ∷ []) i j at_i),
    )
    | inr (v, found) ↦
        let (i, at_i, is_k) = find-IsNumbered k m 0 v h found in
        let same : v ≡ i = omega arith in rw found (h, rw same is_k, λ i j at_j. at_j)
  ]

  -- A second lookup of a key gives the same index, and changes nothing.
  pub get_index_again : (k : K) (m : List (K × ℕ)) → get_index k (get_index k m).1 ≡ get_index k m
  unfolding get_index enter
  get_index_again k m = elim (Option-cases (find k m)) [
    | inl new ↦ rw (new, find-append_new k m (length m) new)
    | inr (v, found) ↦ rw (found, found)
  ]
