-- ===== src/Constants/Slices.antt =====
-- The constants that the reader cuts out of the data, in `parseConstantSection`.
use cuda_tile.Base.{
  ℕ, zero, suc, ◌+◌, ◌-◌, ◌%◌, ◌^◌, ◌≤◌, ◌≡◌, refl, sym, ap, arith, List, [], ◌∷◌, ◌++◌, length,
  take, drop, concat, ok, >>=-eq-ok, guard-eq-ok, constant_order, constant_bounds, ltb, not,
}
use cuda_tile.Constants.{next_start, constant_slices}

take-nil : (n : ℕ) → take {A = ℕ} n [] ≡ []
take-nil zero = refl
take-nil (suc n) = refl

take-drop : (a b : ℕ) (xs : List ℕ) → a ≤ b → take (b - a) (drop a xs) ++ drop b xs ≡ drop a xs
take-drop zero zero xs h = refl
take-drop zero (suc b) [] h = rw (take-nil (suc b - 0))
take-drop zero (suc b) (x ∷ xs) h =
    let same : suc b - 0 ≡ suc (b - 0) = omega arith in
    rw same (ap (λ ys. x ∷ ys) (take-drop zero b xs (omega arith)))
take-drop (suc a) zero xs h = absurd (omega arith)
take-drop (suc a) (suc b) [] h = rw (take-nil (suc b - suc a))
take-drop (suc a) (suc b) (x ∷ xs) h =
    let same : suc b - suc a ≡ b - a = omega arith in rw same (take-drop a b xs (omega arith))

drop-all : (xs : List ℕ) → drop (length xs) xs ≡ []
drop-all [] = refl
drop-all (x ∷ xs) = drop-all xs

-- When the loop succeeds, the constants are the data from the first index on, cut at the others: no
-- byte behind the first index is lost, and none is in two constants.
pub constant_slices_cover :
    (blob : List ℕ) (indices : List ℕ) (slices : List (List ℕ))
    → constant_slices blob indices ≡ ok slices
    → (length slices ≡ length indices) × (concat slices ≡ drop (next_start blob indices) blob)
unfolding constant_slices next_start
constant_slices_cover blob [] slices h =
    let none_left : [] ≡ slices = cc in rw (← none_left) (refl, sym (drop-all blob))
constant_slices_cover blob (first ∷ rest) slices h =
    let last : ℕ = next_start blob rest in
    let (ordered, h₁) = guard-eq-ok (not (ltb last first)) constant_order _ h in
    let (within, h₂) =
      guard-eq-ok (not (ltb (length blob) ((last - first + first) % 2 ^ 64))) constant_bounds _
        h₁ in
    let (others, loop, whole) = >>=-eq-ok (constant_slices blob rest) _ h₂ in
    let (count, cover) = constant_slices_cover blob rest others loop in
    let sorted : first ≤ last = ground arith in
    let cut : take (last - first) (drop first blob) ∷ others ≡ slices = cc in
    rw (← cut) (ap suc count, rw cover (take-drop first last blob sorted))
