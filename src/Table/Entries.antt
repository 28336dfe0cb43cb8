-- ===== src/Table/Entries.antt =====
-- Where each entry of a table lies in its data.
use cuda_tile.Table.Layout.{offsets_from}
use cuda_tile.Base.{
  ℕ, zero, suc, ◌+◌, ◌%◌, ◌^◌, ◌≤◌, ◌<◌, ◌≡◌, refl, ap, ◌∙◌, arith, List, [], ◌∷◌, ◌++◌, length,
  take, drop, get_elem?, concat, take-length, length-append, none, some,
}
use cuda_tile.Base.{◌⊎◌, inl, inr}
use native.Mathlib.Nat.{zero-add, add_assoc, mod-eq_of_lt}

-- The bytes of the first `i` entries.
abbrev pub bytes_before : List (List ℕ) → ℕ → ℕ
bytes_before [] i = 0
bytes_before (e ∷ es) zero = 0
bytes_before (e ∷ es) (suc i) = length e + bytes_before es i

pub bytes_before_zero : (entries : List (List ℕ)) → bytes_before entries 0 ≡ 0
bytes_before_zero [] = refl
bytes_before_zero (e ∷ es) = refl

pub bytes_before-suc :
    (entries : List (List ℕ)) (i : ℕ) (entry : List ℕ)
    → get_elem? entries i ≡ some entry
    → (bytes_before entries (suc i) ≡ bytes_before entries i + length entry)
      × (bytes_before entries i + length entry ≤ length (concat entries))
bytes_before-suc [] i entry e = cc
bytes_before-suc (x ∷ xs) zero entry e =
    let p : length x ≡ length entry = cc in
    (omega (arith, bytes_before_zero xs), omega (arith, length-append x (concat xs)))
bytes_before-suc (x ∷ xs) (suc i) entry e =
    let (next, within) = bytes_before-suc xs i entry e in
    (omega arith, omega (arith, length-append x (concat xs)))

pub drop-append : (xs ys : List ℕ) (k : ℕ) → drop (length xs + k) (xs ++ ys) ≡ drop k ys
drop-append [] ys k = ap (λ (n : ℕ). drop n ys) (omega arith)
drop-append (x ∷ xs) ys k =
    let step : suc (length xs) + k ≡ suc (length xs + k) = omega arith in
    rw step (drop-append xs ys k)

-- Entry `i` lies in the data behind the entries before it.
pub slice-entry :
    (entries : List (List ℕ)) (i : ℕ) (entry : List ℕ)
    → get_elem? entries i ≡ some entry
    → take (length entry) (drop (bytes_before entries i) (concat entries)) ≡ entry
slice-entry [] i entry e = cc
slice-entry (x ∷ xs) zero entry e = let p : x ≡ entry = cc in rw p (take-length entry (concat xs))
slice-entry (x ∷ xs) (suc i) entry e =
    rw (drop-append x (concat xs) (bytes_before xs i)) (slice-entry xs i entry e)

-- Its offset in the table, while the data do not pass what an offset can hold.
pub offset-entry :
    (size : ℕ) (entries : List (List ℕ)) (i running : ℕ) (entry : List ℕ)
    → get_elem? entries i ≡ some entry
    → running + length (concat entries) < 256 ^ size
    → get_elem? (offsets_from size running entries) i ≡ some (running + bytes_before entries i)
offset-entry size [] i running entry e fits = cc
offset-entry size (x ∷ xs) zero running entry e fits = ap some (omega arith)
offset-entry size (x ∷ xs) (suc i) running entry e fits =
    let room : running + length x + length (concat xs) < 256 ^ size =
      omega (arith, length-append x (concat xs)) in
    let kept : (running + length x) % 256 ^ size ≡ running + length x =
      mod-eq_of_lt (omega arith) in
    rw kept (offset-entry size xs i (running + length x) entry e room ∙ ap some (omega arith))

-- Where entry `i` ends: at the next offset, or, for the last one, at the end of the data.
pub end-entry :
    (size : ℕ) (entries : List (List ℕ)) (i running : ℕ) (entry : List ℕ)
    → get_elem? entries i ≡ some entry
    → running + length (concat entries) < 256 ^ size
    → (get_elem? (offsets_from size running entries) (suc i)
        ≡ some (running + bytes_before entries i + length entry))
      ⊎ (get_elem? (offsets_from size running entries) (suc i) ≡ none)
        × (running + bytes_before entries i + length entry ≡ running + length (concat entries))
end-entry size [] i running entry e fits = cc
end-entry size (x ∷ []) zero running entry e fits =
    let p : length x ≡ length entry = cc in inr (refl, omega (arith, length-append x []))
end-entry size (x ∷ y ∷ ys) zero running entry e fits =
    let p : length x ≡ length entry = cc in
    let kept : (running + length x) % 256 ^ size ≡ running + length x =
      mod-eq_of_lt (omega (arith, length-append x (y ++ concat ys))) in
    inl (ap some (omega arith))
end-entry size (x ∷ xs) (suc i) running entry e fits =
    let room : running + length x + length (concat xs) < 256 ^ size =
      omega (arith, length-append x (concat xs)) in
    let kept : (running + length x) % 256 ^ size ≡ running + length x =
      mod-eq_of_lt (omega arith) in
    rw kept (elim (end-entry size xs i (running + length x) entry e room) [
      | inl next ↦ inl (next ∙ ap some (omega arith))
      | inr (last, whole) ↦ inr (last, omega (arith, length-append x (concat xs)))
    ])

pub get_elem?-append_left :
    (xs ys : List ℕ) (j x : ℕ) → get_elem? xs j ≡ some x → get_elem? (xs ++ ys) j ≡ some x
get_elem?-append_left [] ys j x h = cc
get_elem?-append_left (z ∷ xs) ys zero x h = h
get_elem?-append_left (z ∷ xs) ys (suc j) x h = get_elem?-append_left xs ys j x h

pub get_elem?-append_right :
    (xs ys : List ℕ) (j : ℕ) → get_elem? (xs ++ ys) (length xs + j) ≡ get_elem? ys j
get_elem?-append_right [] ys j = ap (λ (n : ℕ). get_elem? ys n) (omega arith)
get_elem?-append_right (z ∷ xs) ys j =
    let step : suc (length xs) + j ≡ suc (length xs + j) = omega arith in
    rw step (get_elem?-append_right xs ys j)

-- An element of an entry, among all of them.
pub get_elem?-concat :
    (entries : List (List ℕ)) (i j x : ℕ) (entry : List ℕ)
    → get_elem? entries i ≡ some entry
    → get_elem? entry j ≡ some x
    → get_elem? (concat entries) (bytes_before entries i + j) ≡ some x
get_elem?-concat [] i j x entry e h = cc
get_elem?-concat (y ∷ ys) zero j x entry e h =
    let p : y ≡ entry = cc in rw (zero-add j, p) (get_elem?-append_left entry (concat ys) j x h)
get_elem?-concat (y ∷ ys) (suc i) j x entry e h =
    rw (add_assoc (length y), get_elem?-append_right y (concat ys))
      (get_elem?-concat ys i j x entry e h)
