-- ===== src/Body/RoundTrip/Scopes.antt =====
-- The writer's map of values and the reader's list of them agree, before and after each step.
use cuda_tile.Base.{
  ℕ, zero, suc, ◌+◌, ◌-◌, ◌^◌, ◌≤◌, ◌<◌, ◌≡◌, refl, ap, ◌∙◌, true, ◌==◌, List, [], ◌∷◌, ◌++◌,
  length, length-append, take, All, All-map, All-append, All-split, append-nil, append_assoc,
  get_elem?, some, Bool-cases, inl, inr, ==_false, arith,
}
use cuda_tile.MapVector.{find, nat_instance}
use cuda_tile.Body.Write.{Scope, set_index, assign, leave_block}
use cuda_tile.Body.Read.{new_values}
use cuda_tile.Body.Operands.Conditions.{HasIndex}
use cuda_tile.Body.RoundTrip.Numbering.{contains}

-- The entries of values with consecutive indices.
abbrev pub numbered : ℕ → List ℕ → List (ℕ × ℕ)
numbered i [] = []
numbered i (x ∷ xs) = (x, i) ∷ numbered (suc i) xs

-- The writer numbers the values of the reader's list, all of which are before the next one.
pub record Agree (s : Scope) (values : List ℕ) (next : ℕ) : Type 0 where
  pub same_values : s.value_index_map ≡ numbered 0 values
  pub same_length : s.next_value_index ≡ length values
  pub before_next : All (λ x. x < next) values

index_in :
    (values : List ℕ) (i x : ℕ)
    → contains x values ≡ true
    → (j : ℕ) × (find x (numbered i values) ≡ some (i + j))
      × (get_elem? values j ≡ some x)
      × (j < length values)
unfolding find
index_in [] i x h = cc
index_in (y ∷ values) i x h = elim (Bool-cases (y == x)) [
  | inl same ↦ (0, rw same (ap (λ (k : ℕ). some k) (omega arith)), ground arith, omega arith)
  | inr other ↦
      let (j, found, here, lt) = index_in values (suc i) x (ground arith) in
      (suc j, rw (other, found) (ap (λ (k : ℕ). some k) (omega arith)), here, omega arith)
]

-- A value in scope has an index that leads to it.
pub in_scope-HasIndex :
    (s : Scope) (values : List ℕ) (next x : ℕ)
    → Agree s values next
    → length values ≤ 2 ^ 64
    → contains x values ≡ true
    → HasIndex s.value_index_map values x
in_scope-HasIndex s values next x a few h =
    let (j, found, here, lt) = index_in values 0 x h in
    (j, ap (find x) a.same_values ∙ found ∙ ap (λ (k : ℕ). some k) (omega arith), here, omega arith)

set_index-new :
    (values : List ℕ) (i k x : ℕ)
    → k ≡ i + length values
    → All (λ y. y < x) values
    → set_index x k (numbered i values) ≡ numbered i (values ++ x ∷ [])
unfolding set_index
set_index-new [] i k x e h = ap (λ (j : ℕ). (x, j) ∷ []) (omega arith)
set_index-new (y ∷ values) i k x e (h, hs) =
    rw (==_false y x (omega arith), set_index-new values (suc i) k x (omega arith) hs)

-- Later values may be the next ones.
pub Agree-le : (s : Scope) (values : List ℕ) (a b : ℕ) → Agree s values a → a ≤ b → Agree s values b
Agree-le s values a b h le = record {
  same_values = h.same_values;
  same_length = h.same_length;
  before_next = All-map values (λ x lt. omega (arith, lt)) h.before_next;
}

-- New values, of which the first `n` get an index.
pub assign-new :
    (n t a b : ℕ) (s : Scope) (values : List ℕ)
    → Agree s values a
    → a + t ≤ b
    → Agree (assign (take n (new_values a t)) s) (values ++ take n (new_values a t)) b
      × ((assign (take n (new_values a t)) s).locations ≡ s.locations)
unfolding assign new_values
assign-new zero t a b s values h le = rw append-nil (Agree-le s values a b h (omega arith), refl)
assign-new (suc n) zero a b s values h le =
    rw append-nil (Agree-le s values a b h (omega arith), refl)
assign-new (suc n) (suc t) a b s values h le =
    let entered : set_index a s.next_value_index s.value_index_map ≡ numbered 0 (values ++ a ∷ []) =
      rw h.same_values (
        set_index-new values 0 s.next_value_index a (omega (arith, h.same_length)) h.before_next) in
    let s' : Scope = record s {
      value_index_map = set_index a s.next_value_index s.value_index_map;
      next_value_index = s.next_value_index + 1;
    } in
    let h' : Agree s' (values ++ a ∷ []) (suc a) = record {
      same_values = entered;
      same_length = omega (arith, h.same_length, length-append values (a ∷ []));
      before_next =
          All-append (λ x. x < suc a) values (a ∷ [])
            (All-map values (λ x lt. omega (arith, lt)) h.before_next) (omega arith, tt);
    } in
    let (agree, kept) = assign-new n t (suc a) b s' (values ++ a ∷ []) h' (omega arith) in
    (rw append_assoc at agree, kept)

take-new_values : (a n : ℕ) → take n (new_values a n) ≡ new_values a n
unfolding new_values
take-new_values a zero = refl
take-new_values a (suc n) = ap (λ xs. a ∷ xs) (take-new_values (suc a) n)

pub length-new_values : (a n : ℕ) → length (new_values a n) ≡ n
unfolding new_values
length-new_values a zero = refl
length-new_values a (suc n) = ap suc (length-new_values (suc a) n)

-- New values that all get an index.
pub assign-all :
    (n a : ℕ) (s : Scope) (values : List ℕ)
    → Agree s values a
    → Agree (assign (new_values a n) s) (values ++ new_values a n) (a + n)
      × ((assign (new_values a n) s).locations ≡ s.locations)
assign-all n a s values h =
    rw take-new_values at (assign-new n n a (a + n) s values h (omega arith))

length-numbered : (i : ℕ) (values : List ℕ) → length (numbered i values) ≡ length values
length-numbered i [] = refl
length-numbered i (x ∷ values) = ap suc (length-numbered (suc i) values)

take-numbered :
    (i : ℕ) (values inner : List ℕ)
    → take (length values) (numbered i (values ++ inner)) ≡ numbered i values
take-numbered i [] inner = refl
take-numbered i (x ∷ values) inner = ap (λ xs. (x, i) ∷ xs) (take-numbered (suc i) values inner)

-- The end of a block takes out what was entered since its start, and nothing else.
pub leave_block-outer :
    (s : Scope) (values inner : List ℕ) (outer next : ℕ)
    → outer ≡ length values
    → Agree s (values ++ inner) next
    → Agree (leave_block outer s) values next × ((leave_block outer s).locations ≡ s.locations)
unfolding leave_block
leave_block-outer s values inner outer next q h =
    let kept : length s.value_index_map - (s.next_value_index - outer) ≡ length values = omega (
      arith,
      ap length h.same_values,
      length-numbered 0 (values ++ inner),
      h.same_length,
      length-append values inner,
    ) in
    (
      record {
        same_values = rw (kept, h.same_values) (take-numbered 0 values inner);
        same_length = q;
        before_next = (All-split (λ x. x < next) values inner h.before_next).0;
      },
      refl,
    )
