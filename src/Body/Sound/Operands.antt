-- ===== src/Body/Sound/Operands.antt =====
-- The operands that the reader takes are in the list of values, whatever the bytes are.
use cuda_tile.Base.{
  ℕ, zero, suc, ◌+◌, ◌≡◌, ◌⊎◌, ap, if◌then◌else◌, Bool, true, false, ==_true, leb, ◌%◌, ◌^◌, ◌-◌,
  List, [], ◌∷◌, length, get_elem?, concat, All-append, Option, none, some, inl, inr, ok, silent,
  >>=-eq-ok, guard-eq-ok, ok-injective, arith,
}
use cuda_tile.Encoding.Reader.{Cursor, read_var_int, read_var_int_max}
use cuda_tile.Body.Schema.{OperandDef, OpDef, Pools}
use cuda_tile.Body.Operands.{
  any_variable, value_at, read_operands, parse_operands, segment_length, as_size, rounds,
  read_groups, read_all_operands,
}
use cuda_tile.Body.RoundTrip.Numbering.{contains}
use cuda_tile.Body.Sound.Scoped.{AreInScope}

get_elem-contains :
    (values : List ℕ) (i x : ℕ) → get_elem? values i ≡ some x → contains x values ≡ true
get_elem-contains [] i x h = cc
get_elem-contains (y ∷ values) zero x h = rw (==_true y x (cc))
get_elem-contains (y ∷ values) (suc i) x h = ground (arith, get_elem-contains values i x h)

pub if_either {ℓ} :
    {A : Type ℓ} (b : Bool) (x y : A) {z : A} → (if b then x else y) ≡ z → (x ≡ z) ⊎ (y ≡ z)
if_either true x y h = inl h
if_either false x y h = inr h

value_at-some : (m : Option ℕ) (x : ℕ) (c c' : Cursor) → value_at m c ≡ ok (x, c') → m ≡ some x
unfolding value_at
value_at-some none x c c' e = cc
value_at-some (some y) x c c' e = cc

module _ (values : List ℕ) where
  read_operands-in_scope :
      (count : ℕ) (c c' : Cursor) (xs : List ℕ)
      → read_operands values count c ≡ ok (xs, c')
      → AreInScope values xs
  unfolding read_operands
  read_operands-in_scope zero c c' xs e =
      rw (← ap (λ (r : List ℕ × Cursor). r.0) (ok-injective e)) tt
  read_operands-in_scope (suc count) c c' xs e =
      let ((i, c₁), e₁, e₂) = >>=-eq-ok (read_var_int c) _ e in
      let ((x, c₂), e₃, e₄) = >>=-eq-ok (value_at (get_elem? values i) c₁) _ e₂ in
      let ((ys, c₃), e₅, e₆) = >>=-eq-ok (read_operands values count c₂) _ e₄ in
      rw (← ap (λ (r : List ℕ × Cursor). r.0) (ok-injective e₆)) (
        get_elem-contains values i x (value_at-some (get_elem? values i) x c₁ c₂ e₃),
        read_operands-in_scope count c₂ c₃ ys e₅,
      )

  parse_operands-in_scope :
      (count : Option ℕ) (c c' : Cursor) (xs : List ℕ)
      → parse_operands values count c ≡ ok (xs, c')
      → AreInScope values xs
  unfolding parse_operands
  parse_operands-in_scope (some count) c c' xs e = read_operands-in_scope count c c' xs e
  parse_operands-in_scope none c c' xs e =
      let ((count, c₁), e₁, e₂) = >>=-eq-ok (read_var_int_max (2 ^ 32 - 1 - 1) c) _ e in
      read_operands-in_scope count c₁ c' xs e₂

  module _ (p : Pools) (d : OpDef) (flags : ℕ) where
    read_groups-in_scope :
        (defs : List OperandDef) (parsed : ℕ) (c c' : Cursor) (groups : List (List ℕ))
        (sizes : List ℕ)
        → read_groups p d values flags defs parsed c ≡ ok (groups, sizes, c')
        → AreInScope values (concat groups)
    unfolding read_groups
    read_groups-in_scope [] parsed c c' groups sizes e =
        rw (← ap (λ (r : List (List ℕ) × List ℕ × Cursor). r.0) (ok-injective e)) tt
    read_groups-in_scope (x ∷ defs) parsed c c' groups sizes e =
        let ((n, c₁), e₁, e₂) = >>=-eq-ok (segment_length p d flags x c) _ e in
        let (small, e₃) =
          guard-eq-ok (leb ((parsed + as_size n) % 2 ^ 64) (2 ^ 32 - 1 - 1)) silent _ e₂ in
        let ((group, c₂), e₄, e₅) = >>=-eq-ok (read_operands values (rounds n) c₁) _ e₃ in
        let ((others, ns, c₃), e₆, e₇) =
          >>=-eq-ok (read_groups p d values flags defs (parsed + rounds n) c₂) _ e₅ in
        rw (← ap (λ (r : List (List ℕ) × List ℕ × Cursor). r.0) (ok-injective e₇)) (
          All-append (λ y. contains y values ≡ true) group (concat others)
            (read_operands-in_scope (rounds n) c₁ c₂ group e₄)
            (read_groups-in_scope defs (parsed + rounds n) c₂ c₃ others ns e₆))

    -- Each operand that is read for an operation is in the list of values.
    pub read_all_operands-in_scope :
        (c c' : Cursor) (groups : List (List ℕ)) (sizes : List ℕ)
        → read_all_operands p d values flags c ≡ ok (groups, sizes, c')
        → AreInScope values (concat groups)
    unfolding read_all_operands
    read_all_operands-in_scope c c' groups sizes e = elim (if_either d.sized_segments _ _ e) [
      | inl e' ↦ read_groups-in_scope d.operands 0 c c' groups sizes e'
      | inr e' ↦
          let ((xs, c₁), e₁, e₂) =
            >>=-eq-ok
              (parse_operands values
                (if any_variable d.operands then none else some (length d.operands)) c)
              _ e' in
          rw (← ap (λ (r : List (List ℕ) × List ℕ × Cursor). r.0) (ok-injective e₂)) (
            All-append (λ y. contains y values ≡ true) xs [] (parse_operands-in_scope _ c c₁ xs e₁)
              tt)
    ]
