-- ===== src/Body/Operands/Conditions.antt =====
-- What holds of operands that match their definitions.
use cuda_tile.Base.{
  ℕ, ◌+◌, ◌-◌, ◌%◌, ◌^◌, ◌≤◌, ◌<◌, ◌≡◌, Bool, true, false, List, [], ◌∷◌, ◌++◌, length, map, concat,
  append_assoc, length-append, All, get_elem?, some, leb, ltb-true, leb-true, if◌then◌else◌, arith,
  Outcome, ok,
}
use cuda_tile.Encoding.Writer.{var_int}
use cuda_tile.Encoding.Reader.{Cursor, at}
use cuda_tile.Encoding.VarInt.{read_var_int-var_int}
use cuda_tile.Encoding.Fixed.{ok_at}
use cuda_tile.MapVector.{find, nat_instance}
use cuda_tile.Body.Schema.{OperandDef, OpDef}
use cuda_tile.Body.Flags.{Field}
use cuda_tile.Body.Operands.{operand_bytes, any_variable, value_at, read_operands, as_size, rounds}

-- The writer's map and the reader's list agree on a value.
abbrev pub HasIndex : List (ℕ × ℕ) → List ℕ → ℕ → Type 0
HasIndex indices values x =
    (i : ℕ) × (find x indices ≡ some i) × (get_elem? values i ≡ some x) × (i < 2 ^ 64)

-- The size of a group that matches its operand's definition.
abbrev pub GroupOk : OperandDef → List ℕ → Type 0
GroupOk x group =
    (x.optional_operand ≡ true → length group ≤ 1)
    × (x.optional_operand ≡ false → x.variadic_operand ≡ false → length group ≡ 1)

abbrev pub GroupsOk : List OperandDef → List (List ℕ) → Type 0
GroupsOk [] [] = Unit {0}
GroupsOk (x ∷ defs) (group ∷ groups) = GroupOk x group × GroupsOk defs groups
GroupsOk _ _ = ⊥

-- What holds of the operands of an operation that matches its definition.
pub record OperandsOk (d : OpDef) (groups : List (List ℕ)) : Type 0 where
  pub few_operands : length (concat groups) < 2 ^ 31
  pub groups_ok : d.sized_segments ≡ true → GroupsOk d.operands groups
  pub one_group :
      d.sized_segments ≡ false
      → (xs : List ℕ) × (groups ≡ xs ∷ [])
        × (any_variable d.operands ≡ false → length xs ≡ length d.operands)

pub when_true {ℓ} :
    (b : Bool) (P : List Field → Type ℓ) (xs ys : List Field)
    → b ≡ true
    → P (if b then xs else ys)
    → P xs
when_true true P xs ys h k = k
when_true false P xs ys h k = cc

-- The lengths of the segments, for an operation that has them.
abbrev pub sizes_of : OpDef → List (List ℕ) → List ℕ
sizes_of d groups = if d.sized_segments then map length groups else []

module _ (indices : List (ℕ × ℕ)) (values : List ℕ) where
  pub read_operands-operand_bytes :
      (xs : List ℕ) (o : ℕ) (rest : List ℕ)
      → All (HasIndex indices values) xs
      → read_operands values (length xs) (at o (operand_bytes indices xs ++ rest))
        ≡ ok (xs, at (o + length (operand_bytes indices xs)) rest)
  unfolding read_operands value_at operand_bytes
  read_operands-operand_bytes [] o rest h = ok_at {A = List ℕ} [] rest (omega arith)
  read_operands-operand_bytes (x ∷ xs) o rest ((i, found, here, small), hs) =
      let others : List ℕ = operand_bytes indices xs in
      rw
        (
          found,
          append_assoc,
          read_var_int-var_int i o (others ++ rest) small,
          here,
          read_operands-operand_bytes xs (o + length (var_int i)) rest hs,
        )
        (ok_at (x ∷ xs) rest (omega (arith, length-append (var_int i) others)))

pub groups_at {ℓ} :
    {A : Type ℓ} (a : A) (sizes : List ℕ) {o o' : ℕ} (rest : List ℕ)
    → o ≡ o'
    → ◌≡◌ {A = Outcome (A × List ℕ × Cursor)} (ok (a, sizes, at o rest)) (ok (a, sizes, at o' rest))
groups_at a sizes rest e = λ i. ok (a, sizes, at (e i) rest)

pub as_size_small : (n : ℕ) → n < 2 ^ 31 → as_size n ≡ n
unfolding as_size
as_size_small n h = rw (ltb-true n (2 ^ 31) h)

pub rounds_small : (n : ℕ) → n < 2 ^ 31 → rounds n ≡ n
unfolding rounds
rounds_small n h = rw (ltb-true n (2 ^ 31) h)

pub fits_guard :
    (parsed n : ℕ) → parsed + n < 2 ^ 31 → leb ((parsed + n) % 2 ^ 64) (2 ^ 32 - 1 - 1) ≡ true
fits_guard parsed n h = leb-true _ _ (omega arith)
