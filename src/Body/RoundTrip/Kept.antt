-- ===== src/Body/RoundTrip/Kept.antt =====
-- What a file keeps of the locations in a body. Under a function whose index in the debug section is
-- reserved `addDebugInfo` records none, and the reader gives every operation the unknown location.
use cuda_tile.Base.{
  ℕ, zero, suc, ◌≡◌, refl, ap, true, List, map, ◌==◌, if◌then◌else◌, Bool-cases, inl, inr, arith,
  ok, silent, >>=-eq-ok, guard-eq-ok,
}
use mathlib.Core.Path.{subst}
use cuda_tile.Body.Schema.{
  Operation, operation, Regions, no_regions, region, Blocks, no_blocks, block, Operations,
  no_operations, next_operation, Pools,
}
use cuda_tile.Body.Write.{
  Scope, assign, leave_block, add_debug_info, write_head, write_operation, write_regions,
  write_blocks, write_operations, count_regions, count_blocks, count_operations,
}

-- The same operations, each at the unknown location.
unfoldable mutual
  pub unlocated : Operation → Operation
  unlocated (operation h rs) = operation (record h { location = 0 }) (unlocated_regions rs)

  pub unlocated_regions : Regions → Regions
  unlocated_regions no_regions = no_regions
  unlocated_regions (region bs rs) = region (unlocated_blocks bs) (unlocated_regions rs)

  pub unlocated_blocks : Blocks → Blocks
  unlocated_blocks no_blocks = no_blocks
  unlocated_blocks (block arguments xs bs) =
      block arguments (unlocated_operations xs) (unlocated_blocks bs)

  pub unlocated_operations : Operations → Operations
  unlocated_operations no_operations = no_operations
  unlocated_operations (next_operation x xs) =
      next_operation (unlocated x) (unlocated_operations xs)

unfoldable pub kept_operations : Pools → Operations → Operations
kept_operations p xs = if p.function_loc_index == 0 then unlocated_operations xs else xs

count_regions-unlocated : (rs : Regions) → count_regions (unlocated_regions rs) ≡ count_regions rs
unfolding count_regions unlocated_regions
count_regions-unlocated no_regions = refl
count_regions-unlocated (region bs rs) = ap (λ (n : ℕ). suc n) (count_regions-unlocated rs)

count_blocks-unlocated : (bs : Blocks) → count_blocks (unlocated_blocks bs) ≡ count_blocks bs
unfolding count_blocks unlocated_blocks
count_blocks-unlocated no_blocks = refl
count_blocks-unlocated (block arguments xs bs) = ap (λ (n : ℕ). suc n) (count_blocks-unlocated bs)

count_operations-unlocated :
    (xs : Operations) → count_operations (unlocated_operations xs) ≡ count_operations xs
unfolding count_operations unlocated_operations
count_operations-unlocated no_operations = refl
count_operations-unlocated (next_operation x xs) =
    ap (λ (n : ℕ). suc n) (count_operations-unlocated xs)

unrecorded :
    (op_index location : ℕ) (locations : List ℕ)
    → op_index ≡ 0
    → add_debug_info op_index location locations ≡ add_debug_info op_index 0 locations
unfolding add_debug_info
unrecorded zero location locations e = refl
unrecorded (suc op_index) location locations e = absurd (omega arith)

module _ (p : Pools) (reserved : p.function_loc_index ≡ 0)
    (valid : p.valid_debuginfo 0 ≡ true) where
  mutual
    unfolding unlocated write_operation write_head

    operation-unlocated :
        (x : Operation) (s : Scope) (r : List ℕ × Scope)
        → write_operation p x s ≡ ok r
        → write_operation p (unlocated x) s ≡ ok r
    operation-unlocated (operation h rs) s r e =
        let (available, e₀) = guard-eq-ok (p.available h.definition.opcode) silent _ e in
        let (_, e₁) = guard-eq-ok (p.valid_debuginfo h.location) silent _ e₀ in
        let s₁ : Scope = record s {
          locations = add_debug_info p.function_loc_index h.location s.locations;
        } in
        let ((head, n), e₂, e₃) = >>=-eq-ok (write_head p h s.value_index_map) _ e₁ in
        let ((regions, s₂), e₄, e₅) = >>=-eq-ok (write_regions p rs s₁) _ e₃ in
        let inner =
          subst
            (λ (l : List ℕ).
              write_regions p (unlocated_regions rs) (record s { locations = l })
              ≡ ok (regions, s₂))
            (unrecorded p.function_loc_index h.location s.locations reserved)
            (regions-unlocated rs s₁ (regions, s₂) e₄) in
        rw (available, valid, e₂, inner, count_regions-unlocated rs) e₅

    regions-unlocated :
        (rs : Regions) (s : Scope) (r : List ℕ × Scope)
        → write_regions p rs s ≡ ok r
        → write_regions p (unlocated_regions rs) s ≡ ok r
    regions-unlocated no_regions s r e = e
    regions-unlocated (region bs rs) s r e =
        let ((blocks, s₁), e₁, e₂) = >>=-eq-ok (write_blocks p bs s) _ e in
        let ((regions, s₂), e₃, e₄) = >>=-eq-ok (write_regions p rs s₁) _ e₂ in
        rw
          (
            blocks-unlocated bs s (blocks, s₁) e₁,
            regions-unlocated rs s₁ (regions, s₂) e₃,
            count_blocks-unlocated bs,
          )
          e₄

    blocks-unlocated :
        (bs : Blocks) (s : Scope) (r : List ℕ × Scope)
        → write_blocks p bs s ≡ ok r
        → write_blocks p (unlocated_blocks bs) s ≡ ok r
    blocks-unlocated no_blocks s r e = e
    blocks-unlocated (block arguments xs bs) s r e =
        let s₁ : Scope = assign (map (λ (argument : ℕ × ℕ). argument.1) arguments) s in
        let ((operations, s₂), e₁, e₂) = >>=-eq-ok (write_operations p xs s₁) _ e in
        let ((blocks, s₃), e₃, e₄) =
          >>=-eq-ok (write_blocks p bs (leave_block s.next_value_index s₂)) _ e₂ in
        rw
          (
            operations-unlocated xs s₁ (operations, s₂) e₁,
            blocks-unlocated bs (leave_block s.next_value_index s₂) (blocks, s₃) e₃,
            count_operations-unlocated xs,
          )
          e₄

    pub operations-unlocated :
        (xs : Operations) (s : Scope) (r : List ℕ × Scope)
        → write_operations p xs s ≡ ok r
        → write_operations p (unlocated_operations xs) s ≡ ok r
    operations-unlocated no_operations s r e = e
    operations-unlocated (next_operation x xs) s r e =
        let ((first, s₁), e₁, e₂) = >>=-eq-ok (write_operation p x s) _ e in
        let ((others, s₂), e₃, e₄) = >>=-eq-ok (write_operations p xs s₁) _ e₂ in
        rw (operation-unlocated x s (first, s₁) e₁, operations-unlocated xs s₁ (others, s₂) e₃) e₄

-- What is kept of the operations is written to the same bytes, with the same locations.
pub write_operations-kept :
    (p : Pools) (xs : Operations) (s : Scope) (r : List ℕ × Scope)
    → p.valid_debuginfo 0 ≡ true
    → write_operations p xs s ≡ ok r
    → write_operations p (kept_operations p xs) s ≡ ok r
unfolding kept_operations
write_operations-kept p xs s r valid e = elim (Bool-cases (p.function_loc_index == 0)) [
  | inl reserved ↦ rw reserved (operations-unlocated p (ground arith) valid xs s r e)
  | inr other ↦ rw other e
]
