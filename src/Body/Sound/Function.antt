-- ===== src/Body/Sound/Function.antt =====
-- The body of a function that `parseFunctionBody` accepts.
use cuda_tile.Base.{
  ℕ, zero, suc, ◌%◌, ◌^◌, ◌≡◌, refl, ap, true, inl, inr, List, ◌++◌, length, take, concat, ◌==◌, ok,
  silent, >>=-eq-ok, guard-eq-ok, ok-injective,
}
use cuda_tile.Encoding.Reader.{Cursor, read_var_int, remaining}
use cuda_tile.Body.Schema.{OpDef, Head, Operation, Regions, Operations, Pools}
use cuda_tile.Body.Results.{read_results}
use cuda_tile.Body.Flags.{read_flags}
use cuda_tile.Body.AttributeList.{read_attributes}
use cuda_tile.Body.Operands.{read_all_operands}
use cuda_tile.Body.Read.{
  Parser, new_values, find_definition, next_location, read_region_count, parse_regions, parse_head,
  create_operation, parse_operation, parse_body,
}
use cuda_tile.Body.Write.{count_regions}
use cuda_tile.Body.Sound.Scoped.{
  results_of, AreInScope, AreInScope-Within, Sound, SoundRegions, SoundOperations, Within,
  Within-take,
}
use cuda_tile.Body.Sound.Operands.{if_either, read_all_operands-in_scope}
use cuda_tile.Body.Sound.Blocks.{IsSoundAt, KeepsSound, parse_regions-Sound}

parse_head-in_scope :
    (p : Pools) (d : OpDef) (location : ℕ) (values : List ℕ) (c c' : Cursor) (h : Head) (n : ℕ)
    → parse_head p d location values c ≡ ok (h, n, c')
    → (h.definition ≡ d) × AreInScope values (concat h.operand_groups)
unfolding parse_head
parse_head-in_scope p d location values c c' h n e =
    let ((types, m, c₁), e₁, e₂) = >>=-eq-ok (read_results p d c) _ e in
    let ((flags, c₂), e₃, e₄) = >>=-eq-ok (read_flags p d c₁) _ e₂ in
    let ((attributes, c₃), e₅, e₆) = >>=-eq-ok (read_attributes p d flags d.attributes c₂) _ e₄ in
    let ((groups, sizes, c₄), e₇, e₈) = >>=-eq-ok (read_all_operands p d values flags c₃) _ e₆ in
    rw (← ap (λ (r : Head × ℕ × Cursor). r.0) (ok-injective e₈))
      (refl, read_all_operands-in_scope values p d flags c₃ c₄ groups sizes e₇)

module _ (p : Pools) (defs : List OpDef) where
  create_operation_sound :
      (h : Head) (n : ℕ) (rs : Regions) (s s₁ s' : Parser) (x : Operation) (opcode : ℕ) (d : OpDef)
      → p.available opcode ≡ true
      → find_definition opcode defs ≡ ok d
      → h.definition ≡ d
      → AreInScope s.value_index_list (concat h.operand_groups)
      → ((values : List ℕ) → Within s.value_index_list values → SoundRegions p defs values rs)
      → s₁.value_index_list ≡ s.value_index_list
      → count_regions rs ≡ d.num_regions
      → create_operation h n rs s₁ ≡ (x, s')
      → IsSoundAt p defs s x s'
  unfolding create_operation Sound
  create_operation_sound h n rs s s₁ s' x opcode d available defined q in_scope sound same counted
        e =
      let all : (create_operation h n rs s₁).0 ≡ x = ap (λ (r : Operation × Parser). r.0) e in
      let last : s₁.value_index_list ++ take n (new_values s₁.next_value (length h.result_types))
          ≡ s'.value_index_list =
        ap (λ (r : Operation × Parser). r.1.value_index_list) e in
      (
        λ values w. rw (← all) (
          record {
            opcode = opcode;
            is_available = available;
            is_defined = rw q defined;
            operands_in_scope =
                AreInScope-Within s.value_index_list values (concat h.operand_groups) w in_scope;
            has_regions = rw q counted;
          },
          sound values w,
        ),
        (n, rw (← last, ← all, same) refl),
      )

  parse_operation-KeepsSound : (fuel : ℕ) → KeepsSound p defs (parse_operation p defs fuel)
  unfolding parse_operation
  parse_operation-KeepsSound zero s s' x e = cc
  parse_operation-KeepsSound (suc fuel) s s' x e =
      let ((opcode, c), e₁, e₂) = >>=-eq-ok (read_var_int s.cursor) _ e in
      let (available, e₃) = guard-eq-ok (p.available (opcode % 2 ^ 32)) silent _ e₂ in
      let ((location, locations), e₄, e₅) =
        >>=-eq-ok (next_location p.function_loc_index s.di_locations) _ e₃ in
      let (d, e₆, e₇) = >>=-eq-ok (find_definition (opcode % 2 ^ 32) defs) _ e₅ in
      let ((h, n, c₁), e₈, e₉) = >>=-eq-ok (parse_head p d location s.value_index_list c) _ e₇ in
      let (c₂, f₁, f₂) = >>=-eq-ok (read_region_count d c₁) _ e₉ in
      let ((rs, s₁), f₃, f₄) =
        >>=-eq-ok
          (parse_regions p (parse_operation p defs fuel) d.num_regions
            (record s { cursor = c₂; di_locations = locations }))
          _ f₂ in
      let (same_definition, in_scope) =
        parse_head-in_scope p d location s.value_index_list c c₁ h n e₈ in
      let (sound, same, counted) =
        parse_regions-Sound p defs (parse_operation p defs fuel) (parse_operation-KeepsSound fuel)
          d.num_regions _ s₁ rs f₃ in
      create_operation_sound h n rs s s₁ s' x (opcode % 2 ^ 32) d available e₆ same_definition
        in_scope sound same counted (ok-injective f₄)

  parse_body-Within :
      (fuel rounds : ℕ) (s s' : Parser) (xs : Operations) (values : List ℕ)
      → Within s.value_index_list values
      → parse_body p defs fuel rounds s ≡ ok (xs, s')
      → SoundOperations p defs values xs
  unfolding parse_body SoundOperations
  parse_body-Within fuel zero s s' xs values w e =
      elim (if_either (remaining s.cursor == 0) _ _ e) [
        | inl e' ↦ rw (← ap (λ (r : Operations × Parser). r.0) (ok-injective e')) tt
        | inr e' ↦ cc
      ]
  parse_body-Within fuel (suc rounds) s s' xs values w e =
      elim (if_either (remaining s.cursor == 0) _ _ e) [
        | inl e' ↦ rw (← ap (λ (r : Operations × Parser). r.0) (ok-injective e')) tt
        | inr e' ↦
            let ((x, s₁), e₁, e₂) = >>=-eq-ok (parse_operation p defs fuel s) _ e' in
            let ((ys, s₂), e₃, e₄) = >>=-eq-ok (parse_body p defs fuel rounds s₁) _ e₂ in
            let (sound, (n, grown)) = parse_operation-KeepsSound fuel s s₁ x e₁ in
            rw (← ap (λ (r : Operations × Parser). r.0) (ok-injective e₄)) (
              sound values w,
              parse_body-Within fuel rounds s₁ s₂ ys (values ++ results_of x)
                  (rw grown (Within-take n s.value_index_list values (results_of x) w)) e₃,
            )
      ]

  -- Whatever bytes are accepted as the body of a function, its operations are sound: each is of an
  -- opcode that is available in the version and defined, with the regions of its definition; each
  -- operand is a value that was in the list before, an argument of an enclosing block, or a result of
  -- an operation before it in an enclosing block; and each block of a region ends with a terminator.
  pub parse_body-SoundOperations :
      (fuel rounds : ℕ) (s s' : Parser) (xs : Operations)
      → parse_body p defs fuel rounds s ≡ ok (xs, s')
      → SoundOperations p defs s.value_index_list xs
  parse_body-SoundOperations fuel rounds s s' xs e =
      parse_body-Within fuel rounds s s' xs s.value_index_list (λ x k. k) e
