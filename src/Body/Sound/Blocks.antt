-- ===== src/Body/Sound/Blocks.antt =====
-- The loops over operations, blocks and regions keep what `parseOperation` guarantees.
use cuda_tile.Base.{
  ℕ, zero, suc, ◌+◌, ◌≡◌, refl, ◌∙◌, sym, ap, true, List, [], ◌∷◌, ◌++◌, length, take, append_assoc,
  append-nil, take-length, ok, >>=-eq-ok, guard-eq-ok, ok-injective, no_terminator,
}
use cuda_tile.Encoding.Reader.{read_var_int}
use cuda_tile.Body.Schema.{OpDef, Operation, Regions, no_regions, region, Blocks, Operations, Pools}
use cuda_tile.Body.Results.{read_type}
use cuda_tile.Body.Write.{count_regions}
use cuda_tile.Body.Read.{
  Parser, moved, ParseOperation, ends_well, parse_operations, parse_arguments, parse_block,
  parse_blocks, parse_regions,
}
use cuda_tile.Body.RoundTrip.Numbering.{argument_values}
use cuda_tile.Body.Sound.Scoped.{
  results_of, Sound, SoundRegions, SoundBlocks, SoundOperations, Within, Within-append, Within-take,
}

-- What `parseOperation` guarantees: the operation is sound where the list of values is in scope, and
-- some of its results go into the list.
abbrev pub IsSoundAt : Pools → List OpDef → Parser → Operation → Parser → Type 0
IsSoundAt p defs s x s' =
    ((values : List ℕ) → Within s.value_index_list values → Sound p defs values x)
    × ((n : ℕ) × (s'.value_index_list ≡ s.value_index_list ++ take n (results_of x)))

abbrev pub KeepsSound : Pools → List OpDef → ParseOperation → Type 0
KeepsSound p defs parse =
    (s s' : Parser) (x : Operation) → parse s ≡ ok (x, s') → IsSoundAt p defs s x s'

-- The lists of values around the operations of a block.
restored :
    (old arguments new within after : List ℕ)
    → within ≡ old ++ arguments
    → after ≡ within ++ new
    → take (length old) after ≡ old
restored old arguments new within after h k =
    rw (k, h, append_assoc) (take-length old (arguments ++ new))

Within-grown :
    (old values arguments within : List ℕ)
    → within ≡ old ++ arguments
    → Within old values
    → Within within (values ++ arguments)
Within-grown old values arguments within h w = rw h (Within-append old values arguments w)

same_block :
    (p : Pools) (defs : List OpDef) (values : List ℕ) (found arguments : List (ℕ × ℕ))
    (ys xs : Operations)
    → found ≡ arguments
    → ys ≡ xs
    → SoundOperations p defs (values ++ argument_values found) ys
    → SoundOperations p defs (values ++ argument_values arguments) xs
same_block p defs values found arguments ys xs h k sound = rw (← h, ← k) sound

module _ (p : Pools) (defs : List OpDef) (parse : ParseOperation)
    (keeps : KeepsSound p defs parse) where
  parse_arguments-values :
      (count : ℕ) (s s' : Parser) (arguments : List (ℕ × ℕ))
      → parse_arguments p parse count s ≡ ok (arguments, s')
      → s'.value_index_list ≡ s.value_index_list ++ argument_values arguments
  unfolding parse_arguments
  parse_arguments-values zero s s' arguments e =
      rw
        (
          ← ap (λ (r : List (ℕ × ℕ) × Parser). r.0) (ok-injective e),
          ← ap (λ (r : List (ℕ × ℕ) × Parser). r.1) (ok-injective e),
          append-nil,
        )
        refl
  parse_arguments-values (suc count) s s' arguments e =
      let ((type, c), e₁, e₂) = >>=-eq-ok (read_type p s.cursor) _ e in
      let ((others, s₁), e₃, e₄) =
        >>=-eq-ok
          (parse_arguments p parse count (record s {
            cursor = c;
            value_index_list = s.value_index_list ++ s.next_value ∷ [];
            next_value = s.next_value + 1;
          }))
          _ e₂ in
      rw
        (
          ← ap (λ (r : List (ℕ × ℕ) × Parser). r.0) (ok-injective e₄),
          ← ap (λ (r : List (ℕ × ℕ) × Parser). r.1) (ok-injective e₄),
          parse_arguments-values count _ s₁ others e₃,
          append_assoc,
        )
        refl

  parse_operations-Sound :
      (count : ℕ) (s s' : Parser) (xs : Operations)
      → parse_operations p parse count s ≡ ok (xs, s')
      → ((values : List ℕ) → Within s.value_index_list values → SoundOperations p defs values xs)
        × ((new : List ℕ) × (s'.value_index_list ≡ s.value_index_list ++ new))
  unfolding parse_operations SoundOperations
  parse_operations-Sound zero s s' xs e = (
    λ values w. rw (← ap (λ (r : Operations × Parser). r.0) (ok-injective e)) tt,
    ([], rw (← ap (λ (r : Operations × Parser). r.1) (ok-injective e), append-nil) refl),
  )
  parse_operations-Sound (suc count) s s' xs e =
      let ((x, s₁), e₁, e₂) = >>=-eq-ok (parse s) _ e in
      let ((ys, s₂), e₃, e₄) = >>=-eq-ok (parse_operations p parse count s₁) _ e₂ in
      let (sound, (n, grown)) = keeps s s₁ x e₁ in
      let (others, (new, more)) = parse_operations-Sound count s₁ s₂ ys e₃ in
      (
        λ values w. rw (← ap (λ (r : Operations × Parser). r.0) (ok-injective e₄)) (
          sound values w,
          others (values ++ results_of x)
              (rw grown (Within-take n s.value_index_list values (results_of x) w)),
        ),
        (
          take n (results_of x) ++ new,
          rw (← ap (λ (r : Operations × Parser). r.1) (ok-injective e₄), more, grown, append_assoc)
              refl,
        ),
      )

  -- At the end of a block the list of values is what it was before.
  pub parse_block-Sound :
      (s s' : Parser) (arguments : List (ℕ × ℕ)) (xs : Operations)
      → parse_block p parse s ≡ ok (arguments, xs, s')
      → (ends_well xs ≡ true)
        × ((values : List ℕ)
            → Within s.value_index_list values
            → SoundOperations p defs (values ++ argument_values arguments) xs)
        × (s'.value_index_list ≡ s.value_index_list)
  unfolding parse_block
  parse_block-Sound s s' arguments xs e =
      let ((num_args, c), e₁, e₂) = >>=-eq-ok (read_var_int s.cursor) _ e in
      let ((found, s₁), e₃, e₄) = >>=-eq-ok (parse_arguments p parse num_args (moved c s)) _ e₂ in
      let ((num_ops, c₁), e₅, e₆) = >>=-eq-ok (read_var_int s₁.cursor) _ e₄ in
      let ((ys, s₂), e₇, e₈) = >>=-eq-ok (parse_operations p parse num_ops (moved c₁ s₁)) _ e₆ in
      let (ends, e₉) = guard-eq-ok (ends_well ys) no_terminator _ e₈ in
      let (sound, (new, grown)) = parse_operations-Sound num_ops (moved c₁ s₁) s₂ ys e₇ in
      let first : s₁.value_index_list ≡ s.value_index_list ++ argument_values found =
        parse_arguments-values num_args (moved c s) s₁ found e₃ in
      let at_first : found ≡ arguments =
        ap (λ (r : List (ℕ × ℕ) × Operations × Parser). r.0) (ok-injective e₉) in
      let at_second : ys ≡ xs =
        ap (λ (r : List (ℕ × ℕ) × Operations × Parser). r.1) (ok-injective e₉) in
      let at_last : take (length s.value_index_list) s₂.value_index_list ≡ s'.value_index_list =
        ap (λ (r : List (ℕ × ℕ) × Operations × Parser). r.2.value_index_list) (ok-injective e₉) in
      (
        ap ends_well (sym at_second) ∙ ends,
        λ values w. same_block p defs values found arguments ys xs at_first at_second (
            sound (values ++ argument_values found) (
              Within-grown s.value_index_list values (argument_values found) s₁.value_index_list
                first w)),
        sym at_last
            ∙ restored s.value_index_list (argument_values found) new s₁.value_index_list
                s₂.value_index_list first grown,
      )

  parse_blocks-Sound :
      (count : ℕ) (s s' : Parser) (bs : Blocks)
      → parse_blocks p parse count s ≡ ok (bs, s')
      → ((values : List ℕ) → Within s.value_index_list values → SoundBlocks p defs values bs)
        × (s'.value_index_list ≡ s.value_index_list)
  unfolding parse_blocks SoundBlocks
  parse_blocks-Sound zero s s' bs e = (
    λ values w. rw (← ap (λ (r : Blocks × Parser). r.0) (ok-injective e)) tt,
    rw (← ap (λ (r : Blocks × Parser). r.1) (ok-injective e)) refl,
  )
  parse_blocks-Sound (suc count) s s' bs e =
      let ((arguments, xs, s₁), e₁, e₂) = >>=-eq-ok (parse_block p parse s) _ e in
      let ((others, s₂), e₃, e₄) = >>=-eq-ok (parse_blocks p parse count s₁) _ e₂ in
      let (ends, sound, same) = parse_block-Sound s s₁ arguments xs e₁ in
      let (later, same') = parse_blocks-Sound count s₁ s₂ others e₃ in
      (
        λ values w.
            rw (← ap (λ (r : Blocks × Parser). r.0) (ok-injective e₄))
              (ends, sound values w, later values (rw same w)),
        rw (← ap (λ (r : Blocks × Parser). r.1) (ok-injective e₄), same', same) refl,
      )

  -- The regions that are read are as many as were asked for.
  pub parse_regions-Sound :
      (count : ℕ) (s s' : Parser) (rs : Regions)
      → parse_regions p parse count s ≡ ok (rs, s')
      → ((values : List ℕ) → Within s.value_index_list values → SoundRegions p defs values rs)
        × (s'.value_index_list ≡ s.value_index_list)
        × (count_regions rs ≡ count)
  unfolding parse_regions SoundRegions count_regions
  parse_regions-Sound zero s s' rs e =
      let none : no_regions ≡ rs = ap (λ (r : Regions × Parser). r.0) (ok-injective e) in
      let same : s ≡ s' = ap (λ (r : Regions × Parser). r.1) (ok-injective e) in
      (λ values w. rw (← none) tt, rw (← same) refl, rw (← none) refl)
  parse_regions-Sound (suc count) s s' rs e =
      let ((num_blocks, c), e₁, e₂) = >>=-eq-ok (read_var_int s.cursor) _ e in
      let ((bs, s₁), e₃, e₄) = >>=-eq-ok (parse_blocks p parse num_blocks (moved c s)) _ e₂ in
      let ((others, s₂), e₅, e₆) = >>=-eq-ok (parse_regions p parse count s₁) _ e₄ in
      let (sound, same) = parse_blocks-Sound num_blocks (moved c s) s₁ bs e₃ in
      let (later, same', counted) = parse_regions-Sound count s₁ s₂ others e₅ in
      let all : region bs others ≡ rs = ap (λ (r : Regions × Parser). r.0) (ok-injective e₆) in
      let last : s₂ ≡ s' = ap (λ (r : Regions × Parser). r.1) (ok-injective e₆) in
      (
        λ values w. rw (← all) (sound values w, later values (rw same w)),
        rw (← last) (same' ∙ same),
        rw (← all) (ap suc counted),
      )
