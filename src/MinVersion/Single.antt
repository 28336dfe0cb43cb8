-- ===== src/MinVersion/Single.antt =====
-- In a version that an analysis has reached, the part of an operation before its regions is written.
use cuda_tile.Base.{
  ℕ, ◌≡◌, refl, Bool, false, not, ◌&&◌, List, [], ◌∷◌, All-append, Option, Bool-cases, inl, inr,
  arith,
}
use cuda_tile.Version.{Version, version_lt}
use cuda_tile.Body.Schema.{Attr, AttrDef, OperandDef, ResultDef, OpDef, Head, Regions, Pools}
use cuda_tile.Body.Flags.{attribute_presence, presence, too_new, ordered_fields, write_flags}
use cuda_tile.Body.Flags.Setting.{AllAllowed}
use cuda_tile.Body.Results.{
  is_compatible, requires_version_check, any_versioned, compatible_types, serialized_types,
}
use cuda_tile.Body.Write.{write_head}
use cuda_tile.MinVersion.{
  Analysis, check_attribute, check_attributes, check_operand, check_operands, check_results,
  ods_operands, min_version_for,
}
use cuda_tile.MinVersion.Reached.{
  Has, Reached, bump-Reached, check_type-Reached, check_types-Reached, check_operand-Reached,
  check_attribute-Reached, check_regions-Reached,
}
use cuda_tile.MinVersion.Parts.{
  Succeeds, AreWritable, HasAttributes, HasOperands, compatible_step, and_not,
  write_attributes-Succeeds, write_flags_of-Succeeds, attribute_presence-AllAllowed,
  operand_presence-AllAllowed,
}

module _ (p : Pools) where
  -- What the analysis of an operation says of its parts.
  module _ (type_version : ℕ → Version) (type_of : ℕ → ℕ) (d : OpDef) where
    check_attributes-Reached :
        (defs : List AttrDef) (values : List (Option Attr)) (s : Analysis)
        → Reached p.file_version (check_attributes d defs values s)
        → (Has p.file_version d.op_since → HasAttributes p.file_version defs values)
          × Reached p.file_version s
    unfolding check_attributes
    check_attributes-Reached [] values s h = (λ k. tt, h)
    check_attributes-Reached (a ∷ defs) [] s h = (λ k. tt, h)
    check_attributes-Reached (a ∷ defs) (value ∷ values) s h =
        let (others, here) = check_attributes-Reached defs values (check_attribute d a value s) h in
        let (first, old) = check_attribute-Reached p.file_version d a s value here in
        (λ k. (first k, others k), old)

    check_operands-Reached :
        (defs : List OperandDef) (groups : List (List ℕ)) (s : Analysis)
        → Reached p.file_version (check_operands type_version type_of p.is_used d defs groups s)
        → (Has p.file_version d.op_since → HasOperands p.file_version defs groups)
          × Reached p.file_version s
    unfolding check_operands
    check_operands-Reached [] groups s h = (λ k. tt, h)
    check_operands-Reached (x ∷ defs) [] s h = (λ k. tt, h)
    check_operands-Reached (x ∷ defs) (group ∷ groups) s h =
        let (others, here) =
          check_operands-Reached defs groups
            (check_operand type_version type_of p.is_used d x group s) h in
        let (first, old) =
          check_operand-Reached type_version type_of p.is_used p.file_version d x group s here in
        (λ k. (first k, others k), old)

    is_compatible-Has :
        (d : OpDef) (r : ResultDef) {b : Bool}
        → Has p.file_version r.result_since
        → is_compatible p.file_version d r ≡ false
        → b ≡ false
    unfolding is_compatible requires_version_check
    is_compatible-Has d r h k = ground arith

    -- A result that the version does not have is not used.
    check_results-Reached :
        (defs : List ResultDef) (types values : List ℕ) (s : Analysis)
        → Reached p.file_version
            (check_results type_version type_of p.is_used d defs types values s)
        → (Has p.file_version d.op_since → Succeeds (compatible_types p d defs types values))
          × Reached p.file_version s
    unfolding check_results compatible_types
    check_results-Reached [] types values s h = (
      λ k. ([], refl),
      check_types-Reached type_version type_of p.is_used p.file_version types s h,
    )
    check_results-Reached (r ∷ defs) [] values s h = (λ k. ([], refl), h)
    check_results-Reached (r ∷ defs) (t ∷ types) [] s h = (λ k. ([], refl), h)
    check_results-Reached (r ∷ defs) (t ∷ types) (x ∷ values) s h =
        let (others, here) = check_results-Reached defs types values _ h in
        elim (Bool-cases (version_lt d.op_since r.result_since && not (p.is_used x))) [
          | inl skipped ↦ (
            λ l.
                compatible_step (is_compatible p.file_version d r) (p.is_used x) _ t (others l).0
                  (others l).1 (λ k. and_not _ (p.is_used x) skipped),
            rw skipped at here,
          )
          | inr counted ↦
              let (since, old) = bump-Reached p.file_version r.result_since d s (
                check_type-Reached type_version type_of p.is_used p.file_version t _
                  (rw counted at here)) in
              (
                λ l.
                    compatible_step (is_compatible p.file_version d r) (p.is_used x) _ t
                      (others l).0 (others l).1 (λ k. is_compatible-Has d r (since l) k),
                old,
              )
        ]

  presence-AllAllowed :
      (d : OpDef) (values : List (Option Attr)) (groups : List (List ℕ))
      → HasAttributes p.file_version d.attributes values
      → HasOperands p.file_version d.operands (ods_operands d groups)
      → AllAllowed p.file_version d (presence d values groups)
  unfolding presence ods_operands too_new
  presence-AllAllowed d values groups h k =
      All-append (λ f. too_new p.file_version d f ≡ false) (attribute_presence d.attributes values)
        _ (attribute_presence-AllAllowed p d d.attributes values h)
        (elim (Bool-cases d.sized_segments) [
          | inl e ↦ rw e (operand_presence-AllAllowed p d d.operands groups (rw e at k))
          | inr e ↦ rw e tt
        ])

  serialized_types-Succeeds :
      (d : OpDef) (types values : List ℕ)
      → Succeeds (compatible_types p d d.results types values)
      → Succeeds (serialized_types p d types values)
  unfolding serialized_types
  serialized_types-Succeeds d types values h = elim (Bool-cases (any_versioned d d.results)) [
    | inl e ↦ rw e h
    | inr e ↦ rw e (types, refl)
  ]

  -- In a version that the checker of an operation gives, or a later one, the version has the
  -- operation, and its head is written.
  pub write_head-Succeeds :
      (type_version : ℕ → Version) (type_of : ℕ → ℕ) (h : Head) (rs : Regions) (processed : List ℕ)
      (indices : List (ℕ × ℕ))
      → AreWritable h.definition.attributes h.attribute_values
      → Reached p.file_version (min_version_for type_version type_of p.is_used h rs processed)
      → Has p.file_version h.definition.op_since × Succeeds (write_head p h indices)
  unfolding write_head min_version_for write_flags
  write_head-Succeeds type_version type_of h rs processed indices writable reached =
      let d = h.definition in
      let (attributes, e₁) =
        check_attributes-Reached type_version type_of d d.attributes h.attribute_values _
          (check_regions-Reached type_version type_of p.is_used p.file_version rs _ reached) in
      let (compatible, e₂) =
        check_results-Reached type_version type_of d d.results h.result_types h.result_values _
          e₁ in
      let (operands, available) =
        check_operands-Reached type_version type_of d d.operands (ods_operands d h.operand_groups)
          (record { max = d.op_since; processed_types = processed }) e₂ in
      let (types, t) =
        serialized_types-Succeeds d h.result_types h.result_values (compatible available) in
      let (flags, f) =
        write_flags_of-Succeeds p d (ordered_fields d)
          (presence d h.attribute_values h.operand_groups)
          (presence-AllAllowed d h.attribute_values h.operand_groups (attributes available)
            (operands available)) in
      let (bytes, w) =
        write_attributes-Succeeds p d.attributes h.attribute_values writable
          (attributes available) in
      (available, rw (t, f, w) (_, refl))
