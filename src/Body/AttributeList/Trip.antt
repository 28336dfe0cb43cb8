-- ===== src/Body/AttributeList/Trip.antt =====
-- The attributes that were written for an operation are read back.
use cuda_tile.Base.{
  ℕ, ◌+◌, ◌≡◌, ◌≢◌, refl, true, false, List, [], ◌∷◌, ◌++◌, length, append_assoc, length-append,
  Option, none, some, Bool-cases, inl, inr, arith, ok, >>=-eq-ok, ok-injective,
}
use cuda_tile.Version.{Version, version_lt}
use cuda_tile.Encoding.Reader.{at}
use cuda_tile.Encoding.Fixed.{ok_at}
use cuda_tile.Body.Schema.{
  Attr, unit, bool, integer, enum, type, dense, string, array, AttrDef, OpDef, Pools,
}
use cuda_tile.Body.Flags.{attribute_presence}
use cuda_tile.Body.Flags.Setting.{BitsSay, AllAllowed}
use cuda_tile.Body.AttributeList.{
  contains_true, is_all_false, write_attribute, write_attributes, read_attributes, all_false, fixup,
  fixups, fix_attributes,
}
use cuda_tile.Body.AttributeList.Conditions.{
  all_zero, HasRank, AttributeOk, AttributesOk, unfixed_by, unfixed, unfixed_unranked, not-true,
  unsized_unranked, checked_all_false,
}
use cuda_tile.Body.AttributeList.Single.{
  presence_bits, presence_allowed, read_attribute-write_attribute,
}

module _ (p : Pools) (d : OpDef) (sizes : List ℕ) (flags : ℕ)
    (available : version_lt p.file_version d.op_since ≡ false) where
  -- The attributes that were written are read back, but for those that the fixups restore.
  pub read_attributes-write_attributes :
      (defs : List AttrDef) (values : List (Option Attr)) (bytes : List ℕ) (o : ℕ) (rest : List ℕ)
      → AttributesOk p d sizes defs values
      → BitsSay d (attribute_presence defs values) flags
      → AllAllowed p.file_version d (attribute_presence defs values)
      → write_attributes p defs values ≡ ok bytes
      → read_attributes p d flags defs (at o (bytes ++ rest))
        ≡ ok (unfixed p.file_version defs values, at (o + length bytes) rest)
  unfolding write_attributes read_attributes
  read_attributes-write_attributes [] [] bytes o rest h b a e =
      rw (← ok-injective e) (ok_at {A = List (Option Attr)} [] rest (omega arith))
  read_attributes-write_attributes (x ∷ defs) (value ∷ values) bytes o rest (h, hs) b a e =
      let (first, e₁, e₂) = >>=-eq-ok (write_attribute p x value) _ e in
      let (others, e₃, e₄) = >>=-eq-ok (write_attributes p defs values) _ e₂ in
      let (bit, bits) = presence_bits d x defs value values flags b in
      let (allowed, all_allowed) = presence_allowed d x defs value values p.file_version a in
      rw
        (
          ← ok-injective e₄,
          append_assoc,
          read_attribute-write_attribute p o (others ++ rest) d sizes x value first flags available
              h bit allowed e₁,
          read_attributes-write_attributes defs values others (o + length first) rest hs bits
              all_allowed e₃,
        )
        (ok_at (unfixed p.file_version (x ∷ defs) (value ∷ values)) rest
          (omega (arith, length-append first others)))
  read_attributes-write_attributes [] (value ∷ values) bytes o rest h b a e = absurd h
  read_attributes-write_attributes (x ∷ defs) [] bytes o rest h b a e = absurd h

-- The fixups restore what the version does not have.
fixup-unfixed :
    (v : Version) (sizes : List ℕ) (a : AttrDef) (value : Option Attr) (rank : Option ℕ)
    → HasRank sizes value rank
    → (version_lt v a.attr_since ≡ true → rank ≢ none → is_all_false value ≡ true)
    → fixup v sizes a (unfixed_by v a value rank) rank ≡ value
unfolding fixup is_all_false all_false
fixup-unfixed v sizes a value none h k = refl
fixup-unfixed v sizes a (some (array bits)) (some operand) h k =
    elim (Bool-cases (version_lt v a.attr_since)) [
      | inl old ↦
          let bits_false : contains_true bits ≡ false =
            not-true (contains_true bits) (k old (λ e. cc)) in
          rw (old, h, ← all_zero bits bits_false)
      | inr new ↦ rw new
    ]
fixup-unfixed v sizes a none (some operand) h k = absurd h
fixup-unfixed v sizes a (some unit) (some operand) h k = absurd h
fixup-unfixed v sizes a (some (bool b)) (some operand) h k = absurd h
fixup-unfixed v sizes a (some (integer n)) (some operand) h k = absurd h
fixup-unfixed v sizes a (some (enum n)) (some operand) h k = absurd h
fixup-unfixed v sizes a (some (type n)) (some operand) h k = absurd h
fixup-unfixed v sizes a (some (dense n)) (some operand) h k = absurd h
fixup-unfixed v sizes a (some (string text)) (some operand) h k = absurd h

-- An attribute with a rank that the version does not have is all false, if it was written.
written_all_false :
    (p : Pools) (d : OpDef) (sizes : List ℕ) (a : AttrDef) (value : Option Attr) (bytes : List ℕ)
    → AttributeOk p d sizes a value
    → write_attribute p a value ≡ ok bytes
    → version_lt p.file_version a.attr_since ≡ true
    → a.same_operand_rank ≢ none
    → is_all_false value ≡ true
unfolding write_attribute
written_all_false p d sizes a value bytes h e old ranked = elim h.segments [
  | inl unranked ↦ absurd (ranked unranked)
  | inr (sized, no_default, required) ↦
      let check = rw (required, old) at e in
      checked_all_false a.default_value a.same_operand_rank value bytes no_default ranked check
]

module _ (p : Pools) (d : OpDef) (sizes : List ℕ) where
  fixups-unfixed :
      (defs : List AttrDef) (values : List (Option Attr)) (bytes : List ℕ)
      → AttributesOk p d sizes defs values
      → write_attributes p defs values ≡ ok bytes
      → fixups p.file_version sizes defs (unfixed p.file_version defs values) ≡ values
  unfolding fixups write_attributes
  fixups-unfixed [] [] bytes h e = refl
  fixups-unfixed (a ∷ defs) (value ∷ values) bytes (h, hs) e =
      let (first, e₁, e₂) = >>=-eq-ok (write_attribute p a value) _ e in
      let (others, e₃, e₄) = >>=-eq-ok (write_attributes p defs values) _ e₂ in
      let head : fixup p.file_version sizes a
            (unfixed_by p.file_version a value a.same_operand_rank) a.same_operand_rank
          ≡ value =
        fixup-unfixed p.file_version sizes a value a.same_operand_rank h.has_rank
          (written_all_false p d sizes a value first h e₁) in
      let tail : fixups p.file_version sizes defs (unfixed p.file_version defs values) ≡ values =
        fixups-unfixed defs values others hs e₃ in
      λ i. head i ∷ tail i
  fixups-unfixed [] (value ∷ values) bytes h e = absurd h
  fixups-unfixed (a ∷ defs) [] bytes h e = absurd h

  unfixed_unsized :
      (defs : List AttrDef) (values : List (Option Attr))
      → d.sized_segments ≡ false
      → AttributesOk p d sizes defs values
      → unfixed p.file_version defs values ≡ values
  unfixed_unsized [] [] u h = refl
  unfixed_unsized (a ∷ defs) (value ∷ values) u (h, hs) =
      let unranked : a.same_operand_rank ≡ none = unsized_unranked d a h.segments u in
      let head : unfixed_by p.file_version a value a.same_operand_rank ≡ value =
        unfixed_unranked p.file_version a value a.same_operand_rank unranked in
      let tail : unfixed p.file_version defs values ≡ values = unfixed_unsized defs values u hs in
      λ i. head i ∷ tail i
  unfixed_unsized [] (value ∷ values) u h = absurd h
  unfixed_unsized (a ∷ defs) [] u h = absurd h

  pub fix_attributes-unfixed :
      (values : List (Option Attr)) (bytes : List ℕ)
      → AttributesOk p d sizes d.attributes values
      → write_attributes p d.attributes values ≡ ok bytes
      → fix_attributes p.file_version d sizes (unfixed p.file_version d.attributes values) ≡ values
  unfolding fix_attributes
  fix_attributes-unfixed values bytes h e = elim (Bool-cases d.sized_segments) [
    | inl sized ↦ rw sized (fixups-unfixed d.attributes values bytes h e)
    | inr unsized ↦ rw unsized (unfixed_unsized d.attributes values unsized h)
  ]
