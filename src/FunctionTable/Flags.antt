-- ===== src/FunctionTable/Flags.antt =====
-- The flag byte of a function, `FunctionFlags` of lib/Bytecode/BytecodeEnums.h.
use cuda_tile.Base.{
  ℕ, zero, suc, ◌+◌, ◌-◌, ◌%◌, ◌^◌, ◌≤◌, ◌<◌, ◌≡◌, refl, ap, Bool, true, false, ◌&&◌, ◌==◌,
  ==_false, if◌then◌else◌, arith, inl, inr, Bool-cases, leb, List, ◌∷◌, ◌++◌, length, All, Outcome,
  ok, err, >>=-eq-ok, guard-eq-ok, ok-injective, unknown_flags, body_length, too_many_functions,
}
use mathlib.Core.Path.{subst}
use cuda_tile.Version.{Version, version_lt, version_ge, function_flags_extended_version}
use cuda_tile.Encoding.Writer.{var_int}
use cuda_tile.Encoding.Reader.{Cursor, at, start, remaining, read_var_int, read_le, read_bytes}
use cuda_tile.Encoding.VarInt.{read_var_int-var_int}
use cuda_tile.Section.HeaderTrip.{read_byte}
use cuda_tile.FunctionTable.{
  FunctionInfo, entry_flag, is_kernel, has_optimization_hints, unknown_bits, parse_hints_if,
  parse_function, parse_functions, parse_function_table_section,
}

pub entry_flag-lt : (p e h : Bool) → entry_flag p e h < 8
unfolding entry_flag
entry_flag-lt true true true = omega arith
entry_flag-lt true true false = omega arith
entry_flag-lt true false h = omega arith
entry_flag-lt false true true = omega arith
entry_flag-lt false true false = omega arith
entry_flag-lt false false h = omega arith

unknown_bits_small : (v : Version) (flag : ℕ) → flag < 8 → unknown_bits v flag ≡ 0
unfolding unknown_bits
unknown_bits_small v flag h = elim (Bool-cases (version_lt v function_flags_extended_version)) [
  | inl old ↦ rw old
  | inr new ↦ rw new (omega arith)
]

-- The reader's two tests give back what the writer's flag was made of, and no bit is unknown in any
-- version; the hints' bit is set for an entry only.
pub entry_flag_lem :
    (v : Version) (is_private is_entry has_hints : Bool)
    → (is_kernel (entry_flag is_private is_entry has_hints) ≡ is_entry)
      × (has_optimization_hints (entry_flag is_private is_entry has_hints)
          ≡ (is_entry && has_hints))
      × (entry_flag is_private is_entry has_hints % 2 ≡ (if is_private then 1 else 0))
      × (unknown_bits v (entry_flag is_private is_entry has_hints) ≡ 0)
unfolding is_kernel has_optimization_hints entry_flag
entry_flag_lem v true true true = (refl, refl, refl, unknown_bits_small v 7 (omega arith))
entry_flag_lem v true true false = (refl, refl, refl, unknown_bits_small v 3 (omega arith))
entry_flag_lem v true false h = (refl, refl, refl, unknown_bits_small v 1 (omega arith))
entry_flag_lem v false true true = (refl, refl, refl, unknown_bits_small v 6 (omega arith))
entry_flag_lem v false true false = (refl, refl, refl, unknown_bits_small v 2 (omega arith))
entry_flag_lem v false false h = (refl, refl, refl, unknown_bits_small v 0 (omega arith))

-- A flag without unknown bits.
known_flag :
    (v : Version) (flag : ℕ)
    → version_ge v function_flags_extended_version ≡ true
    → (unknown_bits v flag == 0) ≡ true
    → flag < 8
unfolding unknown_bits version_ge
known_flag v flag h k = elim (Bool-cases (version_lt v function_flags_extended_version)) [
  | inl old ↦ cc
  | inr new ↦ let none : (flag - flag % 8 == 0) ≡ true = rw new at k in ground arith
]

unknown_flag :
    (v : Version) (flag : ℕ)
    → version_ge v function_flags_extended_version ≡ true
    → 8 ≤ flag
    → (unknown_bits v flag == 0) ≡ false
unfolding unknown_bits version_ge
unknown_flag v flag h k = elim (Bool-cases (version_lt v function_flags_extended_version)) [
  | inl old ↦ cc
  | inr new ↦ rw new (==_false (flag - flag % 8) 0 (omega arith))
]

module _ {ℓ} {H : Type ℓ} (parse_hints : Cursor → Outcome (H × Cursor)) (v : Version)
    (extended : version_ge v function_flags_extended_version ≡ true) where
  parse_function-known :
      (c c' : Cursor) (info : FunctionInfo H)
      → parse_function parse_hints v c ≡ ok (info, c')
      → info.info_entry_flag < 8
  unfolding parse_function
  parse_function-known c c' info e =
      let ((name, c₁), e₁, f₁) = >>=-eq-ok (read_var_int c) _ e in
      let ((signature, c₂), e₂, f₂) = >>=-eq-ok (read_var_int c₁) _ f₁ in
      let ((flag, c₃), e₃, f₃) = >>=-eq-ok (read_le 1 c₂) _ f₂ in
      let ((loc, c₄), e₄, f₄) = >>=-eq-ok (read_var_int c₃) _ f₃ in
      let (checked, f₅) = guard-eq-ok (unknown_bits v flag == 0) unknown_flags _ f₄ in
      let ((hints, c₅), e₆, f₆) =
        >>=-eq-ok (parse_hints_if parse_hints (is_kernel flag && has_optimization_hints flag) c₄) _
          f₅ in
      let ((body_size, c₆), e₇, f₇) = >>=-eq-ok (read_var_int c₅) _ f₆ in
      let (room, f₈) = guard-eq-ok (leb body_size (remaining c₆)) body_length _ f₇ in
      let ((body, c₇), e₉, f₉) = >>=-eq-ok (read_bytes body_size c₆) _ f₈ in
      subst (λ (n : ℕ). n < 8)
        (ap (λ (r : FunctionInfo H × Cursor). r.0.info_entry_flag) (ok-injective f₉))
        (known_flag v flag extended checked)

  parse_functions-known :
      (count : ℕ) (c : Cursor) (infos : List (FunctionInfo H))
      → parse_functions parse_hints v count c ≡ ok infos
      → All (λ info. info.info_entry_flag < 8) infos
  unfolding parse_functions
  parse_functions-known zero c infos e = rw (← ok-injective e) tt
  parse_functions-known (suc count) c infos e =
      let ((info, c₁), e₁, f₁) = >>=-eq-ok (parse_function parse_hints v c) _ e in
      let (others, e₂, f₂) = >>=-eq-ok (parse_functions parse_hints v count c₁) _ f₁ in
      rw (← ok-injective f₂)
        (parse_function-known c c₁ info e₁, parse_functions-known count c₁ others e₂)

  parse_function-refused :
      (name signature flag loc o : ℕ) (rest : List ℕ)
      → name < 2 ^ 64
      → signature < 2 ^ 64
      → loc < 2 ^ 64
      → 8 ≤ flag
      → parse_function parse_hints v
          (at o (var_int name ++ (var_int signature ++ flag ∷ (var_int loc ++ rest))))
        ≡ err unknown_flags
  unfolding parse_function
  parse_function-refused name signature flag loc o rest h k l big =
      let o₁ : ℕ = o + length (var_int name) in
      let o₂ : ℕ = o₁ + length (var_int signature) in
      rw (
        read_var_int-var_int name o (var_int signature ++ flag ∷ (var_int loc ++ rest)) h,
        read_var_int-var_int signature o₁ (flag ∷ (var_int loc ++ rest)) k,
        read_byte flag o₂ (var_int loc ++ rest),
        read_var_int-var_int loc (o₂ + 1) rest l,
        unknown_flag v flag extended big,
      )

-- From version 13.4 on, no flag with a bit above the three known ones comes through the reader:
-- every function of a table that is accepted, whatever its bytes are, has a flag below 8; and a
-- function whose other leading fields are 64-bit numbers and whose flag is 8 or more is refused, as
-- one with unknown flags.
pub function_flags_checked :
    {H : Type 0} (parse_hints : Cursor → Outcome (H × Cursor)) (v : Version) (payload : List ℕ)
    (infos : List (FunctionInfo H)) (name signature flag loc o : ℕ) (rest : List ℕ)
    → version_ge v function_flags_extended_version ≡ true
    → parse_function_table_section parse_hints v payload ≡ ok infos
    → name < 2 ^ 64
    → signature < 2 ^ 64
    → loc < 2 ^ 64
    → 8 ≤ flag
    → All (λ info. info.info_entry_flag < 8) infos
      × (parse_function parse_hints v
            (at o (var_int name ++ (var_int signature ++ flag ∷ (var_int loc ++ rest))))
          ≡ err unknown_flags)
unfolding parse_function_table_section
function_flags_checked parse_hints v payload infos name signature flag loc o rest extended e h k l
      big =
    let ((count, c), e₁, f₁) = >>=-eq-ok (read_var_int (start payload)) _ e in
    let (few, f₂) = guard-eq-ok (leb count (length payload)) too_many_functions _ f₁ in
    (
      parse_functions-known parse_hints v extended count c infos f₂,
      parse_function-refused parse_hints v extended name signature flag loc o rest h k l big,
    )
