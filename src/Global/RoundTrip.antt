-- ===== src/Global/RoundTrip.antt =====
-- The global section that is written is parsed.
use cuda_tile.Global.Bytes.{
  globals_bytes, InRange, IsEncodable, write_global-eq, result, parse_globals-globals_bytes,
  min_global_info_size_pos, globals_bytes_long,
}
use cuda_tile.Base.{
  ℕ, suc, ◌*◌, ◌/◌, ◌^◌, ◌≤◌, ◌<◌, ◌≡◌, refl, sym, ap, ◌∙◌, arith, inl, inr, Bool, true, false, not,
  Bool-cases, List, [], ◌∷◌, ◌++◌, length, append_assoc, append-nil, All, leb-true, ◌==◌, Outcome,
  ok, ◌>>=◌, >>=-eq-ok, guard, guard-eq-ok, ok-injective, Error, global_visibility, global_constant,
}
use cuda_tile.Encoding.Writer.{Writer, write_var_int, new_writer, var_int}
use cuda_tile.Encoding.VarInt.{read_var_int-start}
use cuda_tile.MapVector.{Eq}
use cuda_tile.Constants.{add_constant}
use cuda_tile.Version.{Version, version_lt, version_ge}
use native.Mathlib.Nat.{le-div_iff_mul-le}
use cuda_tile.Global.{
  GlobalInfo, GlobalOp, Managers, bool_number, check_global, write_global, register_global,
  write_globals, global_section, min_global_info_size, parse_global_section,
  global_extended_version,
}

bool_number_zero : (b : Bool) (e : Error) → guard (not b) e ≡ ok tt → bool_number b ≡ 0
unfolding bool_number
bool_number_zero true e h = cc
bool_number_zero false e h = refl

-- An older version is refused for what it cannot hold.
check_global-IsEncodable {ℓ} :
    {T A : Type ℓ} (v : Version) (g : GlobalOp T A)
    → check_global v g ≡ ok tt
    → version_ge v global_extended_version ≡ false
    → (g.op_visibility ≡ 0) × (bool_number g.op_constant ≡ 0)
unfolding check_global version_ge bool_number
check_global-IsEncodable v g h old = elim (Bool-cases (version_lt v global_extended_version)) [
  | inl older ↦
      let checked = rw older at h in
      let (public, checked') =
        guard-eq-ok (g.op_visibility == 0) global_visibility
          (guard (not g.op_constant) global_constant) checked in
      (ground arith, bool_number_zero g.op_constant global_constant checked')
  | inr newer ↦ let contradiction : true ≡ false = rw newer at old in cc
]

module _ {ℓ} {T A : Type ℓ} ⦃e : Eq A⦄ (get_type_index : T → List (T × ℕ) → ℕ × List (T × ℕ))
    (serialize : A → Outcome (List ℕ)) where
  -- The indices of all the globals, in their order.
  abbrev pub register_globals :
      List (GlobalOp T A) → Managers T A → Outcome (List GlobalInfo × Managers T A)
  register_globals [] m = ok ([], m)
  register_globals (g ∷ globals) m = do
    (info, m') ← register_global get_type_index serialize g m
    (infos, m'') ← register_globals globals m'
    ok (info ∷ infos, m'')

  register_global-fields :
      (g : GlobalOp T A) (m m' : Managers T A) (info : GlobalInfo)
      → register_global get_type_index serialize g m ≡ ok (info, m')
      → (info.symbol_visibility ≡ g.op_visibility) × (info.constant ≡ bool_number g.op_constant)
  unfolding register_global
  register_global-fields g m m' info h =
      let (added, is_added, result) = >>=-eq-ok (add_constant serialize g.value m.constants) _ h in
      (
        sym (ap (λ p. p.0.symbol_visibility) (ok-injective result)),
        sym (ap (λ p. p.0.constant) (ok-injective result)),
      )

  -- What the loop has written when it succeeds.
  write_globals-ok :
      (v : Version) (globals : List (GlobalOp T A)) (m m' : Managers T A) (w w' : Writer)
      → write_globals get_type_index serialize v globals m w ≡ ok (m', w')
      → (infos : List GlobalInfo) × (register_globals globals m ≡ ok (infos, m'))
        × (length infos ≡ length globals)
        × All (IsEncodable v) infos
        × (w'.stream ≡ w.stream ++ globals_bytes v infos)
  unfolding write_globals
  write_globals-ok v [] m m' w w' h =
      let same = ok-injective h in
      (
        [],
        ap (λ p. ok ([], p.0)) same,
        refl,
        tt,
        ap (λ p. p.1.stream) (sym same) ∙ sym (append-nil w.stream),
      )
  write_globals-ok v (g ∷ globals) m m' w w' h =
      let (_, checked, h₁) = >>=-eq-ok (check_global v g) _ h in
      let ((info, m₁), registered, h₂) =
        >>=-eq-ok (register_global get_type_index serialize g m) _ h₁ in
      let (infos, all, count, encodable, stream) =
        write_globals-ok v globals m₁ m' (write_global v info w) w' h₂ in
      let (vis, con) = register_global-fields g m m₁ info registered in
      (
        info ∷ infos,
        rw (registered, all),
        ap suc count,
        (
          λ old.
              let (public, variable) = check_global-IsEncodable v g checked old in
              (vis ∙ public, con ∙ variable),
          encodable,
        ),
        stream ∙ rw (write_global-eq v info w, append_assoc),
      )

  -- When the section is written, for globals whose indices and alignments are 64-bit numbers, it
  -- parses as what was registered for each global, in their order: in an older version, where the
  -- last two fields are not written, with the same values of them.
  pub parse_global_section-global_section :
      (v : Version) (globals : List (GlobalOp T A)) (m m' : Managers T A) (buffer : Writer)
      → length globals < 2 ^ 64
      → global_section get_type_index serialize v globals m ≡ ok (m', buffer)
      → ((infos : List GlobalInfo)
          → register_globals globals m ≡ ok (infos, m')
          → All InRange infos)
      → (infos : List GlobalInfo) × (register_globals globals m ≡ ok (infos, m'))
        × (parse_global_section v buffer.stream ≡ ok infos)
  unfolding global_section parse_global_section
  parse_global_section-global_section v globals m m' buffer few h in_range =
      let (infos, all, count, encodable, stream) =
        write_globals-ok v globals m m' (write_var_int (length globals) (new_writer [])) buffer h in
      let n : ℕ = length globals in
      let bytes : List ℕ = globals_bytes v infos in
      let bounded = in_range infos all in
      let room : n * min_global_info_size v ≤ length bytes =
        rw count at (globals_bytes_long v infos bounded) in
      let parsed =
        rw count at (parse_globals-globals_bytes v infos (length (var_int n)) bounded encodable) in
      (
        infos,
        all,
        rw (
          stream,
          read_var_int-start n bytes few,
          leb-true n (length bytes / min_global_info_size v)
              ((le-div_iff_mul-le (min_global_info_size_pos v)).1 room),
          parsed,
        ),
      )
