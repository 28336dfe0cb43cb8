-- ===== src/Global/Bytes.antt =====
-- The bytes of the globals, and how `parseGlobalSection` reads them.
use cuda_tile.Base.{
  ℕ, ◌+◌, ◌*◌, ◌^◌, ◌≤◌, ◌<◌, ◌≡◌, refl, sym, ap, arith, inl, inr, false, Bool-cases, List, [], ◌∷◌,
  ◌++◌, length, length-append, append_assoc, append-nil, All, if◌then◌else◌, Outcome, ok,
}
use cuda_tile.Encoding.Writer.{Writer, var_int}
use cuda_tile.Encoding.Reader.{Cursor, at}
use cuda_tile.Encoding.VarInt.{read_var_int-var_int, var_int_shape}
use cuda_tile.Version.{Version, version_ge}
use cuda_tile.Global.{
  GlobalInfo, write_global, parse_extended, parse_global, parse_globals, min_global_info_size,
  global_extended_version,
}

-- What is written for one global.
abbrev pub global_bytes : Version → GlobalInfo → List ℕ
global_bytes v info =
    var_int info.symbol_name_index
    ++ (var_int info.value_type_index
        ++ (var_int info.constant_value_index
            ++ (var_int info.alignment
                ++ (if version_ge v global_extended_version
                    then var_int info.symbol_visibility ++ var_int info.constant
                    else []))))

abbrev pub globals_bytes : Version → List GlobalInfo → List ℕ
globals_bytes v [] = []
globals_bytes v (info ∷ infos) = global_bytes v info ++ globals_bytes v infos

-- Each field is a `uint64_t`.
abbrev pub InRange : GlobalInfo → Type 0
InRange info =
    (info.symbol_name_index < 2 ^ 64)
    × (info.value_type_index < 2 ^ 64)
    × (info.constant_value_index < 2 ^ 64)
    × (info.alignment < 2 ^ 64)
    × (info.symbol_visibility < 2 ^ 64)
    × (info.constant < 2 ^ 64)

-- An older version does not hold the last two fields.
abbrev pub IsEncodable : Version → GlobalInfo → Type 0
IsEncodable v info =
    version_ge v global_extended_version ≡ false
    → (info.symbol_visibility ≡ 0) × (info.constant ≡ 0)

pub write_global-eq :
    (v : Version) (info : GlobalInfo) (w : Writer)
    → (write_global v info w).stream ≡ w.stream ++ global_bytes v info
unfolding write_global
write_global-eq v info w = elim (Bool-cases (version_ge v global_extended_version)) [
  | inl new ↦ rw (new, append_assoc, append_assoc, append_assoc, append_assoc, append_assoc)
  | inr old ↦ rw (old, append-nil, append_assoc, append_assoc, append_assoc)
]

abbrev pub result : GlobalInfo → Cursor → Outcome (GlobalInfo × Cursor)
result info c = ok (info, c)

pub parse_global-global_bytes :
    (v : Version) (info : GlobalInfo) (o : ℕ) (rest : List ℕ)
    → InRange info
    → IsEncodable v info
    → (o' : ℕ) × (parse_global v (at o (global_bytes v info ++ rest)) ≡ ok (info, at o' rest))
unfolding parse_global parse_extended
parse_global-global_bytes v info o rest (h₁, h₂, h₃, h₄, h₅, h₆) encodable =
    let o₁ : ℕ = o + length (var_int info.symbol_name_index) in
    let o₂ : ℕ = o₁ + length (var_int info.value_type_index) in
    let o₃ : ℕ = o₂ + length (var_int info.constant_value_index) in
    let o₄ : ℕ = o₃ + length (var_int info.alignment) in
    let o₅ : ℕ = o₄ + length (var_int info.symbol_visibility) in
    elim (Bool-cases (version_ge v global_extended_version)) [
      | inl new ↦ (
        o₅ + length (var_int info.constant),
        rw (
          new,
          append_assoc,
          read_var_int-var_int info.symbol_name_index o _ h₁,
          append_assoc,
          read_var_int-var_int info.value_type_index o₁ _ h₂,
          append_assoc,
          read_var_int-var_int info.constant_value_index o₂ _ h₃,
          append_assoc,
          read_var_int-var_int info.alignment o₃ _ h₄,
          append_assoc,
          read_var_int-var_int info.symbol_visibility o₄ _ h₅,
          read_var_int-var_int info.constant o₅ _ h₆,
        ),
      )
      | inr old ↦
          let (public, variable) = encodable old in
          let absent : (info.symbol_visibility, info.constant) ≡ (0, 0) =
            rw (public, variable) refl in
          let rebuilt : ◌≡◌ {A = GlobalInfo} (record info { symbol_visibility = 0; constant = 0 })
              info =
            ap (λ (p : ℕ × ℕ). record info { symbol_visibility = p.0; constant = p.1 })
              (sym absent) in
          (
            o₄,
            rw
                (
                  old,
                  append-nil,
                  append_assoc,
                  read_var_int-var_int info.symbol_name_index o _ h₁,
                  append_assoc,
                  read_var_int-var_int info.value_type_index o₁ _ h₂,
                  append_assoc,
                  read_var_int-var_int info.constant_value_index o₂ _ h₃,
                  read_var_int-var_int info.alignment o₃ _ h₄,
                )
                (ap (λ (i : GlobalInfo). result i (at o₄ rest)) rebuilt),
          )
    ]

pub parse_globals-globals_bytes :
    (v : Version) (infos : List GlobalInfo) (o : ℕ)
    → All InRange infos
    → All (IsEncodable v) infos
    → parse_globals v (length infos) (at o (globals_bytes v infos)) ≡ ok infos
unfolding parse_globals
parse_globals-globals_bytes v [] o h e = refl
parse_globals-globals_bytes v (info ∷ infos) o (hi, h) (ei, e) =
    let (o', first) = parse_global-global_bytes v info o (globals_bytes v infos) hi ei in
    rw (first, parse_globals-globals_bytes v infos o' h e)

pub var_int_some : (a : ℕ) → a < 2 ^ 64 → 1 ≤ length (var_int a)
var_int_some a h = let (bytes, least, most) = var_int_shape a h in least

-- Each varint takes at least one byte.
pub global_bytes_long :
    (v : Version) (info : GlobalInfo)
    → InRange info
    → min_global_info_size v ≤ length (global_bytes v info)
unfolding min_global_info_size
global_bytes_long v info (h₁, h₂, h₃, h₄, h₅, h₆) =
    let a₁ = var_int_some info.symbol_name_index h₁ in
    let a₂ = var_int_some info.value_type_index h₂ in
    let a₃ = var_int_some info.constant_value_index h₃ in
    let a₄ = var_int_some info.alignment h₄ in
    let a₅ = var_int_some info.symbol_visibility h₅ in
    let a₆ = var_int_some info.constant h₆ in
    elim (Bool-cases (version_ge v global_extended_version)) [
      | inl new ↦
          rw (new, length-append, length-append, length-append, length-append, length-append)
            (omega arith)
      | inr old ↦ rw (old, append-nil, length-append, length-append, length-append) (omega arith)
    ]

pub min_global_info_size_pos : (v : Version) → 0 < min_global_info_size v
unfolding min_global_info_size
min_global_info_size_pos v = elim (Bool-cases (version_ge v global_extended_version)) [
  | inl new ↦ rw new (omega arith)
  | inr old ↦ rw old (omega arith)
]

pub globals_bytes_long :
    (v : Version) (infos : List GlobalInfo)
    → All InRange infos
    → length infos * min_global_info_size v ≤ length (globals_bytes v infos)
globals_bytes_long v [] h = omega arith
globals_bytes_long v (info ∷ infos) (hi, h) = omega (
  arith,
  global_bytes_long v info hi,
  globals_bytes_long v infos h,
  length-append (global_bytes v info) (globals_bytes v infos),
)
