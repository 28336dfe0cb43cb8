-- ===== src/Body/Results.antt =====
-- The result types of an operation: `generateVersionAwareResultSerialization` of
-- tools/cuda-tile-tblgen/BytecodeGen.cpp with `writeResultTypes`, and
-- `generateVersionAwareResultDeserialization` of BytecodeReaderGen.cpp.
pub mod Trip
use cuda_tile.Base.{
  ℕ, zero, suc, ◌+◌, ◌^◌, ◌-◌, Bool, true, false, not, ◌&&◌, ◌||◌, List, [], ◌∷◌, ◌++◌, length,
  ◌==◌, if◌then◌else◌, Outcome, ok, err, ◌>>=◌, ◌>>◌, guard, silent,
}
use cuda_tile.Version.{Version, version_eq, version_lt}
use cuda_tile.Encoding.Writer.{var_int}
use cuda_tile.Encoding.Reader.{Cursor, read_var_int, read_var_int_max}
use cuda_tile.Types.Function.{index_bytes}
use cuda_tile.Body.Schema.{ResultDef, OpDef, Pools}

-- `requiresVersionCheck`
unfoldable pub requires_version_check : OpDef → ResultDef → Bool
requires_version_check d r = not (version_eq r.result_since d.op_since)

unfoldable pub any_versioned : OpDef → List ResultDef → Bool
any_versioned d [] = false
any_versioned d (r ∷ defs) = requires_version_check d r || any_versioned d defs

-- Whether a result is in a file of the version.
unfoldable pub is_compatible : Version → OpDef → ResultDef → Bool
unfolding requires_version_check
is_compatible v d r = not (requires_version_check d r && version_lt v r.result_since)

-- `compatibleResultTypes`; a result that is left out may have no users.
unfoldable pub compatible_types :
    Pools → OpDef → List ResultDef → List ℕ → List ℕ → Outcome (List ℕ)
compatible_types p d [] types values = ok []
compatible_types p d (r ∷ defs) [] values = ok []
compatible_types p d (r ∷ defs) (t ∷ types) [] = ok []
compatible_types p d (r ∷ defs) (t ∷ types) (x ∷ values) =
    let rest = compatible_types p d defs types values in
    if is_compatible p.file_version d r
    then (rest >>= λ ts. ok (t ∷ ts))
    else if p.is_used x
    then err silent
    else rest

-- The types that are written, whose number is `numSerializedResults`.
unfoldable pub serialized_types : Pools → OpDef → List ℕ → List ℕ → Outcome (List ℕ)
serialized_types p d types values =
    if any_versioned d d.results then compatible_types p d d.results types values else ok types

unfoldable pub result_bytes : OpDef → List ℕ → List ℕ
result_bytes d types = (if d.is_variadic then var_int (length types) else []) ++ index_bytes types

-- `readAndGetType`
unfoldable pub read_type : Pools → Cursor → Outcome (ℕ × Cursor)
read_type p c = do (index, c') ← read_var_int c; guard (p.has_type index) silent; ok (index, c')

unfoldable pub read_result_types : Pools → ℕ → Cursor → Outcome (List ℕ × Cursor)
unfolding read_type
read_result_types p zero c = ok ([], c)
read_result_types p (suc count) c = do
  (t, c₁) ← read_type p c
  (ts, c₂) ← read_result_types p count c₁
  ok (t ∷ ts, c₂)

-- The number of types, where it is in the file.
unfoldable pub read_result_count : OpDef → ℕ → Cursor → Outcome (ℕ × Cursor)
read_result_count d fixed c =
    if d.is_variadic then read_var_int_max (2 ^ 32 - 1 - 1) c else ok (fixed, c)

-- The types of all results, with the ones that are built, and `expectedResults`.
unfoldable pub read_versioned :
    Pools → OpDef → List ResultDef → Cursor → Outcome (List ℕ × ℕ × Cursor)
unfolding read_type
read_versioned p d [] c = ok ([], 0, c)
read_versioned p d (r ∷ defs) c =
    let built = read_versioned p d defs c >>= λ (ts, n, c'). ok (r.built_type ∷ ts, n, c') in
    let serialized = read_type p c >>= λ (t, c₁).
    read_versioned p d defs c₁ >>= λ (ts, n, c₂). ok (t ∷ ts, suc n, c₂) in
    if is_compatible p.file_version d r then serialized else built

-- The types, and how many results get an index.
unfoldable pub read_results : Pools → OpDef → Cursor → Outcome (List ℕ × ℕ × Cursor)
read_results p d c =
    if any_versioned d d.results
    then (read_result_count d 0 c >>= λ (count, c₁).
        read_versioned p d d.results c₁ >>= λ (types, expected, c₂).
        guard (not d.is_variadic || count == expected) silent >> ok (types, expected, c₂))
    else (read_result_count d (length d.results) c >>= λ (count, c₁).
        read_result_types p count c₁ >>= λ (types, c₂). ok (types, length types, c₂))
