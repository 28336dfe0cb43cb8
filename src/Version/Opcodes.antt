-- ===== src/Version/Opcodes.antt =====
-- Which opcodes a version has: the map that `generateVersionConstants` of
-- tools/cuda-tile-tblgen/BytecodeGen.cpp computes, and `isOpcodeAvailableInVersion` of
-- lib/Bytecode/Common/Version.cpp. A version is its major and minor number, and a record is an opcode
-- with the version of its operation; `known` are the sorted versions of the SupportedVersion records.
use cuda_tile.Base.{
  ℕ, zero, suc, ◌≤◌, ◌≡◌, refl, max, Bool, true, false, ◌&&◌, ◌||◌, ◌⊎◌, inl, inr, List, [], ◌∷◌,
  get_elem?, Option, none, some, leb, leb-true, ◌==◌, ==_true, if◌then◌else◌, Bool-cases, arith,
}
use native.Mathlib.Nat.{le_trans}

unfoldable pub same_version : ℕ × ℕ → ℕ × ℕ → Bool
same_version v w = v.0 == w.0 && v.1 == w.1

-- `versionToMaxOpcode[version]`, where a missing entry is 0.
unfoldable pub max_opcode : ℕ × ℕ → List (ℕ × (ℕ × ℕ)) → ℕ
max_opcode v [] = 0
max_opcode v ((opcode, w) ∷ records) =
    let rest = max_opcode v records in if same_version w v then max opcode rest else rest

-- A version without operations of its own takes the highest opcode of the one before.
unfoldable pub carried : ℕ → ℕ → ℕ
carried previous own = if own == 0 then previous else own

-- The loop over the known versions.
unfoldable pub fill : ℕ → List (ℕ × ℕ) → List (ℕ × (ℕ × ℕ)) → List ((ℕ × ℕ) × ℕ)
fill previous [] records = []
fill previous (v ∷ known) records =
    let highest = carried previous (max_opcode v records) in
    (v, highest) ∷ fill highest known records

unfoldable pub any_version : ℕ × ℕ → List (ℕ × (ℕ × ℕ)) → Bool
any_version v [] = false
any_version v ((opcode, w) ∷ records) = same_version w v || any_version v records

-- The map has the known versions, and the versions of the records.
unfoldable pub find_version : ℕ × ℕ → List ((ℕ × ℕ) × ℕ) → List (ℕ × (ℕ × ℕ)) → Option ℕ
find_version v [] records = if any_version v records then some (max_opcode v records) else none
find_version v ((w, highest) ∷ filled) records =
    if same_version w v then some highest else find_version v filled records

unfoldable pub is_at_most : ℕ → Option ℕ → Bool
is_at_most opcode none = false
is_at_most opcode (some highest) = leb opcode highest

unfoldable pub is_opcode_available : List (ℕ × ℕ) → List (ℕ × (ℕ × ℕ)) → ℕ → ℕ × ℕ → Bool
is_opcode_available known records opcode v =
    is_at_most opcode (find_version v (fill 0 known records) records)

same_version_refl : (v : ℕ × ℕ) → same_version v v ≡ true
unfolding same_version
same_version_refl (a, b) = rw (==_true a a refl, ==_true b b refl)

same_version-eq : (v w : ℕ × ℕ) → same_version v w ≡ true → v ≡ w
unfolding same_version
same_version-eq (a, b) (c, d) h =
    let first : a ≡ c = ground arith in let second : b ≡ d = ground arith in rw (first, second)

max_opcode-le :
    (v : ℕ × ℕ) (records : List (ℕ × (ℕ × ℕ))) (i opcode : ℕ)
    → get_elem? records i ≡ some (opcode, v)
    → (opcode ≤ max_opcode v records) × (any_version v records ≡ true)
unfolding max_opcode any_version
max_opcode-le v [] i opcode h = cc
max_opcode-le v ((o, w) ∷ records) zero opcode h =
    let is_opcode : o ≡ opcode = cc in
    let is_version : w ≡ v = cc in
    rw (is_opcode, is_version, same_version_refl v) (omega arith, refl)
max_opcode-le v ((o, w) ∷ records) (suc i) opcode h =
    let (most, some_record) = max_opcode-le v records i opcode h in
    elim (Bool-cases (same_version w v)) [
      | inl same ↦ rw same (omega arith, refl)
      | inr other ↦ rw other (most, some_record)
    ]

le-carried : (previous own : ℕ) → own ≤ carried previous own
unfolding carried
le-carried previous own = ground arith

is_at_most-fill :
    (known : List (ℕ × ℕ)) (records : List (ℕ × (ℕ × ℕ))) (previous i opcode : ℕ) (v : ℕ × ℕ)
    → get_elem? records i ≡ some (opcode, v)
    → is_at_most opcode (find_version v (fill previous known records) records) ≡ true
unfolding fill find_version is_at_most
is_at_most-fill [] records previous i opcode v h =
    let (most, some_record) = max_opcode-le v records i opcode h in
    rw some_record (leb-true opcode (max_opcode v records) most)
is_at_most-fill (w ∷ known) records previous i opcode v h = elim (Bool-cases (same_version w v)) [
  | inl same ↦
      let (most, some_record) = max_opcode-le v records i opcode h in
      let is_version : w ≡ v = same_version-eq w v same in
      rw (same, is_version)
        (leb-true opcode (carried previous (max_opcode v records))
          (le_trans most (le-carried previous (max_opcode v records))))
  | inr other ↦
      rw other
        (is_at_most-fill known records (carried previous (max_opcode w records)) i opcode v h)
]

-- An operation is available in the version that its record names.
pub is_opcode_available_own :
    (known : List (ℕ × ℕ)) (records : List (ℕ × (ℕ × ℕ))) (i opcode : ℕ) (v : ℕ × ℕ)
    → get_elem? records i ≡ some (opcode, v)
    → is_opcode_available known records opcode v ≡ true
unfolding is_opcode_available
is_opcode_available_own known records i opcode v h = is_at_most-fill known records 0 i opcode v h

-- No version's own highest opcode is below that of a version before it.
abbrev pub IsGrowing : ℕ → List (ℕ × ℕ) → List (ℕ × (ℕ × ℕ)) → Type 0
IsGrowing previous [] records = Unit
IsGrowing previous (v ∷ known) records =
    ((max_opcode v records ≡ 0) ⊎ (previous ≤ max_opcode v records))
    × IsGrowing (carried previous (max_opcode v records)) known records

carried-le : (previous own : ℕ) → (own ≡ 0) ⊎ (previous ≤ own) → previous ≤ carried previous own
unfolding carried
carried-le previous own h = ground arith

fill-le :
    (known : List (ℕ × ℕ)) (records : List (ℕ × (ℕ × ℕ))) (previous j n : ℕ) (w : ℕ × ℕ)
    → IsGrowing previous known records
    → get_elem? (fill previous known records) j ≡ some (w, n)
    → previous ≤ n
unfolding fill
fill-le [] records previous j n w g h = cc
fill-le (v ∷ known) records previous zero n w (g, gs) h =
    let is_n : carried previous (max_opcode v records) ≡ n = cc in
    rw (← is_n) (carried-le previous (max_opcode v records) g)
fill-le (v ∷ known) records previous (suc j) n w (g, gs) h =
    let later = fill-le known records (carried previous (max_opcode v records)) j n w gs h in
    let here = carried-le previous (max_opcode v records) g in omega arith

-- When the highest opcodes do not decrease, the map never takes an opcode away in a later version.
pub fill_monotone :
    (known : List (ℕ × ℕ)) (records : List (ℕ × (ℕ × ℕ))) (previous i j m n : ℕ) (v w : ℕ × ℕ)
    → IsGrowing previous known records
    → i ≤ j
    → get_elem? (fill previous known records) i ≡ some (v, m)
    → get_elem? (fill previous known records) j ≡ some (w, n)
    → m ≤ n
unfolding fill
fill_monotone [] records previous i j m n v w g le hi hj = cc
fill_monotone (u ∷ known) records previous zero zero m n v w g le hi hj =
    let same : m ≡ n = cc in omega arith
fill_monotone (u ∷ known) records previous zero (suc j) m n v w (g, gs) le hi hj =
    let is_m : carried previous (max_opcode u records) ≡ m = cc in
    rw (← is_m) (fill-le known records (carried previous (max_opcode u records)) j n w gs hj)
fill_monotone (u ∷ known) records previous (suc i) zero m n v w g le hi hj = absurd (omega arith)
fill_monotone (u ∷ known) records previous (suc i) (suc j) m n v w (g, gs) le hi hj =
    fill_monotone known records (carried previous (max_opcode u records)) i j m n v w gs
      (omega arith) hi hj
