-- ===== src/Version.antt =====
-- `BytecodeVersion` of include/cuda_tile/Bytecode/Common/Version.h and lib/Bytecode/Common/Version.cpp.
-- `fromVersion` is the code that `generateVersionValidation` of
-- tools/cuda-tile-tblgen/BytecodeGen.cpp emits; it is run here on the records themselves.
pub mod Opcodes
pub mod Order
pub mod Supported
use cuda_tile.Base.{
  ℕ, ◌<◌, Bool, true, false, ◌&&◌, ◌||◌, List, [], ◌∷◌, ◌++◌, Option, none, some, not,
}
use cuda_tile.Base.{ltb, leb, ◌==◌, if◌then◌else◌}

pub record Version : Type 0 where
  pub major : ℕ
  pub minor : ℕ
  pub tag : ℕ

abbrev pub version : ℕ → ℕ → ℕ → Version
version a b t = record { major = a; minor = b; tag = t }

-- `operator==` and `operator<`
unfoldable pub version_eq : Version → Version → Bool
version_eq v w = v.major == w.major && (v.minor == w.minor && v.tag == w.tag)

unfoldable pub version_lt : Version → Version → Bool
version_lt v w =
    if not (v.major == w.major)
    then ltb v.major w.major
    else if not (v.minor == w.minor)
    then ltb v.minor w.minor
    else ltb v.tag w.tag

unfoldable pub version_le : Version → Version → Bool
unfolding version_lt version_eq
version_le v w = version_lt v w || version_eq v w

unfoldable pub version_ge : Version → Version → Bool
unfolding version_lt
version_ge v w = not (version_lt v w)

abbrev pub current_compatibility_version : Version
current_compatibility_version = version 13 1 0

abbrev pub current_version : Version
current_version = version 13 4 0

abbrev pub unified_bitfield_version : Version
unified_bitfield_version = version 13 3 0

abbrev pub function_flags_extended_version : Version
function_flags_extended_version = version 13 4 0

abbrev pub min_supported_version : Version
min_supported_version = version 13 1 0

abbrev pub canonical_i1_version : Version
canonical_i1_version = version 13 4 0

-- `versionMap[major].push_back(minor)`, a map ordered by its keys.
unfoldable pub add_version : ℕ → ℕ → List (ℕ × List ℕ) → List (ℕ × List ℕ)
add_version major minor [] = (major, minor ∷ []) ∷ []
add_version major minor ((k, minors) ∷ groups) =
    if k == major
    then (k, minors ++ minor ∷ []) ∷ groups
    else if ltb major k
    then (major, minor ∷ []) ∷ (k, minors) ∷ groups
    else (k, minors) ∷ add_version major minor groups

unfoldable pub version_map : List (ℕ × ℕ) → List (ℕ × List ℕ) → List (ℕ × List ℕ)
unfolding add_version
version_map [] groups = groups
version_map ((major, minor) ∷ records) groups = version_map records (add_version major minor groups)

-- `std::min_element` and `std::max_element` of a vector that is not empty.
unfoldable pub min_element : ℕ → List ℕ → ℕ
min_element m [] = m
min_element m (x ∷ xs) = min_element (if ltb x m then x else m) xs

unfoldable pub max_element : ℕ → List ℕ → ℕ
max_element m [] = m
max_element m (x ∷ xs) = max_element (if ltb m x then x else m) xs

-- The emitted test on `verMinor`.
unfoldable pub accepts_minor : List ℕ → ℕ → Bool
unfolding min_element max_element
accepts_minor [] minor = false
accepts_minor (x ∷ xs) minor =
    let lo = min_element x xs in
    let hi = max_element x xs in
    if lo == hi then minor == lo else if lo == 0 then leb minor hi else leb lo minor && leb minor hi

-- The emitted chain of tests on `verMajor`.
unfoldable pub validate : List (ℕ × List ℕ) → ℕ → ℕ → ℕ → Option Version
unfolding accepts_minor
validate [] major minor tag = none
validate ((k, minors) ∷ groups) major minor tag =
    if major == k && accepts_minor minors minor
    then some (version major minor tag)
    else validate groups major minor tag

-- The `SupportedVersion` records of a build without TILE_IR_INCLUDE_TESTS.
abbrev pub supported_versions : List (ℕ × ℕ)
supported_versions = (13, 1) ∷ (13, 2) ∷ (13, 3) ∷ (13, 4) ∷ []

unfoldable pub from_version : ℕ → ℕ → ℕ → Option Version
unfolding validate version_map
from_version major minor tag = validate (version_map supported_versions []) major minor tag
