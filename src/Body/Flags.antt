-- ===== src/Body/Flags.antt =====
-- The flags field, in which a bit stands for each optional attribute and operand:
-- `getVersionOrderedBitAssignments` of tools/cuda-tile-tblgen/BytecodeGenUtilities.cpp,
-- `generateFlagsFieldSerialization` of BytecodeGen.cpp, and `generateFlagsFieldDeserialization` of
-- BytecodeReaderGen.cpp.
pub mod Bits
pub mod Order
pub mod Setting
pub mod Older
pub mod Trip
use cuda_tile.Base.{
  ℕ, zero, suc, ◌+◌, ◌*◌, ◌/◌, ◌%◌, Bool, true, false, not, ◌&&◌, List, [], ◌∷◌, ◌++◌, Option, none,
  some, ◌==◌, if◌then◌else◌, Outcome, ok, err, ◌>>=◌, silent,
}
use cuda_tile.Version.{Version, version_eq, version_lt}
use cuda_tile.Encoding.Writer.{var_int}
use cuda_tile.Encoding.Reader.{Cursor, read_var_int}
use cuda_tile.Body.Schema.{Attr, AttrDef, OperandDef, OpDef, Pools}

-- `flags & (1ULL << b)`, bit by bit from the lowest.
unfoldable pub test_bit : ℕ → ℕ → Bool
test_bit zero flags = flags % 2 == 1
test_bit (suc b) flags = test_bit b (flags / 2)

-- `flags |= (1ULL << b)`
unfoldable pub set_bit : ℕ → ℕ → ℕ
set_bit zero flags = flags / 2 * 2 + 1
set_bit (suc b) flags = set_bit b (flags / 2) * 2 + flags % 2

-- The optional attributes with their versions and names.
unfoldable pub attribute_fields : List AttrDef → List (Version × ℕ)
attribute_fields [] = []
attribute_fields (a ∷ defs) =
    let rest = attribute_fields defs in
    if a.attr_optional then (a.attr_since, a.attr_name) ∷ rest else rest

unfoldable pub operand_fields : List OperandDef → List (Version × ℕ)
operand_fields [] = []
operand_fields (x ∷ defs) =
    let rest = operand_fields defs in
    if x.optional_operand then (x.operand_since, x.operand_name) ∷ rest else rest

unfoldable pub optional_fields : OpDef → List (Version × ℕ)
unfolding attribute_fields operand_fields
optional_fields d =
    attribute_fields d.attributes ++ (if d.sized_segments then operand_fields d.operands else [])

-- `versionGroups[version].push_back(name)`, with the groups of the map one after another.
unfoldable pub add_field : Version × ℕ → List (Version × ℕ) → List (Version × ℕ)
add_field f [] = f ∷ []
add_field (v, n) ((w, m) ∷ fields) =
    if version_lt v w then (v, n) ∷ (w, m) ∷ fields else (w, m) ∷ add_field (v, n) fields

unfoldable pub add_fields : List (Version × ℕ) → List (Version × ℕ) → List (Version × ℕ)
unfolding add_field
add_fields [] groups = groups
add_fields (f ∷ fields) groups = add_fields fields (add_field f groups)

unfoldable pub ordered_fields : OpDef → List (Version × ℕ)
unfolding add_fields optional_fields
ordered_fields d = add_fields (optional_fields d) []

-- `bitAssignments.lookup(name)`, which is 0 for a name that is not there.
unfoldable pub bit_from : ℕ → List (Version × ℕ) → ℕ → ℕ
bit_from i [] name = 0
bit_from i ((v, n) ∷ fields) name = if n == name then i else bit_from (suc i) fields name

unfoldable pub bit_of : OpDef → ℕ → ℕ
unfolding bit_from ordered_fields
bit_of d name = bit_from 0 (ordered_fields d) name

-- `needsVersionCheck`: the version that has the first optional field is not that of the operation.
unfoldable pub later_flags : OpDef → List (Version × ℕ) → Option Version
later_flags d [] = none
later_flags d ((v, n) ∷ fields) = if version_eq v d.op_since then none else some v

-- Whether the flags are in a file of the version.
unfoldable pub has_flags : Version → Option Version → Bool
has_flags v none = true
has_flags v (some required) = not (version_lt v required)

-- A field that the operation may have.
pub record Field : Type 0 where
  pub since : Version
  pub name : ℕ
  pub present : Bool

abbrev pub is_some {ℓ} : {A : Type ℓ} → Option A → Bool
is_some none = false
is_some (some a) = true

abbrev pub is_nonempty {ℓ} : {A : Type ℓ} → List A → Bool
is_nonempty [] = false
is_nonempty (x ∷ xs) = true

unfoldable pub attribute_presence : List AttrDef → List (Option Attr) → List Field
attribute_presence [] values = []
attribute_presence (a ∷ defs) [] = []
attribute_presence (a ∷ defs) (value ∷ values) =
    let rest = attribute_presence defs values in
    if a.attr_optional
    then record { since = a.attr_since; name = a.attr_name; present = is_some value } ∷ rest
    else rest

unfoldable pub operand_presence : List OperandDef → List (List ℕ) → List Field
operand_presence [] groups = []
operand_presence (x ∷ defs) [] = []
operand_presence (x ∷ defs) (group ∷ groups) =
    let rest = operand_presence defs groups in
    if x.optional_operand
    then record { since = x.operand_since; name = x.operand_name; present = is_nonempty group }
      ∷ rest
    else rest

unfoldable pub presence : OpDef → List (Option Attr) → List (List ℕ) → List Field
unfolding attribute_presence operand_presence
presence d values groups =
    attribute_presence d.attributes values
    ++ (if d.sized_segments then operand_presence d.operands groups else [])

-- A field that came after the operation is refused in an older version.
unfoldable pub too_new : Version → OpDef → Field → Bool
too_new v d f = f.present && (not (version_eq f.since d.op_since) && version_lt v f.since)

unfoldable pub set_flags : Version → OpDef → List Field → ℕ → Outcome ℕ
set_flags v d [] flags = ok flags
set_flags v d (f ∷ fields) flags =
    let rest =
      set_flags v d fields (if f.present then set_bit (bit_of d f.name) flags else flags) in
    if too_new v d f then err silent else rest

-- The bytes of the flags, if there are optional fields and the version has them.
unfoldable pub write_flags_of : Pools → OpDef → List (Version × ℕ) → List Field → Outcome (List ℕ)
write_flags_of p d [] fields = ok []
write_flags_of p d (first ∷ ordered) fields = do
  flags ← set_flags p.file_version d fields 0
  ok (if has_flags p.file_version (later_flags d (first ∷ ordered)) then var_int flags else [])

unfoldable pub write_flags : Pools → OpDef → List (Option Attr) → List (List ℕ) → Outcome (List ℕ)
unfolding write_flags_of ordered_fields presence
write_flags p d values groups = write_flags_of p d (ordered_fields d) (presence d values groups)

unfoldable pub read_flags_of : Pools → OpDef → List (Version × ℕ) → Cursor → Outcome (ℕ × Cursor)
read_flags_of p d [] c = ok (0, c)
read_flags_of p d (first ∷ ordered) c =
    if has_flags p.file_version (later_flags d (first ∷ ordered)) then read_var_int c else ok (0, c)

unfoldable pub read_flags : Pools → OpDef → Cursor → Outcome (ℕ × Cursor)
unfolding read_flags_of ordered_fields
read_flags p d c = read_flags_of p d (ordered_fields d) c
