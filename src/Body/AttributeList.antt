-- ===== src/Body/AttributeList.antt =====
-- The attributes of an operation: `generateAttributeSerialization` of
-- tools/cuda-tile-tblgen/BytecodeGen.cpp, and `generateAttributeDeserialization` and
-- `generateSameOperandRankFixups` of BytecodeReaderGen.cpp. A UnitAttr is optional, and has no bytes.
pub mod Conditions
pub mod Single
pub mod Trip
use cuda_tile.Base.{
  ℕ, zero, suc, Bool, true, false, not, ◌||◌, List, [], ◌∷◌, ◌++◌, replicate, get_elem?, Option,
  none, some, ◌==◌, if◌then◌else◌, Outcome, ok, err, ◌>>=◌, silent,
}
use cuda_tile.Version.{Version, version_lt}
use cuda_tile.Encoding.Reader.{Cursor}
use cuda_tile.Body.Schema.{Kind, Attr, array, AttrDef, OpDef, Pools}
use cuda_tile.Body.Attributes.{write_attr, parse_attr, attr_eq}
use cuda_tile.Body.Flags.{test_bit, bit_of}

unfoldable pub write_value : Pools → Kind → Option Attr → Outcome (List ℕ)
write_value p k none = err silent
write_value p k (some value) = write_attr p k value

unfoldable pub write_optional : Pools → Kind → Option Attr → Outcome (List ℕ)
write_optional p k none = ok []
write_optional p k (some value) = write_attr p k value

-- `llvm::is_contained(value, true)`
unfoldable pub contains_true : List ℕ → Bool
contains_true [] = false
contains_true (x ∷ xs) = not (x == 0) || contains_true xs

unfoldable pub is_all_false : Option Attr → Bool
is_all_false (some (array values)) = not (contains_true values)
is_all_false _ = true

unfoldable pub equals : Option Attr → Attr → Bool
equals none b = false
equals (some a) b = attr_eq a b

-- The check of an attribute that the version does not have.
unfoldable pub check_default : Option Attr → Option ℕ → Option Attr → Outcome (List ℕ)
check_default (some default) rank value = if equals value default then ok [] else err silent
check_default none (some operand) value = if is_all_false value then ok [] else err silent
check_default none none value = ok []

unfoldable pub write_attribute : Pools → AttrDef → Option Attr → Outcome (List ℕ)
write_attribute p a value =
    if a.attr_optional
    then write_optional p a.kind value
    else if version_lt p.file_version a.attr_since
    then check_default a.default_value a.same_operand_rank value
    else write_value p a.kind value

unfoldable pub write_attributes : Pools → List AttrDef → List (Option Attr) → Outcome (List ℕ)
unfolding write_attribute
write_attributes p [] values = ok []
write_attributes p (a ∷ defs) [] = ok []
write_attributes p (a ∷ defs) (value ∷ values) = do
  first ← write_attribute p a value
  rest ← write_attributes p defs values
  ok (first ++ rest)

unfoldable pub parse_some : Pools → Kind → Cursor → Outcome (Option Attr × Cursor)
parse_some p k c = parse_attr p k c >>= λ (value, c'). ok (some value, c')

-- What an attribute is in a version that does not have it.
unfoldable pub missing_attribute : AttrDef → Option Attr
missing_attribute a = if a.attr_optional then none else a.default_value

unfoldable pub read_attribute :
    Pools → OpDef → ℕ → AttrDef → Cursor → Outcome (Option Attr × Cursor)
read_attribute p d flags a c =
    if version_lt p.file_version a.attr_since
    then ok (missing_attribute a, c)
    else if a.attr_optional
    then (if test_bit (bit_of d a.attr_name) flags then parse_some p a.kind c else ok (none, c))
    else parse_some p a.kind c

unfoldable pub read_attributes :
    Pools → OpDef → ℕ → List AttrDef → Cursor → Outcome (List (Option Attr) × Cursor)
unfolding read_attribute
read_attributes p d flags [] c = ok ([], c)
read_attributes p d flags (a ∷ defs) c = do
  (value, c₁) ← read_attribute p d flags a c
  (values, c₂) ← read_attributes p d flags defs c₁
  ok (value ∷ values, c₂)

-- `DenseBoolArrayAttr::get(&context, defaultVec)`, for the length of the operand's segment.
unfoldable pub all_false : Option ℕ → Attr
all_false none = array []
all_false (some length) = array (replicate length 0)

unfoldable pub fixup : Version → List ℕ → AttrDef → Option Attr → Option ℕ → Option Attr
fixup v sizes a value none = value
fixup v sizes a value (some operand) =
    if version_lt v a.attr_since then some (all_false (get_elem? sizes operand)) else value

unfoldable pub fixups : Version → List ℕ → List AttrDef → List (Option Attr) → List (Option Attr)
unfolding fixup
fixups v sizes [] values = []
fixups v sizes (a ∷ defs) [] = []
fixups v sizes (a ∷ defs) (value ∷ values) =
    fixup v sizes a value a.same_operand_rank ∷ fixups v sizes defs values

-- The emitted function has them only for an operation with AttrSizedOperandSegments.
unfoldable pub fix_attributes : Version → OpDef → List ℕ → List (Option Attr) → List (Option Attr)
unfolding fixups
fix_attributes v d sizes values =
    if d.sized_segments then fixups v sizes d.attributes values else values
