-- ===== src/Body/Attributes.antt =====
-- `writeOpAttribute` and `writeSingleAttribute` of lib/Bytecode/Writer/BytecodeWriter.cpp, and
-- `parseOpAttribute` with `parseScalarAttributeInline` and `parseGenericEnumAttr` of
-- lib/Bytecode/Reader/BytecodeReader.cpp, for attributes without nested ones.
use cuda_tile.Base.{
  ℕ, ◌-◌, ◌*◌, ◌%◌, ◌^◌, Bool, true, false, not, ◌&&◌, ◌||◌, List, [], ◌∷◌, ◌++◌, length, Option,
  none, some, ltb, ◌==◌, if◌then◌else◌, Outcome, ok, err, ◌>>=◌, ◌>>◌, guard, silent, not_fit,
}
use cuda_tile.Version.{Version, version_ge}
use cuda_tile.Encoding.Writer.{var_int, le_array}
use cuda_tile.Encoding.Reader.{Cursor, read_var_int, read_le, read_le_var_size, read_and_get_string}
use cuda_tile.MapVector.{bytes_eq}
use cuda_tile.Body.Schema.{
  EnumDef, Kind, unit_kind, bool_kind, type_kind, string_kind, symbol_kind, dense_kind,
  integer_kind, array_kind, enum_kind, Attr, unit, bool, integer, enum, type, dense, string, array,
  Pools,
}

-- `isEnumValueAvailableInVersion`, as it is emitted.
unfoldable pub case_available : Version → ℕ → List (ℕ × Version) → Bool
case_available v value [] = false
case_available v value ((k, since) ∷ cases) =
    if k == value then version_ge v since else case_available v value cases

unfoldable pub enum_value_available : Version → EnumDef → ℕ → Bool
enum_value_available v e value =
    if e.skips_version_check || length e.cases == 0 then true else case_available v value e.cases

-- `isEnumAttrAvailableInVersion`, as it is emitted.
unfoldable pub since_available : Version → Option Version → Bool
since_available v none = true
since_available v (some since) = version_ge v since

unfoldable pub enum_attr_available : Version → EnumDef → Bool
enum_attr_available v e = if e.skips_version_check then true else since_available v e.enum_since

-- `symbolizeEnum`
unfoldable pub is_case : ℕ → List (ℕ × Version) → Bool
is_case value [] = false
is_case value ((k, since) ∷ cases) = k == value || is_case value cases

-- The bytes of an attribute. `n` of an array is `sizeof` of its elements.
unfoldable pub write_attr : Pools → Kind → Attr → Outcome (List ℕ)
write_attr p unit_kind unit = ok []
write_attr p bool_kind (bool b) = ok ((if b then 1 else 0) ∷ [])
write_attr p (enum_kind e) (enum value) =
    guard (enum_value_available p.file_version e value) silent >> ok (var_int value)
write_attr p (array_kind n) (array values) = ok (var_int (length values) ++ le_array n values)
write_attr p (integer_kind width) (integer value) =
    guard (not (width == 0 || ltb 64 width)) silent >> ok (var_int value)
write_attr p type_kind (type index) = ok (var_int index)
write_attr p string_kind (string text) = ok (var_int (p.string_index text))
write_attr p symbol_kind (string text) = ok (var_int (p.string_index text))
write_attr p dense_kind (dense index) = ok (var_int index)
write_attr p _ _ = err silent

-- The two patterns that an array of 32-bit or 64-bit elements may not hold.
unfoldable pub is_supported : ℕ → ℕ → Bool
is_supported n value =
    if n == 4 || n == 8
    then not (value == 2 ^ (8 * n - 1) - 1 || value == 2 ^ (8 * n - 1))
    else true

unfoldable pub all_supported : ℕ → List ℕ → Bool
all_supported n [] = true
all_supported n (value ∷ values) = is_supported n value && all_supported n values

-- The bytes of an array of Booleans, as `value |= static_cast<bool>(byte)` reads them.
unfoldable pub as_elements : ℕ → List ℕ → List ℕ
as_elements n [] = []
as_elements n (value ∷ values) =
    (if n == 1 then (if value == 0 then 0 else 1) else value) ∷ as_elements n values

-- `parseScalarAttributeInline` for an integer type.
unfoldable pub parse_integer : ℕ → Cursor → Outcome (ℕ × Cursor)
parse_integer width c =
    if width == 0 || ltb 64 width
    then err silent
    else if width == 1
    then (read_le 1 c >>= λ (byte, c'). ok (if byte == 0 then 0 else 1, c'))
    else (read_var_int c >>= λ (value, c'). guard (ltb value (2 ^ width)) not_fit >> ok (value, c'))

unfoldable pub parse_enum : EnumDef → Cursor → Outcome (Attr × Cursor)
parse_enum e c = do
  (raw, c') ← read_var_int c
  guard (is_case (raw % 2 ^ 32) e.cases) silent
  ok (enum (raw % 2 ^ 32), c')

-- `parseOpAttribute`, for an attribute of an operation in a body: the expected type of a dense
-- constant is known there.
unfoldable pub parse_attr : Pools → Kind → Cursor → Outcome (Attr × Cursor)
parse_attr p unit_kind c = ok (unit, c)
parse_attr p bool_kind c = do (byte, c') ← parse_integer 1 c; ok (bool (not (byte == 0)), c')
parse_attr p (enum_kind e) c = guard (enum_attr_available p.file_version e) silent >> parse_enum e c
parse_attr p (array_kind n) c = do
  (values, c') ← read_le_var_size n c
  guard (all_supported n values) silent
  ok (array (as_elements n values), c')
parse_attr p (integer_kind width) c = do (value, c') ← parse_integer width c; ok (integer value, c')
parse_attr p type_kind c = do
  (index, c') ← read_var_int c
  guard (p.has_type index) silent
  ok (type index, c')
parse_attr p string_kind c = do (text, c') ← read_and_get_string p.strings c; ok (string text, c')
parse_attr p symbol_kind c = do
  (text, c') ← read_and_get_string p.strings c
  guard (ltb 0 (length text)) silent
  ok (string text, c')
parse_attr p dense_kind c = do
  (index, c') ← read_var_int c
  guard (ltb index p.num_constants) silent
  ok (dense index, c')

-- Equality of attributes, for the test of a default value.
unfoldable pub attr_eq : Attr → Attr → Bool
attr_eq unit unit = true
attr_eq (bool b) (bool true) = b
attr_eq (bool b) (bool false) = not b
attr_eq (integer a) (integer b) = a == b
attr_eq (enum a) (enum b) = a == b
attr_eq (type a) (type b) = a == b
attr_eq (dense a) (dense b) = a == b
attr_eq (string a) (string b) = bytes_eq a b
attr_eq (array a) (array b) = bytes_eq a b
attr_eq _ _ = false
