-- ===== src/Body/Schema.antt =====
-- What the generators of tools/cuda-tile-tblgen know of an operation, and the operations. The code
-- that they emit for an operation is run here on its description. A version is `fromVersion(major,
-- minor, 0)`; a name is a number; a type is its index in the type section, and a location its index
-- in the debug section; an SSA value is a number that stands for its identity.
use cuda_tile.Base.{ℕ, List, Bool, Option}
use cuda_tile.Version.{Version}
use cuda_tile.Encoding.Reader.{StringTable}

-- An enumeration: `since` is the version of the attribute's type, and each case has a version.
pub record EnumDef : Type 0 where
  pub enum_since : Option Version
  pub skips_version_check : Bool
  pub cases : List (ℕ × Version)

-- The C++ types by which `writeOpAttribute` and `parseOpAttribute` choose the encoding.
pub data Kind : Type 0 where
  unit_kind bool_kind type_kind string_kind symbol_kind dense_kind : Kind
  integer_kind array_kind : ℕ → Kind
  enum_kind : EnumDef → Kind

-- The elements of an array are bit patterns, and a dense constant is its index.
pub data Attr : Type 0 where
  unit : Attr
  bool : Bool → Attr
  integer enum type dense : ℕ → Attr
  string array : List ℕ → Attr

pub record AttrDef : Type 0 where
  pub attr_name : ℕ
  pub attr_since : Version
  pub kind : Kind
  pub attr_optional : Bool
  pub default_value : Option Attr
  pub same_operand_rank : Option ℕ

pub record OperandDef : Type 0 where
  pub operand_name : ℕ
  pub operand_since : Version
  pub optional_operand : Bool
  pub variadic_operand : Bool

-- `built_type` is the type of the constraint's builder.
pub record ResultDef : Type 0 where
  pub result_since : Version
  pub built_type : ℕ

-- `is_variadic` is `Operator::isVariadic`, and `sized_segments` the trait AttrSizedOperandSegments.
pub record OpDef : Type 0 where
  pub opcode : ℕ
  pub op_since : Version
  pub is_variadic : Bool
  pub sized_segments : Bool
  pub is_terminator : Bool
  pub attributes : List AttrDef
  pub operands : List OperandDef
  pub results : List ResultDef
  pub num_regions : ℕ

-- An operation without its regions: a group of operands for each of `operands`, and an attribute or
-- none for each of `attributes`.
pub record Head : Type 0 where
  pub definition : OpDef
  pub location : ℕ
  pub operand_groups : List (List ℕ)
  pub attribute_values : List (Option Attr)
  pub result_types : List ℕ
  pub result_values : List ℕ

mutual
  pub data Operation : Type 0 where
    operation : Head → Regions → Operation

  pub data Regions : Type 0 where
    no_regions : Regions
    region : Blocks → Regions → Regions

  -- A block has its arguments, with their types, and its operations.
  pub data Blocks : Type 0 where
    no_blocks : Blocks
    block : List (ℕ × ℕ) → Operations → Blocks → Blocks

  pub data Operations : Type 0 where
    no_operations : Operations
    next_operation : Operation → Operations → Operations

-- What the writer and the reader of a body have from elsewhere: the version of the file, the index
-- that `getStringIndex` gives a text, the reader's string table, whether the type of an index parses,
-- the number of constants, `isOpcodeAvailableInVersion` at the version, whether a value
-- has users, `validateDebugInfo` for a location, and the index in the debug section that `getOpIndex`
-- gave the function when the function table was made: it is in the table for the reader. An index
-- below `DebugReserved::SIZE`, which is 1, is reserved: a function whose own location is unknown or
-- only a file, line and column has 0, `DebugReserved::UnknownLoc`.
pub record Pools : Type 0 where
  pub file_version : Version
  pub strings : StringTable
  pub string_index : List ℕ → ℕ
  pub has_type : ℕ → Bool
  pub num_constants : ℕ
  pub available : ℕ → Bool
  pub is_used : ℕ → Bool
  pub valid_debuginfo : ℕ → Bool
  pub function_loc_index : ℕ
