-- ===== src/Tests/BodyData.antt =====
-- A function body with a region, a versioned attribute and an optional one.
use cuda_tile.Base.{ℕ, true, false, List, [], ◌∷◌, none, some, leb}
use cuda_tile.Version.{version}
use cuda_tile.Body.Schema.{
  EnumDef, unit_kind, enum_kind, unit, enum, OperandDef, OpDef, Head, operation, no_regions, region,
  no_blocks, block, Blocks, Operations, no_operations, next_operation, Pools,
}

-- A file of version 13.3 with three types.
abbrev pub pools : Pools
pools = record {
  file_version = version 13 3 0;
  strings = record { string_data = []; string_offsets = [] };
  string_index = λ text. 0;
  has_type = λ index. leb index 2;
  num_constants = 0;
  available = λ opcode. leb opcode 100;
  is_used = λ value. false;
  valid_debuginfo = λ location. true;
  function_loc_index = 1;
}

abbrev required_operand : ℕ → OperandDef
required_operand name = record {
  operand_name = name;
  operand_since = version 13 1 0;
  optional_operand = false;
  variadic_operand = false;
}

abbrev variadic : ℕ → OperandDef
variadic name = record {
  operand_name = name;
  operand_since = version 13 1 0;
  optional_operand = false;
  variadic_operand = true;
}

abbrev overflow : EnumDef
overflow = record {
  enum_since = some (version 13 1 0);
  skips_version_check = false;
  cases = (0, version 13 1 0) ∷ (1, version 13 1 0) ∷ [];
}

-- Two operands, a required enum and an optional UnitAttr of a later version.
abbrev pub addi : OpDef
addi = record {
  opcode = 2;
  op_since = version 13 1 0;
  is_variadic = false;
  sized_segments = false;
  is_terminator = false;
  attributes =
      record {
        attr_name = 0;
        attr_since = version 13 1 0;
        kind = enum_kind overflow;
        attr_optional = false;
        default_value = none;
        same_operand_rank = none;
      }
      ∷ record {
        attr_name = 1;
        attr_since = version 13 2 0;
        kind = unit_kind;
        attr_optional = true;
        default_value = none;
        same_operand_rank = none;
      }
      ∷ [];
  operands = required_operand 2 ∷ required_operand 3 ∷ [];
  results = record { result_since = version 13 1 0; built_type = 0 } ∷ [];
  num_regions = 0;
}

-- A loop, with one region.
abbrev loop : OpDef
loop = record {
  opcode = 60;
  op_since = version 13 1 0;
  is_variadic = true;
  sized_segments = false;
  is_terminator = false;
  attributes = [];
  operands = variadic 0 ∷ [];
  results = record { result_since = version 13 1 0; built_type = 0 } ∷ [];
  num_regions = 1;
}

abbrev break : OpDef
break = record {
  opcode = 7;
  op_since = version 13 1 0;
  is_variadic = true;
  sized_segments = false;
  is_terminator = true;
  attributes = [];
  operands = variadic 0 ∷ [];
  results = [];
  num_regions = 0;
}

abbrev pub defs : List OpDef
defs = break ∷ addi ∷ loop ∷ []

-- The sum of values 0 and 1, of an enclosing scope.
abbrev pub add_head : ℕ → ℕ → ℕ → Head
add_head x y result = record {
  definition = addi;
  location = 5;
  operand_groups = (x ∷ y ∷ []) ∷ [];
  attribute_values = some (enum 1) ∷ some unit ∷ [];
  result_types = 2 ∷ [];
  result_values = result ∷ [];
}

abbrev pub break_head : ℕ → Head
break_head x = record {
  definition = break;
  location = 6;
  operand_groups = (x ∷ []) ∷ [];
  attribute_values = [];
  result_types = [];
  result_values = [];
}

abbrev pub loop_head : ℕ → Head
loop_head result = record {
  definition = loop;
  location = 7;
  operand_groups = (0 ∷ []) ∷ [];
  attribute_values = [];
  result_types = 1 ∷ [];
  result_values = result ∷ [];
}

-- The sum of the arguments leaves the loop.
abbrev pub loop_block : Blocks
loop_block =
    block ((2, 1) ∷ [])
      (next_operation (operation (add_head 0 1 2) no_regions)
        (next_operation (operation (break_head 2) no_regions) no_operations))
      no_blocks

-- Value 0 is the argument of the function, 1 that of the loop's block, 2 the sum, 3 the result.
abbrev pub body : Operations
body =
    next_operation (operation (loop_head 3) (region loop_block no_regions))
      (next_operation (operation (add_head 3 0 4) no_regions) no_operations)
