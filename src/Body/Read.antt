-- ===== src/Body/Read.antt =====
-- `InstructionParser` of lib/Bytecode/Reader/BytecodeReader.cpp: `parseOperation`, with the
-- function that tools/cuda-tile-tblgen/BytecodeReaderGen.cpp emits for the operation,
-- `createOperationGeneric`, `parseRegion` and `parseBlock`; and `parseFunctionBody`. A value that is
-- created has the next number that was not given out, as a new object has a new address. The fuel
-- counts the operations around an operation.
use cuda_tile.Base.{
  ℕ, zero, suc, ◌+◌, ◌-◌, ◌%◌, ◌^◌, Bool, false, List, [], ◌∷◌, ◌++◌, length, take, ◌==◌,
  if◌then◌else◌, Outcome, ok, err, ◌>>=◌, ◌>>◌, guard, silent, no_terminator, out_of_fuel,
}
use cuda_tile.Encoding.Reader.{Cursor, read_var_int, read_var_int_max, remaining}
use cuda_tile.Body.Schema.{
  OpDef, Head, Operation, operation, Regions, no_regions, region, Blocks, no_blocks, block,
  Operations, no_operations, next_operation, Pools,
}
use cuda_tile.Body.Flags.{read_flags}
use cuda_tile.Body.Results.{read_results, read_type}
use cuda_tile.Body.AttributeList.{read_attributes, fix_attributes}
use cuda_tile.Body.Operands.{read_all_operands}

-- The reader's position, `valueIndexList`, the next value, and what `diIterator` has left.
pub record Parser : Type 0 where
  pub cursor : Cursor
  pub value_index_list : List ℕ
  pub next_value : ℕ
  pub di_locations : List ℕ

abbrev pub moved : Cursor → Parser → Parser
moved c s = record s { cursor = c }

-- `count` new values, the first of which is `first`.
unfoldable pub new_values : ℕ → ℕ → List ℕ
new_values first zero = []
new_values first (suc count) = first ∷ new_values (suc first) count

-- The dispatch on the opcode.
unfoldable pub find_definition : ℕ → List OpDef → Outcome OpDef
find_definition opcode [] = err silent
find_definition opcode (d ∷ defs) = if d.opcode == opcode then ok d else find_definition opcode defs

-- `diIterator.next<LocationAttr>()`: for a reserved index it is the unknown location, and nothing
-- is taken.
unfoldable pub next_location : ℕ → List ℕ → Outcome (ℕ × List ℕ)
next_location op_index [] = if op_index == 0 then ok (0, []) else err silent
next_location op_index (location ∷ locations) =
    if op_index == 0 then ok (0, location ∷ locations) else ok (location, locations)

-- The number of regions, for an operation that has some.
unfoldable pub read_region_count : OpDef → Cursor → Outcome Cursor
read_region_count d c =
    if d.num_regions == 0
    then ok c
    else (read_var_int_max (2 ^ 32 - 1 - 1) c >>= λ (n, c').
        guard (n == d.num_regions) silent >> ok c')

abbrev pub ParseOperation : Type 0
ParseOperation = Parser → Outcome (Operation × Parser)

-- Whether a block ends with a terminator.
unfoldable pub ends_well : Operations → Bool
ends_well no_operations = false
ends_well (next_operation (operation h rs) no_operations) = h.definition.is_terminator
ends_well (next_operation x (next_operation y xs)) = ends_well (next_operation y xs)

-- The parts that call `parseOperation` take it as an argument.
module _ (p : Pools) (parse : ParseOperation) where
  unfoldable pub parse_operations : ℕ → Parser → Outcome (Operations × Parser)
  parse_operations zero s = ok (no_operations, s)
  parse_operations (suc count) s = do
    (x, s₁) ← parse s
    (xs, s₂) ← parse_operations count s₁
    ok (next_operation x xs, s₂)

  -- The arguments of a block, which go into the list of values.
  unfoldable pub parse_arguments : ℕ → Parser → Outcome (List (ℕ × ℕ) × Parser)
  parse_arguments zero s = ok ([], s)
  parse_arguments (suc count) s = do
    (type, c) ← read_type p s.cursor
    (arguments, s') ← parse_arguments count (record s {
      cursor = c;
      value_index_list = s.value_index_list ++ s.next_value ∷ [];
      next_value = s.next_value + 1;
    })
    ok ((type, s.next_value) ∷ arguments, s')

  unfoldable pub parse_block : Parser → Outcome (List (ℕ × ℕ) × Operations × Parser)
  parse_block s = do
    (num_args, c) ← read_var_int s.cursor
    (arguments, s₁) ← parse_arguments num_args (moved c s)
    (num_ops, c₁) ← read_var_int s₁.cursor
    (xs, s₂) ← parse_operations num_ops (moved c₁ s₁)
    guard (ends_well xs) no_terminator
    ok (
      arguments,
      xs,
      record s₂ { value_index_list = take (length s.value_index_list) s₂.value_index_list },
    )

  unfoldable pub parse_blocks : ℕ → Parser → Outcome (Blocks × Parser)
  parse_blocks zero s = ok (no_blocks, s)
  parse_blocks (suc count) s = do
    (arguments, xs, s₁) ← parse_block s
    (bs, s₂) ← parse_blocks count s₁
    ok (block arguments xs bs, s₂)

  unfoldable pub parse_regions : ℕ → Parser → Outcome (Regions × Parser)
  parse_regions zero s = ok (no_regions, s)
  parse_regions (suc count) s = do
    (num_blocks, c) ← read_var_int s.cursor
    (bs, s₁) ← parse_blocks num_blocks (moved c s)
    (rs, s₂) ← parse_regions count s₁
    ok (region bs rs, s₂)

-- The part of the emitted function before the regions: the operation with its new values left out,
-- and how many of its results get an index.
unfoldable pub parse_head : Pools → OpDef → ℕ → List ℕ → Cursor → Outcome (Head × ℕ × Cursor)
parse_head p d location values c = do
  (types, n, c₁) ← read_results p d c
  (flags, c₂) ← read_flags p d c₁
  (attributes, c₃) ← read_attributes p d flags d.attributes c₂
  (groups, sizes, c₄) ← read_all_operands p d values flags c₃
  ok (
    record {
      definition = d;
      location = location;
      operand_groups = groups;
      attribute_values = fix_attributes p.file_version d sizes attributes;
      result_types = types;
      result_values = [];
    },
    n,
    c₄,
  )

-- `createOperationGeneric`: the results are new, and the first `n` go into the list of values.
unfoldable pub create_operation : Head → ℕ → Regions → Parser → Operation × Parser
create_operation h n rs s =
    let results = new_values s.next_value (length h.result_types) in
    (
      operation (record h { result_values = results }) rs,
      record s {
        value_index_list = s.value_index_list ++ take n results;
        next_value = s.next_value + length h.result_types;
      },
    )

unfoldable pub parse_operation : Pools → List OpDef → ℕ → ParseOperation
parse_operation p defs zero s = err out_of_fuel
parse_operation p defs (suc fuel) s = do
  (opcode, c) ← read_var_int s.cursor
  guard (p.available (opcode % 2 ^ 32)) silent
  (location, locations) ← next_location p.function_loc_index s.di_locations
  d ← find_definition (opcode % 2 ^ 32) defs
  (h, n, c₁) ← parse_head p d location s.value_index_list c
  c₂ ← read_region_count d c₁
  (rs, s₁) ←
      parse_regions p (parse_operation p defs fuel) d.num_regions
        (record s { cursor = c₂; di_locations = locations })
  ok (create_operation h n rs s₁)

-- The loop of `parseFunctionBody`: `rounds` is at least the number of bytes.
unfoldable pub parse_body : Pools → List OpDef → ℕ → ℕ → Parser → Outcome (Operations × Parser)
parse_body p defs fuel zero s =
    if remaining s.cursor == 0 then ok (no_operations, s) else err out_of_fuel
parse_body p defs fuel (suc rounds) s =
    let more = parse_operation p defs fuel s >>= λ (x, s₁).
    parse_body p defs fuel rounds s₁ >>= λ (xs, s₂). ok (next_operation x xs, s₂) in
    if remaining s.cursor == 0 then ok (no_operations, s) else more
