-- ===== src/Body/Write.antt =====
-- `FunctionTableWriter` of lib/Bytecode/Writer/BytecodeWriter.cpp: `writeOperation`, with the
-- function that tools/cuda-tile-tblgen/BytecodeGen.cpp emits for the operation, `writeRegion`,
-- `writeBlock` and `writeFunctionBody`. Each gives the bytes that it appends to the body.
use cuda_tile.Base.{
  ℕ, suc, ◌+◌, ◌-◌, List, [], ◌∷◌, ◌++◌, length, take, map, ltb, ◌==◌, if◌then◌else◌, Outcome, ok,
  ◌>>=◌, ◌>>◌, guard, silent,
}
use cuda_tile.Encoding.Writer.{var_int}
use cuda_tile.Types.Function.{index_bytes}
use cuda_tile.Body.Schema.{
  OpDef, Head, Operation, operation, Regions, no_regions, region, Blocks, no_blocks, block,
  Operations, no_operations, next_operation, Pools,
}
use cuda_tile.Body.Flags.{write_flags}
use cuda_tile.Body.Results.{serialized_types, result_bytes}
use cuda_tile.Body.AttributeList.{write_attributes}
use cuda_tile.Body.Operands.{write_all_operands}

-- `valueIndexMap`, `nextValueIndex`, and what `addDebugInfo` has put in the list.
pub record Scope : Type 0 where
  pub value_index_map : List (ℕ × ℕ)
  pub next_value_index : ℕ
  pub locations : List ℕ

-- `valueIndexMap[value] = index`
unfoldable pub set_index : ℕ → ℕ → List (ℕ × ℕ) → List (ℕ × ℕ)
set_index value index [] = (value, index) ∷ []
set_index value index ((k, i) ∷ entries) =
    if k == value then (k, index) ∷ entries else (k, i) ∷ set_index value index entries

-- `valueIndexMap[value] = nextValueIndex++`, for each value.
unfoldable pub assign : List ℕ → Scope → Scope
unfolding set_index
assign [] s = s
assign (x ∷ xs) s = assign xs (record s {
  value_index_map = set_index x s.next_value_index s.value_index_map;
  next_value_index = s.next_value_index + 1;
})

-- The end of `writeBlock`: an entry is popped for each index that was given out since `outer`.
unfoldable pub leave_block : ℕ → Scope → Scope
leave_block outer s = record s {
  value_index_map =
      take (length s.value_index_map - (s.next_value_index - outer)) s.value_index_map;
  next_value_index = outer;
}

-- The part of the emitted function before the regions, with the number of serialized results.
unfoldable pub write_head : Pools → Head → List (ℕ × ℕ) → Outcome (List ℕ × ℕ)
write_head p h indices = do
  types ← serialized_types p h.definition h.result_types h.result_values
  flags ← write_flags p h.definition h.attribute_values h.operand_groups
  attributes ← write_attributes p h.definition.attributes h.attribute_values
  ok (
    result_bytes h.definition types
        ++ (flags ++ (attributes ++ write_all_operands indices h.definition h.operand_groups)),
    length types,
  )

unfoldable pub count_regions : Regions → ℕ
count_regions no_regions = 0
count_regions (region bs rs) = suc (count_regions rs)

unfoldable pub count_blocks : Blocks → ℕ
count_blocks no_blocks = 0
count_blocks (block arguments xs bs) = suc (count_blocks bs)

unfoldable pub count_operations : Operations → ℕ
count_operations no_operations = 0
count_operations (next_operation x xs) = suc (count_operations xs)

-- The regions are written for an operation that can have regions.
unfoldable pub region_count : OpDef → ℕ → List ℕ
region_count d n = if d.num_regions == 0 then [] else var_int n

-- `addDebugInfo`: a function with a reserved index has no locations.
unfoldable pub add_debug_info : ℕ → ℕ → List ℕ → List ℕ
add_debug_info op_index location locations =
    if ltb op_index 1 then locations else locations ++ location ∷ []

abbrev pub Written : Type 0
Written = Outcome (List ℕ × Scope)

unfoldable mutual
  pub write_operation : Pools → Operation → Scope → Written
  write_operation p (operation h rs) s = do
    guard (p.available h.definition.opcode) silent
    guard (p.valid_debuginfo h.location) silent
    let s₁ = record s { locations = add_debug_info p.function_loc_index h.location s.locations }
    (head, n) ← write_head p h s₁.value_index_map
    (regions, s₂) ← write_regions p rs s₁
    ok (
      var_int h.definition.opcode
          ++ (head ++ (region_count h.definition (count_regions rs) ++ regions)),
      assign (take n h.result_values) s₂,
    )

  pub write_regions : Pools → Regions → Scope → Written
  write_regions p no_regions s = ok ([], s)
  write_regions p (region bs rs) s = do
    (blocks, s₁) ← write_blocks p bs s
    (regions, s₂) ← write_regions p rs s₁
    ok (var_int (count_blocks bs) ++ (blocks ++ regions), s₂)

  pub write_blocks : Pools → Blocks → Scope → Written
  write_blocks p no_blocks s = ok ([], s)
  write_blocks p (block arguments xs bs) s = do
    let s₁ = assign (map (λ (argument : ℕ × ℕ). argument.1) arguments) s
    (operations, s₂) ← write_operations p xs s₁
    (blocks, s₃) ← write_blocks p bs (leave_block s.next_value_index s₂)
    ok (
      var_int (length arguments)
          ++ (index_bytes (map (λ (argument : ℕ × ℕ). argument.0) arguments)
              ++ (var_int (count_operations xs) ++ (operations ++ blocks))),
      s₃,
    )

  pub write_operations : Pools → Operations → Scope → Written
  write_operations p no_operations s = ok ([], s)
  write_operations p (next_operation x xs) s = do
    (first, s₁) ← write_operation p x s
    (others, s₂) ← write_operations p xs s₁
    ok (first ++ others, s₂)

-- The body of a function with arguments, whose operations are those of its blocks. The map is
-- cleared for each function; the locations go on.
unfoldable pub write_function_body : Pools → List ℕ → Operations → List ℕ → Written
write_function_body p arguments xs locations = write_operations p xs (
    assign arguments (record { value_index_map = []; next_value_index = 0; locations = locations }))
