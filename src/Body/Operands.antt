-- ===== src/Body/Operands.antt =====
-- The operands of an operation: `writeOperands` of lib/Bytecode/Writer/BytecodeWriter.cpp with
-- `generateOperandSerialization` of tools/cuda-tile-tblgen/BytecodeGen.cpp, and `parseOperands` of
-- lib/Bytecode/Reader/BytecodeReader.cpp with `generateOperandDeserialization` of
-- tools/cuda-tile-tblgen/BytecodeReaderGen.cpp. An operation without AttrSizedOperandSegments has
-- one group, of all operands.
pub mod Conditions
pub mod Groups
pub mod Trip
use cuda_tile.Base.{
  ℕ, zero, suc, ◌+◌, ◌-◌, ◌%◌, ◌^◌, Bool, true, false, not, ◌&&◌, ◌||◌, List, [], ◌∷◌, ◌++◌, length,
  concat, get_elem?, Option, none, some, ltb, leb, if◌then◌else◌, Outcome, ok, err, ◌>>=◌, ◌>>◌,
  guard, silent, operand_index,
}
use cuda_tile.Version.{Version, version_eq, version_lt}
use cuda_tile.Encoding.Writer.{var_int}
use cuda_tile.Encoding.Reader.{Cursor, read_var_int, read_var_int_max}
use cuda_tile.MapVector.{Eq, find, nat_instance}
use cuda_tile.Body.Schema.{OperandDef, OpDef, Pools}
use cuda_tile.Body.Flags.{test_bit, bit_of, is_nonempty}

-- `valueIndexMap.lookup(operand)`, which is 0 for a value that is not there.
abbrev pub or_zero : Option ℕ → ℕ
or_zero none = 0
or_zero (some i) = i

unfoldable pub operand_bytes : List (ℕ × ℕ) → List ℕ → List ℕ
operand_bytes map [] = []
operand_bytes map (x ∷ xs) = var_int (or_zero (find x map)) ++ operand_bytes map xs

unfoldable pub write_operands : List (ℕ × ℕ) → Bool → List ℕ → List ℕ
unfolding operand_bytes
write_operands map encode_size xs =
    (if encode_size then var_int (length xs) else []) ++ operand_bytes map xs

unfoldable pub write_group : List (ℕ × ℕ) → OperandDef → List ℕ → List ℕ
unfolding write_operands
write_group map x group =
    if x.optional_operand
    then (if is_nonempty group then write_operands map false group else [])
    else write_operands map x.variadic_operand group

unfoldable pub write_groups : List (ℕ × ℕ) → List OperandDef → List (List ℕ) → List ℕ
unfolding write_group
write_groups map [] groups = []
write_groups map (x ∷ defs) [] = []
write_groups map (x ∷ defs) (group ∷ groups) =
    write_group map x group ++ write_groups map defs groups

unfoldable pub any_variable : List OperandDef → Bool
any_variable [] = false
any_variable (x ∷ defs) = x.optional_operand || x.variadic_operand || any_variable defs

unfoldable pub write_all_operands : List (ℕ × ℕ) → OpDef → List (List ℕ) → List ℕ
write_all_operands map d groups =
    if d.sized_segments
    then write_groups map d.operands groups
    else write_operands map (any_variable d.operands) (concat groups)

-- `valueIndexList[operandIdx]`
unfoldable pub value_at : Option ℕ → Cursor → Outcome (ℕ × Cursor)
value_at none c = err operand_index
value_at (some x) c = ok (x, c)

-- The loop that reads operand indices.
unfoldable pub read_operands : List ℕ → ℕ → Cursor → Outcome (List ℕ × Cursor)
unfolding value_at
read_operands values zero c = ok ([], c)
read_operands values (suc count) c = do
  (index, c₁) ← read_var_int c
  (x, c₂) ← value_at (get_elem? values index) c₁
  (xs, c₃) ← read_operands values count c₂
  ok (x ∷ xs, c₃)

unfoldable pub parse_operands : List ℕ → Option ℕ → Cursor → Outcome (List ℕ × Cursor)
unfolding read_operands
parse_operands values (some count) c = read_operands values count c
parse_operands values none c =
    read_var_int_max (2 ^ 32 - 1 - 1) c >>= λ (count, c'). read_operands values count c'

-- `currentSegmentLengthOds`, a 32-bit pattern.
unfoldable pub optional_length : Pools → OpDef → ℕ → OperandDef → Outcome ℕ
optional_length p d flags x =
    let here = test_bit (bit_of d x.operand_name) flags in
    if not (version_eq x.operand_since d.op_since) && version_lt p.file_version x.operand_since
    then (if here then err silent else ok 0)
    else ok (if here then 1 else 0)

unfoldable pub segment_length : Pools → OpDef → ℕ → OperandDef → Cursor → Outcome (ℕ × Cursor)
unfolding optional_length
segment_length p d flags x c =
    if x.optional_operand
    then (optional_length p d flags x >>= λ n. ok (n, c))
    else if x.variadic_operand
    then (read_var_int c >>= λ (n, c'). ok (n % 2 ^ 32, c'))
    else ok (1, c)

-- `static_cast<size_t>` of an `int32_t`, and the rounds of a loop that counts up to it.
unfoldable pub as_size : ℕ → ℕ
as_size n = if ltb n (2 ^ 31) then n else n + 2 ^ 64 - 2 ^ 32

unfoldable pub rounds : ℕ → ℕ
rounds n = if ltb n (2 ^ 31) then n else 0

-- The groups, with the lengths of their segments; `parsed` operands stand before them.
unfoldable pub read_groups :
    Pools
    → OpDef
    → List ℕ
    → ℕ
    → List OperandDef
    → ℕ
    → Cursor
    → Outcome (List (List ℕ) × List ℕ × Cursor)
unfolding segment_length read_operands as_size rounds
read_groups p d values flags [] parsed c = ok ([], [], c)
read_groups p d values flags (x ∷ defs) parsed c = do
  (n, c₁) ← segment_length p d flags x c
  guard (leb ((parsed + as_size n) % 2 ^ 64) (2 ^ 32 - 1 - 1)) silent
  (group, c₂) ← read_operands values (rounds n) c₁
  (groups, sizes, c₃) ← read_groups p d values flags defs (parsed + rounds n) c₂
  ok (group ∷ groups, n ∷ sizes, c₃)

unfoldable pub read_all_operands :
    Pools → OpDef → List ℕ → ℕ → Cursor → Outcome (List (List ℕ) × List ℕ × Cursor)
read_all_operands p d values flags c =
    if d.sized_segments
    then read_groups p d values flags d.operands 0 c
    else (parse_operands values (if any_variable d.operands then none else some (length d.operands))
          c
        >>= λ (xs, c'). ok (xs ∷ [], [], c'))
