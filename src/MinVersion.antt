-- ===== src/MinVersion.antt =====
-- `getMinBytecodeVersion` of lib/Bytecode/Analysis/MinVersionAnalyzer.cpp, with the checker that
-- `generateOpVersionChecker` of tools/cuda-tile-tblgen/BytecodeGen.cpp emits for each operation, run
-- on its description. All versions here have the tag 0, so that `isVersionGreater` is `operator<`.
pub mod Reached
pub mod Parts
pub mod Single
pub mod Writable
use cuda_tile.Base.{
  ℕ, zero, suc, ◌+◌, ◌-◌, Bool, true, false, not, ◌||◌, ◌&&◌, ◌==◌, List, [], ◌∷◌, length, take,
  drop, map, concat, Option, none, some, if◌then◌else◌,
}
use cuda_tile.Version.{Version, version_lt, version_eq, min_supported_version}
use cuda_tile.Body.Schema.{
  EnumDef, Kind, unit_kind, enum_kind, Attr, enum, AttrDef, OperandDef, ResultDef, OpDef, Head,
  Operation, operation, Regions, no_regions, region, Blocks, no_blocks, block, Operations,
  no_operations, next_operation,
}
use cuda_tile.Body.Flags.{is_some, is_nonempty}

-- `std::max`
unfoldable pub max_version : Version → Version → Version
max_version v w = if version_lt v w then w else v

-- The maximum so far, and `processedTypes`.
pub record Analysis : Type 0 where
  pub max : Version
  pub processed_types : List ℕ

unfoldable pub update_max : Version → Analysis → Analysis
unfolding max_version
update_max v s = record s { max = max_version s.max v }

unfoldable pub is_processed : ℕ → List ℕ → Bool
is_processed t [] = false
is_processed t (u ∷ types) = u == t || is_processed t types

-- `getEnumValueMinVersion`; a case of the lowest version is left out.
unfoldable pub case_version : ℕ → List (ℕ × Version) → Option Version
case_version value [] = none
case_version value ((k, since) ∷ cases) =
    if k == value
    then (if version_eq since min_supported_version then none else some since)
    else case_version value cases

-- `getAttrMinVersionRecursive(attr).value_or(kMinSupportedVersion)`, for the kinds of attributes that
-- stand on operations.
abbrev pub or_min : Option Version → Version
or_min none = min_supported_version
or_min (some v) = v

unfoldable pub attr_version : Kind → Attr → Version
unfolding case_version
attr_version (enum_kind e) (enum value) =
    if e.skips_version_check then min_supported_version else or_min (case_version value e.cases)
attr_version _ _ = min_supported_version

-- `updateMax`, for a part that came after the operation.
unfoldable pub bump : OpDef → Version → Analysis → Analysis
unfolding update_max
bump d since s = if version_lt d.op_since since then update_max since s else s

-- The ODS groups of the operands, one for each operand of the definition.
unfoldable pub split_operands : List OperandDef → List ℕ → List (List ℕ)
split_operands [] xs = []
split_operands (x ∷ defs) xs =
    let n = if x.optional_operand || x.variadic_operand then length xs - length defs else 1 in
    take n xs ∷ split_operands defs (drop n xs)

unfoldable pub ods_operands : OpDef → List (List ℕ) → List (List ℕ)
unfolding split_operands
ods_operands d groups =
    if d.sized_segments then groups else split_operands d.operands (concat groups)

abbrev pub is_unit : Kind → Bool
is_unit unit_kind = true
is_unit _ = false

unfoldable pub check_value : Kind → Option Attr → Analysis → Analysis
unfolding attr_version update_max
check_value k none s = update_max min_supported_version s
check_value k (some value) s = update_max (attr_version k value) s

-- An attribute; a UnitAttr counts where it is present.
unfoldable pub check_attribute : OpDef → AttrDef → Option Attr → Analysis → Analysis
unfolding check_value bump
check_attribute d a value s =
    if is_unit a.kind
    then (if is_some value then bump d a.attr_since s else s)
    else if a.attr_optional && not (is_some value)
    then s
    else check_value a.kind value (bump d a.attr_since s)

unfoldable pub check_attributes : OpDef → List AttrDef → List (Option Attr) → Analysis → Analysis
unfolding check_attribute
check_attributes d [] values s = s
check_attributes d (a ∷ defs) [] s = s
check_attributes d (a ∷ defs) (value ∷ values) s =
    check_attributes d defs values (check_attribute d a value s)

-- `getTypeMinVersionRecursive(type).value_or(kMinSupportedVersion)` for the index of a type, the type
-- of a value, and whether a value has users.
module _ (type_version : ℕ → Version) (type_of : ℕ → ℕ) (is_used : ℕ → Bool) where
  -- `updateMax(getTypeVersion(type))`
  unfoldable pub check_type : ℕ → Analysis → Analysis
  unfolding update_max is_processed
  check_type t s =
      if is_processed t s.processed_types
      then update_max min_supported_version s
      else update_max (type_version t) (record s { processed_types = t ∷ s.processed_types })

  unfoldable pub check_types : List ℕ → Analysis → Analysis
  unfolding check_type
  check_types [] s = s
  check_types (t ∷ types) s = check_types types (check_type t s)

  -- An optional or variadic operand counts where it is present.
  unfoldable pub check_operand : OpDef → OperandDef → List ℕ → Analysis → Analysis
  unfolding check_types bump
  check_operand d x group s = check_types (map type_of group) (
      if (x.optional_operand || x.variadic_operand) && not (is_nonempty group)
      then s
      else bump d x.operand_since s)

  unfoldable pub check_operands : OpDef → List OperandDef → List (List ℕ) → Analysis → Analysis
  unfolding check_operand
  check_operands d [] groups s = s
  check_operands d (x ∷ defs) [] s = s
  check_operands d (x ∷ defs) (group ∷ groups) s =
      check_operands d defs groups (check_operand d x group s)

  -- A result that came after the operation counts where it is used. The results behind those that
  -- are defined belong to a variadic one, which came with its operation.
  unfoldable pub check_results : OpDef → List ResultDef → List ℕ → List ℕ → Analysis → Analysis
  unfolding check_types check_type bump
  check_results d [] types values s = check_types types s
  check_results d (r ∷ defs) [] values s = s
  check_results d (r ∷ defs) (t ∷ types) [] s = s
  check_results d (r ∷ defs) (t ∷ types) (x ∷ values) s = check_results d defs types values (
      if version_lt d.op_since r.result_since && not (is_used x)
      then s
      else check_type t (bump d r.result_since s))

  -- The types of the arguments of the blocks of an operation.
  unfoldable pub check_arguments : Blocks → Analysis → Analysis
  unfolding check_types
  check_arguments no_blocks s = s
  check_arguments (block arguments xs bs) s =
      check_arguments bs (check_types (map (λ (argument : ℕ × ℕ). argument.0) arguments) s)

  unfoldable pub check_regions : Regions → Analysis → Analysis
  unfolding check_arguments
  check_regions no_regions s = s
  check_regions (region bs rs) s = check_regions rs (check_arguments bs s)

  -- `getMinVersionFor_<Op>`
  unfoldable pub min_version_for : Head → Regions → List ℕ → Analysis
  unfolding check_operands check_results check_attributes check_regions ods_operands
  min_version_for h rs processed =
      let d = h.definition in
      check_regions rs (
        check_attributes d d.attributes h.attribute_values (
          check_results d d.results h.result_types h.result_values (
            check_operands d d.operands (ods_operands d h.operand_groups)
              (record { max = d.op_since; processed_types = processed }))))

  -- `maxVersion = std::max(maxVersion, opVersion)`
  unfoldable pub check_head : Head → Regions → Analysis → Analysis
  unfolding min_version_for max_version
  check_head h rs s =
      let op = min_version_for h rs s.processed_types in
      record { max = max_version s.max op.max; processed_types = op.processed_types }

  -- `module->walk`: the operations of the regions come before the operation.
  unfoldable mutual
    pub analyze : Operation → Analysis → Analysis
    analyze (operation h rs) s = check_head h rs (analyze_regions rs s)

    pub analyze_regions : Regions → Analysis → Analysis
    analyze_regions no_regions s = s
    analyze_regions (region bs rs) s = analyze_regions rs (analyze_blocks bs s)

    pub analyze_blocks : Blocks → Analysis → Analysis
    analyze_blocks no_blocks s = s
    analyze_blocks (block arguments xs bs) s = analyze_blocks bs (analyze_operations xs s)

    pub analyze_operations : Operations → Analysis → Analysis
    analyze_operations no_operations s = s
    analyze_operations (next_operation x xs) s = analyze_operations xs (analyze x s)

  -- `getMinBytecodeVersion`, for the operations of a body.
  unfoldable pub min_version : Operations → Version
  min_version xs =
      (analyze_operations xs (record { max = min_supported_version; processed_types = [] })).max
