-- ===== src/Body/RoundTrip/Numbering.antt =====
-- Bodies whose values have the numbers by which the reader makes them: the arguments of a block
-- before its operations, and the results of an operation after what its regions define. An operand
-- is a value that is in scope.
use cuda_tile.Base.{
  ℕ, zero, suc, ◌+◌, ◌-◌, ◌^◌, ◌<◌, ◌≡◌, max, Bool, true, false, ◌||◌, ◌==◌, List, [], ◌∷◌, ◌++◌,
  length, take, map, concat, All, Outcome, ok, err,
}
use cuda_tile.Body.Schema.{
  OpDef, Head, Operation, operation, Regions, no_regions, region, Blocks, no_blocks, block,
  Operations, no_operations, next_operation, Pools,
}
use cuda_tile.Body.Results.{serialized_types}
use cuda_tile.Body.Results.Trip.{TypesOk}
use cuda_tile.Body.Write.{count_regions, count_blocks, count_operations}
use cuda_tile.Body.Read.{new_values, find_definition, ends_well}
use cuda_tile.Body.RoundTrip.HeadTrip.{HeadOk}

abbrev pub contains : ℕ → List ℕ → Bool
contains x [] = false
contains x (y ∷ ys) = y == x || contains x ys

abbrev pub argument_types : List (ℕ × ℕ) → List ℕ
argument_types = map (λ (argument : ℕ × ℕ). argument.0)

abbrev pub argument_values : List (ℕ × ℕ) → List ℕ
argument_values = map (λ (argument : ℕ × ℕ). argument.1)

-- How many values are made, how deep the regions are, and the locations in the order of writing.
unfoldable mutual
  pub created : Operation → ℕ
  created (operation h rs) = created_regions rs + length h.result_types

  pub created_regions : Regions → ℕ
  created_regions no_regions = 0
  created_regions (region bs rs) = created_blocks bs + created_regions rs

  pub created_blocks : Blocks → ℕ
  created_blocks no_blocks = 0
  created_blocks (block arguments xs bs) =
      length arguments + created_operations xs + created_blocks bs

  pub created_operations : Operations → ℕ
  created_operations no_operations = 0
  created_operations (next_operation x xs) = created x + created_operations xs

unfoldable mutual
  pub depth : Operation → ℕ
  depth (operation h rs) = suc (depth_regions rs)

  pub depth_regions : Regions → ℕ
  depth_regions no_regions = 0
  depth_regions (region bs rs) = max (depth_blocks bs) (depth_regions rs)

  pub depth_blocks : Blocks → ℕ
  depth_blocks no_blocks = 0
  depth_blocks (block arguments xs bs) = max (depth_operations xs) (depth_blocks bs)

  pub depth_operations : Operations → ℕ
  depth_operations no_operations = 0
  depth_operations (next_operation x xs) = max (depth x) (depth_operations xs)

-- The locations that `addDebugInfo` puts in the list for one operation.
unfoldable pub noted : ℕ → ℕ → List ℕ
noted zero location = []
noted (suc op_index) location = location ∷ []

unfoldable mutual
  pub locations_of : Pools → Operation → List ℕ
  locations_of p (operation h rs) =
      noted p.function_loc_index h.location ++ locations_of_regions p rs

  pub locations_of_regions : Pools → Regions → List ℕ
  locations_of_regions p no_regions = []
  locations_of_regions p (region bs rs) = locations_of_blocks p bs ++ locations_of_regions p rs

  pub locations_of_blocks : Pools → Blocks → List ℕ
  locations_of_blocks p no_blocks = []
  locations_of_blocks p (block arguments xs bs) =
      locations_of_operations p xs ++ locations_of_blocks p bs

  pub locations_of_operations : Pools → Operations → List ℕ
  locations_of_operations p no_operations = []
  locations_of_operations p (next_operation x xs) = locations_of p x ++ locations_of_operations p xs

abbrev pub count_ok : Outcome (List ℕ) → ℕ
count_ok (ok types) = length types
count_ok (err e) = 0

-- The results that a later operation can use: those that were written.
unfoldable pub visible : Pools → Operation → List ℕ
visible p (operation h rs) =
    take (count_ok (serialized_types p h.definition h.result_types h.result_values)) h.result_values

unfoldable pub visible_operations : Pools → Operations → List ℕ
unfolding visible
visible_operations p no_operations = []
visible_operations p (next_operation x xs) = visible p x ++ visible_operations p xs

-- An operation without its regions, after which `next` is the next value. Under a function with a
-- reserved index it is at the unknown location.
pub record HeadFits (p : Pools) (defs : List OpDef) (values : List ℕ) (next : ℕ) (h : Head)
    (regions : ℕ) : Type 0 where
  pub head_ok : HeadOk p h
  pub defined : find_definition h.definition.opcode defs ≡ ok h.definition
  pub small_opcode : h.definition.opcode < 2 ^ 32
  pub in_scope : All (λ x. contains x values ≡ true) (concat h.operand_groups)
  pub new_results : h.result_values ≡ new_values next (length h.result_types)
  pub all_regions : regions ≡ h.definition.num_regions
  pub few_regions : regions < 2 ^ 32 - 1
  pub kept_location : p.function_loc_index ≡ 0 → h.location ≡ 0

-- A block with its operations, before which `next` is the next value.
pub record BlockFits (p : Pools) (next : ℕ) (arguments : List (ℕ × ℕ)) (xs : Operations)
    : Type 0 where
  pub new_arguments : argument_values arguments ≡ new_values next (length arguments)
  pub argument_types_ok : TypesOk p (argument_types arguments)
  pub few_arguments : length arguments < 2 ^ 64
  pub few_operations : count_operations xs < 2 ^ 64
  pub terminated : ends_well xs ≡ true

unfoldable mutual
  pub Fits : Pools → List OpDef → List ℕ → ℕ → Operation → Type 0
  Fits p defs values next (operation h rs) =
      HeadFits p defs values (next + created_regions rs) h (count_regions rs)
      × FitRegions p defs values next rs

  pub FitRegions : Pools → List OpDef → List ℕ → ℕ → Regions → Type 0
  FitRegions p defs values next no_regions = Unit {0}
  FitRegions p defs values next (region bs rs) =
      (count_blocks bs < 2 ^ 64)
      × FitBlocks p defs values next bs
      × FitRegions p defs values (next + created_blocks bs) rs

  pub FitBlocks : Pools → List OpDef → List ℕ → ℕ → Blocks → Type 0
  FitBlocks p defs values next no_blocks = Unit {0}
  FitBlocks p defs values next (block arguments xs bs) =
      BlockFits p next arguments xs
      × FitOperations p defs (values ++ new_values next (length arguments))
          (next + length arguments) xs
      × FitBlocks p defs values (next + length arguments + created_operations xs) bs

  pub FitOperations : Pools → List OpDef → List ℕ → ℕ → Operations → Type 0
  FitOperations p defs values next no_operations = Unit {0}
  FitOperations p defs values next (next_operation x xs) =
      Fits p defs values next x × FitOperations p defs (values ++ visible p x) (next + created x) xs
