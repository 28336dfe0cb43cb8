-- ===== src/Body/Sound/Scoped.antt =====
-- Operations whose operands are in scope, as in SSA form: an operand is a value of the enclosing
-- blocks, an argument of the block, or a result of an operation that stands before in the block.
use cuda_tile.Base.{
  ℕ, zero, suc, Bool-cases, inl, inr, ◌≡◌, refl, true, ◌||◌, ◌==◌, List, [], ◌∷◌, ◌++◌, take,
  concat, All, All-map, ok, arith,
}
use cuda_tile.Body.Schema.{
  OpDef, Head, Operation, operation, Regions, no_regions, region, Blocks, no_blocks, block,
  Operations, no_operations, next_operation, Pools,
}
use cuda_tile.Body.Write.{count_regions}
use cuda_tile.Body.Read.{find_definition, ends_well}
use cuda_tile.Body.RoundTrip.Numbering.{contains, argument_values}

abbrev pub results_of : Operation → List ℕ
results_of (operation h rs) = h.result_values

abbrev pub AreInScope : List ℕ → List ℕ → Type 0
AreInScope values xs = All (λ x. contains x values ≡ true) xs

-- An operation without its regions: it has the definition of its opcode, which the version of the
-- file has, its operands are in scope, and it has the regions of its definition.
pub record HeadSound (p : Pools) (defs : List OpDef) (values : List ℕ) (h : Head) (regions : ℕ)
    : Type 0 where
  pub opcode : ℕ
  pub is_available : p.available opcode ≡ true
  pub is_defined : find_definition opcode defs ≡ ok h.definition
  pub operands_in_scope : AreInScope values (concat h.operand_groups)
  pub has_regions : regions ≡ h.definition.num_regions

unfoldable mutual
  pub Sound : Pools → List OpDef → List ℕ → Operation → Type 0
  Sound p defs values (operation h rs) =
      HeadSound p defs values h (count_regions rs) × SoundRegions p defs values rs

  pub SoundRegions : Pools → List OpDef → List ℕ → Regions → Type 0
  SoundRegions p defs values no_regions = Unit {0}
  SoundRegions p defs values (region bs rs) =
      SoundBlocks p defs values bs × SoundRegions p defs values rs

  -- Each block ends with a terminator.
  pub SoundBlocks : Pools → List OpDef → List ℕ → Blocks → Type 0
  SoundBlocks p defs values no_blocks = Unit {0}
  SoundBlocks p defs values (block arguments xs bs) =
      (ends_well xs ≡ true)
      × SoundOperations p defs (values ++ argument_values arguments) xs
      × SoundBlocks p defs values bs

  pub SoundOperations : Pools → List OpDef → List ℕ → Operations → Type 0
  SoundOperations p defs values no_operations = Unit {0}
  SoundOperations p defs values (next_operation x xs) =
      Sound p defs values x × SoundOperations p defs (values ++ results_of x) xs

-- Every value of the one list is in the other.
abbrev pub Within : List ℕ → List ℕ → Type 0
Within xs ys = (x : ℕ) → contains x xs ≡ true → contains x ys ≡ true

pub contains-append :
    (x : ℕ) (xs ys : List ℕ) → contains x (xs ++ ys) ≡ (contains x xs || contains x ys)
contains-append x [] ys = refl
contains-append x (y ∷ xs) ys = ground (arith, contains-append x xs ys)

contains-take : (x n : ℕ) (xs : List ℕ) → contains x (take n xs) ≡ true → contains x xs ≡ true
contains-take x zero xs h = cc
contains-take x (suc n) [] h = cc
contains-take x (suc n) (y ∷ xs) h = elim (Bool-cases (y == x)) [
  | inl e ↦ rw e
  | inr e ↦ rw e (contains-take x n xs (rw e at h))
]

pub Within-append : (xs ys zs : List ℕ) → Within xs ys → Within (xs ++ zs) (ys ++ zs)
Within-append xs ys zs h x k = ground (arith, contains-append x xs zs, contains-append x ys zs, h x)

pub Within-take : (n : ℕ) (xs ys zs : List ℕ) → Within xs ys → Within (xs ++ take n zs) (ys ++ zs)
Within-take n xs ys zs h x k =
    ground
      (arith, contains-append x xs (take n zs), contains-append x ys zs, h x, contains-take x n zs)

pub AreInScope-Within :
    (xs ys operands : List ℕ) → Within xs ys → AreInScope xs operands → AreInScope ys operands
AreInScope-Within xs ys operands h k = All-map operands h k
