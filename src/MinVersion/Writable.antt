-- ===== src/MinVersion/Writable.antt =====
-- A body is written in its minimum version, and in every later one.
use cuda_tile.Base.{ℕ, ◌≡◌, refl, true, false, List, [], map, ok}
use cuda_tile.Version.{Version, version_lt, min_supported_version}
use cuda_tile.Body.Schema.{
  Head, Operation, operation, Regions, no_regions, region, Blocks, no_blocks, block, Operations,
  no_operations, next_operation, Pools,
}
use cuda_tile.Body.Write.{
  Scope, assign, add_debug_info, leave_block, write_operation, write_regions, write_blocks,
  write_operations, write_function_body,
}
use cuda_tile.MinVersion.{
  Analysis, check_head, min_version_for, analyze, analyze_regions, analyze_blocks,
  analyze_operations, min_version,
}
use cuda_tile.MinVersion.Reached.{Reached, max_version-Has}
use cuda_tile.MinVersion.Parts.{Succeeds, AreWritable}
use cuda_tile.MinVersion.Single.{write_head-Succeeds}

-- An operation whose opcode is available from its version on, at a valid location, with attributes
-- of their kinds.
pub record HeadWritable (p : Pools) (h : Head) : Type 0 where
  pub available_from :
      version_lt p.file_version h.definition.op_since ≡ false
      → p.available h.definition.opcode ≡ true
  pub valid_location : p.valid_debuginfo h.location ≡ true
  pub writable : AreWritable h.definition.attributes h.attribute_values

unfoldable mutual
  pub CanWrite : Pools → Operation → Type 0
  CanWrite p (operation h rs) = HeadWritable p h × CanWriteRegions p rs

  pub CanWriteRegions : Pools → Regions → Type 0
  CanWriteRegions p no_regions = Unit {0}
  CanWriteRegions p (region bs rs) = CanWriteBlocks p bs × CanWriteRegions p rs

  pub CanWriteBlocks : Pools → Blocks → Type 0
  CanWriteBlocks p no_blocks = Unit {0}
  CanWriteBlocks p (block arguments xs bs) = CanWriteOperations p xs × CanWriteBlocks p bs

  pub CanWriteOperations : Pools → Operations → Type 0
  CanWriteOperations p no_operations = Unit {0}
  CanWriteOperations p (next_operation x xs) = CanWrite p x × CanWriteOperations p xs

module _ (p : Pools) (type_version : ℕ → Version) (type_of : ℕ → ℕ) where
  check_head-Reached :
      (h : Head) (rs : Regions) (a : Analysis)
      → Reached p.file_version (check_head type_version type_of p.is_used h rs a)
      → Reached p.file_version a
        × Reached p.file_version
            (min_version_for type_version type_of p.is_used h rs a.processed_types)
  unfolding check_head
  check_head-Reached h rs a k = max_version-Has p.file_version a.max _ k

  mutual
    unfolding CanWrite analyze write_operation

    operation-Succeeds :
        (x : Operation) (a : Analysis)
        → CanWrite p x
        → Reached p.file_version (analyze type_version type_of p.is_used x a)
        → ((s : Scope) → Succeeds (write_operation p x s)) × Reached p.file_version a
    operation-Succeeds (operation h rs) a (k, ks) reached =
        let (inner, own) =
          check_head-Reached h rs (analyze_regions type_version type_of p.is_used rs a) reached in
        let (written, old) = regions-Succeeds rs a ks inner in
        (
          λ s.
              let s₁ : Scope = record s {
                locations = add_debug_info p.function_loc_index h.location s.locations;
              } in
              let (available, ((head, n), e)) =
                write_head-Succeeds p type_version type_of h rs _ s₁.value_index_map k.writable
                  own in
              let ((bytes, s₂), e') = written s₁ in
              rw (k.available_from available, k.valid_location, e, e') (_, refl),
          old,
        )

    regions-Succeeds :
        (rs : Regions) (a : Analysis)
        → CanWriteRegions p rs
        → Reached p.file_version (analyze_regions type_version type_of p.is_used rs a)
        → ((s : Scope) → Succeeds (write_regions p rs s)) × Reached p.file_version a
    regions-Succeeds no_regions a k reached = (λ s. (([], s), refl), reached)
    regions-Succeeds (region bs rs) a (k, ks) reached =
        let (later, mid) =
          regions-Succeeds rs (analyze_blocks type_version type_of p.is_used bs a) ks reached in
        let (first, old) = blocks-Succeeds bs a k mid in
        (
          λ s.
              let ((blocks, s₁), e) = first s in
              let ((regions, s₂), e') = later s₁ in rw (e, e') (_, refl),
          old,
        )

    blocks-Succeeds :
        (bs : Blocks) (a : Analysis)
        → CanWriteBlocks p bs
        → Reached p.file_version (analyze_blocks type_version type_of p.is_used bs a)
        → ((s : Scope) → Succeeds (write_blocks p bs s)) × Reached p.file_version a
    blocks-Succeeds no_blocks a k reached = (λ s. (([], s), refl), reached)
    blocks-Succeeds (block arguments xs bs) a (k, ks) reached =
        let (later, mid) =
          blocks-Succeeds bs (analyze_operations type_version type_of p.is_used xs a) ks reached in
        let (first, old) = operations-Succeeds xs a k mid in
        (
          λ s.
              let ((operations, s₂), e) =
                first (assign (map (λ (argument : ℕ × ℕ). argument.1) arguments) s) in
              let ((blocks, s₃), e') = later (leave_block s.next_value_index s₂) in
              rw (e, e') (_, refl),
          old,
        )

    operations-Succeeds :
        (xs : Operations) (a : Analysis)
        → CanWriteOperations p xs
        → Reached p.file_version (analyze_operations type_version type_of p.is_used xs a)
        → ((s : Scope) → Succeeds (write_operations p xs s)) × Reached p.file_version a
    operations-Succeeds no_operations a k reached = (λ s. (([], s), refl), reached)
    operations-Succeeds (next_operation x xs) a (k, ks) reached =
        let (later, mid) =
          operations-Succeeds xs (analyze type_version type_of p.is_used x a) ks reached in
        let (first, old) = operation-Succeeds x a k mid in
        (
          λ s.
              let ((one, s₁), e) = first s in
              let ((others, s₂), e') = later s₁ in rw (e, e') (_, refl),
          old,
        )

  -- A file version that is not below the minimum version of a body is enough to write it: the body
  -- of a function is written without an error. The attributes are of their kinds, the locations are
  -- valid, and the opcode of an operation is available from the operation's version on.
  pub write_function_body-min_version :
      (arguments : List ℕ) (xs : Operations) (locations : List ℕ)
      → CanWriteOperations p xs
      → version_lt p.file_version (min_version type_version type_of p.is_used xs) ≡ false
      → (written : List ℕ × Scope) × (write_function_body p arguments xs locations ≡ ok written)
  unfolding write_function_body min_version
  write_function_body-min_version arguments xs locations k reached =
      (operations-Succeeds xs (record { max = min_supported_version; processed_types = [] }) k
          reached).0
        _
