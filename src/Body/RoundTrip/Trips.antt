-- ===== src/Body/RoundTrip/Trips.antt =====
-- What was written is read back, and leaves the writer and the reader in agreement: the statement
-- for each part of a body, and its steps from a part to the whole.
use cuda_tile.Base.{
  ℕ, suc, ◌+◌, ◌^◌, ◌≤◌, ◌≡◌, ap, sym, ◌∙◌, List, ◌++◌, length, length-append, append_assoc,
  append-nil, zero, refl, ltb-false, take, arith, true, ok,
}
use mathlib.Core.Path.{subst}
use cuda_tile.Encoding.Writer.{var_int}
use cuda_tile.Types.Function.{index_bytes}
use cuda_tile.Body.Schema.{OpDef, Head, operation, Regions, Blocks, block, Operations, Pools}
use cuda_tile.Body.Write.{
  Scope, assign, add_debug_info, leave_block, write_head, region_count, count_regions, count_blocks,
  count_operations,
}
use cuda_tile.Body.Read.{
  new_values, ParseOperation, parse_operations, parse_blocks, parse_regions, parse_operation,
}
use cuda_tile.Body.RoundTrip.Numbering.{noted, HeadFits, BlockFits, argument_types}
use cuda_tile.Body.RoundTrip.Scopes.{Agree, assign-new, leave_block-outer}
use cuda_tile.Body.RoundTrip.Heads.{parsed_at, operation_step}
use cuda_tile.Body.RoundTrip.Steps.{block_step}
use cuda_tile.Body.RoundTrip.Parts.{Trip, length_four}

add_debug_info_lem :
    (op_index location : ℕ) (locations : List ℕ)
    → add_debug_info op_index location locations ≡ locations ++ noted op_index location
unfolding add_debug_info noted
add_debug_info_lem zero location locations = sym (append-nil locations)
add_debug_info_lem (suc op_index) location locations =
    rw (ltb-false (suc op_index) 1 (omega arith)) refl

module _ (p : Pools) (parse : ParseOperation) (s s₁ s₂ s₃ : Scope) where
  -- A block, whose values are out of scope behind it.
  pub block-Trip :
      (arguments : List (ℕ × ℕ)) (xs : Operations) (bs : Blocks)
      (found found' operations blocks values inner : List ℕ) (next a b : ℕ)
      → BlockFits p next arguments xs
      → s.next_value_index ≡ length values
      → s₁.locations ≡ s.locations
      → Trip
          (parse_operations p parse (count_operations xs))
          xs
          found
          s₁
          s₂
          operations
          (values ++ new_values next (length arguments))
          ((values ++ new_values next (length arguments)) ++ inner)
          (next + length arguments)
          (next + length arguments + a)
      → Trip
          (parse_blocks p parse (count_blocks bs))
          bs
          found'
          (leave_block s.next_value_index s₂)
          s₃
          blocks
          values
          values
          (next + length arguments + a)
          (next + length arguments + a + b)
      → Trip
          (parse_blocks p parse (suc (count_blocks bs)))
          (block arguments xs bs)
          (found ++ found')
          s
          s₃
          (var_int (length arguments)
            ++ (index_bytes (argument_types arguments)
                ++ (var_int (count_operations xs) ++ (operations ++ blocks))))
          values
          values
          next
          (next + (length arguments + a + b))
  unfolding parse_blocks
  block-Trip arguments xs bs found found' operations blocks values inner next a b fits index same t
        u =
      let new : List ℕ = new_values next (length arguments) in
      let counted : List ℕ = var_int (length arguments) in
      let types : List ℕ = index_bytes (argument_types arguments) in
      let number : List ℕ = var_int (count_operations xs) in
      let left : Agree (leave_block s.next_value_index s₂) values (next + length arguments + a)
          × ((leave_block s.next_value_index s₂).locations ≡ s₂.locations) =
        leave_block-outer s₂ values (new ++ inner) s.next_value_index (next + length arguments + a)
          index (rw append_assoc at t.agrees) in
      record {
        reads = λ o rest locations.
            rw
              (
                append_assoc,
                append_assoc,
                append_assoc,
                append_assoc,
                append_assoc,
                block_step p parse arguments xs operations (new ++ inner) o next
                    (next + length arguments + a) (blocks ++ rest) values
                    (found ++ (found' ++ locations)) (found' ++ locations) fits
                    (rw append_assoc at (
                      t.reads (o + length counted + length types + length number) (blocks ++ rest)
                        (found' ++ locations))),
                u.reads (o + length counted + length types + length number + length operations) rest
                    locations,
              )
              (parsed_at (block arguments xs bs) rest values locations
                (omega (
                  arith,
                  length_four counted types number (operations ++ blocks),
                  length-append operations blocks,
                ))
                (omega arith));
        agrees = subst (Agree s₃ values) (omega arith) u.agrees;
        kept = u.kept ∙ rw (left.1, t.kept, same) (append_assoc s.locations found found');
      }

module _ (p : Pools) (defs : List OpDef) (fuel : ℕ) (h : Head) (rs : Regions) (inner : ℕ)
    (values : List ℕ) (next : ℕ) (s s₁ : Scope)
    (fits : HeadFits p defs values (next + inner) h (count_regions rs))
    (agree : Agree s values next) (few : length values ≤ 2 ^ 64)
    (available : p.available h.definition.opcode ≡ true) where
  -- An operation, whose results are assigned behind its regions.
  pub operation-Trip_of :
      (head regions found : List ℕ) (n : ℕ)
      → write_head p h s.value_index_map ≡ ok (head, n)
      → Trip
          (parse_regions p (parse_operation p defs fuel) (count_regions rs))
          rs
          found
          (record s { locations = add_debug_info p.function_loc_index h.location s.locations })
          s₁
          regions
          values
          values
          next
          (next + inner)
      → Trip
          (parse_operation p defs (suc fuel))
          (operation h rs)
          (noted p.function_loc_index h.location ++ found)
          s
          (assign (take n h.result_values) s₁)
          (var_int h.definition.opcode
            ++ (head ++ (region_count h.definition (count_regions rs) ++ regions)))
          values
          (values ++ take n h.result_values)
          next
          (next + (inner + length h.result_types))
  operation-Trip_of head regions found n e t =
      let opcode : List ℕ = var_int h.definition.opcode in
      let counted : List ℕ = region_count h.definition (count_regions rs) in
      let (agree', kept') =
        assign-new n (length h.result_types) (next + inner) (next + (inner + length h.result_types))
          s₁ values t.agrees (omega arith) in
      let results : new_values (next + inner) (length h.result_types) ≡ h.result_values =
        sym fits.new_results in
      record {
        reads = λ o rest locations.
            rw
              (
                append_assoc,
                append_assoc,
                append_assoc,
                append_assoc,
                operation_step p defs fuel h rs inner values next s fits agree few available head
                    regions n o rest (found ++ locations) locations e
                    (t.reads (o + length opcode + length head + length counted) rest locations),
              )
              (parsed_at (operation h rs) rest (values ++ take n h.result_values) locations
                (omega (arith, length_four opcode head counted regions)) (omega arith));
        agrees =
            subst
              (λ (xs : List ℕ).
                Agree (assign (take n xs) s₁) (values ++ take n xs)
                  (next + (inner + length h.result_types)))
              results agree';
        kept =
            ap (λ (xs : List ℕ). (assign (take n xs) s₁).locations) (sym results)
            ∙ kept'
            ∙ t.kept
            ∙ rw (add_debug_info_lem p.function_loc_index h.location s.locations)
                (append_assoc s.locations (noted p.function_loc_index h.location) found);
      }
