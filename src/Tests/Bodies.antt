-- ===== src/Tests/Bodies.antt =====
-- A function body with a region, a versioned attribute and an optional one.
use cuda_tile.Base.{ℕ, ◌+◌, ◌≡◌, refl, arith, List, [], ◌∷◌, ◌++◌, length, none, some, ok, inl}
use cuda_tile.Version.{version, version_ge, version_lt, version_eq}
use cuda_tile.Encoding.Writer.{var_int}
use cuda_tile.Encoding.Reader.{start}
use cuda_tile.MapVector.{find}
use cuda_tile.Body.Schema.{enum, OpDef, operation, no_regions, region}
use cuda_tile.Body.Attributes.{
  write_attr, enum_value_available, case_available, enum_attr_available, since_available, is_case,
}
use cuda_tile.Body.Flags.{
  attribute_fields, operand_fields, optional_fields, add_field, add_fields, ordered_fields,
  bit_from, bit_of, later_flags, has_flags, attribute_presence, operand_presence, presence, too_new,
  set_flags, set_bit, write_flags_of, write_flags,
}
use cuda_tile.Body.Results.{serialized_types, any_versioned, requires_version_check, result_bytes}
use cuda_tile.Body.AttributeList.{
  write_value, write_optional, check_default, write_attribute, write_attributes,
}
use cuda_tile.Body.Operands.{operand_bytes, write_operands, any_variable, write_all_operands}
use cuda_tile.Body.Write.{
  add_debug_info, Scope, set_index, assign, leave_block, write_head, count_regions, count_blocks,
  count_operations, region_count, write_operation, write_regions, write_blocks, write_operations,
  write_function_body,
}
use cuda_tile.Body.Read.{parse_body, new_values, find_definition, ends_well}
use cuda_tile.Body.RoundTrip.Numbering.{
  created, created_regions, created_blocks, created_operations, depth_operations,
  locations_of_operations, visible, visible_operations, Fits, FitRegions, FitBlocks, FitOperations,
}
use cuda_tile.Body.RoundTrip.HeadTrip.{HeadOk}
use cuda_tile.Body.RoundTrip.Heads.{parser, parsed}
use cuda_tile.Encoding.Reader.{at}
use cuda_tile.Encoding.Writer.{le_array, le_bytes}
use cuda_tile.Body.Schema.{array_kind, array}
use cuda_tile.Body.Attributes.{all_supported, is_supported, as_elements, parse_attr}
use cuda_tile.Body.AttributesTrip.{parse_attr-write_attr}
use cuda_tile.Body.Flags.{read_flags}
use cuda_tile.Body.Flags.Setting.{BitsSay}
use cuda_tile.Body.Flags.Trip.{read_flags-write_flags}
use cuda_tile.Body.Results.{compatible_types, is_compatible, read_results}
use cuda_tile.Body.Results.Trip.{read_results-result_bytes}
use cuda_tile.Body.Read.{Parser}
use cuda_tile.Body.RoundTrip.Numbering.{
  depth, depth_regions, depth_blocks, locations_of, locations_of_regions, locations_of_blocks,
}
use cuda_tile.Body.Sound.Scoped.{SoundOperations}
use cuda_tile.Body.Sound.Function.{parse_body-SoundOperations}
use cuda_tile.Body.RoundTrip.Kept.{kept_operations}
use cuda_tile.Body.RoundTrip.Function.{parse_body-write_function_body}
use cuda_tile.Tests.BodyData.{pools, addi, defs, add_head, break_head, loop_head, loop_block, body}

-- The bytes of the body, operation by operation.
abbrev body_bytes : List ℕ
body_bytes =
    (60 ∷ 1 ∷ 1 ∷ 1 ∷ 0 ∷ 1 ∷ 1 ∷ [])
    ++ ((1 ∷ 2 ∷ 2 ∷ [])
        ++ ((2 ∷ 2 ∷ 1 ∷ 1 ∷ 0 ∷ 1 ∷ []) ++ ((7 ∷ 0 ∷ 1 ∷ 2 ∷ []) ++ (2 ∷ 2 ∷ 1 ∷ 1 ∷ 1 ∷ 0 ∷ []))))

-- The loop's result takes the index of the block's argument, which has left its scope.
abbrev after_body : Scope
after_body = record {
  value_index_map = (0, 0) ∷ (3, 1) ∷ (4, 2) ∷ [];
  next_value_index = 3;
  locations = 4 ∷ 7 ∷ 5 ∷ 6 ∷ 5 ∷ [];
}

body_written : write_function_body pools (0 ∷ []) body (4 ∷ []) ≡ ok (body_bytes, after_body)
unfolding write_function_body write_operation write_regions write_blocks write_operations assign
    set_index leave_block add_debug_info write_head count_regions count_blocks count_operations
    region_count serialized_types any_versioned requires_version_check result_bytes write_flags
    write_flags_of ordered_fields optional_fields attribute_fields operand_fields add_fields
    add_field later_flags has_flags presence attribute_presence operand_presence set_flags too_new
    bit_of bit_from set_bit write_attributes write_attribute write_value write_optional
    check_default write_attr enum_value_available case_available version_ge version_lt version_eq
    write_all_operands any_variable write_operands operand_bytes find var_int
body_written = refl

-- Under a function at the unknown location the bytes are the same, and no location is recorded.
reserved_written :
    write_function_body (record pools { function_loc_index = 0 }) (0 ∷ []) body (4 ∷ [])
    ≡ ok (body_bytes, record after_body { locations = 4 ∷ [] })
unfolding write_function_body write_operation write_regions write_blocks write_operations assign
    set_index leave_block add_debug_info write_head count_regions count_blocks count_operations
    region_count serialized_types any_versioned requires_version_check result_bytes write_flags
    write_flags_of ordered_fields optional_fields attribute_fields operand_fields add_fields
    add_field later_flags has_flags presence attribute_presence operand_presence set_flags too_new
    bit_of bit_from set_bit write_attributes write_attribute write_value write_optional
    check_default write_attr enum_value_available case_available version_ge version_lt version_eq
    write_all_operands any_variable write_operands operand_bytes find var_int
reserved_written = refl

add_head-HeadOk : (x y result : ℕ) → HeadOk pools (add_head x y result)
unfolding optional_fields attribute_fields operand_fields presence attribute_presence
    operand_presence any_variable any_versioned requires_version_check enum_attr_available
    since_available is_case version_lt version_ge version_eq
add_head-HeadOk x y result = record {
  available_since = refl;
  few_fields = omega arith;
  distinct_names = (tt, tt);
  results_ok = record {
    types_ok = ((omega arith, refl), tt);
    few_results = omega arith;
    built = λ h. cc;
    counted = λ h k. refl;
  };
  attributes_ok = (
    record {
      readable = (omega arith, refl, refl);
      has_rank = tt;
      segments = inl refl;
      known = λ h. cc;
    },
    (record { readable = tt; has_rank = tt; segments = inl refl; known = λ h. cc }, tt),
  );
  operands_ok = record {
    few_operands = omega arith;
    groups_ok = λ h. cc;
    one_group = λ h. (x ∷ y ∷ [], refl, λ k. refl);
  };
}

break_head-HeadOk : (x : ℕ) → HeadOk pools (break_head x)
unfolding optional_fields attribute_fields operand_fields presence attribute_presence
    operand_presence any_variable any_versioned version_lt
break_head-HeadOk x = record {
  available_since = refl;
  few_fields = omega arith;
  distinct_names = tt;
  results_ok = record {
    types_ok = tt;
    few_results = omega arith;
    built = λ h. cc;
    counted = λ h k. refl;
  };
  attributes_ok = tt;
  operands_ok = record {
    few_operands = omega arith;
    groups_ok = λ h. cc;
    one_group = λ h. (x ∷ [], refl, λ k. cc);
  };
}

loop_head-HeadOk : (result : ℕ) → HeadOk pools (loop_head result)
unfolding optional_fields attribute_fields operand_fields presence attribute_presence
    operand_presence any_variable any_versioned requires_version_check version_lt version_eq
loop_head-HeadOk result = record {
  available_since = refl;
  few_fields = omega arith;
  distinct_names = tt;
  results_ok = record {
    types_ok = ((omega arith, refl), tt);
    few_results = omega arith;
    built = λ h. cc;
    counted = λ h k. cc;
  };
  attributes_ok = tt;
  operands_ok = record {
    few_operands = omega arith;
    groups_ok = λ h. cc;
    one_group = λ h. (0 ∷ [], refl, λ k. cc);
  };
}

sum-Fits : Fits pools defs (0 ∷ 1 ∷ []) 2 (operation (add_head 0 1 2) no_regions)
unfolding Fits FitRegions find_definition new_values created_regions count_regions
sum-Fits = (
  record {
    head_ok = add_head-HeadOk 0 1 2;
    defined = refl;
    small_opcode = omega arith;
    in_scope = (refl, (refl, tt));
    new_results = refl;
    all_regions = refl;
    few_regions = omega arith;
    kept_location = λ e. absurd (omega arith);
  },
  tt,
)

break-Fits : Fits pools defs (0 ∷ 1 ∷ 2 ∷ []) 3 (operation (break_head 2) no_regions)
unfolding Fits FitRegions find_definition new_values created_regions count_regions
break-Fits = (
  record {
    head_ok = break_head-HeadOk 2;
    defined = refl;
    small_opcode = omega arith;
    in_scope = (refl, tt);
    new_results = refl;
    all_regions = refl;
    few_regions = omega arith;
    kept_location = λ e. absurd (omega arith);
  },
  tt,
)

last-Fits : Fits pools defs (0 ∷ 3 ∷ []) 4 (operation (add_head 3 0 4) no_regions)
unfolding Fits FitRegions find_definition new_values created_regions count_regions
last-Fits = (
  record {
    head_ok = add_head-HeadOk 3 0 4;
    defined = refl;
    small_opcode = omega arith;
    in_scope = (refl, (refl, tt));
    new_results = refl;
    all_regions = refl;
    few_regions = omega arith;
    kept_location = λ e. absurd (omega arith);
  },
  tt,
)

loop_block-FitBlocks : FitBlocks pools defs (0 ∷ []) 1 loop_block
unfolding FitBlocks FitOperations new_values created created_regions created_operations
    count_operations ends_well visible serialized_types any_versioned requires_version_check
    version_eq
loop_block-FitBlocks = (
  record {
    new_arguments = refl;
    argument_types_ok = ((omega arith, refl), tt);
    few_arguments = omega arith;
    few_operations = omega arith;
    terminated = refl;
  },
  (sum-Fits, (break-Fits, tt)),
  tt,
)

loop-Fits : Fits pools defs (0 ∷ []) 1 (operation (loop_head 3) (region loop_block no_regions))
unfolding Fits FitRegions find_definition new_values created_blocks created created_regions
    created_operations count_regions count_blocks
loop-Fits = (
  record {
    head_ok = loop_head-HeadOk 3;
    defined = refl;
    small_opcode = omega arith;
    in_scope = (refl, tt);
    new_results = refl;
    all_regions = refl;
    few_regions = omega arith;
    kept_location = λ e. absurd (omega arith);
  },
  (omega arith, loop_block-FitBlocks, tt),
)

body-FitOperations : FitOperations pools defs (new_values 0 1) 1 body
unfolding FitOperations new_values created created_regions created_blocks created_operations visible
    serialized_types any_versioned requires_version_check version_eq
body-FitOperations = (loop-Fits, (last-Fits, tt))

parse_body-write_function_body_example :
    (parse_body pools defs
        (depth_operations body)
        (length body_bytes)
        (parser (start body_bytes) (new_values 0 1) 1 ((7 ∷ 5 ∷ 6 ∷ 5 ∷ []) ++ 9 ∷ []))
      ≡ parsed body
          (length body_bytes)
          []
          (new_values 0 1 ++ visible_operations pools body)
          (1 + created_operations body)
          (9 ∷ []))
    × (after_body.locations ≡ (4 ∷ []) ++ locations_of_operations pools body)
unfolding new_values created created_regions created_blocks created_operations kept_operations
parse_body-write_function_body_example =
    parse_body-write_function_body pools defs body 1 after_body body_bytes (4 ∷ []) (9 ∷ []) refl
      body-FitOperations (omega arith) body_written

abbrev body_end : Parser
body_end = record {
  cursor = at 26 [];
  value_index_list = 0 ∷ 3 ∷ 4 ∷ [];
  next_value = 5;
  di_locations = [];
}

body_read :
    parse_body pools defs 2 26 (parser (start body_bytes) (0 ∷ []) 1 (7 ∷ 5 ∷ 6 ∷ 5 ∷ []))
    ≡ ok (body, body_end)
unfolding new_values created created_regions created_blocks created_operations depth depth_regions
    depth_blocks depth_operations locations_of locations_of_regions locations_of_blocks
    locations_of_operations visible visible_operations serialized_types any_versioned
    requires_version_check version_eq kept_operations
body_read =
    (parse_body-write_function_body pools defs body 1 after_body body_bytes (4 ∷ []) [] refl
      body-FitOperations (omega arith) body_written).0

parse_body-SoundOperations_example : SoundOperations pools defs (0 ∷ []) body
parse_body-SoundOperations_example =
    parse_body-SoundOperations pools defs 2 26
      (parser (start body_bytes) (0 ∷ []) 1 (7 ∷ 5 ∷ 6 ∷ 5 ∷ [])) body_end body body_read

-- The optional attribute of the sum is left out, and its flag is 0.
read_flags-write_flags_example :
    (flags : ℕ) × (read_flags pools addi (at 0 (0 ∷ 1 ∷ [])) ≡ ok (flags, at 1 (1 ∷ [])))
    × BitsSay addi (presence addi (some (enum 1) ∷ none ∷ []) ((0 ∷ 1 ∷ []) ∷ [])) flags
unfolding optional_fields attribute_fields operand_fields ordered_fields add_fields add_field
    presence attribute_presence operand_presence write_flags write_flags_of set_flags too_new
    later_flags has_flags version_lt version_eq var_int
read_flags-write_flags_example =
    read_flags-write_flags pools addi (some (enum 1) ∷ none ∷ []) ((0 ∷ 1 ∷ []) ∷ []) (0 ∷ []) 0
      (1 ∷ []) refl (omega arith) (tt, tt) refl

-- An array of 32-bit integers.
parse_attr-write_attr_example :
    parse_attr pools (array_kind 4) (at 0 (2 ∷ 1 ∷ 0 ∷ 0 ∷ 0 ∷ 0 ∷ 2 ∷ 0 ∷ 0 ∷ 9 ∷ []))
    ≡ ok (array (1 ∷ 512 ∷ []), at 9 (9 ∷ []))
unfolding write_attr var_int le_array le_bytes all_supported is_supported as_elements
parse_attr-write_attr_example =
    parse_attr-write_attr pools 0 (9 ∷ []) (array_kind 4) (array (1 ∷ 512 ∷ []))
      (2 ∷ 1 ∷ 0 ∷ 0 ∷ 0 ∷ 0 ∷ 2 ∷ 0 ∷ 0 ∷ [])
      (omega arith, (omega arith, (omega arith, tt)), refl, refl) refl

-- An operation whose second result came with version 13.4 and is left out in a file of 13.3.
abbrev load : OpDef
load = record addi {
  results =
      record { result_since = version 13 1 0; built_type = 0 }
      ∷ record { result_since = version 13 4 0; built_type = 2 }
      ∷ [];
}

read_results-result_bytes_example :
    read_results pools load (at 0 (1 ∷ 9 ∷ [])) ≡ ok (1 ∷ 2 ∷ [], 1, at 1 (9 ∷ []))
unfolding serialized_types any_versioned requires_version_check compatible_types is_compatible
    version_lt version_eq result_bytes var_int
read_results-result_bytes_example =
    read_results-result_bytes pools load (1 ∷ 2 ∷ []) (7 ∷ 8 ∷ []) (1 ∷ []) 0 (9 ∷ [])
      (record {
        types_ok = ((omega arith, refl), ((omega arith, refl), tt));
        few_results = omega arith;
        built = λ h. ((λ k. cc), ((λ k. refl), tt));
        counted = λ h k. cc;
      })
      refl
