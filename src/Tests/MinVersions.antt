-- ===== src/Tests/MinVersions.antt =====
-- The minimum version of a body.
use cuda_tile.Base.{ℕ, ◌≡◌, refl, ◌==◌, false, List, [], ◌∷◌, if◌then◌else◌, ok}
use cuda_tile.Version.{Version, version, version_lt, version_eq}
use cuda_tile.Body.Attributes.{is_case}
use cuda_tile.Body.Write.{Scope, write_function_body}
use cuda_tile.MinVersion.{
  max_version, update_max, is_processed, case_version, attr_version, bump, split_operands,
  ods_operands, check_value, check_attribute, check_attributes, check_type, check_types,
  check_operand, check_operands, check_results, check_arguments, check_regions, min_version_for,
  check_head, analyze, min_version,
}
use cuda_tile.MinVersion.Writable.{
  HeadWritable, CanWrite, CanWriteOperations, write_function_body-min_version,
}
use cuda_tile.Tests.BodyData.{pools, add_head, break_head, loop_head, body}

-- Type 2 came with version 13.2.
abbrev type_version : ℕ → Version
type_version t = if t == 2 then version 13 2 0 else version 13 1 0

body_min_version : min_version type_version (λ x. 0) (λ x. false) body ≡ version 13 2 0
unfolding min_version analyze check_head min_version_for check_regions check_arguments check_results
    check_operands check_operand check_types check_type check_attributes check_attribute check_value
    ods_operands split_operands bump attr_version case_version is_processed update_max max_version
    version_lt version_eq
body_min_version = refl

add_head-HeadWritable : (x y result : ℕ) → HeadWritable pools (add_head x y result)
unfolding is_case
add_head-HeadWritable x y result = record {
  available_from = λ h. refl;
  valid_location = refl;
  writable = (refl, (tt, tt));
}

break_head-HeadWritable : HeadWritable pools (break_head 2)
break_head-HeadWritable = record {
  available_from = λ h. refl;
  valid_location = refl;
  writable = tt;
}

loop_head-HeadWritable : HeadWritable pools (loop_head 3)
loop_head-HeadWritable = record { available_from = λ h. refl; valid_location = refl; writable = tt }

body-CanWriteOperations : CanWriteOperations pools body
unfolding CanWrite
body-CanWriteOperations = (
  (
    loop_head-HeadWritable,
    ((((add_head-HeadWritable 0 1 2, tt), ((break_head-HeadWritable, tt), tt)), tt), tt),
  ),
  ((add_head-HeadWritable 3 0 4, tt), tt),
)

write_function_body-min_version_example :
    (written : List ℕ × Scope) × (write_function_body pools (0 ∷ []) body [] ≡ ok written)
unfolding min_version analyze check_head min_version_for check_regions check_arguments check_results
    check_operands check_operand check_types check_type check_attributes check_attribute check_value
    ods_operands split_operands bump attr_version case_version is_processed update_max max_version
    version_lt version_eq
write_function_body-min_version_example =
    write_function_body-min_version pools type_version (λ x. 0) (0 ∷ []) body []
      body-CanWriteOperations refl
