-- ===== src/FunctionTable.antt =====
-- The function table section: `writeFunctionTableSection` of lib/Bytecode/Writer/BytecodeWriter.cpp
-- and `parseFunctionTableSection` of lib/Bytecode/Reader/BytecodeReader.cpp.
pub mod Flags
pub mod RoundTrip
use cuda_tile.Base.{
  ℕ, zero, suc, ◌+◌, ◌-◌, ◌*◌, ◌/◌, ◌%◌, Bool, true, false, not, ◌&&◌, List, [], ◌∷◌, length, leb,
  ltb, ◌==◌, if◌then◌else◌, Option, none, some,
}
use cuda_tile.Base.{
  Outcome, ok, err, ◌>>=◌, ◌>>◌, guard, silent, unknown_flags, body_length, too_many_functions,
}
use cuda_tile.Encoding.Writer.{Writer, write, write_byte, write_var_int, align_to, new_writer}
use cuda_tile.Encoding.Reader.{Cursor, start, read_var_int, read_le, read_bytes, remaining}
use cuda_tile.Section.Ids
use cuda_tile.Section.Header.{write_section}
use cuda_tile.Version.{Version, version_lt, function_flags_extended_version}

-- One entry of `functionsMap`, with the visibility of its operation and what `writeFunctionBody`
-- writes for it. `hints` are the optimization hints of an entry.
pub record FunctionMetadata {ℓ} (H : Type ℓ) : Type ℓ where
  pub name_index : ℕ
  pub signature_index : ℕ
  pub function_loc_index : ℕ
  pub is_private : Bool
  pub is_entry : Bool
  pub hints : Option H
  pub body : List ℕ

unfoldable pub is_some {ℓ} : {H : Type ℓ} → Option H → Bool
is_some none = false
is_some (some h) = true

-- `FunctionFlags`: each flag is its own bit, so `|=` is an addition.
unfoldable pub entry_flag : Bool → Bool → Bool → ℕ
entry_flag is_private is_entry has_hints =
    (if is_private then 1 else 0) + (if is_entry then 2 + (if has_hints then 4 else 0) else 0)

-- `serialize_hints` stands for `writeSelfContainedAttribute`, whose dispatch the build generates.
module _ {ℓ} {H : Type ℓ} (serialize_hints : H → Outcome (List ℕ)) where
  -- What is written for the hints: nothing, but for an entry that has them.
  unfoldable pub hints_bytes : Bool → Option H → Outcome (List ℕ)
  hints_bytes false hints = ok []
  hints_bytes true none = ok []
  hints_bytes true (some h) = serialize_hints h

  unfoldable pub write_function : FunctionMetadata H → Writer → Outcome Writer
  write_function meta w =
      let w₁ = write_var_int meta.signature_index (write_var_int meta.name_index w) in
      let flag = entry_flag meta.is_private meta.is_entry (is_some meta.hints) in
      let w₂ = write_var_int meta.function_loc_index (write_byte flag w₁) in
      (hints_bytes meta.is_entry meta.hints >>= λ hints.
      ok (write meta.body (write_var_int (length meta.body) (write hints w₂))))

  -- The loop over `functionsMap`.
  unfoldable pub write_functions : List (FunctionMetadata H) → Writer → Outcome Writer
  write_functions [] w = ok w
  write_functions (meta ∷ functions) w =
      write_function meta w >>= λ w'. write_functions functions w'

  unfoldable pub function_table_section : List (FunctionMetadata H) → Outcome Writer
  function_table_section functions =
      write_functions functions (write_var_int (length functions) (new_writer [])) >>= λ w.
      ok (align_to 8 w)

  unfoldable pub write_function_table_section :
      List (FunctionMetadata H) → List ℕ → Outcome (List ℕ)
  write_function_table_section functions stream = do
    buffer ← function_table_section functions
    ok (write_section Ids.func buffer stream)

pub record FunctionInfo {ℓ} (H : Type ℓ) : Type ℓ where
  pub info_name_index : ℕ
  pub info_signature_index : ℕ
  pub info_function_loc_index : ℕ
  pub info_entry_flag : ℕ
  pub length_of_function : ℕ
  pub function_body : List ℕ
  pub optimization_hints : Option H

-- `entryFlag & ~allowedMask`: from version 13.4 on, the mask is the three known flags.
unfoldable pub unknown_bits : Version → ℕ → ℕ
unknown_bits v flag = if version_lt v function_flags_extended_version then 0 else flag - flag % 8

-- `(entryFlag & KindKernel) != 0` and `(entryFlag & HasOptimizationHints) != 0`
unfoldable pub is_kernel : ℕ → Bool
is_kernel flag = flag / 2 % 2 == 1

unfoldable pub has_optimization_hints : ℕ → Bool
has_optimization_hints flag = flag / 4 % 2 == 1

-- `parse_hints` stands for `parseSelfContainedOpAttribute`.
module _ {ℓ} {H : Type ℓ} (parse_hints : Cursor → Outcome (H × Cursor)) where
  unfoldable pub parse_hints_if : Bool → Cursor → Outcome (Option H × Cursor)
  parse_hints_if false c = ok (none, c)
  parse_hints_if true c = parse_hints c >>= λ (hints, c'). ok (some hints, c')

  unfoldable pub parse_function : Version → Cursor → Outcome (FunctionInfo H × Cursor)
  parse_function v c = do
    (name_index, c₁) ← read_var_int c
    (signature_index, c₂) ← read_var_int c₁
    (flag, c₃) ← read_le 1 c₂
    (function_loc_index, c₄) ← read_var_int c₃
    _ ← guard (unknown_bits v flag == 0) unknown_flags
    (hints, c₅) ← parse_hints_if (is_kernel flag && has_optimization_hints flag) c₄
    (body_size, c₆) ← read_var_int c₅
    _ ← guard (leb body_size (remaining c₆)) body_length
    (body, c₇) ← read_bytes body_size c₆
    ok (
      record {
        info_name_index = name_index;
        info_signature_index = signature_index;
        info_function_loc_index = function_loc_index;
        info_entry_flag = flag;
        length_of_function = body_size;
        function_body = body;
        optimization_hints = hints;
      },
      c₇,
    )

  unfoldable pub parse_functions : Version → ℕ → Cursor → Outcome (List (FunctionInfo H))
  parse_functions v zero c = ok []
  parse_functions v (suc count) c = do
    (info, c₁) ← parse_function v c
    infos ← parse_functions v count c₁
    ok (info ∷ infos)

  unfoldable pub parse_function_table_section : Version → List ℕ → Outcome (List (FunctionInfo H))
  parse_function_table_section v payload = do
    (num_functions, c) ← read_var_int (start payload)
    guard (leb num_functions (length payload)) too_many_functions
        >> parse_functions v num_functions c
