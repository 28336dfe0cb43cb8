-- ===== src/Tests/Payloads.antt =====
-- The debug, function, global and producer sections, on concrete data.
use cuda_tile.Base.{not, ◌==◌, ap, ◌∙◌}
use cuda_tile.Encoding.Writer.{align_to}
use cuda_tile.MapVector.{enter, find, bytes_eq}
use cuda_tile.MapVector.Laws.{keys}
use cuda_tile.Version.{version_lt}
use cuda_tile.Base.{err, unknown_flags, none}
use cuda_tile.Encoding.Reader.{read_var_int, read_bytes}
use cuda_tile.FunctionTable.{is_some, FunctionInfo, parse_function, parse_functions, parse_hints_if}
use cuda_tile.Constants.{add_constant, enter_constant, position}
use cuda_tile.Strings.{get_string_index}
use cuda_tile.Global.{write_globals, check_global, register_global, write_global, bool_number}
use cuda_tile.Base.{
  ℕ, ◌+◌, ◌^◌, ◌<◌, ◌≡◌, refl, sym, arith, Bool, true, false, ◌&&◌, if◌then◌else◌, List, [], ◌∷◌,
  ◌++◌, length, concat, get_elem?, ok, some, Outcome, All, map, ok-injective, ◌>>=◌, ◌%◌, suc,
}
use cuda_tile.Encoding.Writer.{Writer, var_int}
use cuda_tile.Encoding.Reader.{Cursor, at, StringTable, read_le}
use cuda_tile.Section.HeaderTrip.{read_byte}
use cuda_tile.MapVector.{get_index, bytes_instance}
use cuda_tile.Version.{version, version_ge}
use cuda_tile.Debug.{
  DebugInfo, debug_section_buffer, parse_debug_section, next_index, get_debug_info_bytes,
  reserved_size,
}
use cuda_tile.Debug.Lookup.{debug_lookups}
use cuda_tile.FunctionTable.{
  FunctionMetadata, function_table_section, parse_function_table_section, entry_flag, is_kernel,
  has_optimization_hints, unknown_bits, write_functions, write_function, hints_bytes,
}
use cuda_tile.FunctionTable.Flags.{entry_flag_lem, function_flags_checked}
use cuda_tile.FunctionTable.RoundTrip.{
  function_info, parse_function_table_section-function_table_section,
}
use cuda_tile.Global.{GlobalInfo, GlobalOp, Managers, global_section, parse_global_section}
use cuda_tile.Global.Bytes.{InRange}
use cuda_tile.Global.RoundTrip.{register_globals, parse_global_section-global_section}
use cuda_tile.Global.Producer.{
  producer_section, parse_producer_section, parse_producer_section-producer_section,
}
use cuda_tile.Strings.{string_section, parse_string_section}

abbrev indices : List (List ℕ)
indices = (1 ∷ 2 ∷ []) ∷ (2 ∷ []) ∷ []

abbrev infos : List (List ℕ)
infos = (var_int 2 ++ 0 ∷ 1 ∷ []) ∷ (var_int 4 ++ 1 ∷ 0 ∷ 7 ∷ 9 ∷ []) ∷ []

infos_small : length (concat infos) < 2 ^ 32
unfolding var_int
infos_small = omega arith

debug_lookups_example :
    (d : DebugInfo) × (parse_debug_section (debug_section_buffer indices infos).stream ≡ ok d)
    × ((i j x : ℕ) (entry : List ℕ)
        → get_elem? indices i ≡ some entry
        → get_elem? entry j ≡ some x
        → next_index d (i + reserved_size) j ≡ some (x, suc j))
    × ((i tag : ℕ) (payload : List ℕ)
        → tag < 2 ^ 64
        → get_elem? infos i ≡ some (var_int tag ++ payload)
        → get_debug_info_bytes d (i + reserved_size) ≡ ok (tag % 256, payload))
debug_lookups_example =
    debug_lookups indices infos (omega arith) (omega arith)
      (omega arith, (omega arith, (omega arith, tt))) (omega arith) (omega arith) infos_small

-- Hints of one bit, in one byte.
abbrev serialize_hints : Bool → Outcome (List ℕ)
serialize_hints true = ok (1 ∷ [])
serialize_hints false = ok (0 ∷ [])

abbrev hints_of : ℕ × Cursor → Outcome (Bool × Cursor)
hints_of (b, c) = ok (not (b == 0), c)

abbrev parse_hints : Cursor → Outcome (Bool × Cursor)
parse_hints c = read_le 1 c >>= hints_of

hints_read :
    (h : Bool) (bytes : List ℕ)
    → serialize_hints h ≡ ok bytes
    → (o : ℕ) (rest : List ℕ)
    → parse_hints (at o (bytes ++ rest)) ≡ ok (h, at (o + length bytes) rest)
hints_read true bytes e o rest =
    let one : 1 ∷ [] ≡ bytes = ok-injective e in rw (← one, read_byte 1 o rest) refl
hints_read false bytes e o rest =
    let zeros : 0 ∷ [] ≡ bytes = ok-injective e in rw (← zeros, read_byte 0 o rest) refl

abbrev functions : List (FunctionMetadata Bool)
functions =
    record {
      name_index = 0;
      signature_index = 3;
      function_loc_index = 1;
      is_private = false;
      is_entry = true;
      hints = some true;
      body = 92 ∷ 0 ∷ [];
    }
    ∷ []

abbrev function_buffer : Writer
function_buffer = record {
  stream =
      (1 ∷ 0 ∷ 3 ∷ 6 ∷ 1 ∷ 1 ∷ 2 ∷ 92 ∷ 0 ∷ []) ++ 203 ∷ 203 ∷ 203 ∷ 203 ∷ 203 ∷ 203 ∷ 203 ∷ [];
  required_alignment = 8;
}

function_written : function_table_section serialize_hints functions ≡ ok function_buffer
unfolding function_table_section write_functions write_function hints_bytes entry_flag is_some
    align_to var_int
function_written = refl

parse_function_table_section-function_table_section_example :
    parse_function_table_section parse_hints (version 13 4 0) function_buffer.stream
    ≡ ok (map function_info functions)
parse_function_table_section-function_table_section_example =
    parse_function_table_section-function_table_section serialize_hints parse_hints hints_read
      (version 13 4 0) functions function_buffer function_written (omega arith)
      ((omega arith, omega arith, omega arith, omega arith), tt)

entry_flag_lem_example :
    (is_kernel (entry_flag false true true) ≡ true)
    × (has_optimization_hints (entry_flag false true true) ≡ (true && true))
    × (entry_flag false true true % 2 ≡ (if false then 1 else 0))
    × (unknown_bits (version 13 4 0) (entry_flag false true true) ≡ 0)
entry_flag_lem_example = entry_flag_lem (version 13 4 0) false true true

-- Hints are not read here.
abbrev no_hint_reader : Cursor → Outcome (Bool × Cursor)
no_hint_reader c = ok (true, c)

-- A kernel without hints and with an empty body.
abbrev kernel : FunctionInfo Bool
kernel = record {
  info_name_index = 3;
  info_signature_index = 1;
  info_function_loc_index = 0;
  info_entry_flag = 2;
  length_of_function = 0;
  function_body = [];
  optimization_hints = none;
}

kernel_read :
    parse_function_table_section no_hint_reader (version 13 4 0) (1 ∷ 3 ∷ 1 ∷ 2 ∷ 0 ∷ 0 ∷ [])
    ≡ ok (kernel ∷ [])
unfolding parse_function_table_section parse_functions parse_function parse_hints_if unknown_bits
    is_kernel has_optimization_hints read_var_int read_le read_bytes version_lt
kernel_read = refl

function_flags_checked_example :
    All (λ (info : FunctionInfo Bool). info.info_entry_flag < 8) (kernel ∷ [])
    × (parse_function no_hint_reader
          (version 13 4 0)
          (at 1 (var_int 3 ++ (var_int 1 ++ 9 ∷ (var_int 0 ++ []))))
        ≡ err unknown_flags)
unfolding version_ge
function_flags_checked_example =
    function_flags_checked no_hint_reader (version 13 4 0) (1 ∷ 3 ∷ 1 ∷ 2 ∷ 0 ∷ 0 ∷ [])
      (kernel ∷ []) 3 1 9 0 1 [] refl kernel_read (omega arith) (omega arith) (omega arith)
      (omega arith)

producer_few : length (producer_section (112 ∷ []) ((97 ∷ [], 0) ∷ [])).0 < 2 ^ 64
unfolding producer_section get_string_index get_index enter find bytes_eq
producer_few = omega arith

producer_small : length (concat (keys (producer_section (112 ∷ []) ((97 ∷ [], 0) ∷ [])).0)) < 2 ^ 32
unfolding producer_section get_string_index get_index enter find bytes_eq
producer_small = omega arith

-- A public, variable global, which an older version holds.
abbrev global : GlobalOp (List ℕ) (List ℕ)
global = record {
  sym_name = 103 ∷ [];
  value_type = 5 ∷ [];
  value = 1 ∷ 2 ∷ [];
  op_alignment = 8;
  op_visibility = 0;
  op_constant = false;
}

abbrev empty : Managers (List ℕ) (List ℕ)
empty = record { strings = []; types = []; constants = [] }

abbrev filled : Managers (List ℕ) (List ℕ)
filled = record {
  strings = (103 ∷ [], 0) ∷ [];
  types = (5 ∷ [], 0) ∷ [];
  constants = (1 ∷ 2 ∷ [], 1 ∷ 2 ∷ []) ∷ [];
}

abbrev global_info : GlobalInfo
global_info = record {
  symbol_name_index = 0;
  value_type_index = 0;
  constant_value_index = 0;
  alignment = 8;
  symbol_visibility = 0;
  constant = 0;
}

abbrev global_buffer : Writer
global_buffer = record { stream = 1 ∷ 0 ∷ 0 ∷ 0 ∷ 8 ∷ []; required_alignment = 1 }

abbrev serialize : List ℕ → Outcome (List ℕ)
serialize value = ok value

global_written :
    global_section get_index serialize (version 13 1 0) (global ∷ []) empty
    ≡ ok (filled, global_buffer)
unfolding global_section write_globals check_global register_global write_global version_lt
    version_ge bool_number add_constant enter_constant position get_string_index get_index enter
    find bytes_eq var_int
global_written = refl

global_registered :
    register_globals get_index serialize (global ∷ []) empty ≡ ok (global_info ∷ [], filled)
unfolding register_global bool_number add_constant enter_constant position get_string_index
    get_index enter find bytes_eq
global_registered = refl

global-InRange :
    (infos : List GlobalInfo)
    → register_globals get_index serialize (global ∷ []) empty ≡ ok (infos, filled)
    → All InRange infos
global-InRange infos h =
    let same : global_info ∷ [] ≡ infos =
      ap (λ p. p.0) (ok-injective (sym global_registered ∙ h)) in
    rw (← same) ((omega arith, omega arith, omega arith, omega arith, omega arith, omega arith), tt)

parse_global_section-global_section_example :
    (infos : List GlobalInfo) × (register_globals get_index serialize (global ∷ []) empty
      ≡ ok (infos, filled))
    × (parse_global_section (version 13 1 0) global_buffer.stream ≡ ok infos)
parse_global_section-global_section_example =
    parse_global_section-global_section get_index serialize (version 13 1 0) (global ∷ []) empty
      filled global_buffer (omega arith) global_written global-InRange

parse_producer_section-producer_section_example :
    (t : StringTable) × (parse_string_section
        (string_section (producer_section (112 ∷ []) ((97 ∷ [], 0) ∷ [])).0).stream
      ≡ ok t)
    × (parse_producer_section t (producer_section (112 ∷ []) ((97 ∷ [], 0) ∷ [])).1.stream
        ≡ ok (112 ∷ []))
parse_producer_section-producer_section_example =
    parse_producer_section-producer_section (112 ∷ []) ((97 ∷ [], 0) ∷ []) (refl, tt) producer_few
      producer_small
