-- ===== src/Module.antt =====
-- The order in which `readBytecode` of lib/Bytecode/Reader/BytecodeReader.cpp parses the sections:
-- the tables that it has when it goes on to create functions. The globals and the functions are
-- created from these tables by MLIR's builders.
use cuda_tile.Base.{ℕ, Bool, List, [], Option, none, some}
use cuda_tile.Base.{Outcome, ok, err, ◌>>=◌, Error, missing_strings, missing_functions}
use cuda_tile.Version.{Version}
use cuda_tile.Encoding.Reader.{Cursor, StringTable}
use cuda_tile.Section.Ids
use cuda_tile.Section.Container.{read_container}
use cuda_tile.Strings.{parse_string_section}
use cuda_tile.Constants.{parse_constant_section}
use cuda_tile.Types.{TypeTable, parse_type_section}
use cuda_tile.Debug.{DebugInfo, parse_debug_section}
use cuda_tile.Global.{GlobalInfo, parse_global_section}
use cuda_tile.Global.Producer.{parse_producer_section}
use cuda_tile.FunctionTable.{FunctionInfo, parse_function_table_section}

pub record Tables {ℓ} (H : Type ℓ) : Type ℓ where
  pub file_version : Version
  pub strings : StringTable
  pub producer : Option (List ℕ)
  pub types : TypeTable
  pub constants : List (List ℕ)
  pub globals : List GlobalInfo
  pub debuginfo : DebugInfo
  pub functions : List (FunctionInfo H)

-- A section that may be missing; then its table is what it was initialized with.
unfoldable pub optional {ℓ} : {A : Type ℓ} → A → (List ℕ → Outcome A) → Option (List ℕ) → Outcome A
optional initial parse none = ok initial
optional initial parse (some payload) = parse payload

unfoldable pub mandatory {ℓ} :
    {A : Type ℓ} → Error → (List ℕ → Outcome A) → Option (List ℕ) → Outcome A
mandatory missing parse none = err missing
mandatory missing parse (some payload) = parse payload

unfoldable pub parse_producer : StringTable → List ℕ → Outcome (Option (List ℕ))
parse_producer t payload = parse_producer_section t payload >>= λ producer. ok (some producer)

-- A table of types and a reader of debug info before their sections are parsed.
abbrev pub no_types : TypeTable
no_types = record { payload = []; type_start_indices = [] }

abbrev pub no_debuginfo : DebugInfo
no_debuginfo = record { di_indices = []; di_index_offsets = []; di_data = []; di_offsets = [] }

module _ {ℓ} {H : Type ℓ} (is_power_of_2 : ℕ → Bool)
    (parse_hints : Cursor → Outcome (H × Cursor)) where
  unfoldable pub parse_sections : Version → (ℕ → Option (List ℕ)) → Outcome (Tables H)
  parse_sections v payloads = do
    strings ← mandatory missing_strings parse_string_section (payloads Ids.string)
    producer ← optional none (parse_producer strings) (payloads Ids.producer)
    types ← optional no_types parse_type_section (payloads Ids.types)
    constants ← optional [] parse_constant_section (payloads Ids.constant)
    globals ← optional [] (parse_global_section v) (payloads Ids.global)
    debuginfo ← optional no_debuginfo parse_debug_section (payloads Ids.debug)
    functions ←
        mandatory missing_functions (parse_function_table_section parse_hints v) (payloads Ids.func)
    ok (record {
      file_version = v;
      strings = strings;
      producer = producer;
      types = types;
      constants = constants;
      globals = globals;
      debuginfo = debuginfo;
      functions = functions;
    })

  unfoldable pub read_bytecode : List ℕ → Outcome (Tables H)
  read_bytecode bytes =
      read_container is_power_of_2 bytes >>= λ (v, payloads). parse_sections v payloads
