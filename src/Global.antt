-- ===== src/Global.antt =====
-- The global and producer sections: `writeGlobalSection` and `writeProducerSection` of
-- lib/Bytecode/Writer/BytecodeWriter.cpp, `parseGlobalSection` and `parseProducerSection` of
-- lib/Bytecode/Reader/BytecodeReader.cpp.
pub mod Bytes
pub mod RoundTrip
pub mod Producer
use cuda_tile.Base.{
  ℕ, zero, suc, ◌+◌, ◌-◌, ◌/◌, Bool, true, false, not, ◌&&◌, List, [], ◌∷◌, length, leb, ltb, ◌==◌,
  if◌then◌else◌, Option, none, some,
}
use cuda_tile.Base.{
  Outcome, ok, err, ◌>>=◌, ◌>>◌, guard, silent, global_visibility, global_constant,
  too_many_globals,
}
use cuda_tile.Encoding.Writer.{Writer, write_var_int, new_writer}
use cuda_tile.Encoding.Reader.{Cursor, start, read_var_int, remaining}
use cuda_tile.MapVector.{Eq}
use cuda_tile.Section.Ids
use cuda_tile.Section.Header.{write_section}
use cuda_tile.Strings.{StringManager, get_string_index}
use cuda_tile.Constants.{add_constant}
use cuda_tile.Version.{Version, version, version_lt, version_ge}

-- `fromVersion(13, 3, 0)`, in the writer and in the reader.
abbrev pub global_extended_version : Version
global_extended_version = version 13 3 0

pub record GlobalInfo : Type 0 where
  pub symbol_name_index : ℕ
  pub value_type_index : ℕ
  pub constant_value_index : ℕ
  pub alignment : ℕ
  pub symbol_visibility : ℕ
  pub constant : ℕ

-- What `writeGlobalSection` asks a `cuda_tile::GlobalOp` for: its name, its value and that value's
-- type, its alignment, its visibility as a number, where 0 is public, and whether it is constant.
pub record GlobalOp {ℓ} (T A : Type ℓ) : Type ℓ where
  pub sym_name : List ℕ
  pub value_type : T
  pub value : A
  pub op_alignment : ℕ
  pub op_visibility : ℕ
  pub op_constant : Bool

-- The managers, each with what was registered in it.
pub record Managers {ℓ} (T A : Type ℓ) : Type ℓ where
  pub strings : StringManager
  pub types : List (T × ℕ)
  pub constants : List (A × List ℕ)

unfoldable pub bool_number : Bool → ℕ
bool_number true = 1
bool_number false = 0

-- The checks before an older version.
unfoldable pub check_global {ℓ} : {T A : Type ℓ} → Version → GlobalOp T A → Outcome (Unit {0})
check_global v g =
    if version_lt v global_extended_version
    then guard (g.op_visibility == 0) global_visibility >> guard (not g.op_constant) global_constant
    else ok tt

-- The varints of one global: four, or six from version 13.3 on.
unfoldable pub write_global : Version → GlobalInfo → Writer → Writer
write_global v info w =
    let w₄ = write_var_int info.alignment (
      write_var_int info.constant_value_index
        (write_var_int info.value_type_index (write_var_int info.symbol_name_index w))) in
    if version_ge v global_extended_version
    then write_var_int info.constant (write_var_int info.symbol_visibility w₄)
    else w₄

-- `get_type_index` stands for `getTypeIndex`, whose registration of the types that a type depends on
-- the build generates, and `serialize` for `serializeAttribute`.
module _ {ℓ} {T A : Type ℓ} ⦃e : Eq A⦄ (get_type_index : T → List (T × ℕ) → ℕ × List (T × ℕ))
    (serialize : A → Outcome (List ℕ)) where
  -- The indices of one global, and the managers after it.
  unfoldable pub register_global : GlobalOp T A → Managers T A → Outcome (GlobalInfo × Managers T A)
  register_global g m =
      let (name_index, strings) = get_string_index g.sym_name m.strings in
      let (type_index, types) = get_type_index g.value_type m.types in
      (add_constant serialize g.value m.constants >>= λ (const_index, constants). ok (
        record {
          symbol_name_index = name_index;
          value_type_index = type_index;
          constant_value_index = const_index;
          alignment = g.op_alignment;
          symbol_visibility = g.op_visibility;
          constant = bool_number g.op_constant;
        },
        record { strings = strings; types = types; constants = constants },
      ))

  -- The loop of `writeGlobalSection`.
  unfoldable pub write_globals :
      Version → List (GlobalOp T A) → Managers T A → Writer → Outcome (Managers T A × Writer)
  write_globals v [] m w = ok (m, w)
  write_globals v (g ∷ globals) m w = do
    _ ← check_global v g
    (info, m') ← register_global g m
    write_globals v globals m' (write_global v info w)

  -- The buffer of `writeGlobalSection`, when there is a global.
  unfoldable pub global_section :
      Version → List (GlobalOp T A) → Managers T A → Outcome (Managers T A × Writer)
  global_section v globals m =
      write_globals v globals m (write_var_int (length globals) (new_writer []))

  unfoldable pub write_global_section :
      Version → List (GlobalOp T A) → Managers T A → List ℕ → Outcome (Managers T A × List ℕ)
  write_global_section v [] m stream = ok (m, stream)
  write_global_section v (g ∷ globals) m stream = do
    (m', buffer) ← global_section v (g ∷ globals) m
    ok (m', write_section Ids.global buffer stream)

-- The two fields that version 13.3 added, or their defaults.
unfoldable pub parse_extended : Version → Cursor → Outcome (ℕ × ℕ × Cursor)
parse_extended v c =
    if version_ge v global_extended_version
    then (do
      (visibility, c₁) ← read_var_int c
      (constant, c₂) ← read_var_int c₁
      ok (visibility, constant, c₂))
    else ok (0, 0, c)

unfoldable pub parse_global : Version → Cursor → Outcome (GlobalInfo × Cursor)
parse_global v c = do
  (name_index, c₁) ← read_var_int c
  (type_index, c₂) ← read_var_int c₁
  (constant_index, c₃) ← read_var_int c₂
  (alignment, c₄) ← read_var_int c₃
  (visibility, constant, c₅) ← parse_extended v c₄
  ok (
    record {
      symbol_name_index = name_index;
      value_type_index = type_index;
      constant_value_index = constant_index;
      alignment = alignment;
      symbol_visibility = visibility;
      constant = constant;
    },
    c₅,
  )

-- The loop of `parseGlobalSection`.
unfoldable pub parse_globals : Version → ℕ → Cursor → Outcome (List GlobalInfo)
parse_globals v zero c = ok []
parse_globals v (suc count) c = do
  (info, c₁) ← parse_global v c
  infos ← parse_globals v count c₁
  ok (info ∷ infos)

unfoldable pub min_global_info_size : Version → ℕ
min_global_info_size v = if version_ge v global_extended_version then 6 else 4

unfoldable pub parse_global_section : Version → List ℕ → Outcome (List GlobalInfo)
parse_global_section v payload = do
  (num_globals, c) ← read_var_int (start payload)
  guard (leb num_globals (remaining c / min_global_info_size v)) too_many_globals
      >> parse_globals v num_globals c
