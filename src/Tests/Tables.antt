-- ===== src/Tests/Tables.antt =====
-- The tables and the maps behind them, on concrete data.
use cuda_tile.Base.{
  ℕ, ◌^◌, ◌<◌, ◌≡◌, refl, arith, List, [], ◌∷◌, ◌++◌, length, concat, get_elem?, ok, some, drop,
  Option,
}
use cuda_tile.Encoding.Writer.{Writer, new_writer, var_int}
use cuda_tile.Encoding.Reader.{Cursor, StringTable, get_string, start, read_var_int}
use cuda_tile.MapVector.{get_index, bytes_instance}
use cuda_tile.MapVector.Laws.{keys, IsNumbered, get_index_lem, get_index_again}
use cuda_tile.Strings.{StringManager, string_section, parse_string_section}
use cuda_tile.Strings.RoundTrip.{get_string-string_section}
use cuda_tile.Constants.{constant_section, constant_slices, next_start, parse_constant_section}
use cuda_tile.Constants.Slices.{constant_slices_cover}
use cuda_tile.Constants.RoundTrip.{parse_constant_section-constant_section}
use cuda_tile.Types.{TypeTable, type_section, parse_type_section, get_type_bytes}
use cuda_tile.Types.RoundTrip.{get_type_bytes-type_section}
use cuda_tile.Types.Function.{
  serialize_function_type, parse_function_type, parse_function_type-serialize_function_type,
}

abbrev strings : StringManager
strings = (97 ∷ [], 0) ∷ (98 ∷ 99 ∷ [], 1) ∷ []

get_string-string_section_example :
    (t : StringTable) × (parse_string_section (string_section strings).stream ≡ ok t)
    × (get_string t 1 ≡ ok (98 ∷ 99 ∷ []))
get_string-string_section_example =
    get_string-string_section strings 1 (98 ∷ 99 ∷ []) (omega arith) (omega arith) refl

get_index_lem_example :
    IsNumbered 0 (get_index (100 ∷ []) strings).1
    × (get_elem? (keys (get_index (100 ∷ []) strings).1) (get_index (100 ∷ []) strings).0
        ≡ some (100 ∷ []))
    × ((i : ℕ) (j : List ℕ)
        → get_elem? (keys strings) i ≡ some j
        → get_elem? (keys (get_index (100 ∷ []) strings).1) i ≡ some j)
get_index_lem_example = get_index_lem (100 ∷ []) strings (refl, (refl, tt))

get_index_again_example :
    get_index (100 ∷ []) (get_index (100 ∷ []) strings).1 ≡ get_index (100 ∷ []) strings
get_index_again_example = get_index_again (100 ∷ []) strings

abbrev constants : List (List ℕ)
constants = (1 ∷ 2 ∷ []) ∷ (3 ∷ []) ∷ []

parse_constant_section-constant_section_example :
    (buffer : Writer) × (constant_section constants ≡ ok buffer)
    × (parse_constant_section buffer.stream ≡ ok constants)
parse_constant_section-constant_section_example =
    parse_constant_section-constant_section constants (omega arith) (omega arith)
      (omega arith, (omega arith, tt))

two_slices : constant_slices (9 ∷ 1 ∷ 2 ∷ 3 ∷ []) (1 ∷ 3 ∷ []) ≡ ok constants
unfolding constant_slices next_start
two_slices = refl

constant_slices_cover_example :
    (length constants ≡ 2)
    × (concat constants ≡ drop (next_start (9 ∷ 1 ∷ 2 ∷ 3 ∷ []) (1 ∷ 3 ∷ [])) (9 ∷ 1 ∷ 2 ∷ 3 ∷ []))
constant_slices_cover_example =
    constant_slices_cover (9 ∷ 1 ∷ 2 ∷ 3 ∷ []) (1 ∷ 3 ∷ []) constants two_slices

abbrev types : List (List ℕ)
types = (var_int 4 ++ []) ∷ (var_int 15 ++ 0 ∷ 1 ∷ []) ∷ []

types_small : length (concat types) < 2 ^ 32
unfolding var_int
types_small = omega arith

get_type_bytes-type_section_example :
    (t : TypeTable) × (parse_type_section (type_section types).stream ≡ ok t)
    × (get_type_bytes t 1 ≡ ok (15, 0 ∷ 1 ∷ []))
get_type_bytes-type_section_example =
    get_type_bytes-type_section types 1 15 (0 ∷ 1 ∷ []) (omega arith) types_small (omega arith) refl

-- Types named by numbers, of which the table has three.
abbrev get_type : ℕ → Option ℕ
get_type index = get_elem? (70 ∷ 71 ∷ 72 ∷ []) index

parse_function_type-serialize_function_type_example :
    (c : Cursor) × (read_var_int
        (start (serialize_function_type 16 (0 ∷ 2 ∷ []) (1 ∷ []) (new_writer [])).stream)
      ≡ ok (16, c))
    × (parse_function_type get_type c ≡ ok (70 ∷ 72 ∷ [], 71 ∷ []))
parse_function_type-serialize_function_type_example =
    parse_function_type-serialize_function_type get_type 16 (0 ∷ 2 ∷ []) (1 ∷ []) (70 ∷ 72 ∷ [])
      (71 ∷ []) (omega arith) (omega arith) (omega arith) (omega arith, (omega arith, tt))
      (omega arith, tt) refl refl
