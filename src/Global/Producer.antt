-- ===== src/Global/Producer.antt =====
-- The producer section.
use cuda_tile.Base.{zero, suc, arith, get_elem?, length-map, append-nil}
use cuda_tile.MapVector.{get_index, bytes_instance}
use cuda_tile.MapVector.Laws.{keys, IsNumbered, get_index_lem}
use cuda_tile.Strings.{string_section, parse_string_section}
use cuda_tile.Strings.RoundTrip.{get_string-string_section}
use cuda_tile.Encoding.VarInt.{read_var_int-start}
use cuda_tile.Encoding.Writer.{var_int}
use cuda_tile.Base.{
  ℕ, ◌^◌, ◌<◌, ◌≡◌, List, [], ◌∷◌, length, concat, if◌then◌else◌, Option, none, some, Outcome, ok,
  ◌>>=◌,
}
use cuda_tile.Encoding.Writer.{Writer, write_var_int, new_writer}
use cuda_tile.Encoding.Reader.{start, read_var_int, StringTable, get_string}
use cuda_tile.Section.Ids
use cuda_tile.Section.Header.{write_section}
use cuda_tile.Strings.{StringManager, get_string_index}
use cuda_tile.Version.{Version, version, version_lt}

-- The buffer, and the string manager after it.
unfoldable pub producer_section : List ℕ → StringManager → StringManager × Writer
producer_section producer manager =
    let (index, manager') = get_string_index producer manager in
    (manager', write_var_int index (new_writer []))

-- Nothing is written before version 13.3, or without a producer.
unfoldable pub write_producer_section :
    Version → Option (List ℕ) → StringManager → List ℕ → StringManager × List ℕ
write_producer_section v none manager stream = (manager, stream)
write_producer_section v (some producer) manager stream =
    let (manager', buffer) = producer_section producer manager in
    if version_lt v (version 13 3 0)
    then (manager, stream)
    else (manager', write_section Ids.producer buffer stream)

unfoldable pub parse_producer_section : StringTable → List ℕ → Outcome (List ℕ)
parse_producer_section t payload = do
  (producer_index, c) ← read_var_int (start payload)
  get_string t producer_index

get_elem?-lt : (xs : List (List ℕ)) (i : ℕ) (x : List ℕ) → get_elem? xs i ≡ some x → i < length xs
get_elem?-lt [] i x h = cc
get_elem?-lt (y ∷ ys) zero x h = omega arith
get_elem?-lt (y ∷ ys) (suc i) x h = let inner = get_elem?-lt ys i x h in omega arith

-- For strings that are numbered by position, less than 2^64 of them and less than 2^32 bytes together
-- with the producer, the reader finds the producer that was written, once the string section that is
-- written after it is parsed.
pub parse_producer_section-producer_section :
    (producer : List ℕ) (manager : StringManager)
    → IsNumbered 0 manager
    → length (producer_section producer manager).0 < 2 ^ 64
    → length (concat (keys (producer_section producer manager).0)) < 2 ^ 32
    → (t : StringTable) × (parse_string_section
          (string_section (producer_section producer manager).0).stream
        ≡ ok t)
      × (parse_producer_section t (producer_section producer manager).1.stream ≡ ok producer)
unfolding producer_section parse_producer_section get_string_index
parse_producer_section-producer_section producer manager numbered few fits =
    let (numbered', is_producer, kept) = get_index_lem producer manager numbered in
    let index : ℕ = (get_index producer manager).0 in
    let manager' : StringManager = (get_index producer manager).1 in
    let small : index < 2 ^ 64 = omega (
      arith,
      get_elem?-lt (keys manager') index producer is_producer,
      length-map (λ (p : List ℕ × ℕ). p.0) manager',
    ) in
    let (t, parsed, found) =
      get_string-string_section manager' index producer few fits is_producer in
    (t, parsed, rw (← append-nil (var_int index), read_var_int-start index [] small, found))
