-- ===== src/Types/Function.antt =====
-- Function types: `serializeFunctionType` of `TypeManager` and `parseFunctionType` of
-- `LazyTypeTable`. The tag is a number that the build generates; a type is written as its index.
use cuda_tile.Base.{
  ℕ, zero, suc, ◌+◌, ◌-◌, ◌^◌, ◌<◌, ◌≡◌, refl, sym, ◌∙◌, arith, List, [], ◌∷◌, ◌++◌, length,
  append_assoc, append-nil, map, All, Option, none, some, Outcome, ok, err, ◌>>=◌, silent,
}
use cuda_tile.Encoding.Writer.{Writer, write_var_int, new_writer, var_int}
use cuda_tile.Encoding.Reader.{Cursor, at, start, read_var_int, read_var_int_max}
use cuda_tile.Encoding.VarInt.{read_var_int-var_int, read_var_int-start, read_var_int_max-var_int}

-- A loop of `writeTypeIndex` over types, whose indices these are.
unfoldable pub write_type_indices : List ℕ → Writer → Writer
write_type_indices [] w = w
write_type_indices (index ∷ indices) w = write_type_indices indices (write_var_int index w)

unfoldable pub serialize_function_type : ℕ → List ℕ → List ℕ → Writer → Writer
serialize_function_type type_tag inputs results w =
    let w₁ = write_var_int type_tag w in
    let w₂ = write_type_indices inputs (write_var_int (length inputs) w₁) in
    write_type_indices results (write_var_int (length results) w₂)

module _ {ℓ} {T : Type ℓ} (get_type : ℕ → Option T) where
  unfoldable pub type_found : Option T → Cursor → Outcome (T × Cursor)
  type_found none c = err silent
  type_found (some type) c = ok (type, c)

  -- `readAndGetType`
  unfoldable pub read_and_get_type : Cursor → Outcome (T × Cursor)
  read_and_get_type c = read_var_int c >>= λ (index, c₁). type_found (get_type index) c₁

  -- The loop over the parameters, and the one over the results.
  unfoldable pub read_types : ℕ → Cursor → Outcome (List T × Cursor)
  read_types zero c = ok ([], c)
  read_types (suc count) c = do
    (type, c₁) ← read_and_get_type c
    (types, c₂) ← read_types count c₁
    ok (type ∷ types, c₂)

  unfoldable pub parse_function_type : Cursor → Outcome (List T × List T)
  parse_function_type c = do
    (num_params, c₁) ← read_var_int_max (2 ^ 32 - 1 - 1) c
    (param_types, c₂) ← read_types num_params c₁
    (num_results, c₃) ← read_var_int_max (2 ^ 32 - 1 - 1) c₂
    (result_types, c₄) ← read_types num_results c₃
    ok (param_types, result_types)

-- The bytes of a list of indices.
abbrev pub index_bytes : List ℕ → List ℕ
index_bytes [] = []
index_bytes (index ∷ indices) = var_int index ++ index_bytes indices

write_type_indices-eq :
    (indices : List ℕ) (w : Writer)
    → (write_type_indices indices w).stream ≡ w.stream ++ index_bytes indices
unfolding write_type_indices
write_type_indices-eq [] w = sym (append-nil w.stream)
write_type_indices-eq (i ∷ is) w =
    write_type_indices-eq is (write_var_int i w)
    ∙ append_assoc w.stream (var_int i) (index_bytes is)

-- What is written behind the tag.
abbrev pub function_payload : List ℕ → List ℕ → List ℕ
function_payload inputs results =
    var_int (length inputs)
    ++ (index_bytes inputs ++ (var_int (length results) ++ index_bytes results))

pub serialize_function_type-eq :
    (type_tag : ℕ) (inputs results : List ℕ) (w : Writer)
    → (serialize_function_type type_tag inputs results w).stream
      ≡ w.stream ++ (var_int type_tag ++ function_payload inputs results)
unfolding serialize_function_type
serialize_function_type-eq type_tag inputs results w =
    let w₁ : Writer = write_var_int type_tag w in
    let w₂ : Writer = write_var_int (length inputs) w₁ in
    let inner : (write_type_indices inputs w₂).stream ≡ w₂.stream ++ index_bytes inputs =
      write_type_indices-eq inputs w₂ in
    write_type_indices-eq results (write_var_int (length results) (write_type_indices inputs w₂))
    ∙ rw (inner, append_assoc, append_assoc, append_assoc, append_assoc)

module _ {ℓ} {T : Type ℓ} (get_type : ℕ → Option T) where
  read_types-index_bytes :
      (indices : List ℕ) (types : List T) (o : ℕ) (rest : List ℕ)
      → All (λ i. i < 2 ^ 64) indices
      → map get_type indices ≡ map some types
      → (o' : ℕ) × (read_types get_type (length indices) (at o (index_bytes indices ++ rest))
          ≡ ok (types, at o' rest))
  unfolding read_types read_and_get_type type_found
  read_types-index_bytes [] [] o rest h e = (o, refl)
  read_types-index_bytes [] (t ∷ ts) o rest h e = cc
  read_types-index_bytes (i ∷ is) [] o rest h e = cc
  read_types-index_bytes (i ∷ is) (t ∷ ts) o rest (hi, h) e =
      let first : get_type i ≡ some t = cc in
      let others : map get_type is ≡ map some ts = cc in
      let (o', loop) = read_types-index_bytes is ts (o + length (var_int i)) rest h others in
      (o', rw (append_assoc, read_var_int-var_int i o _ hi, first, loop))

  parse_function_type-payload :
      (inputs results : List ℕ) (param_types result_types : List T) (o : ℕ)
      → length inputs < 2 ^ 32 - 1
      → length results < 2 ^ 32 - 1
      → All (λ i. i < 2 ^ 64) inputs
      → All (λ i. i < 2 ^ 64) results
      → map get_type inputs ≡ map some param_types
      → map get_type results ≡ map some result_types
      → parse_function_type get_type (at o (function_payload inputs results))
        ≡ ok (param_types, result_types)
  unfolding parse_function_type
  parse_function_type-payload inputs results ps rs o few few' hi hr params outcome =
      let o₁ : ℕ = o + length (var_int (length inputs)) in
      let behind : List ℕ = var_int (length results) ++ index_bytes results in
      let (o₂, first) = read_types-index_bytes inputs ps o₁ behind hi params in
      let (o₃, second) =
        read_types-index_bytes results rs (o₂ + length (var_int (length results))) [] hr outcome in
      let second' = rw append-nil at second in
      rw (
        read_var_int_max-var_int (2 ^ 32 - 1 - 1) (length inputs) o _ (omega arith) (omega arith),
        first,
        read_var_int_max-var_int (2 ^ 32 - 1 - 1) (length results) o₂ _ (omega arith) (omega arith),
        second',
      )

  -- A function type that was written is read back, when each index leads to its type: the tag is
  -- read, and the parser finds the types in what follows. The tag and the indices are below 2^64, and
  -- there are less than 2^32 - 1 parameters and results.
  pub parse_function_type-serialize_function_type :
      (type_tag : ℕ) (inputs results : List ℕ) (param_types result_types : List T)
      → type_tag < 2 ^ 64
      → length inputs < 2 ^ 32 - 1
      → length results < 2 ^ 32 - 1
      → All (λ i. i < 2 ^ 64) inputs
      → All (λ i. i < 2 ^ 64) results
      → map get_type inputs ≡ map some param_types
      → map get_type results ≡ map some result_types
      → (c : Cursor) × (read_var_int
            (start (serialize_function_type type_tag inputs results (new_writer [])).stream)
          ≡ ok (type_tag, c))
        × (parse_function_type get_type c ≡ ok (param_types, result_types))
  parse_function_type-serialize_function_type tag inputs results ps rs ht few few' hi hr params
        outcome =
      (
        at (length (var_int tag)) (function_payload inputs results),
        rw (serialize_function_type-eq tag inputs results (new_writer []))
            (read_var_int-start tag (function_payload inputs results) ht),
        parse_function_type-payload inputs results ps rs (length (var_int tag)) few few' hi hr
            params outcome,
      )
