-- ===== src/FunctionTable/RoundTrip.antt =====
-- The function table that is written is parsed.
use cuda_tile.Base.{
  ℕ, ◌+◌, ◌^◌, ◌≤◌, ◌<◌, ◌≡◌, refl, sym, ap, ◌∙◌, arith, Bool, true, false, ◌&&◌, List, [], ◌∷◌,
  ◌++◌, length, length-append, append_assoc, append-nil, All, leb-true, map, if◌then◌else◌, Option,
  none, some, Outcome, ok, >>=-eq-ok, ok-injective,
}
use cuda_tile.Encoding.Writer.{Writer, write_var_int, new_writer, var_int}
use cuda_tile.Encoding.Reader.{Cursor, at}
use cuda_tile.Encoding.VarInt.{read_var_int-var_int, read_var_int-start}
use cuda_tile.Encoding.Fixed.{ok_at, read_bytes-append}
use cuda_tile.Encoding.Align.{pad, align_to-stream}
use cuda_tile.Section.HeaderTrip.{read_byte}
use cuda_tile.Version.{Version}
use cuda_tile.FunctionTable.Flags.{entry_flag-lt, entry_flag_lem}
use cuda_tile.FunctionTable.{
  FunctionMetadata, is_some, entry_flag, hints_bytes, write_function, write_functions,
  function_table_section, FunctionInfo, parse_hints_if, parse_function, parse_functions,
  parse_function_table_section,
}

module _ {ℓ} {H : Type ℓ} where
  abbrev pub flag_of : FunctionMetadata H → ℕ
  flag_of meta = entry_flag meta.is_private meta.is_entry (is_some meta.hints)

  -- What the reader holds for a function: the hints are those of an entry.
  abbrev pub function_info : FunctionMetadata H → FunctionInfo H
  function_info meta = record {
    info_name_index = meta.name_index;
    info_signature_index = meta.signature_index;
    info_function_loc_index = meta.function_loc_index;
    info_entry_flag = flag_of meta;
    length_of_function = length meta.body;
    function_body = meta.body;
    optimization_hints = if meta.is_entry then meta.hints else none;
  }

  -- The indices are `uint64_t`, and the body is shorter than 2^64 bytes.
  abbrev pub InRange : FunctionMetadata H → Type 0
  InRange meta =
      (meta.name_index < 2 ^ 64)
      × (meta.signature_index < 2 ^ 64)
      × (meta.function_loc_index < 2 ^ 64)
      × (length meta.body < 2 ^ 64)

  abbrev function_bytes : FunctionMetadata H → List ℕ → List ℕ
  function_bytes meta hints =
      var_int meta.name_index
      ++ (var_int meta.signature_index
          ++ ((flag_of meta ∷ [])
              ++ (var_int meta.function_loc_index
                  ++ (hints ++ (var_int (length meta.body) ++ meta.body)))))

and_again : (e h : Bool) → (e && (e && h)) ≡ (e && h)
and_again true h = refl
and_again false h = refl

module _ {ℓ} {H : Type ℓ} (serialize_hints : H → Outcome (List ℕ))
    (parse_hints : Cursor → Outcome (H × Cursor))
    (hints_read : (h : H) (bytes : List ℕ)
      → serialize_hints h ≡ ok bytes
      → (o : ℕ) (rest : List ℕ)
      → parse_hints (at o (bytes ++ rest)) ≡ ok (h, at (o + length bytes) rest)) where
  parse_hints_if-hints_bytes :
      (is_entry : Bool) (hints : Option H) (bytes : List ℕ) (o : ℕ) (rest : List ℕ)
      → hints_bytes serialize_hints is_entry hints ≡ ok bytes
      → parse_hints_if parse_hints (is_entry && is_some hints) (at o (bytes ++ rest))
        ≡ ok (if is_entry then hints else none, at (o + length bytes) rest)
  unfolding parse_hints_if hints_bytes is_some
  parse_hints_if-hints_bytes false hints bytes o rest h =
      let nothing : [] ≡ bytes = ok-injective h in rw (← nothing) (ok_at none rest (omega arith))
  parse_hints_if-hints_bytes true none bytes o rest h =
      let nothing : [] ≡ bytes = ok-injective h in rw (← nothing) (ok_at none rest (omega arith))
  parse_hints_if-hints_bytes true (some x) bytes o rest h = rw (hints_read x bytes h o rest)

  parse_function-function_bytes :
      (v : Version) (meta : FunctionMetadata H) (hints : List ℕ) (o : ℕ) (rest : List ℕ)
      → hints_bytes serialize_hints meta.is_entry meta.hints ≡ ok hints
      → InRange meta
      → (o' : ℕ) × (parse_function parse_hints v (at o (function_bytes meta hints ++ rest))
          ≡ ok (function_info meta, at o' rest))
  unfolding parse_function
  parse_function-function_bytes v meta hints o rest h (h₁, h₂, h₃, h₄) =
      let flag : ℕ = flag_of meta in
      let small : flag < 8 = entry_flag-lt meta.is_private meta.is_entry (is_some meta.hints) in
      let (kernel, hinted, private_bit, known) =
        entry_flag_lem v meta.is_private meta.is_entry (is_some meta.hints) in
      let o₁ : ℕ = o + length (var_int meta.name_index) in
      let o₂ : ℕ = o₁ + length (var_int meta.signature_index) in
      let o₃ : ℕ = o₂ + 1 in
      let o₄ : ℕ = o₃ + length (var_int meta.function_loc_index) in
      let o₅ : ℕ = o₄ + length hints in
      let o₆ : ℕ = o₅ + length (var_int (length meta.body)) in
      (
        o₆ + length meta.body,
        rw (
          append_assoc,
          read_var_int-var_int meta.name_index o _ h₁,
          append_assoc,
          read_var_int-var_int meta.signature_index o₁ _ h₂,
          append_assoc,
          read_byte flag o₂ _,
          append_assoc,
          read_var_int-var_int meta.function_loc_index o₃ _ h₃,
          append_assoc,
          known,
          kernel,
          hinted,
          and_again meta.is_entry (is_some meta.hints),
          parse_hints_if-hints_bytes meta.is_entry meta.hints hints o₄ _ h,
          append_assoc,
          read_var_int-var_int (length meta.body) o₅ _ h₄,
          leb-true (length meta.body) (length (meta.body ++ rest))
              (omega (arith, length-append meta.body rest)),
          read_bytes-append o₆ meta.body rest,
        ),
      )

  -- What the loop has written when it succeeds is read back, whatever follows.
  write_functions-read :
      (v : Version) (functions : List (FunctionMetadata H)) (w w' : Writer)
      → write_functions serialize_hints functions w ≡ ok w'
      → All InRange functions
      → (bytes : List ℕ) × (w'.stream ≡ w.stream ++ bytes)
        × (length functions ≤ length bytes)
        × ((o : ℕ) (rest : List ℕ)
            → parse_functions parse_hints v (length functions) (at o (bytes ++ rest))
              ≡ ok (map function_info functions))
  unfolding write_functions write_function parse_functions
  write_functions-read v [] w w' h tt = (
    [],
    ap (λ (u : Writer). u.stream) (sym (ok-injective h)) ∙ sym (append-nil w.stream),
    omega arith,
    λ o rest. refl,
  )
  write_functions-read v (meta ∷ functions) w w' h (hm, hs) =
      let (w₁, written, h₁) = >>=-eq-ok (write_function serialize_hints meta w) _ h in
      let (hints, hinted, result) =
        >>=-eq-ok (hints_bytes serialize_hints meta.is_entry meta.hints) _ written in
      let (bytes, stream, count, read) = write_functions-read v functions w₁ w' h₁ hs in
      let last : List ℕ =
        var_int meta.function_loc_index ++ (hints ++ (var_int (length meta.body) ++ meta.body)) in
      let behind : List ℕ = var_int meta.signature_index ++ flag_of meta ∷ last in
      let front : List ℕ = function_bytes meta hints in
      let first : w₁.stream ≡ w.stream ++ front =
        ap (λ (u : Writer). u.stream) (sym (ok-injective result))
        ∙ rw (append_assoc, append_assoc, append_assoc, append_assoc, append_assoc, append_assoc) in
      let some_byte : 1 ≤ length front = omega (
        arith,
        length-append (var_int meta.name_index) behind,
        length-append (var_int meta.signature_index) (flag_of meta ∷ last),
      ) in
      (
        front ++ bytes,
        stream ∙ rw (first, append_assoc),
        omega (arith, length-append front bytes),
        λ o rest.
            let (o', parsed) =
              parse_function-function_bytes v meta hints o (bytes ++ rest) hinted hm in
            rw (append_assoc front bytes rest, parsed, read o' rest),
      )

  -- When the table is written, for fewer than 2^64 functions with 64-bit indices and bodies shorter
  -- than 2^64 bytes, it parses in every version as the functions in their order, each with its
  -- indices, flag, hints and body. `hints_read` says that the hints' parser reads what was written.
  pub parse_function_table_section-function_table_section :
      (v : Version) (functions : List (FunctionMetadata H)) (buffer : Writer)
      → function_table_section serialize_hints functions ≡ ok buffer
      → length functions < 2 ^ 64
      → All InRange functions
      → parse_function_table_section parse_hints v buffer.stream ≡ ok (map function_info functions)
  unfolding function_table_section parse_function_table_section
  parse_function_table_section-function_table_section v functions buffer h few in_range =
      let n : ℕ = length functions in
      let (w, written, aligned) =
        >>=-eq-ok (write_functions serialize_hints functions (write_var_int n (new_writer []))) _
          h in
      let (bytes, stream, count, read) =
        write_functions-read v functions (write_var_int n (new_writer [])) w written in_range in
      let tail : List ℕ = pad (length w.stream) 8 in
      let whole : buffer.stream ≡ var_int n ++ (bytes ++ tail) =
        ap (λ (u : Writer). u.stream) (sym (ok-injective aligned))
        ∙ align_to-stream 8 w (omega arith)
        ∙ ap (λ (s : List ℕ). s ++ tail) stream
        ∙ append_assoc (var_int n) bytes tail in
      let size : n ≤ length (var_int n ++ (bytes ++ tail)) =
        omega (arith, length-append (var_int n) (bytes ++ tail), length-append bytes tail) in
      rw (
        whole,
        read_var_int-start n (bytes ++ tail) few,
        leb-true n (length (var_int n ++ (bytes ++ tail))) size,
        read (length (var_int n)) tail,
      )
