-- ===== src/Body/RoundTrip/Function.antt =====
-- The body of a function: the loops of `writeFunctionBody` and `parseFunctionBody`.
use cuda_tile.Base.{
  true, drop, drop-length, ℕ, zero, suc, ◌+◌, ◌^◌, ◌≤◌, ◌≡◌, refl, ap, ◌∙◌, sym, List, [], ◌++◌,
  length, length-append, append_assoc, append-nil, ==_false, arith, ok, silent, >>=-eq-ok,
  guard-eq-ok, ok-injective,
}
use mathlib.Core.Path.{subst}
use cuda_tile.Encoding.Writer.{var_int}
use cuda_tile.Encoding.Reader.{at, start}
use cuda_tile.Encoding.VarInt.{var_int_shape}
use cuda_tile.Body.Schema.{
  OpDef, Operation, operation, Operations, no_operations, next_operation, Pools,
}
use cuda_tile.Body.Write.{
  Scope, assign, write_head, add_debug_info, write_regions, write_operation, write_operations,
  write_function_body, count_regions, region_count,
}
use cuda_tile.Body.RoundTrip.Kept.{kept_operations, write_operations-kept}
use cuda_tile.Body.Read.{new_values, parse_operation, parse_body}
use cuda_tile.Body.RoundTrip.Numbering.{
  created, created_operations, depth_operations, locations_of, locations_of_operations, visible,
  visible_operations, Fits, FitOperations,
}
use cuda_tile.Body.RoundTrip.Scopes.{Agree, assign-all, length-new_values}
use cuda_tile.Body.RoundTrip.Heads.{parser, parsed, parsed_at}
use cuda_tile.Body.RoundTrip.Parts.{Trip}
use cuda_tile.Body.RoundTrip.Operations.{operation-Trip, visible-length}

module _ (p : Pools) (defs : List OpDef) where
  -- An operation has at least the byte of its opcode.
  operation_nonempty :
      (x : Operation) (s s' : Scope) (bytes values : List ℕ) (next : ℕ)
      → Fits p defs values next x
      → write_operation p x s ≡ ok (bytes, s')
      → 1 ≤ length bytes
  unfolding write_operation Fits
  operation_nonempty (operation h rs) s s' bytes values next (fits, inner) e =
      let (available, e₀) = guard-eq-ok (p.available h.definition.opcode) silent _ e in
      let (valid, e₁) = guard-eq-ok (p.valid_debuginfo h.location) silent _ e₀ in
      let s₁ : Scope = record s {
        locations = add_debug_info p.function_loc_index h.location s.locations;
      } in
      let ((head, n), e₂, e₃) = >>=-eq-ok (write_head p h s.value_index_map) _ e₁ in
      let ((regions, s₂), e₄, e₅) = >>=-eq-ok (write_regions p rs s₁) _ e₃ in
      let rest : List ℕ = head ++ (region_count h.definition (count_regions rs) ++ regions) in
      let all : var_int h.definition.opcode ++ rest ≡ bytes =
        ap (λ (r : List ℕ × Scope). r.0) (ok-injective e₅) in
      omega (
        arith,
        ap length all,
        length-append (var_int h.definition.opcode) rest,
        (var_int_shape h.definition.opcode (omega (arith, fits.small_opcode))).1,
      )

  body_end :
      (rounds fuel o : ℕ) (values : List ℕ) (next : ℕ) (locations : List ℕ)
      → parse_body p defs fuel rounds (parser (at o []) values next locations)
        ≡ parsed no_operations o [] values next locations
  unfolding parse_body
  body_end zero fuel o values next locations = refl
  body_end (suc rounds) fuel o values next locations = refl

  body_more :
      (x : Operation) (xs : Operations) (first rest v v₁ v₂ l l₁ l₂ : List ℕ)
      (rounds fuel o next next₁ next₂ : ℕ)
      → 1 ≤ length first
      → parse_operation p defs fuel (parser (at o (first ++ rest)) v next l)
        ≡ parsed x (o + length first) rest v₁ next₁ l₁
      → parse_body p defs fuel rounds (parser (at (o + length first) rest) v₁ next₁ l₁)
        ≡ parsed xs (o + length first + length rest) [] v₂ next₂ l₂
      → parse_body p defs fuel (suc rounds) (parser (at o (first ++ rest)) v next l)
        ≡ parsed (next_operation x xs) (o + length first + length rest) [] v₂ next₂ l₂
  unfolding parse_body
  body_more x xs first rest v v₁ v₂ l l₁ l₂ rounds fuel o next next₁ next₂ some_byte one others =
      rw (
        ==_false (length (first ++ rest)) 0 (λ q. absurd (omega (arith, length-append first rest))),
        one,
        others,
      )

  body_trip :
      (xs : Operations) (rounds fuel : ℕ) (s s' : Scope) (bytes values locations : List ℕ)
      (next o : ℕ)
      → length bytes ≤ rounds
      → depth_operations xs ≤ fuel
      → FitOperations p defs values next xs
      → Agree s values next
      → length values + created_operations xs ≤ 2 ^ 64
      → write_operations p xs s ≡ ok (bytes, s')
      → (parse_body p defs fuel rounds
            (parser (at o bytes) values next (locations_of_operations p xs ++ locations))
          ≡ parsed xs
              (o + length bytes)
              []
              (values ++ visible_operations p xs)
              (next + created_operations xs)
              locations)
        × (s'.locations ≡ s.locations ++ locations_of_operations p xs)
  unfolding write_operations FitOperations created_operations depth_operations
      locations_of_operations visible_operations
  body_trip no_operations rounds fuel s s' bytes values locations next o long deep fits agree few
        e =
      let none : [] ≡ bytes = ap (λ (r : List ℕ × Scope). r.0) (ok-injective e) in
      let same : s ≡ s' = ap (λ (r : List ℕ × Scope). r.1) (ok-injective e) in
      (
        rw (← none) (
            body_end rounds fuel o values next locations
            ∙ rw append-nil
                (parsed_at no_operations [] values locations (omega arith) (omega arith))),
        rw (← same) (sym (append-nil s.locations)),
      )
  body_trip (next_operation x xs) zero fuel s s' bytes values locations next o long deep
        (fits, others) agree few e =
      let ((first, s₁), e₁, e₂) = >>=-eq-ok (write_operation p x s) _ e in
      let ((rest, s₂), e₃, e₄) = >>=-eq-ok (write_operations p xs s₁) _ e₂ in
      let all : first ++ rest ≡ bytes = ap (λ (r : List ℕ × Scope). r.0) (ok-injective e₄) in
      absurd (
        omega (
          arith,
          operation_nonempty x s s₁ first values next fits e₁,
          ap length all,
          length-append first rest,
        ))
  body_trip (next_operation x xs) (suc rounds) fuel s s' bytes values locations next o long deep
        (fits, others) agree few e =
      let ((first, s₁), e₁, e₂) = >>=-eq-ok (write_operation p x s) _ e in
      let ((rest, s₂), e₃, e₄) = >>=-eq-ok (write_operations p xs s₁) _ e₂ in
      let some_byte : 1 ≤ length first = operation_nonempty x s s₁ first values next fits e₁ in
      let all : first ++ rest ≡ bytes = ap (λ (r : List ℕ × Scope). r.0) (ok-injective e₄) in
      let last : s₂ ≡ s' = ap (λ (r : List ℕ × Scope). r.1) (ok-injective e₄) in
      let size : length first + length rest ≡ length bytes =
        sym (length-append first rest) ∙ ap length all in
      let t : Trip (parse_operation p defs fuel) x (locations_of p x) s s₁ first values
          (values ++ visible p x) next (next + created x) =
        operation-Trip p defs x fuel s s₁ first values next (omega arith) fits agree (omega arith)
          e₁ in
      let few' : length (values ++ visible p x) + created_operations xs ≤ 2 ^ 64 =
        omega
          (arith, length-append values (visible p x), visible-length p defs values next x fits) in
      let (read, kept) =
        body_trip xs rounds fuel s₁ s₂ rest (values ++ visible p x) locations (next + created x)
          (o + length first) (omega arith) (omega arith) others t.agrees few' e₃ in
      (
        rw (← all, append_assoc)
            (body_more x xs first rest values (values ++ visible p x)
                ((values ++ visible p x) ++ visible_operations p xs)
                (locations_of p x ++ (locations_of_operations p xs ++ locations))
                (locations_of_operations p xs ++ locations) locations rounds fuel o next
                (next + created x) (next + created x + created_operations xs) some_byte
                (t.reads o rest (locations_of_operations p xs ++ locations)) read
              ∙ rw append_assoc (
                  parsed_at (next_operation x xs) []
                    (values ++ (visible p x ++ visible_operations p xs)) locations
                    (omega (arith, length-append first rest)) (omega arith))),
        rw (← last) (
            kept
            ∙ rw t.kept
                (append_assoc s.locations (locations_of p x) (locations_of_operations p xs))),
      )

  -- The body of a function with `arguments` arguments whose operations are `xs` is read back whole
  -- from the bytes and the locations that the writer recorded for it, which stand between those of
  -- the functions before and behind: the operations with their operands, attributes, result types,
  -- regions and locations. In a function whose index in the debug section is reserved the file keeps
  -- no locations: there the operations come back at the unknown location, which is a valid one, and
  -- are otherwise the same. The values have the numbers by which the reader makes them; what is kept
  -- matches the definitions of the operations, each operand is in scope, and there are at most 2^64
  -- values. The nesting of the regions is enough fuel.
  pub parse_body-write_function_body :
      (xs : Operations) (arguments : ℕ) (s' : Scope) (bytes locations later : List ℕ)
      → p.valid_debuginfo 0 ≡ true
      → FitOperations p defs (new_values 0 arguments) arguments (kept_operations p xs)
      → arguments + created_operations (kept_operations p xs) ≤ 2 ^ 64
      → write_function_body p (new_values 0 arguments) xs locations ≡ ok (bytes, s')
      → (parse_body p defs (depth_operations (kept_operations p xs)) (length bytes) (
            parser
              (start bytes)
              (new_values 0 arguments)
              arguments
              (drop (length locations) s'.locations ++ later))
          ≡ parsed
              (kept_operations p xs)
              (length bytes)
              []
              (new_values 0 arguments ++ visible_operations p (kept_operations p xs))
              (arguments + created_operations (kept_operations p xs))
              later)
        × (s'.locations ≡ locations ++ locations_of_operations p (kept_operations p xs))
  unfolding write_function_body
  parse_body-write_function_body xs arguments s' bytes locations later valid fits few e =
      let empty : Scope = record {
        value_index_map = [];
        next_value_index = 0;
        locations = locations;
      } in
      let entered : Scope = assign (new_values 0 arguments) empty in
      let kept : Operations = kept_operations p xs in
      let nothing : Agree empty [] 0 = record {
        same_values = refl;
        same_length = refl;
        before_next = tt;
      } in
      let (agree, same) = assign-all arguments 0 empty [] nothing in
      let count : length (new_values 0 arguments) ≡ arguments = length-new_values 0 arguments in
      let (read, all) =
        body_trip kept (length bytes) (depth_operations kept) entered s' bytes
          (new_values 0 arguments) later arguments 0 (omega arith) (omega arith) fits
          (subst (Agree entered (new_values 0 arguments)) (omega arith) agree) (omega arith)
          (write_operations-kept p xs entered (bytes, s') valid e) in
      let recorded : s'.locations ≡ locations ++ locations_of_operations p kept =
        all ∙ ap (λ (l : List ℕ). l ++ locations_of_operations p kept) same in
      (
        rw (recorded, drop-length)
            (read
              ∙ parsed_at kept [] (new_values 0 arguments ++ visible_operations p kept) later
                  (omega arith) refl),
        recorded,
      )
