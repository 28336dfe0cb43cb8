-- ===== src/Body/RoundTrip/Steps.antt =====
-- One operation, block, region or argument that was written is read back, if what it holds is.
use cuda_tile.Base.{
  ℕ, suc, ◌+◌, ◌≡◌, List, [], ◌∷◌, ◌++◌, length, length-append, append_assoc, append-nil,
  take-length, arith, ok,
}
use cuda_tile.Encoding.Writer.{var_int}
use cuda_tile.Encoding.Reader.{at}
use cuda_tile.Encoding.VarInt.{read_var_int-var_int}
use cuda_tile.Types.Function.{index_bytes}
use cuda_tile.Body.Schema.{Operations, Pools}
use native.Mathlib.Numerals.{add-one}
use cuda_tile.Body.Results.Trip.{TypesOk, read_type-index}
use cuda_tile.Body.Write.{count_operations}
use cuda_tile.Body.Read.{new_values, ParseOperation, parse_operations, parse_arguments, parse_block}
use cuda_tile.Body.RoundTrip.Numbering.{BlockFits, argument_types, argument_values}
use cuda_tile.Body.RoundTrip.Heads.{parser, parsed, parsed_at}

module _ (p : Pools) (parse : ParseOperation) where
  -- The arguments of a block.
  parse_arguments-index_bytes :
      (arguments : List (ℕ × ℕ)) (o next : ℕ) (rest values locations : List ℕ)
      → argument_values arguments ≡ new_values next (length arguments)
      → TypesOk p (argument_types arguments)
      → parse_arguments p parse
          (length arguments)
          (parser (at o (index_bytes (argument_types arguments) ++ rest)) values next locations)
        ≡ parsed arguments
            (o + length (index_bytes (argument_types arguments)))
            rest
            (values ++ new_values next (length arguments))
            (next + length arguments)
            locations
  unfolding parse_arguments new_values
  parse_arguments-index_bytes [] o next rest values locations q h =
      rw append-nil
        (parsed_at {A = List (ℕ × ℕ)} [] rest values locations (omega arith) (omega arith))
  parse_arguments-index_bytes ((t, x) ∷ arguments) o next rest values locations q ((small, k), hs) =
      let own : x ≡ next = cc in
      let others : argument_values arguments ≡ new_values (suc next) (length arguments) = cc in
      let bytes : List ℕ = index_bytes (argument_types arguments) in
      let values' : List ℕ = values ++ new_values next (length ((t, x) ∷ arguments)) in
      let o₁ : ℕ = o + length (var_int t) in
      let sub : parse_arguments p parse (length arguments)
            (parser (at o₁ (bytes ++ rest)) (values ++ next ∷ []) (suc next) locations)
          ≡ parsed arguments (o₁ + length bytes) rest values' (suc next + length arguments)
              locations =
        rw append_assoc at (
          parse_arguments-index_bytes arguments o₁ (suc next) rest (values ++ next ∷ []) locations
            others hs) in
      rw (append_assoc, read_type-index p t o (bytes ++ rest) small k, add-one, sub, own)
        (parsed_at ((t, next) ∷ arguments) rest values' locations
          (omega (arith, length-append (var_int t) bytes)) (omega arith))

  -- A block, whose operations are read back.
  pub block_step :
      (arguments : List (ℕ × ℕ)) (xs : Operations) (operations inner : List ℕ) (o next next' : ℕ)
      (rest values locations locations' : List ℕ)
      → BlockFits p next arguments xs
      → parse_operations p parse (count_operations xs) (
          parser
            (at
              (o
                + length (var_int (length arguments))
                + length (index_bytes (argument_types arguments))
                + length (var_int (count_operations xs)))
              (operations ++ rest))
            (values ++ new_values next (length arguments))
            (next + length arguments)
            locations)
        ≡ parsed xs
            (o
              + length (var_int (length arguments))
              + length (index_bytes (argument_types arguments))
              + length (var_int (count_operations xs))
              + length operations)
            rest
            (values ++ inner)
            next'
            locations'
      → parse_block p parse (
          parser
            (at o (
              var_int (length arguments)
              ++ (index_bytes (argument_types arguments)
                  ++ (var_int (count_operations xs) ++ (operations ++ rest)))))
            values
            next
            locations)
        ≡ ok (
          arguments,
          xs,
          parser
              (at
                (o
                  + length (var_int (length arguments))
                  + length (index_bytes (argument_types arguments))
                  + length (var_int (count_operations xs))
                  + length operations)
                rest)
              values
              next'
              locations',
        )
  unfolding parse_block
  block_step arguments xs operations inner o next next' rest values locations locations' fits sub =
      let types : List ℕ = index_bytes (argument_types arguments) in
      let counted : List ℕ = var_int (count_operations xs) in
      let o₁ : ℕ = o + length (var_int (length arguments)) in
      rw (
        read_var_int-var_int (length arguments) o (types ++ (counted ++ (operations ++ rest)))
            fits.few_arguments,
        parse_arguments-index_bytes arguments o₁ next (counted ++ (operations ++ rest)) values
            locations fits.new_arguments fits.argument_types_ok,
        read_var_int-var_int (count_operations xs) (o₁ + length types) (operations ++ rest)
            fits.few_operations,
        sub,
        fits.terminated,
        take-length,
      )
