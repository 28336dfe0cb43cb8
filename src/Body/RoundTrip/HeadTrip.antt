-- ===== src/Body/RoundTrip/HeadTrip.antt =====
-- What stands before the regions of an operation is read back.
use cuda_tile.Base.{
  ℕ, ◌+◌, ◌≤◌, ◌≡◌, Option, ◌∙◌, false, if◌then◌else◌, List, [], ◌++◌, length, concat, All,
  All-split, append_assoc, length-append, arith, Outcome, ok, >>=-eq-ok,
}
use cuda_tile.Version.{version_lt}
use cuda_tile.Encoding.Reader.{Cursor, at}
use cuda_tile.Body.Schema.{Attr, OpDef, Head, Pools}
use cuda_tile.Body.Flags.{
  Field, test_bit, bit_of, too_new, optional_fields, presence, attribute_presence, operand_presence,
  write_flags,
}
use cuda_tile.Body.Flags.Setting.{DistinctNames, AllAllowed}
use cuda_tile.Body.Flags.Trip.{read_flags-write_flags, write_flags-AllAllowed}
use cuda_tile.Body.Results.{serialized_types, result_bytes}
use cuda_tile.Body.Results.Trip.{ResultsOk, read_results-result_bytes}
use cuda_tile.Body.AttributeList.{write_attributes}
use cuda_tile.Body.AttributeList.Conditions.{AttributesOk}
use cuda_tile.Body.AttributeList.Trip.{read_attributes-write_attributes, fix_attributes-unfixed}
use cuda_tile.Body.Operands.{write_all_operands}
use cuda_tile.Body.Operands.Conditions.{HasIndex, OperandsOk, sizes_of}
use cuda_tile.Body.Operands.Trip.{read_all_operands-write_all_operands}
use cuda_tile.Body.Write.{write_head}
use cuda_tile.Body.Read.{parse_head}

-- An operation without its regions matches its definition, which the version of the file has.
pub record HeadOk (p : Pools) (h : Head) : Type 0 where
  pub available_since : version_lt p.file_version h.definition.op_since ≡ false
  pub few_fields : length (optional_fields h.definition) ≤ 64
  pub distinct_names : DistinctNames (presence h.definition h.attribute_values h.operand_groups)
  pub results_ok : ResultsOk p h.definition h.result_types h.result_values
  pub attributes_ok :
      AttributesOk p h.definition
        (sizes_of h.definition h.operand_groups)
        h.definition.attributes
        h.attribute_values
  pub operands_ok : OperandsOk h.definition h.operand_groups

presence_split {ℓ} :
    (d : OpDef) (attributes : List (Option Attr)) (groups : List (List ℕ)) (P : Field → Type ℓ)
    → All P (presence d attributes groups)
    → All P (attribute_presence d.attributes attributes)
      × All P (if d.sized_segments then operand_presence d.operands groups else [])
unfolding presence
presence_split d attributes groups P h =
    All-split P (attribute_presence d.attributes attributes) _ h

parsed_at :
    (h : Head) (n : ℕ) {o o' : ℕ} (rest : List ℕ)
    → o ≡ o'
    → ◌≡◌ {A = Outcome (Head × ℕ × Cursor)} (ok (h, n, at o rest)) (ok (h, n, at o' rest))
parsed_at h n rest e = λ i. ok (h, n, at (e i) rest)

length_four :
    (a b c d : List ℕ) → length (a ++ (b ++ (c ++ d))) ≡ length a + length b + length c + length d
length_four a b c d =
    omega (arith, length-append a (b ++ (c ++ d)), length-append b (c ++ d), length-append c d)

module _ (p : Pools) (h : Head) (indices : List (ℕ × ℕ)) where
  -- The four parts of what was written.
  write_head-parts :
      (bytes : List ℕ) (n : ℕ)
      → write_head p h indices ≡ ok (bytes, n)
      → (types flags attributes : List ℕ) × (serialized_types p h.definition h.result_types
            h.result_values
          ≡ ok types)
        × (write_flags p h.definition h.attribute_values h.operand_groups ≡ ok flags)
        × (write_attributes p h.definition.attributes h.attribute_values ≡ ok attributes)
        × (bytes
            ≡ result_bytes h.definition types
              ++ (flags
                  ++ (attributes ++ write_all_operands indices h.definition h.operand_groups)))
        × (n ≡ length types)
  unfolding write_head
  write_head-parts bytes n e =
      let (types, e₁, e₂) =
        >>=-eq-ok (serialized_types p h.definition h.result_types h.result_values) _ e in
      let (flags, e₃, e₄) =
        >>=-eq-ok (write_flags p h.definition h.attribute_values h.operand_groups) _ e₂ in
      let (attributes, e₅, e₆) =
        >>=-eq-ok (write_attributes p h.definition.attributes h.attribute_values) _ e₄ in
      (types, flags, attributes, e₁, e₃, e₅, cc, cc)

  whole_head :
      (values types flags attributes bytes : List ℕ) (n o : ℕ) (rest : List ℕ)
      → bytes
        ≡ result_bytes h.definition types
          ++ (flags ++ (attributes ++ write_all_operands indices h.definition h.operand_groups))
      → n ≡ length types
      → parse_head p h.definition h.location values (
          at o (
            result_bytes h.definition types
            ++ (flags
                ++ (attributes
                    ++ (write_all_operands indices h.definition h.operand_groups ++ rest)))))
        ≡ ok (
          record h { result_values = [] },
          length types,
          at
              (o
                + length (result_bytes h.definition types)
                + length flags
                + length attributes
                + length (write_all_operands indices h.definition h.operand_groups))
              rest,
        )
      → parse_head p h.definition h.location values (at o (bytes ++ rest))
        ≡ ok (record h { result_values = [] }, n, at (o + length bytes) rest)
  whole_head values types flags attributes bytes n o rest all count parts =
      let operands : List ℕ = write_all_operands indices h.definition h.operand_groups in
      rw (all, count, append_assoc, append_assoc, append_assoc)
        (parts
          ∙ parsed_at (record h { result_values = [] }) (length types) rest
              (omega
                (arith, length_four (result_bytes h.definition types) flags attributes operands)))

  module _ (values : List ℕ) (types flag_bytes attribute_bytes : List ℕ) (o : ℕ) (rest : List ℕ)
      (k : HeadOk p h) (v : All (HasIndex indices values) (concat h.operand_groups))
      (e₁ : serialized_types p h.definition h.result_types h.result_values ≡ ok types)
      (e₃ : write_flags p h.definition h.attribute_values h.operand_groups ≡ ok flag_bytes)
      (e₅ : write_attributes p h.definition.attributes h.attribute_values
        ≡ ok attribute_bytes) where
    parse_parts :
        parse_head p h.definition h.location values (
          at o (
            result_bytes h.definition types
            ++ (flag_bytes
                ++ (attribute_bytes
                    ++ (write_all_operands indices h.definition h.operand_groups ++ rest)))))
        ≡ ok (
          record h { result_values = [] },
          length types,
          at
              (o
                + length (result_bytes h.definition types)
                + length flag_bytes
                + length attribute_bytes
                + length (write_all_operands indices h.definition h.operand_groups))
              rest,
        )
    unfolding parse_head
    parse_parts =
        let d : OpDef = h.definition in
        let operands : List ℕ = write_all_operands indices d h.operand_groups in
        let allowed : AllAllowed p.file_version d (presence d h.attribute_values h.operand_groups) =
          write_flags-AllAllowed p d h.attribute_values h.operand_groups flag_bytes e₃ in
        let o₁ : ℕ = o + length (result_bytes d types) in
        let o₂ : ℕ = o₁ + length flag_bytes in
        let o₃ : ℕ = o₂ + length attribute_bytes in
        let (flags, read, say) =
          read_flags-write_flags p d h.attribute_values h.operand_groups flag_bytes o₁
            (attribute_bytes ++ (operands ++ rest)) k.available_since k.few_fields k.distinct_names
            e₃ in
        let (attribute_bits, operand_bits) =
          presence_split d h.attribute_values h.operand_groups
            (λ f. test_bit (bit_of d f.name) flags ≡ f.present) say in
        let (attributes_allowed, operands_allowed) =
          presence_split d h.attribute_values h.operand_groups
            (λ f. too_new p.file_version d f ≡ false) allowed in
        rw (
          read_results-result_bytes p d h.result_types h.result_values types o
              (flag_bytes ++ (attribute_bytes ++ (operands ++ rest))) k.results_ok e₁,
          read,
          read_attributes-write_attributes p d (sizes_of d h.operand_groups) flags k.available_since
              d.attributes h.attribute_values attribute_bytes o₂ (operands ++ rest) k.attributes_ok
              attribute_bits attributes_allowed e₅,
          read_all_operands-write_all_operands p d flags indices values h.operand_groups o₃ rest
              k.operands_ok operand_bits operands_allowed v,
          fix_attributes-unfixed p d (sizes_of d h.operand_groups) h.attribute_values
              attribute_bytes k.attributes_ok e₅,
        )

  -- What was written for an operation before its regions is read back, but for the identity of its
  -- results, and with the number of results that get an index.
  pub parse_head-write_head :
      (values bytes : List ℕ) (n o : ℕ) (rest : List ℕ)
      → HeadOk p h
      → All (HasIndex indices values) (concat h.operand_groups)
      → write_head p h indices ≡ ok (bytes, n)
      → parse_head p h.definition h.location values (at o (bytes ++ rest))
        ≡ ok (record h { result_values = [] }, n, at (o + length bytes) rest)
  parse_head-write_head values bytes n o rest k v e =
      let (types, flags, attributes, e₁, e₃, e₅, all, count) = write_head-parts bytes n e in
      whole_head values types flags attributes bytes n o rest all count
        (parse_parts values types flags attributes o rest k v e₁ e₃ e₅)

  pub write_head-count :
      (bytes : List ℕ) (n : ℕ)
      → write_head p h indices ≡ ok (bytes, n)
      → (types : List ℕ) × (serialized_types p h.definition h.result_types h.result_values
          ≡ ok types)
        × (n ≡ length types)
  write_head-count bytes n e =
      let (types, flags, attributes, e₁, e₃, e₅, all, count) = write_head-parts bytes n e in
      (types, e₁, count)
