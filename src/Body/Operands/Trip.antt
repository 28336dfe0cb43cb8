-- ===== src/Body/Operands/Trip.antt =====
-- The operands that were written are read back.
use cuda_tile.Base.{
  ℕ, ◌+◌, ◌-◌, ◌%◌, ◌^◌, ◌≤◌, ◌<◌, ◌≡◌, true, false, not, ◌&&◌, List, [], ◌∷◌, ◌++◌, length, map,
  concat, append_assoc, append-nil, length-append, All, All-split, none, some, if◌then◌else◌,
  Bool-cases, inl, inr, arith, ok,
}
use cuda_tile.Version.{version_lt, version_eq}
use cuda_tile.Encoding.Writer.{var_int}
use cuda_tile.Encoding.Reader.{at}
use cuda_tile.Encoding.VarInt.{read_var_int-var_int, read_var_int_max-var_int}
use cuda_tile.Encoding.Fixed.{ok_at}
use cuda_tile.MapVector.{nat_instance}
use cuda_tile.Body.Schema.{OperandDef, OpDef, Pools}
use cuda_tile.Body.Flags.{test_bit, bit_of, operand_presence, is_nonempty}
use cuda_tile.Body.Flags.Setting.{BitsSay, AllAllowed}
use cuda_tile.Body.Operands.{
  operand_bytes, write_operands, write_group, write_groups, any_variable, write_all_operands,
  parse_operands, optional_length, segment_length, read_groups, read_all_operands,
}
use cuda_tile.Body.Operands.Conditions.{
  HasIndex, GroupOk, GroupsOk, OperandsOk, when_true, sizes_of, read_operands-operand_bytes,
  groups_at, as_size_small, rounds_small, fits_guard,
}
use cuda_tile.Body.Operands.Groups.{
  presence_bits, presence_allowed, if_same, write_group_optional, write_group_variadic,
  write_group_fixed,
}

module _ (p : Pools) (d : OpDef) (flags : ℕ) where
  -- An optional operand has one operand exactly if its bit is set.
  optional_length-bit :
      (x : OperandDef) (group : List ℕ)
      → length group ≤ 1
      → test_bit (bit_of d x.operand_name) flags ≡ is_nonempty group
      → (is_nonempty group
          && (not (version_eq x.operand_since d.op_since)
              && version_lt p.file_version x.operand_since))
        ≡ false
      → optional_length p d flags x ≡ ok (length group)
  unfolding optional_length
  optional_length-bit x [] le bit allowed = rw bit (if_same _)
  optional_length-bit x (y ∷ []) le bit allowed = rw (bit, allowed)
  optional_length-bit x (y ∷ z ∷ group) le bit allowed = absurd (omega arith)

  module _ (indices : List (ℕ × ℕ)) (values : List ℕ) where
    -- The length of a segment, and where its operands stand.
    segment_length-write_group :
        (x : OperandDef) (group : List ℕ) (o : ℕ) (rest : List ℕ)
        → GroupOk x group
        → length group < 2 ^ 31
        → (x.optional_operand ≡ true → test_bit (bit_of d x.operand_name) flags ≡ is_nonempty group)
        → (x.optional_operand ≡ true
            → (is_nonempty group
                && (not (version_eq x.operand_since d.op_since)
                    && version_lt p.file_version x.operand_since))
              ≡ false)
        → (segment_length p d flags x (at o (write_group indices x group ++ rest))
            ≡ ok (
              length group,
              at
                  (o + length (write_group indices x group) - length (operand_bytes indices group))
                  (operand_bytes indices group ++ rest),
            ))
          × (length (operand_bytes indices group) ≤ length (write_group indices x group))
    unfolding segment_length
    segment_length-write_group x group o rest (one, single) small bit allowed =
        elim (Bool-cases x.optional_operand) [
          | inl optional ↦
              let bytes : write_group indices x group ≡ operand_bytes indices group =
                write_group_optional indices x group optional in
              rw
                (
                  bytes,
                  optional,
                  optional_length-bit x group (one optional) (bit optional) (allowed optional),
                )
                (
                  ok_at (length group) (operand_bytes indices group ++ rest) (omega arith),
                  omega arith,
                )
          | inr required ↦ elim (Bool-cases x.variadic_operand) [
            | inl variadic ↦
                let bytes : write_group indices x group
                    ≡ var_int (length group) ++ operand_bytes indices group =
                  write_group_variadic indices x group required variadic in
                let size : length (var_int (length group) ++ operand_bytes indices group)
                    ≡ length (var_int (length group)) + length (operand_bytes indices group) =
                  length-append (var_int (length group)) (operand_bytes indices group) in
                let pattern : length group % 2 ^ 32 ≡ length group = omega arith in
                rw
                  (
                    bytes,
                    required,
                    variadic,
                    append_assoc,
                    read_var_int-var_int (length group) o (operand_bytes indices group ++ rest)
                        (omega arith),
                    pattern,
                  )
                  (
                    ok_at (length group) (operand_bytes indices group ++ rest) (omega arith),
                    omega arith,
                  )
            | inr fixed ↦
                let bytes : write_group indices x group ≡ operand_bytes indices group =
                  write_group_fixed indices x group required fixed in
                rw (bytes, required, fixed, single required fixed)
                  (ok_at {A = ℕ} 1 (operand_bytes indices group ++ rest) (omega arith), omega arith)
          ]
        ]

    -- The groups are read back, with their lengths.
    read_groups-write_groups :
        (defs : List OperandDef) (groups : List (List ℕ)) (parsed o : ℕ) (rest : List ℕ)
        → GroupsOk defs groups
        → parsed + length (concat groups) < 2 ^ 31
        → BitsSay d (operand_presence defs groups) flags
        → AllAllowed p.file_version d (operand_presence defs groups)
        → All (HasIndex indices values) (concat groups)
        → read_groups p d values flags defs parsed (at o (write_groups indices defs groups ++ rest))
          ≡ ok (groups, map length groups, at (o + length (write_groups indices defs groups)) rest)
    unfolding read_groups write_groups
    read_groups-write_groups [] [] parsed o rest h few b a v =
        groups_at {A = List (List ℕ)} [] [] rest (omega arith)
    read_groups-write_groups (x ∷ defs) (group ∷ groups) parsed o rest (h, hs) few b a v =
        let n : ℕ = length group in
        let others : List ℕ = write_groups indices defs groups in
        let own : List ℕ = operand_bytes indices group in
        let few' : n + parsed + length (concat groups) < 2 ^ 31 =
          omega (arith, length-append group (concat groups)) in
        let (bit, bits) = presence_bits d x defs group groups flags b in
        let (allowed, all_allowed) = presence_allowed d x defs group groups p.file_version a in
        let (v₁, v₂) = All-split (HasIndex indices values) group (concat groups) v in
        let (segment, le) =
          segment_length-write_group x group o (others ++ rest) h (omega arith) bit allowed in
        let o₁ : ℕ = o + length (write_group indices x group) - length own in
        let o₂ : o₁ + length own ≡ o + length (write_group indices x group) = omega arith in
        rw
          (
            append_assoc,
            segment,
            as_size_small n (omega arith),
            rounds_small n (omega arith),
            fits_guard parsed n (omega arith),
            read_operands-operand_bytes indices values group o₁ (others ++ rest) v₁,
            o₂,
            read_groups-write_groups defs groups (parsed + n)
                (o + length (write_group indices x group)) rest hs (omega arith) bits all_allowed
                v₂,
          )
          (groups_at (group ∷ groups) (n ∷ map length groups) rest
            (omega (arith, length-append (write_group indices x group) others)))
    read_groups-write_groups [] (group ∷ groups) parsed o rest h few b a v = absurd h
    read_groups-write_groups (x ∷ defs) [] parsed o rest h few b a v = absurd h

    -- One group of all operands, whose number is written if it is not fixed.
    parse_operands-write_operands :
        (xs : List ℕ) (o : ℕ) (rest : List ℕ)
        → length xs < 2 ^ 31
        → (any_variable d.operands ≡ false → length xs ≡ length d.operands)
        → All (HasIndex indices values) xs
        → parse_operands values
            (if any_variable d.operands then none else some (length d.operands))
            (at o (write_operands indices (any_variable d.operands) xs ++ rest))
          ≡ ok (xs, at (o + length (write_operands indices (any_variable d.operands) xs)) rest)
    unfolding parse_operands write_operands
    parse_operands-write_operands xs o rest few fixed v =
        elim (Bool-cases (any_variable d.operands)) [
          | inl variable ↦
              let own : List ℕ = operand_bytes indices xs in
              rw
                (
                  variable,
                  append_assoc,
                  read_var_int_max-var_int (2 ^ 32 - 1 - 1) (length xs) o (own ++ rest)
                      (omega arith) (omega arith),
                  read_operands-operand_bytes indices values xs (o + length (var_int (length xs)))
                      rest v,
                )
                (ok_at xs rest (omega (arith, length-append (var_int (length xs)) own)))
          | inr known ↦
              rw (known, ← fixed known) (read_operands-operand_bytes indices values xs o rest v)
        ]

    -- The operands that were written for an operation are read back, in their groups.
    pub read_all_operands-write_all_operands :
        (groups : List (List ℕ)) (o : ℕ) (rest : List ℕ)
        → OperandsOk d groups
        → BitsSay d (if d.sized_segments then operand_presence d.operands groups else []) flags
        → AllAllowed p.file_version d
            (if d.sized_segments then operand_presence d.operands groups else [])
        → All (HasIndex indices values) (concat groups)
        → read_all_operands p d values flags (at o (write_all_operands indices d groups ++ rest))
          ≡ ok (
            groups,
            sizes_of d groups,
            at (o + length (write_all_operands indices d groups)) rest,
          )
    unfolding read_all_operands write_all_operands
    read_all_operands-write_all_operands groups o rest h b a v =
        elim (Bool-cases d.sized_segments) [
          | inl sized ↦ simp sized (
              read_groups-write_groups d.operands groups 0 o rest (h.groups_ok sized)
                (omega (arith, h.few_operands))
                (when_true d.sized_segments (λ fields. BitsSay d fields flags) _ _ sized b)
                (when_true d.sized_segments (AllAllowed p.file_version d) _ _ sized a) v)
          | inr unsized ↦
              let (xs, one, fixed) = h.one_group unsized in
              let all : concat groups ≡ xs = rw one (append-nil xs) in
              let few : length xs < 2 ^ 31 = rw all at h.few_operands in
              rw
                (unsized, all, parse_operands-write_operands xs o rest few fixed (rw all at v), one)
        ]
