-- ===== src/Body/Flags/Trip.antt =====
-- The flags that were written are read back, and each of their bits says whether its field is there.
use cuda_tile.Base.{
  ℕ, ◌+◌, ◌^◌, ◌≤◌, ◌<◌, ◌≡◌, refl, false, List, [], ◌∷◌, ◌++◌, length, All, Option, Bool-cases,
  inl, inr, arith, ok, >>=-eq-ok, ok-injective,
}
use cuda_tile.Version.{Version, version_lt}
use cuda_tile.Encoding.Reader.{at}
use cuda_tile.Encoding.VarInt.{read_var_int-var_int}
use cuda_tile.Body.Schema.{Attr, OpDef, Pools}
use cuda_tile.Body.Flags.{
  optional_fields, ordered_fields, later_flags, has_flags, Field, presence, add_fields, set_flags,
  write_flags_of, write_flags, read_flags_of, read_flags,
}
use cuda_tile.Body.Flags.Order.{
  length-add_fields, add_fields-All, FirstIsLeast-add_fields, FirstIsLeast, IsLeast,
  version_lt_irrefl,
}
use cuda_tile.Encoding.Fixed.{ok_at}
use cuda_tile.Body.Flags.Setting.{
  DistinctNames, HaveBits, AllAllowed, set_flags-AllAllowed, set_flags-lt, BitsSay,
  set_flags-BitsSay,
}
use cuda_tile.Body.Flags.Older.{
  presence-All, presence-HaveBits, none_present, zero_flags, older_version, no_bits,
}

-- The versions in the order, with the least one in front.
module _ (p : Pools) (d : OpDef) (fields : List Field) (o : ℕ) (rest : List ℕ)
    (available : version_lt p.file_version d.op_since ≡ false)
    (few : length (ordered_fields d) ≤ 64) (bits : HaveBits d fields)
    (distinct : DistinctNames fields) where
  flags_present :
      (first : Version × ℕ) (ordered : List (Version × ℕ)) (bytes : List ℕ)
      → All (λ f. version_lt f.since first.0 ≡ false) fields
      → write_flags_of p d (first ∷ ordered) fields ≡ ok bytes
      → (flags : ℕ) × (read_flags_of p d (first ∷ ordered) (at o (bytes ++ rest))
          ≡ ok (flags, at (o + length bytes) rest))
        × BitsSay d fields flags
  unfolding write_flags_of read_flags_of
  flags_present (w, n) ordered bytes least e =
      let (flags, set, e') = >>=-eq-ok (set_flags p.file_version d fields 0) _ e in
      let say : BitsSay d fields flags =
        set_flags-BitsSay p.file_version d fields flags distinct bits set in
      let small : flags < 2 ^ 64 =
        set_flags-lt p.file_version d fields 0 flags few bits (omega arith) set in
      elim (Bool-cases (has_flags p.file_version (later_flags d ((w, n) ∷ ordered)))) [
        | inl here ↦
            let written = rw here at e' in
            (flags, rw (here, ← ok-injective written, read_var_int-var_int flags o rest small), say)
        | inr older ↦
            let written = rw older at e' in
            let absent : All (λ f. false ≡ f.present) fields =
              none_present p.file_version d w fields available
                (older_version p.file_version d w n ordered older)
                (set_flags-AllAllowed p.file_version d fields 0 flags set) least in
            (
              0,
              rw (older, ← ok-injective written) (ok_at {A = ℕ} 0 rest (omega arith)),
              zero_flags p.file_version d fields absent,
            )
      ]

  no_fields :
      (bytes : List ℕ)
      → ordered_fields d ≡ []
      → write_flags_of p d [] fields ≡ ok bytes
      → (flags : ℕ) × (read_flags_of p d [] (at o (bytes ++ rest))
          ≡ ok (flags, at (o + length bytes) rest))
        × BitsSay d fields flags
  unfolding write_flags_of read_flags_of
  no_fields bytes q e =
      (0, rw (← ok-injective e) (ok_at {A = ℕ} 0 rest (omega arith)), no_bits d fields q bits)

  pub flags_of_trip :
      (ordered : List (Version × ℕ)) (bytes : List ℕ)
      → ordered_fields d ≡ ordered
      → FirstIsLeast ordered
      → ((w : Version) → IsLeast w ordered → All (λ f. version_lt f.since w ≡ false) fields)
      → write_flags_of p d ordered fields ≡ ok bytes
      → (flags : ℕ) × (read_flags_of p d ordered (at o (bytes ++ rest))
          ≡ ok (flags, at (o + length bytes) rest))
        × BitsSay d fields flags
  flags_of_trip [] bytes q sorted least e = no_fields bytes q e
  flags_of_trip ((w, n) ∷ ordered) bytes q sorted least e =
      flags_present (w, n) ordered bytes (least w (version_lt_irrefl w, sorted)) e

-- The flags that were written for an operation of an available version are read back: where there
-- are at most 64 optional fields, all of different names, the bit of each says whether it is there.
-- In a version without the flags none of them is there.
pub read_flags-write_flags :
    (p : Pools) (d : OpDef) (values : List (Option Attr)) (groups : List (List ℕ)) (bytes : List ℕ)
    (o : ℕ) (rest : List ℕ)
    → version_lt p.file_version d.op_since ≡ false
    → length (optional_fields d) ≤ 64
    → DistinctNames (presence d values groups)
    → write_flags p d values groups ≡ ok bytes
    → (flags : ℕ) × (read_flags p d (at o (bytes ++ rest)) ≡ ok (flags, at (o + length bytes) rest))
      × BitsSay d (presence d values groups) flags
unfolding write_flags read_flags ordered_fields
read_flags-write_flags p d values groups bytes o rest available few distinct e =
    let fields : List (Version × ℕ) = optional_fields d in
    let few' : length (add_fields fields []) ≤ 64 = omega (arith, length-add_fields fields []) in
    flags_of_trip p d (presence d values groups) o rest available few'
      (presence-HaveBits d values groups) distinct (add_fields fields []) bytes refl
      (FirstIsLeast-add_fields fields [] tt)
      (λ w h.
        presence-All (λ f. version_lt f.0 w ≡ false) d values groups
          (add_fields-All (λ f. version_lt f.0 w ≡ false) fields [] h).0)
      e

allowed_of :
    (p : Pools) (d : OpDef) (fields : List Field) (ordered : List (Version × ℕ)) (bytes : List ℕ)
    → ordered_fields d ≡ ordered
    → HaveBits d fields
    → write_flags_of p d ordered fields ≡ ok bytes
    → AllAllowed p.file_version d fields
unfolding write_flags_of
allowed_of p d [] [] bytes q h e = tt
allowed_of p d (f ∷ fields) [] bytes q (h, hs) e = let h' = rw q at h in cc
allowed_of p d fields (first ∷ ordered) bytes q h e =
    let (flags, set, e') = >>=-eq-ok (set_flags p.file_version d fields 0) _ e in
    set_flags-AllAllowed p.file_version d fields 0 flags set

-- Flags that were written are of fields that the version has.
pub write_flags-AllAllowed :
    (p : Pools) (d : OpDef) (values : List (Option Attr)) (groups : List (List ℕ)) (bytes : List ℕ)
    → write_flags p d values groups ≡ ok bytes
    → AllAllowed p.file_version d (presence d values groups)
unfolding write_flags
write_flags-AllAllowed p d values groups bytes e =
    allowed_of p d (presence d values groups) (ordered_fields d) bytes refl
      (presence-HaveBits d values groups) e
