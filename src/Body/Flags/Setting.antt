-- ===== src/Body/Flags/Setting.antt =====
-- The bits that the writer sets are those of the fields that are present.
use cuda_tile.Base.{
  ℕ, ◌^◌, ◌≤◌, ◌<◌, ◌≡◌, ◌≢◌, refl, sym, ◌∙◌, Bool, true, false, ◌||◌, ◌&&◌, ◌==◌, List, [], ◌∷◌,
  length, All, if◌then◌else◌, Bool-cases, inl, inr, arith, ok, ok-injective, ==_false, ==_true, ap,
}
use cuda_tile.Version.{Version}
use cuda_tile.Body.Schema.{OpDef}
use cuda_tile.Body.Flags.{
  test_bit, set_bit, ordered_fields, bit_from, bit_of, Field, too_new, set_flags,
}
use cuda_tile.Body.Flags.Bits.{test_bit-zero, test_bit-set_bit, set_bit-lt}
use cuda_tile.Body.Flags.Order.{has_name, bit_from-lt, bit_from-same}

-- Whether a field of the name, or of the bit, is there.
abbrev named : ℕ → List Field → Bool
named n [] = false
named n (f ∷ fields) = (f.name == n && f.present) || named n fields

abbrev sets : OpDef → ℕ → List Field → Bool
sets d j [] = false
sets d j (f ∷ fields) = (bit_of d f.name == j && f.present) || sets d j fields

abbrev pub DistinctNames : List Field → Type 0
DistinctNames [] = Unit {0}
DistinctNames (f ∷ fields) = All (λ g. g.name ≢ f.name) fields × DistinctNames fields

-- The names are among those that have bits.
abbrev pub HaveBits : OpDef → List Field → Type 0
HaveBits d fields = All (λ f. has_name f.name (ordered_fields d) ≡ true) fields

abbrev pub AllAllowed : Version → OpDef → List Field → Type 0
AllAllowed v d fields = All (λ f. too_new v d f ≡ false) fields

set_flags-eq-ok :
    (v : Version) (d : OpDef) (f : Field) (fields : List Field) (flags result : ℕ)
    → set_flags v d (f ∷ fields) flags ≡ ok result
    → (too_new v d f ≡ false)
      × (set_flags v d fields (if f.present then set_bit (bit_of d f.name) flags else flags)
          ≡ ok result)
unfolding set_flags
set_flags-eq-ok v d f fields flags result e = elim (Bool-cases (too_new v d f)) [
  | inl new ↦ let e' = rw new at e in cc
  | inr fine ↦ (fine, rw fine at e)
]

pub set_flags-AllAllowed :
    (v : Version) (d : OpDef) (fields : List Field) (flags result : ℕ)
    → set_flags v d fields flags ≡ ok result
    → AllAllowed v d fields
set_flags-AllAllowed v d [] flags result e = tt
set_flags-AllAllowed v d (f ∷ fields) flags result e =
    let (fine, e') = set_flags-eq-ok v d f fields flags result e in
    (fine, set_flags-AllAllowed v d fields _ result e')

test_bit-if :
    (j b flags : ℕ) (present : Bool)
    → test_bit j (if present then set_bit b flags else flags)
      ≡ ((b == j && present) || test_bit j flags)
test_bit-if j b flags true = ground (arith, test_bit-set_bit b j flags)
test_bit-if j b flags false = ground arith

test_bit-set_flags :
    (v : Version) (d : OpDef) (fields : List Field) (flags result j : ℕ)
    → set_flags v d fields flags ≡ ok result
    → test_bit j result ≡ (sets d j fields || test_bit j flags)
unfolding set_flags
test_bit-set_flags v d [] flags result j e = ap (test_bit j) (sym (ok-injective e))
test_bit-set_flags v d (f ∷ fields) flags result j e =
    let (fine, e') = set_flags-eq-ok v d f fields flags result e in
    let flags' : ℕ = if f.present then set_bit (bit_of d f.name) flags else flags in
    let later : test_bit j result ≡ (sets d j fields || test_bit j flags') =
      test_bit-set_flags v d fields flags' result j e' in
    let now : test_bit j flags' ≡ ((bit_of d f.name == j && f.present) || test_bit j flags) =
      test_bit-if j (bit_of d f.name) flags f.present in
    ground arith

if_set_bit-lt :
    (d : OpDef) (f : Field) (flags : ℕ)
    → length (ordered_fields d) ≤ 64
    → has_name f.name (ordered_fields d) ≡ true
    → flags < 2 ^ 64
    → (if f.present then set_bit (bit_of d f.name) flags else flags) < 2 ^ 64
unfolding bit_of
if_set_bit-lt d f flags few h small = elim (Bool-cases f.present) [
  | inl here ↦ rw here (
      set_bit-lt (bit_from 0 (ordered_fields d) f.name) 64 flags
        (omega (arith, bit_from-lt (ordered_fields d) f.name h)) small)
  | inr absent ↦ rw absent small
]

pub set_flags-lt :
    (v : Version) (d : OpDef) (fields : List Field) (flags result : ℕ)
    → length (ordered_fields d) ≤ 64
    → HaveBits d fields
    → flags < 2 ^ 64
    → set_flags v d fields flags ≡ ok result
    → result < 2 ^ 64
unfolding set_flags
set_flags-lt v d [] flags result few h small e = rw (← ok-injective e) small
set_flags-lt v d (f ∷ fields) flags result few (h, hs) small e =
    let (fine, e') = set_flags-eq-ok v d f fields flags result e in
    set_flags-lt v d fields _ result few hs (if_set_bit-lt d f flags few h small) e'

sets-named :
    (d : OpDef) (n : ℕ) (fields : List Field)
    → has_name n (ordered_fields d) ≡ true
    → HaveBits d fields
    → sets d (bit_of d n) fields ≡ named n fields
unfolding bit_of
sets-named d n [] k h = refl
sets-named d n (f ∷ fields) k (h, hs) =
    rw (bit_from-same 0 (ordered_fields d) f.name n h k, sets-named d n fields k hs)

named-later :
    (f : Field) (all others : List Field)
    → All (λ g. g.name ≢ f.name) others
    → All (λ g. named g.name all ≡ g.present) others
    → All (λ g. named g.name (f ∷ all) ≡ g.present) others
named-later f all [] h k = tt
named-later f all (g ∷ others) (h, hs) (k, ks) =
    (rw (==_false f.name g.name (λ e. h (sym e))) k, named-later f all others hs ks)

named-absent : (n : ℕ) (fields : List Field) → All (λ g. g.name ≢ n) fields → named n fields ≡ false
named-absent n [] h = refl
named-absent n (g ∷ fields) (h, hs) = rw (==_false g.name n h) (named-absent n fields hs)

or_false : (b : Bool) → (b || false) ≡ b
or_false b = ground arith

-- With distinct names each field is found under its own.
named-present :
    (fields : List Field) → DistinctNames fields → All (λ f. named f.name fields ≡ f.present) fields
named-present [] h = tt
named-present (f ∷ fields) (h, hs) = (
  rw (==_true f.name f.name refl, named-absent f.name fields h) (or_false f.present),
  named-later f fields fields h (named-present fields hs),
)

named_bits :
    (v : Version) (d : OpDef) (all fields : List Field) (result : ℕ)
    → set_flags v d all 0 ≡ ok result
    → HaveBits d all
    → HaveBits d fields
    → All (λ f. named f.name all ≡ f.present) fields
    → All (λ f. test_bit (bit_of d f.name) result ≡ f.present) fields
named_bits v d all [] result e h hs k = tt
named_bits v d all (f ∷ fields) result e h (hf, hs) (k, ks) = (
  test_bit-set_flags v d all 0 result (bit_of d f.name) e
      ∙ rw (test_bit-zero, sets-named d f.name all hf h, k) (or_false f.present),
  named_bits v d all fields result e h hs ks,
)

-- What the reader finds in the flags.
abbrev pub BitsSay : OpDef → List Field → ℕ → Type 0
BitsSay d fields flags = All (λ f. test_bit (bit_of d f.name) flags ≡ f.present) fields

pub set_flags-BitsSay :
    (v : Version) (d : OpDef) (fields : List Field) (result : ℕ)
    → DistinctNames fields
    → HaveBits d fields
    → set_flags v d fields 0 ≡ ok result
    → BitsSay d fields result
set_flags-BitsSay v d fields result distinct h e =
    named_bits v d fields fields result e h h (named-present fields distinct)
