-- ===== src/Base/Failure.antt =====
-- LogicalResult and std::optional results: a value, or the first diagnostic that was emitted.
use mathlib.Core.Path.{◌≡◌, refl}
use mathlib.Core.Bool.{Bool, true, false}

-- `silent` is a `failure()` that emits nothing.
pub data Error : Type 0 where
  silent : Error
  varint_exceeds array_too_large : Error
  truncated_magic bad_magic bad_version : Error
  end_of_header end_has_alignment unknown_section bad_length bad_alignment : Error
  section_alignment end_not_last : Error
  too_many_strings too_many_types too_many_globals too_many_functions : Error
  string_index constant_indices constant_order constant_bounds : Error
  debug_section unknown_flags body_length : Error
  unsupported_version empty_constant global_visibility global_constant : Error
  missing_strings missing_functions : Error
  not_fit word_count operand_index : Error
  no_terminator out_of_fuel : Error

pub data Outcome {ℓ} (A : Type ℓ) : Type ℓ where
  ok : A → Outcome A
  err : Error → Outcome A

-- Replaces a diagnostic by the one of the caller: `if (failed(m)) return emitError() << e;`.
abbrev pub or_err {ℓ} : {A : Type ℓ} → Error → Outcome A → Outcome A
or_err e (ok a) = ok a
or_err e (err _) = err e

-- What follows a step that may fail: the step's failure is returned.
infixl 5 ◌>>=◌
abbrev pub ◌>>=◌ {κ ℓ} : {R : Type κ} {V : Type ℓ} → Outcome R → (R → Outcome V) → Outcome V
err failed >>= next = err failed
ok result >>= next = next result

-- `if (!b) { return emitError() << e; }`
abbrev pub guard : Bool → Error → Outcome (Unit {0})
guard true e = ok tt
guard false e = err e

-- What follows a check.
infixl 5 ◌>>◌
abbrev pub ◌>>◌ {ℓ} : {V : Type ℓ} → Outcome (Unit {0}) → Outcome V → Outcome V
check >> next = check >>= λ passed. next

-- A chain that succeeds had a step that did.
pub >>=-eq-ok {κ ℓ} :
    {R : Type κ} {V : Type ℓ} (step : Outcome R) (next : R → Outcome V) {v : V}
    → (step >>= next) ≡ ok v
    → (r : R) × (step ≡ ok r) × (next r ≡ ok v)
>>=-eq-ok (err failed) next e = cc
>>=-eq-ok (ok r) next e = (r, refl, e)

pub guard-eq-ok {ℓ} :
    {B : Type ℓ} (b : Bool) (e : Error) (m : Outcome B) {x : B}
    → (guard b e >> m) ≡ ok x
    → (b ≡ true) × (m ≡ ok x)
guard-eq-ok true e m h = (refl, h)
guard-eq-ok false e m h = cc

pub ok-injective {ℓ} : {A : Type ℓ} {a b : A} → ok a ≡ ok b → a ≡ b
ok-injective h = cc
