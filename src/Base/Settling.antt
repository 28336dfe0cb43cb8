-- ===== src/Base/Settling.antt =====
-- Steps that end without running out of fuel.
use mathlib.Core.Path.{◌≡◌, refl}
use mathlib.Core.Logic.{◌≢◌}
use mathlib.Core.Bool.{Bool, true, false}
use cuda_tile.Base.Tests.{if◌then◌else◌}
use cuda_tile.Base.Failure.{Error, out_of_fuel, Outcome, ok, err, or_err, ◌>>=◌, ◌>>◌, guard}

-- The step gives a value for which `P` holds, or an error of the code.
abbrev pub Settles {ℓ} : {A : Type ℓ} → (A → Type 0) → Outcome A → Type 0
Settles P (ok a) = P a
Settles P (err e) = e ≢ out_of_fuel

pub bind-Settles {κ ℓ} :
    {A : Type κ} {B : Type ℓ} (P : A → Type 0) (Q : B → Type 0) (m : Outcome A)
    (next : A → Outcome B)
    → Settles P m
    → ((a : A) → P a → Settles Q (next a))
    → Settles Q (m >>= next)
bind-Settles P Q (ok a) next h k = k a h
bind-Settles P Q (err e) next h k = h

pub guard-Settles {ℓ} :
    {B : Type ℓ} (Q : B → Type 0) (b : Bool) (e : Error) (next : Outcome B)
    → e ≢ out_of_fuel
    → Settles Q next
    → Settles Q (guard b e >> next)
guard-Settles Q true e next h k = k
guard-Settles Q false e next h k = h

pub branch-Settles {ℓ} :
    {A : Type ℓ} (P : A → Type 0) (b : Bool) (x y : Outcome A)
    → (b ≡ true → Settles P x)
    → (b ≡ false → Settles P y)
    → Settles P (if b then x else y)
branch-Settles P true x y h k = h refl
branch-Settles P false x y h k = k refl

pub or_err-Settles {ℓ} :
    {A : Type ℓ} (P : A → Type 0) (e : Error) (m : Outcome A)
    → e ≢ out_of_fuel
    → Settles P m
    → Settles P (or_err e m)
or_err-Settles P e (ok a) h k = k
or_err-Settles P e (err _) h k = h

pub Settles-ends {ℓ} :
    {A : Type ℓ} (P : A → Type 0) (m : Outcome A) → Settles P m → m ≢ err out_of_fuel
Settles-ends P (ok a) h e = cc
Settles-ends P (err f) h e = let same : f ≡ out_of_fuel = cc in h same

pub weaken-Settles {ℓ} :
    {A : Type ℓ} (P Q : A → Type 0) (m : Outcome A)
    → Settles P m
    → ((a : A) → P a → Q a)
    → Settles Q m
weaken-Settles P Q (ok a) h k = k a h
weaken-Settles P Q (err e) h k = h
