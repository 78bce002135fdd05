-- ===== src/Common/Maybe.antt =====
-- Chains of type guards as `do` blocks over `Option`.
use mathlib.Core.Path.{◌≡◌, refl}
use mathlib.Core.Bool.{Bool, true, false}
use mathlib.Core.Option.{Option, none, some}
use chimp_maera.Common.Results.{and_then}

infixl 5 ◌>>=◌ ◌>>◌
abbrev pub ◌>>=◌ {ℓ κ} : {A : Type ℓ} {B : Type κ} → Option A → (A → Option B) → Option B
m >>= f = and_then m f

abbrev pub ◌>>◌ {ℓ} : {B : Type ℓ} → Option (Unit {0}) → Option B → Option B
m >> k = and_then m λ _. k

-- the guard of a conjunction
abbrev pub check : Bool → Option (Unit {0})
check true = some tt
check false = none

-- Eliminations of a chain that gave a value.
pub on_some {ℓ κ μ} :
    {A : Type ℓ} {B : Type κ} {P : Type μ} (m : Option A) (f : A → Option B) {b : B}
    → (m >>= f) ≡ some b
    → ((a : A) → m ≡ some a → f a ≡ some b → P)
    → P
on_some none f h k = cc
on_some (some a) f h k = k a refl h

pub on_check {ℓ μ} :
    {B : Type ℓ} {P : Type μ} (t : Bool) (m : Option B) {b : B}
    → (check t >> m) ≡ some b
    → (t ≡ true → m ≡ some b → P)
    → P
on_check true m h k = k refl h
on_check false m h k = cc
