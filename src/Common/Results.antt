-- ===== src/Common/Results.antt =====
-- Code that may throw: the value, or the text of the error; and chains of optional values.
use Prim.Native.String.{String}
use mathlib.Core.Path.{◌≡◌, refl, sym, subst}
use mathlib.Core.Logic.{◌⊎◌, inl, inr}
use mathlib.Core.Bool.{Bool, true, false}
use mathlib.Core.Option.{Option, none, some}

pub data Result {ℓ} (A : Type ℓ) : Type ℓ where
  ok : A → Result A
  err : String → Result A

-- `if (!b) throw new Error(e)`
abbrev pub require : Bool → String → Result (Unit {0})
require true e = ok tt
require false e = err e

-- What comes behind a computation that may throw.
module _ {ℓ κ} {A : Type ℓ} {B : Type κ} where
  infixl 5 ◌>>=◌
  abbrev pub ◌>>=◌ : Result A → (A → Result B) → Result B
  err thrown >>= next = err thrown
  ok value >>= next = next value

module _ {ℓ} {B : Type ℓ} where
  infixl 5 ◌>>◌
  abbrev pub ◌>>◌ : Result (Unit {0}) → Result B → Result B
  check >> next = check >>= λ _. next

abbrev pub or_throw {ℓ} : {A : Type ℓ} → Option A → String → Result A
or_throw none e = err e
or_throw (some a) e = ok a

-- `and_then o f` is `f a` for `some a`: a chain of type guards.
abbrev pub and_then {ℓ κ} : {A : Type ℓ} {B : Type κ} → Option A → (A → Option B) → Option B
and_then none f = none
and_then (some a) f = f a

pub require-eq-ok : (b : Bool) (e : String) {u : Unit {0}} → require b e ≡ ok u → b ≡ true
require-eq-ok true e h = refl
require-eq-ok false e h = cc

pub or_throw-eq-ok {ℓ} :
    {A : Type ℓ} (o : Option A) (e : String) {a : A} → or_throw o e ≡ ok a → o ≡ some a
or_throw-eq-ok none e h = cc
or_throw-eq-ok (some a) e h = cc

pub and_then-eq-some {ℓ κ} :
    {A : Type ℓ} {B : Type κ} (o : Option A) (f : A → Option B) {b : B}
    → and_then o f ≡ some b
    → (a : A) × (o ≡ some a) × (f a ≡ some b)
and_then-eq-some none f h = cc
and_then-eq-some (some a) f h = (a, refl, h)

-- Eliminations of a successful bind, whose parts are variables in what follows.
pub on_ok {ℓ κ μ} :
    {A : Type ℓ} {B : Type κ} {P : Type μ} (m : Result A) (f : A → Result B) {b : B}
    → (m >>= f) ≡ ok b
    → ((a : A) → m ≡ ok a → f a ≡ ok b → P)
    → P
on_ok (ok a) f h k = k a refl h
on_ok (err e) f h k = cc

pub on_require {ℓ μ} :
    {B : Type ℓ} {P : Type μ} (t : Bool) (e : String) (m : Result B) {b : B}
    → (require t e >> m) ≡ ok b
    → (t ≡ true → m ≡ ok b → P)
    → P
on_require true e m h k = k refl h
on_require false e m h k = cc

-- The value between the two parts of a chain that gave one.
pub bind-eq-ok {ℓ κ} :
    {A : Type ℓ} {B : Type κ} (part : Result A) (rest : A → Result B) {end_value : B}
    → (part >>= rest) ≡ ok end_value
    → (middle : A) × (part ≡ ok middle) × (rest middle ≡ ok end_value)
bind-eq-ok part rest h = on_ok part rest h λ middle p q. (middle, p, q)

-- A chain gives a value when its first part does, and the rest does on every value.
pub bind-total {ℓ κ} :
    {A : Type ℓ} {B : Type κ} {m : Result A} {f : A → Result B}
    → (a : A) × (m ≡ ok a)
    → ((a : A) → (b : B) × (f a ≡ ok b))
    → (b : B) × ((m >>= f) ≡ ok b)
bind-total {f = f} (a, h) k = let (b, q) = k a in (b, subst (λ x. (x >>= f) ≡ ok b) (sym h) q)

pub ok_injective {ℓ} : {A : Type ℓ} {x y : A} → ◌≡◌ {A = Result A} (ok x) (ok y) → x ≡ y
ok_injective h = cc

pub some_injective {ℓ} : {A : Type ℓ} {x y : A} → ◌≡◌ {A = Option A} (some x) (some y) → x ≡ y
some_injective h = cc

pub Result-cases {ℓ} :
    {A : Type ℓ} (r : Result A) → ((a : A) × (r ≡ ok a)) ⊎ ((e : String) × (r ≡ err e))
Result-cases (ok a) = inl (a, refl)
Result-cases (err e) = inr (e, refl)
