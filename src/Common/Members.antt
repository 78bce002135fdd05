-- ===== src/Common/Members.antt =====
-- Membership in lists, of texts by `includes` and of other values by a data type.
use Prim.Native.Nat.{suc}
use Prim.Native.String.{String}
use mathlib.Core.Path.{◌≡◌, refl, ap}
use mathlib.Core.Logic.{◌⊎◌, inl, inr}
use mathlib.Core.Bool.{true}
use mathlib.Core.List.{List, [], ◌∷◌, ◌++◌, map}
use native.Mathlib.Omega.{arith}
use text.Mathlib.Text.{◌==◌}
use text.Mathlib.TextEquality.{eq_iff}
use text.Mathlib.TextPositions.{eq_refl}
use chimp_maera.Common.Tests.{Bool-cases}
use chimp_maera.Common.Lists.{length, includes, All}

pub data In {ℓ} {A : Type ℓ} (x : A) : List A → Type ℓ where
  first : {xs : List A} → In x (x ∷ xs)
  later : {y : A} {xs : List A} → In x xs → In x (y ∷ xs)

module _ {ℓ κ} {A : Type ℓ} (P : A → Type κ) where
  pub All-In : {x : A} {xs : List A} → All P xs → In x xs → P x
  All-In h first = h.0
  All-In h (later i) = All-In h.1 i

  pub All-of : (xs : List A) → ((x : A) → In x xs → P x) → All P xs
  All-of [] h = tt
  All-of (x ∷ xs) h = (h x first, All-of xs λ y i. h y (later i))

pub All-map {ℓ κ μ} :
    {A : Type ℓ} (P : A → Type κ) (Q : A → Type μ)
    → ((x : A) → P x → Q x)
    → (xs : List A) → All P xs
    → All Q xs
All-map P Q f [] h = tt
All-map P Q f (x ∷ xs) h = (f x h.0, All-map P Q f xs h.1)

-- a member of a list that was extended at its end
pub includes-append-left :
    (xs ys : List String) (v : String) → includes xs v ≡ true → includes (xs ++ ys) v ≡ true
includes-append-left [] ys v h = cc
includes-append-left (x ∷ xs) ys v h = ground (arith, includes-append-left xs ys v)

pub includes-append-right :
    (xs ys : List String) (v : String) → includes ys v ≡ true → includes (xs ++ ys) v ≡ true
includes-append-right [] ys v h = h
includes-append-right (x ∷ xs) ys v h = ground (arith, includes-append-right xs ys v h)

pub includes-append :
    (xs ys : List String) (v : String)
    → includes (xs ++ ys) v ≡ true
    → (includes xs v ≡ true) ⊎ (includes ys v ≡ true)
includes-append [] ys v h = inr h
includes-append (x ∷ xs) ys v h = elim (Bool-cases (x == v)) [
  | inl same ↦ inl (ground (arith, same))
  | inr other ↦ elim (includes-append xs ys v (ground (arith, h, other))) [
    | inl left ↦ inl (ground (arith, left, other))
    | inr right ↦ inr right
  ]
]

pub includes_one : (v w : String) → includes (v ∷ []) w ≡ true → v ≡ w
includes_one v w h = (eq_iff v w).0 (ground (arith, h))

pub includes_self : (v : String) (xs : List String) → includes (v ∷ xs) v ≡ true
includes_self v xs = ground (arith, eq_refl v)

pub map-snoc {ℓ κ} :
    {A : Type ℓ} {B : Type κ} (f : A → B) (xs : List A) (x : A)
    → map f (xs ++ x ∷ []) ≡ map f xs ++ f x ∷ []
map-snoc f [] x = refl
map-snoc f (y ∷ ys) x = ap (λ zs. f y ∷ zs) (map-snoc f ys x)

-- Two lists of the same length whose members belong together one by one.
pub data Each {ℓ κ μ} {A : Type ℓ} {B : Type κ} (P : A → B → Type μ)
    : List A → List B → Type (ℓ ⊔ κ ⊔ μ) where
  no_more : Each P [] []
  one_more :
      {a : A} {b : B} {xs : List A} {ys : List B} → P a b → Each P xs ys → Each P (a ∷ xs) (b ∷ ys)

pub Each-length {ℓ κ μ} :
    {A : Type ℓ} {B : Type κ} (P : A → B → Type μ) {xs : List A} {ys : List B}
    → Each P xs ys
    → length xs ≡ length ys
Each-length P no_more = refl
Each-length P (one_more p e) = ap suc (Each-length P e)
