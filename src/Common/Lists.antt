-- ===== src/Common/Lists.antt =====
-- Lists measured by native numbers, and the searches that the program makes in them.
use Prim.Native.Nat.{ℕ, suc, ◌+◌}
use Prim.Native.String.{String}
use mathlib.Core.Path.{◌≡◌, refl, ap}
use mathlib.Core.Bool.{Bool, true, false, ◌&&◌, ◌||◌}
use mathlib.Core.Option.{Option, none, some}
use mathlib.Core.List.{List, [], ◌∷◌, ◌++◌, map, get_last?}
use native.Mathlib.Omega.{arith}
use text.Mathlib.Text.{◌==◌}
use text.Mathlib.TextEquality.{eq_iff}
use text.Mathlib.TextPositions.{eq_refl}
use chimp_maera.Common.Tests.{if◌then◌else◌}

module _ {ℓ} {A : Type ℓ} where
  abbrev pub length : List A → ℕ
  length [] = 0
  length (x ∷ xs) = suc (length xs)

  -- `every`
  abbrev pub all : (A → Bool) → List A → Bool
  all p [] = true
  all p (x ∷ xs) = p x && all p xs

  -- `some`
  abbrev pub any : (A → Bool) → List A → Bool
  any p [] = false
  any p (x ∷ xs) = p x || any p xs

  abbrev pub find : (A → Bool) → List A → Option A
  find p [] = none
  find p (x ∷ xs) = if p x then some x else find p xs

  abbrev pub keep : (A → Bool) → List A → List A
  keep p [] = []
  keep p (x ∷ xs) = if p x then x ∷ keep p xs else keep p xs

  pub length-append : (xs ys : List A) → length (xs ++ ys) ≡ length xs + length ys
  length-append [] ys = omega arith
  length-append (x ∷ xs) ys = omega (arith, length-append xs ys)

  pub get_last?-snoc : (xs : List A) (x : A) → get_last? (xs ++ x ∷ []) ≡ some x
  get_last?-snoc [] x = refl
  get_last?-snoc (y ∷ []) x = refl
  get_last?-snoc (y ∷ z ∷ xs) x = get_last?-snoc (z ∷ xs) x

module _ {ℓ κ} {A : Type ℓ} (P : A → Type κ) where
  abbrev pub All : List A → Type κ
  All [] = Unit
  All (x ∷ xs) = P x × All xs

pub length-map {ℓ κ} :
    {A : Type ℓ} {B : Type κ} (f : A → B) (xs : List A) → length (map f xs) ≡ length xs
length-map f [] = refl
length-map f (x ∷ xs) = ap suc (length-map f xs)

module _ {ℓ κ} {A : Type ℓ} (P : A → Type κ) where
  pub All-snoc : (xs : List A) (x : A) → All P xs → P x → All P (xs ++ x ∷ [])
  All-snoc [] x h p = (p, tt)
  All-snoc (y ∷ xs) x h p = (h.0, All-snoc xs x h.1 p)

-- `values.includes(value)` on texts
abbrev pub includes : List String → String → Bool
includes [] v = false
includes (x ∷ xs) v = x == v || includes xs v

-- equality of lists of texts
abbrev pub texts_eq : List String → List String → Bool
texts_eq [] [] = true
texts_eq (x ∷ xs) (y ∷ ys) = x == y && texts_eq xs ys
texts_eq _ _ = false

pub texts_eq_sound : (xs ys : List String) → texts_eq xs ys ≡ true → xs ≡ ys
texts_eq_sound [] [] h = refl
texts_eq_sound (x ∷ xs) (y ∷ ys) h = ground (arith, eq_iff x y, texts_eq_sound xs ys)
texts_eq_sound [] (y ∷ ys) h = cc
texts_eq_sound (x ∷ xs) [] h = cc

pub texts_eq_refl : (xs : List String) → texts_eq xs xs ≡ true
texts_eq_refl [] = refl
texts_eq_refl (x ∷ xs) = ground (arith, eq_refl x, texts_eq_refl xs)
