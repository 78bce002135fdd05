-- ===== src/Common/Order.antt =====
-- `Array.prototype.sort` on texts: insertion by the order of code points. JavaScript compares
-- UTF-16 units, which is the same order on texts without code points from U+E000 up.
pub mod Laws
pub mod Kept
use Prim.Native.Nat.{ℕ}
use Prim.Native.Char.{code}
use Prim.Native.String.{String}
use mathlib.Core.Path.{◌≡◌, refl}
use mathlib.Core.Bool.{Bool, true, false, ◌&&◌}
use mathlib.Core.List.{List, [], ◌∷◌}
use native.Mathlib.Omega.{arith}
use chimp_maera.Common.Tests.{ltb, eqb, if◌then◌else◌}

abbrev pub codes : String → List ℕ
codes String.[] = []
codes (String.◌∷◌ c s) = code c ∷ codes s

unfoldable pub codes_lt : List ℕ → List ℕ → Bool
codes_lt xs [] = false
codes_lt [] (y ∷ ys) = true
codes_lt (x ∷ xs) (y ∷ ys) = let rest = codes_lt xs ys in if ltb x y then true else eqb x y && rest

unfoldable pub text_lt : String → String → Bool
unfolding codes_lt
text_lt s t = codes_lt (codes s) (codes t)

-- Stable insertion sort by a strict order.
module _ {ℓ} {A : Type ℓ} (lt : A → A → Bool) where
  unfoldable pub insert : A → List A → List A
  insert x [] = x ∷ []
  insert x (y ∷ ys) = if lt y x then y ∷ insert x ys else x ∷ y ∷ ys

  unfoldable pub sort : List A → List A
  unfolding insert
  sort [] = []
  sort (x ∷ xs) = insert x (sort xs)

unfoldable pub sort_texts : List String → List String
unfolding text_lt sort
sort_texts = sort text_lt

sort_texts_example :
    sort_texts ("plan" ∷ "identity" ∷ "stop" ∷ "policy" ∷ [])
    ≡ "identity" ∷ "plan" ∷ "policy" ∷ "stop" ∷ []
unfolding sort_texts
sort_texts_example = refl
