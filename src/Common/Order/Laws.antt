-- ===== src/Common/Order/Laws.antt =====
-- The order of texts is total and strict, and sorting by it forgets the order of insertion.
use Prim.Native.Nat.{ℕ}
use Prim.Native.Char.{code}
use Prim.Native.String.{String}
use mathlib.Core.Path.{◌≡◌, refl}
use mathlib.Core.Logic.{◌≢◌, ◌⊎◌, inl, inr}
use mathlib.Core.Bool.{Bool, true, false, not}
use mathlib.Core.List.{List, [], ◌∷◌}
use native.Mathlib.Omega.{arith}
use text.Mathlib.TextEquality.{Char-path}
use chimp_maera.Common.Tests.{Bool-cases}
use chimp_maera.Common.Order.{codes, codes_lt, text_lt, insert}

codes_lt_asymm : (a b : List ℕ) → codes_lt a b ≡ true → codes_lt b a ≡ false
unfolding codes_lt
codes_lt_asymm [] [] h = cc
codes_lt_asymm [] (y ∷ b) h = refl
codes_lt_asymm (x ∷ a) [] h = cc
codes_lt_asymm (x ∷ a) (y ∷ b) h = ground (arith, codes_lt_asymm a b)

codes_lt_cotrans :
    (a b c : List ℕ) → codes_lt a c ≡ true → (codes_lt a b ≡ true) ⊎ (codes_lt b c ≡ true)
unfolding codes_lt
codes_lt_cotrans [] [] [] h = cc
codes_lt_cotrans [] [] (z ∷ c) h = inr refl
codes_lt_cotrans [] (y ∷ b) c h = inl refl
codes_lt_cotrans (x ∷ a) b [] h = cc
codes_lt_cotrans (x ∷ a) [] (z ∷ c) h = inr refl
codes_lt_cotrans (x ∷ a) (y ∷ b) (z ∷ c) h = ground (arith, codes_lt_cotrans a b c)

codes_lt_total :
    (s t : String)
    → codes_lt (codes s) (codes t) ≡ false
    → codes_lt (codes t) (codes s) ≡ false
    → s ≡ t
unfolding codes_lt
codes_lt_total String.[] String.[] h k = refl
codes_lt_total String.[] (String.◌∷◌ d t) h k = cc
codes_lt_total (String.◌∷◌ c s) String.[] h k = cc
codes_lt_total (String.◌∷◌ c s) (String.◌∷◌ d t) h k =
    let same : code c ≡ code d = ground arith in
    let rest : s ≡ t = codes_lt_total s t (ground arith) (ground arith) in
    λ i. String.◌∷◌ (Char-path c d same i) (rest i)

pub text_lt_cotrans :
    (a b c : String) → text_lt a c ≡ true → (text_lt a b ≡ true) ⊎ (text_lt b c ≡ true)
unfolding text_lt
text_lt_cotrans a b c h = codes_lt_cotrans (codes a) (codes b) (codes c) h

-- Of two different texts exactly one is before the other.
pub text_lt_flip : (a b : String) → a ≢ b → text_lt b a ≡ not (text_lt a b)
unfolding text_lt
text_lt_flip a b h = elim (Bool-cases (codes_lt (codes a) (codes b))) [
  | inl before ↦ rw (before, codes_lt_asymm (codes a) (codes b) before)
  | inr behind ↦ elim (Bool-cases (codes_lt (codes b) (codes a))) [
    | inl swapped ↦ rw (behind, swapped)
    | inr neither ↦ absurd (h (codes_lt_total a b behind neither))
  ]
]

module _ {ℓ} {A : Type ℓ} (lt : A → A → Bool)
    (cotrans : (a b c : A) → lt a c ≡ true → (lt a b ≡ true) ⊎ (lt b c ≡ true)) where
  -- Two elements of which exactly one is before the other may be inserted in either order.
  pub insert_comm :
      (x y : A) (l : List A)
      → lt y x ≡ not (lt x y)
      → insert lt x (insert lt y l) ≡ insert lt y (insert lt x l)
  unfolding insert
  insert_comm x y [] flip = elim (Bool-cases (lt x y)) [
    | inl h ↦ rw (flip, h)
    | inr h ↦ rw (flip, h)
  ]
  insert_comm x y (z ∷ l) flip =
      ground (arith, cotrans z y x, cotrans z x y, insert_comm x y l flip)
