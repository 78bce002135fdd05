-- ===== src/Common/Order/Kept.antt =====
-- Sorting keeps the members of a list.
use chimp_maera.Common.{
  String, ◌≡◌, refl, ap, ◌∙◌, Bool, true, false, ◌||◌, List, [], ◌∷◌, ◌==◌, arith, includes, All,
  length, keep, Bool-cases, inl, inr,
}
use chimp_maera.Common.Order.{insert, sort, sort_texts, text_lt}

module _ {ℓ κ} {A : Type ℓ} (lt : A → A → Bool) (P : A → Type κ) where
  All-insert : (x : A) (xs : List A) → P x → All P xs → All P (insert lt x xs)
  unfolding insert
  All-insert x [] p h = (p, tt)
  All-insert x (y ∷ ys) p h = elim (Bool-cases (lt y x)) [
    | inl before ↦ rw before (h.0, All-insert x ys p h.1)
    | inr after ↦ rw after (p, h)
  ]

  pub All-sort : (xs : List A) → All P xs → All P (sort lt xs)
  unfolding sort
  All-sort [] h = tt
  All-sort (x ∷ xs) h = All-insert x (sort lt xs) h.0 (All-sort xs h.1)

or_swap : (a b c : Bool) → (b || (a || c)) ≡ (a || (b || c))
or_swap true true c = refl
or_swap true false c = refl
or_swap false true c = refl
or_swap false false c = refl

includes-insert :
    (x : String) (xs : List String) (v : String)
    → includes (insert text_lt x xs) v ≡ (x == v || includes xs v)
unfolding insert
includes-insert x [] v = refl
includes-insert x (y ∷ ys) v = elim (Bool-cases (text_lt y x)) [
  | inl before ↦
      rw before
        (ap (λ b. y == v || b) (includes-insert x ys v) ∙ or_swap (x == v) (y == v) (includes ys v))
  | inr after ↦ rw after refl
]

pub includes-sort_texts :
    (xs : List String) (v : String) → includes (sort_texts xs) v ≡ includes xs v
unfolding sort_texts
includes-sort_texts [] v = refl
includes-sort_texts (x ∷ xs) v =
    includes-insert x (sort text_lt xs) v ∙ ap (λ b. x == v || b) (includes-sort_texts xs v)

module _ {ℓ} {A : Type ℓ} (lt : A → A → Bool) (p : A → Bool) where
  length-keep-insert :
      (x : A) (xs : List A) → length (keep p (insert lt x xs)) ≡ length (keep p (x ∷ xs))
  unfolding insert
  length-keep-insert x [] = refl
  length-keep-insert x (y ∷ ys) = elim (Bool-cases (lt y x)) [
    | inl before ↦ rw before (ground (arith, length-keep-insert x ys))
    | inr after ↦ rw after refl
  ]

  -- Sorting keeps the number of members that pass a test.
  pub length-keep-sort : (xs : List A) → length (keep p (sort lt xs)) ≡ length (keep p xs)
  unfolding sort
  length-keep-sort [] = refl
  length-keep-sort (x ∷ xs) =
      length-keep-insert x (sort lt xs) ∙ ground (arith, length-keep-sort xs)
