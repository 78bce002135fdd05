-- ===== src/Planner/Texts.antt =====
-- poc-setup-compatibility-planner.ts: lists of texts as sets, and `join`.
use Prim.Native.String.{◌++◌ as ◌+++◌}
use chimp_maera.Common.{
  String, Bool, not, List, [], ◌∷◌, ◌++◌, ◌==◌, eqb, length, includes, keep, if◌then◌else◌,
}
use chimp_maera.Common.Order.{sort_texts}

-- `new Set(values)`, in the order of insertion
abbrev pub distinct : List String → List String
distinct [] = []
distinct (x ∷ xs) = x ∷ keep (λ y. not (x == y)) (distinct xs)

-- `[...new Set(values)].sort()`
abbrev pub sorted_set : List String → List String
sorted_set values = sort_texts (distinct values)

-- `unique`
abbrev pub is_unique : List String → Bool
is_unique values = eqb (length (distinct values)) (length values)

-- `set.add(value)`
abbrev pub insert_text : String → List String → List String
insert_text v values = if includes values v then values else values ++ v ∷ []

-- `values.join(mark)`
abbrev pub join : String → List String → String
join mark [] = ""
join mark (x ∷ []) = x
join mark (x ∷ y ∷ rest) = x +++ mark +++ join mark (y ∷ rest)

-- `flatMap`
abbrev pub flat_map {ℓ} : {A : Type ℓ} → (A → List String) → List A → List String
flat_map f [] = []
flat_map f (x ∷ xs) = f x ++ flat_map f xs
