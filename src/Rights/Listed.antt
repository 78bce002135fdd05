-- ===== src/Rights/Listed.antt =====
-- effective-rights.ts: the parts of a compiled result pass the loops of the verifier.
use chimp_maera.Common.{
  String, ◌≡◌, refl, inl, inr, Bool, true, false, List, [], ◌∷◌, ◌++◌, arith, all, includes, map,
  if◌then◌else◌, All, Bool-cases,
}
use chimp_maera.Common.Order.{sort_texts, text_lt}
use chimp_maera.Common.Order.Kept.{All-sort}
use chimp_maera.Json.{Value, Fields, str, obj, arr, array, items, field_of}
use chimp_maera.Json.Guards.{as_array, exact_keys, max_safe_integer}
use chimp_maera.Rights.{
  Scope, Ceiling, ReasonFact, OperandKind, RightsOutcome, kind_name, outcome_name, profile,
  assignment, capability, constraint, allow, escalate, deny,
}
use chimp_maera.Rights.Values.{ceiling_value, fact_value, scope_value}
use chimp_maera.Rights.Compile.{ceiling_fact, facts_of, input_fields, issue_fact, outcome_fact}
use chimp_maera.Rights.Verify.{
  check_ceilings, is_ceiling, is_fact, is_member, is_string, kind_names, known_issues, outcomes,
  valid_scope_shape,
}
use chimp_maera.Rights.Checked.{AreIssues}

is_string-texts : (texts : List String) → all is_string (items (array (map str texts))) ≡ true
is_string-texts [] = refl
is_string-texts (t ∷ ts) = is_string-texts ts

pub valid_scope_shape-scope_value : (s : Scope) → valid_scope_shape (scope_value s) ≡ true
unfolding valid_scope_shape chimp_maera.Json.Guards.has_keys
valid_scope_shape-scope_value s = ground (
  arith,
  is_string-texts s.actions,
  is_string-texts s.resources,
  is_string-texts s.fields,
  is_string-texts s.purposes,
  is_string-texts s.effects,
)

pub outcome_name-known : (o : RightsOutcome) → includes outcomes (outcome_name o) ≡ true
outcome_name-known allow = refl
outcome_name-known escalate = refl
outcome_name-known deny = refl

pub kind_name-known : (k : OperandKind) → includes kind_names (kind_name k) ≡ true
kind_name-known profile = refl
kind_name-known assignment = refl
kind_name-known capability = refl
kind_name-known constraint = refl

-- No kind of the ceilings was seen, and none comes twice.
abbrev pub are_new : List String → List Ceiling → Bool
are_new seen [] = true
are_new seen (x ∷ xs) =
    let rest = are_new (seen ++ kind_name x.kind ∷ []) xs in
    if includes seen (kind_name x.kind) then false else rest

-- A ceiling that passes all tests but that of its kind.
abbrev pub IsListed : Ceiling → Type 0
IsListed x = is_ceiling (input_fields (ceiling_value x)) ≡ true

pub check_ceilings-are_new :
    (xs : List Ceiling) (seen : List String)
    → All IsListed xs
    → check_ceilings (items (array (map ceiling_value xs))) seen ≡ are_new seen xs
unfolding check_ceilings chimp_maera.Json.Guards.has_keys
check_ceilings-are_new [] seen h = refl
check_ceilings-are_new (x ∷ xs) seen h =
    let rest = check_ceilings-are_new xs (seen ++ kind_name x.kind ∷ []) h.1 in
    elim (Bool-cases (includes seen (kind_name x.kind))) [
      | inl again ↦ rw (h.0, kind_name-known x.kind, again, check_ceilings) refl
      | inr new ↦ rw (h.0, kind_name-known x.kind, new, check_ceilings) rest
    ]

abbrev IsFact : ReasonFact → Type 0
IsFact f = is_fact (fact_value f) ≡ true

IsFact-known :
    (f : ReasonFact) → includes (kind_names ++ "COMPILER" ∷ []) f.source ≡ true → IsFact f
unfolding is_fact chimp_maera.Json.Guards.has_keys
IsFact-known f h = ground (arith, h)

kind_name-source : (k : OperandKind) → includes (kind_names ++ "COMPILER" ∷ []) (kind_name k) ≡ true
kind_name-source profile = refl
kind_name-source assignment = refl
kind_name-source capability = refl
kind_name-source constraint = refl

All-append {ℓ} :
    {A : Type ℓ} (P : A → Type 0) (xs ys : List A) → All P xs → All P ys → All P (xs ++ ys)
All-append P [] ys h k = k
All-append P (x ∷ xs) ys h k = (h.0, All-append P xs ys h.1 k)

All-each {ℓ κ} :
    {A : Type ℓ} {B : Type κ} (P : B → Type 0) (f : A → B) (xs : List A)
    → ((a : A) → P (f a))
    → All P (map f xs)
All-each P f [] h = tt
All-each P f (x ∷ xs) h = (h x, All-each P f xs h)

pub facts_of-IsFact :
    (ceilings : List Ceiling) (issues : List String) (outcome : RightsOutcome)
    → All IsFact (facts_of ceilings issues outcome)
facts_of-IsFact ceilings issues outcome =
    All-append IsFact (map ceiling_fact ceilings ++ map issue_fact (sort_texts issues))
      (outcome_fact outcome ∷ [])
      (All-append IsFact (map ceiling_fact ceilings) (map issue_fact (sort_texts issues))
        (All-each IsFact ceiling_fact ceilings
          λ x. IsFact-known (ceiling_fact x) (kind_name-source x.kind))
        (All-each IsFact issue_fact (sort_texts issues) λ i. IsFact-known (issue_fact i) refl))
      (IsFact-known (outcome_fact outcome) refl, tt)

-- the values of a list all pass a test
pub all-values {ℓ} :
    {A : Type ℓ} (test : Value → Bool) (f : A → Value) (xs : List A)
    → All (λ a. test (f a) ≡ true) xs
    → all test (items (array (map f xs))) ≡ true
all-values test f [] h = refl
all-values test f (x ∷ xs) h = rw (h.0) (all-values test f xs h.1)

pub sort_texts-AreIssues :
    (issues : List String)
    → AreIssues issues
    → all (is_member known_issues) (items (array (map str (sort_texts issues)))) ≡ true
unfolding sort_texts
sort_texts-AreIssues issues h =
    all-values (is_member known_issues) str (sort_texts issues)
      (All-sort text_lt (λ i. includes known_issues i ≡ true) issues h.known)
