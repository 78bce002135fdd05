-- ===== src/Rights/Checked.antt =====
-- effective-rights.ts: the issues that the compiler adds, and the operands that it reads, are such that
-- the verifier knows them.
use chimp_maera.Common.{
  some_injective, ℕ, String, ◌≡◌, refl, ap, subst, inl, inr, Bool, true, false, not, ◌&&◌, Option,
  none, some, List, [], ◌∷◌, eqb, leb, length, includes, all, All, All-snoc, Bool-cases,
  Option-cases,
}
use chimp_maera.Common.Maybe.{on_some, on_check}
use chimp_maera.Json.{Value, num, nat, Fields, field_of}
use chimp_maera.Json.Guards.{as_text, as_record, exact_keys, max_safe_integer}
use chimp_maera.Rights.{Operand, OperandKind, rights_outcome_of}
use chimp_maera.Rights.Parse.{
  Checked, Names, distinct, add, add_if, bound_identifier, bound_identifier_ok, judge_domain,
  nonempty_texts, operand_keys, parse_operand, parse_operands, read_domain, read_generations,
  read_kind, read_names, read_operand, read_scope, schema_denied, scope_keys, stale_denied,
  then_read, validate_scope, positive_generation,
}
use chimp_maera.Rights.Verify.{known_issues}

-- Every issue is one of the program's.
pub record AreIssues (issues : List String) : Type 0 where
  pub known : All (λ i. includes known_issues i ≡ true) issues

pub add-AreIssues :
    (i : String) (is : List String)
    → includes known_issues i ≡ true
    → AreIssues is
    → AreIssues (add i is)
add-AreIssues i is h k = elim (Bool-cases (includes is i)) [
  | inl there ↦ rw there k
  | inr new ↦
      rw new (record { known = All-snoc (λ x. includes known_issues x ≡ true) is i k.known h })
]

pub add_if-AreIssues :
    (test : Bool) (i : String) (is : List String)
    → includes known_issues i ≡ true
    → AreIssues is
    → AreIssues (add_if test i is)
add_if-AreIssues true i is h k = add-AreIssues i is h k
add_if-AreIssues false i is h k = k

-- What holds of a value that was read.
abbrev Holds {ℓ} : {A : Type ℓ} → (A → Type 0) → Option A → Type 0
Holds P none = Unit
Holds P (some a) = P a

-- The issues are the program's, and what was read has a property.
abbrev IsReading {ℓ} : {A : Type ℓ} → (A → Type 0) → Checked A → Type 0
IsReading P (issues, o) = AreIssues issues × Holds P o

abbrev Anything {ℓ} : {A : Type ℓ} → A → Type 0
Anything a = Unit

then_read-IsReading {ℓ κ} :
    {A : Type ℓ} {B : Type κ} (P : A → Type 0) (Q : B → Type 0) (x : Checked A)
    (next : List String → A → Checked B)
    → IsReading P x
    → ((issues : List String) (a : A) → AreIssues issues → P a → IsReading Q (next issues a))
    → IsReading Q (then_read x next)
then_read-IsReading P Q (issues, none) next h k = (h.0, tt)
then_read-IsReading P Q (issues, some a) next h k = k issues a h.0 h.1

judge_domain-IsReading :
    (allowed : List String) (o : Option (List String)) (is : List String)
    → AreIssues is
    → IsReading Anything (judge_domain allowed o is)
judge_domain-IsReading allowed none is h = (add-AreIssues schema_denied is refl h, tt)
judge_domain-IsReading allowed (some values) is h = (
  add_if-AreIssues (not (all (includes allowed) values)) "EFFECTIVE_RIGHTS_SCOPE_UNKNOWN_DENIED"
      (add_if (not (eqb (length (distinct values)) (length values)))
        "EFFECTIVE_RIGHTS_OPERAND_CONFLICT_DENIED" is)
      refl
      (add_if-AreIssues (not (eqb (length (distinct values)) (length values)))
        "EFFECTIVE_RIGHTS_OPERAND_CONFLICT_DENIED" is refl h),
  tt,
)

read_domain-IsReading :
    (fs : Fields) (name : String) (allowed is : List String)
    → AreIssues is
    → IsReading Anything (read_domain fs name allowed is)
unfolding read_domain
read_domain-IsReading fs name allowed is h =
    judge_domain-IsReading allowed (nonempty_texts (field_of name fs)) is h

read_scope-IsReading :
    (o : Option Fields) (is : List String) → AreIssues is → IsReading Anything (read_scope o is)
read_scope-IsReading none is h = (add-AreIssues schema_denied is refl h, tt)
read_scope-IsReading (some fs) is h =
    then_read-IsReading Anything Anything _ _ (read_domain-IsReading fs _ _ is h) λ is actions h1 _.
      then_read-IsReading Anything Anything _ _ (read_domain-IsReading fs _ _ is h1)
        λ is resources h2 _.
          then_read-IsReading Anything Anything _ _ (read_domain-IsReading fs _ _ is h2)
            λ is fields h3 _.
              then_read-IsReading Anything Anything _ _ (read_domain-IsReading fs _ _ is h3)
                λ is purposes h4 _.
                  then_read-IsReading Anything Anything _ _ (read_domain-IsReading fs _ _ is h4)
                    λ is effects h5 _. (h5, tt)

-- An operand whose id and generation the verifier accepts.
pub record IsOperand (o : Operand) : Type 0 where
  pub bound : bound_identifier_ok o.operand_id ≡ true
  pub safe : (leb o.generation max_safe_integer && leb 1 o.generation) ≡ true

bound_identifier-eq-some :
    (v : Value) {s : String} → bound_identifier v ≡ some s → bound_identifier_ok s ≡ true
bound_identifier-eq-some v h = on_some (as_text v) _ h λ t p h1.
    on_check (bound_identifier_ok t) _ h1
      λ b h2. subst (λ x. bound_identifier_ok x ≡ true) (some_injective h2) b

positive_generation-eq-some :
    (v : Value) {n : ℕ}
    → positive_generation v ≡ some n
    → (leb n max_safe_integer && leb 1 n) ≡ true
positive_generation-eq-some (num (nat m)) {n} h =
    elim (Bool-cases (leb m max_safe_integer && leb 1 m)) [
      | inl safe ↦
          subst (λ x. (leb x max_safe_integer && leb 1 x) ≡ true) (some_injective (rw safe at h))
            safe
      | inr out ↦ cc (rw out at h)
    ]
positive_generation-eq-some v h = cc

read_names-bound :
    (fs : Fields) {names : Names}
    → read_names fs ≡ some names
    → bound_identifier_ok names.operand_id ≡ true
read_names-bound fs h = on_some (bound_identifier (field_of "operandId" fs)) _ h λ operand_id p h1.
    on_some (bound_identifier (field_of "tenant" fs)) _ h1 λ tenant _ h2.
      on_some (bound_identifier (field_of "actor" fs)) _ h2 λ actor _ h3.
        on_some (bound_identifier (field_of "profileId" fs)) _ h3 λ profile_id _ h4.
          on_some (as_text (field_of "decisionCeiling" fs)) _ h4 λ ceiling _ h5.
            on_some (rights_outcome_of ceiling) _ h5 λ decision _ h6.
              subst (λ x. bound_identifier_ok x ≡ true)
                (ap (λ (n : Names). n.operand_id) (some_injective h6))
                (bound_identifier-eq-some (field_of "operandId" fs) p)

read_generations-safe :
    (fs : Fields) {g : ℕ × ℕ}
    → read_generations fs ≡ some g
    → (leb g.0 max_safe_integer && leb 1 g.0) ≡ true
read_generations-safe fs h = on_some (positive_generation (field_of "generation" fs)) _ h λ n p h1.
    on_some (positive_generation (field_of "profileGeneration" fs)) _ h1 λ m _ h2.
      subst (λ x. (leb x max_safe_integer && leb 1 x) ≡ true)
        (ap (λ (g : ℕ × ℕ). g.0) (some_injective h2))
        (positive_generation-eq-some (field_of "generation" fs) p)

read_operand-IsReading :
    (kind : OperandKind) (fs : Fields) (names : Option Names) (generations : Option (ℕ × ℕ))
    (is : List String)
    → read_names fs ≡ names
    → read_generations fs ≡ generations
    → AreIssues is
    → IsReading IsOperand (read_operand kind fs names generations is)
unfolding read_operand validate_scope
read_operand-IsReading kind fs none g is p q h = (add-AreIssues schema_denied is refl h, tt)
read_operand-IsReading kind fs (some names) none is p q h =
    (add-AreIssues stale_denied is refl h, tt)
read_operand-IsReading kind fs (some names) (some g) is p q h =
    then_read-IsReading Anything IsOperand _ _
      (read_scope-IsReading (exact_keys (field_of "scope" fs) scope_keys) is h)
      λ is scope h1 _.
        (h1, record { bound = read_names-bound fs p; safe = read_generations-safe fs q })

read_kind-IsReading :
    (v : Value) (kind : Option OperandKind) (is : List String)
    → AreIssues is
    → IsReading IsOperand (read_kind v kind is)
unfolding read_kind
read_kind-IsReading v none is h = (add-AreIssues _ is refl h, tt)
read_kind-IsReading v (some kind) is h = elim (Option-cases (exact_keys v operand_keys)) [
  | inl nothing ↦ rw (nothing, read_kind) (add-AreIssues schema_denied is refl h, tt)
  | inr (fs, found) ↦
      rw (found, read_kind)
        (read_operand-IsReading kind fs (read_names fs) (read_generations fs) is refl refl h)
]

parse_operand-IsReading :
    (v : Value) (is : List String) → AreIssues is → IsReading IsOperand (parse_operand v is)
unfolding parse_operand
parse_operand-IsReading v is h = elim (Option-cases (as_record v)) [
  | inl nothing ↦ rw (nothing, parse_operand) (add-AreIssues schema_denied is refl h, tt)
  | inr (fs, found) ↦ rw (found, parse_operand) (read_kind-IsReading v _ is h)
]

taken-IsOperand :
    (o : Option Operand) (os : List Operand)
    → Holds IsOperand o
    → All IsOperand os
    → All IsOperand (elim o [ none ↦ os | some operand ↦ operand ∷ os ])
taken-IsOperand none os h k = k
taken-IsOperand (some o) os h k = (h, k)

-- the operands that are read, one by one
pub parse_operands-AreOperands :
    (vs : List Value) (is : List String)
    → AreIssues is
    → AreIssues (parse_operands vs is).0 × All IsOperand (parse_operands vs is).1
unfolding parse_operands
parse_operands-AreOperands [] is h = (h, tt)
parse_operands-AreOperands (v ∷ vs) is h =
    let here = parse_operand-IsReading v is h in
    let rest = parse_operands-AreOperands vs (parse_operand v is).0 here.0 in
    (rest.0, taken-IsOperand (parse_operand v is).1 _ here.1 rest.1)
