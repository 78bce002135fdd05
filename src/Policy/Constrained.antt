-- ===== src/Policy/Constrained.antt =====
-- policy-evaluator.ts: what a decision's constraints and outcome are when their tests pass.
use chimp_maera.Common.{
  ok_injective, String, ◌≡◌, refl, sym, ap, ◌∙◌, Bool, true, false, ◌&&◌, arith, eq_iff, inl, inr,
  ◌⊎◌, Bool-cases, ok, on_ok, ◌==◌, eqb→eq, if◌then◌else◌, subst,
}
use chimp_maera.Json.{Value, Fields, str, obj, bool, num, nat, field_of}
use chimp_maera.Json.Guards.{is_text}
use chimp_maera.Policy.{check_constraints, is_outcome, is_true_value, property_of, is_effect_limit}

-- No effect for a denial, one for a grant or an escalation.
abbrev pub IsLimited : Value → Value → Type 0
IsLimited outcome effects =
    ((outcome ≡ str "DENY") × (effects ≡ num (nat 0)))
    ⊎ (((outcome ≡ str "AUTO_GRANT") ⊎ (outcome ≡ str "OWNER_ESCALATION"))
        × (effects ≡ num (nat 1)))

-- the issuer, exact input and number of effects that a decision allows
pub record IsConstrained (outcome constraints : Value) : Type 0 where
  pub fields : Fields
  pub is_object : constraints ≡ obj fields
  pub issuer : field_of "authorityIssuer" fields ≡ str "CHIMPMAERA_GATE_ONLY"
  pub exact_input : field_of "exactInputRequired" fields ≡ bool true
  pub limited : IsLimited outcome (field_of "maximumEffects" fields)

pub is_text-str : (v : Value) (t : String) → is_text v t ≡ true → v ≡ str t
is_text-str (str s) t h = ap str ((eq_iff s t).0 h)
is_text-str v t h = cc

pub is_true_value-bool : (v : Value) → is_true_value v ≡ true → v ≡ bool true
is_true_value-bool (bool true) h = refl
is_true_value-bool (bool false) h = cc
is_true_value-bool v h = cc

pub and_true : (a b : Bool) → a && b ≡ true → (a ≡ true) × (b ≡ true)
and_true a b h = (ground (arith, h), ground (arith, h))

not_false : false ≡ true → ⊥
not_false h = cc

is_outcome-cases :
    (v : Value)
    → is_outcome v ≡ true
    → (v ≡ str "DENY") ⊎ (v ≡ str "AUTO_GRANT") ⊎ (v ≡ str "OWNER_ESCALATION")
is_outcome-cases (str s) h = elim (Bool-cases ("DENY" == s)) [
  | inl denied ↦ inl (ap str (sym ((eq_iff "DENY" s).0 denied)))
  | inr d ↦ elim (Bool-cases ("AUTO_GRANT" == s)) [
    | inl granted ↦ inr (inl (ap str (sym ((eq_iff "AUTO_GRANT" s).0 granted))))
    | inr a ↦ elim (Bool-cases ("OWNER_ESCALATION" == s)) [
      | inl escalated ↦ inr (inr (ap str (sym ((eq_iff "OWNER_ESCALATION" s).0 escalated))))
      | inr o ↦ absurd (not_false (rw (d, a, o) at h))
    ]
  ]
]
is_outcome-cases v h = cc

is_effect_limit-num :
    (outcome effects : Value)
    → is_effect_limit outcome effects ≡ true
    → effects ≡ num (nat (if is_text outcome "DENY" then 0 else 1))
is_effect_limit-num outcome (num (nat n)) h = ap (λ m. num (nat m)) (eqb→eq n _ h)
is_effect_limit-num outcome v h = cc

-- A known outcome and its limit.
is_effect_limit-IsLimited :
    (outcome effects : Value)
    → is_outcome outcome ≡ true
    → is_effect_limit outcome effects ≡ true
    → IsLimited outcome effects
is_effect_limit-IsLimited outcome effects known h =
    let n = is_effect_limit-num outcome effects h in
    let limit = λ (v : Value). num (nat (if is_text v "DENY" then 0 else 1)) in
    elim (is_outcome-cases outcome known) [
      | inl p ↦ inl (p, n ∙ ap limit p)
      | inr (inl p) ↦ inr (inl p, n ∙ ap limit p)
      | inr (inr p) ↦ inr (inr p, n ∙ ap limit p)
    ]

-- A property that is found and is not undefined is one of an object.
property_of-obj :
    (v : Value) (key : String) {p : Value} {t : String}
    → property_of v key ≡ ok p
    → p ≡ str t
    → (fs : Fields) × (v ≡ obj fs)
property_of-obj (obj fs) key h q = (fs, refl)
property_of-obj v key h q = cc

pub check_constraints-IsConstrained :
    (fs : Fields)
    → is_outcome (field_of "outcome" fs) ≡ true
    → check_constraints fs ≡ ok true
    → IsConstrained (field_of "outcome" fs) (field_of "constraints" fs)
unfolding check_constraints
check_constraints-IsConstrained fs known h =
    let constraints = field_of "constraints" fs in
    on_ok (property_of constraints "authorityIssuer") _ h λ issuer p h1.
      on_ok (property_of constraints "exactInputRequired") _ h1 λ exact q h2.
        on_ok (property_of constraints "maximumEffects") _ h2 λ effects r h3.
          let (first, limit) = and_true _ _ (ok_injective h3) in
          let (issued, exactly) = and_true _ _ first in
          let text = is_text-str issuer _ issued in
          let (own, shape) = property_of-obj constraints "authorityIssuer" p text in
          record {
            fields = own;
            is_object = shape;
            issuer =
                ok_injective (ap (λ v. property_of v "authorityIssuer") (sym shape) ∙ p) ∙ text;
            exact_input =
                ok_injective (ap (λ v. property_of v "exactInputRequired") (sym shape) ∙ q)
                ∙ is_true_value-bool exact exactly;
            limited =
                subst (IsLimited (field_of "outcome" fs))
                  (sym (ok_injective (ap (λ v. property_of v "maximumEffects") (sym shape) ∙ r)))
                  (is_effect_limit-IsLimited _ effects known limit);
          }

-- The tests of a constrained object pass.
pub IsConstrained-check_constraints :
    (fs : Fields)
    → IsConstrained (field_of "outcome" fs) (field_of "constraints" fs)
    → (is_outcome (field_of "outcome" fs) ≡ true) × (check_constraints fs ≡ ok true)
unfolding check_constraints
IsConstrained-check_constraints fs k = elim k.limited [
  | inl (p, q) ↦ (rw p, rw (k.is_object, k.issuer, k.exact_input, p, q))
  | inr (inl p, q) ↦ (rw p, rw (k.is_object, k.issuer, k.exact_input, p, q))
  | inr (inr p, q) ↦ (rw p, rw (k.is_object, k.issuer, k.exact_input, p, q))
]
