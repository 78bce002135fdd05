-- ===== src/Rights/Ceilings.antt =====
-- effective-rights.ts: what a result that does not deny says of its ceilings.
use chimp_maera.Common.{
  ok_injective, ℕ, ◌+◌, String, ◌≡◌, ◌≢◌, refl, sym, ap, ◌∙◌, Bool, true, false, ◌&&◌, Option, none,
  some, List, [], ◌∷◌, arith, ltb, eqb, length, keep, any, All, subst, ok, on_ok,
}
use chimp_maera.Common.Order.{sort_texts}
use chimp_maera.Common.Order.Kept.{All-sort, length-keep-sort}
use chimp_maera.Json.{Value}
use chimp_maera.Rights.{
  OperandKind, profile, assignment, capability, constraint, allow, deny, Scope, Operand, Ceiling,
  EffectiveRights, kind_eq, operand_kinds,
}
use chimp_maera.Rights.Parse.{add, add_if}
use chimp_maera.Rights.Values.{operand_value}
use chimp_maera.Rights.Compile.{
  by_kind, ceilings_of, compile, count_issues, decide, denies, escalates, digest, draft,
  effective_scope, final_issues, has_empty_part, is_empty, judged, kind_lt, profile_issues,
  binding_issues, binding_denied, generation_issue, is_mismatch, is_other_generation,
}
use chimp_maera.Rights.Bounded.{
  IsBuilt, Part, part_of, of_actions, of_resources, of_fields, of_purposes, of_effects,
  compile-IsBuilt, ceilings_of-All,
}

add-eq-nil : (issue : String) (is : List String) → add issue is ≡ [] → ⊥
add-eq-nil issue [] h = cc
add-eq-nil issue (i ∷ is) h = ground arith

add_if-eq-nil :
    (test : Bool) (issue : String) (is : List String)
    → add_if test issue is ≡ []
    → (test ≡ false) × (is ≡ [])
add_if-eq-nil true issue is h = absurd (add-eq-nil issue is h)
add_if-eq-nil false issue is h = (refl, h)

-- The number of operands of a kind.
abbrev of_kind : OperandKind → List Operand → ℕ
of_kind k operands = length (keep (λ (o : Operand). kind_eq o.kind k) operands)

-- The number of ceilings of a kind.
abbrev pub ceilings_of_kind : OperandKind → List Ceiling → ℕ
ceilings_of_kind k ceilings = length (keep (λ (x : Ceiling). kind_eq x.kind k) ceilings)

count_issues-eq-nil :
    (ks : List OperandKind) (operands : List Operand) (issues : List String)
    → count_issues ks operands issues ≡ []
    → All (λ k. of_kind k operands ≡ 1) ks × (issues ≡ [])
unfolding count_issues
count_issues-eq-nil [] operands issues h = (tt, h)
count_issues-eq-nil (k ∷ ks) operands issues h =
    let (rest, h1) = count_issues-eq-nil ks operands _ h in
    let (single, h2) = add_if-eq-nil (ltb 1 (of_kind k operands)) _ _ h1 in
    let (there, before) = add_if-eq-nil (eqb (of_kind k operands) 0) _ issues h2 in
    ((ground (arith, single, there), rest), before)

binding_issues-eq-nil :
    (actor tenant : Option String) (p : Operand) (os : List Operand) (issues : List String)
    → binding_issues actor tenant p os issues ≡ []
    → issues ≡ []
unfolding binding_issues
binding_issues-eq-nil actor tenant p [] issues h = h
binding_issues-eq-nil actor tenant p (o ∷ os) issues h =
    let h1 = binding_issues-eq-nil actor tenant p os _ h in
    let (_, h2) = add_if-eq-nil (is_other_generation p o) (generation_issue p o) _ h1 in
    (add_if-eq-nil (is_mismatch actor tenant p o) binding_denied issues h2).1

profile_issues-eq-nil :
    (actor tenant : Option String) (p : Option Operand) (os : List Operand) (issues : List String)
    → profile_issues actor tenant p os issues ≡ []
    → issues ≡ []
profile_issues-eq-nil actor tenant none os issues h = h
profile_issues-eq-nil actor tenant (some p) os issues h =
    binding_issues-eq-nil actor tenant p os issues h

judged-eq-nil :
    (actor tenant : Option String) (operands : List Operand) (issues : List String)
    → judged actor tenant operands issues ≡ []
    → All (λ k. of_kind k operands ≡ 1) operand_kinds
unfolding judged
judged-eq-nil actor tenant operands issues h =
    (count_issues-eq-nil operand_kinds operands issues
      (profile_issues-eq-nil actor tenant _ operands _ h)).0

abbrev all_kinds : List Operand → ℕ
all_kinds os =
    of_kind profile os + of_kind assignment os + of_kind capability os + of_kind constraint os

length-of_kind : (os : List Operand) → length os ≡ all_kinds os
length-of_kind [] = omega arith
length-of_kind (o ∷ os) = of_one o os o.kind refl (length-of_kind os)
  where
    of_one :
        (o : Operand) (os : List Operand) (k : OperandKind)
        → o.kind ≡ k
        → length os ≡ all_kinds os
        → length (o ∷ os) ≡ all_kinds (o ∷ os)
    of_one o os profile e h = rw e (omega (arith, h))
    of_one o os assignment e h = rw e (omega (arith, h))
    of_one o os capability e h = rw e (omega (arith, h))
    of_one o os constraint e h = rw e (omega (arith, h))

ceilings_of-of_kind :
    (sha256_hex : String → String) (k : OperandKind) (os : List Operand) {xs : List Ceiling}
    → ceilings_of sha256_hex os ≡ ok xs
    → ceilings_of_kind k xs ≡ of_kind k os
unfolding ceilings_of
ceilings_of-of_kind sha256_hex k [] h = ap (ceilings_of_kind k) (sym (ok_injective h))
ceilings_of-of_kind sha256_hex k (o ∷ os) h =
    on_ok (digest sha256_hex (operand_value o)) _ h λ d _ h1.
      on_ok (ceilings_of sha256_hex os) _ h1 λ xs listed h2.
        ap (ceilings_of_kind k) (sym (ok_injective h2))
        ∙ ground (arith, ceilings_of-of_kind sha256_hex k os listed)

-- What a result that does not deny says.
pub record IsPermitted (r : EffectiveRights) : Type 0 where
  pub no_issue : r.issues ≡ []
  pub one_each : All (λ k. ceilings_of_kind k r.ceilings ≡ 1) operand_kinds
  pub none_denies : All (λ (x : Ceiling). denies x.decision_ceiling ≡ false) r.ceilings
  pub permits_some : (part : Part) → part_of part r.effective_scope ≢ []
  pub none_escalates :
      r.outcome ≡ allow → All (λ (x : Ceiling). escalates x.decision_ceiling ≡ false) r.ceilings

any-eq-false {ℓ} :
    {A : Type ℓ} (p : A → Bool) (xs : List A) → any p xs ≡ false → All (λ x. p x ≡ false) xs
any-eq-false p [] h = tt
any-eq-false p (x ∷ xs) h = (ground (arith, h), any-eq-false p xs (ground (arith, h)))

nonempty : (xs : List String) → is_empty xs ≡ false → xs ≢ []
nonempty [] h p = cc
nonempty (x ∷ xs) h p = cc

parts : (s : Scope) → has_empty_part s ≡ false → (part : Part) → part_of part s ≢ []
parts s h of_actions = nonempty s.actions (ground (arith, h))
parts s h of_resources = nonempty s.resources (ground (arith, h))
parts s h of_fields = nonempty s.fields (ground (arith, h))
parts s h of_purposes = nonempty s.purposes (ground (arith, h))
parts s h of_effects = nonempty s.effects (ground (arith, h))

decide-eq-nil : (os : List Operand) (is : List String) → decide os is ≢ deny → is ≡ []
unfolding decide
decide-eq-nil os [] h = refl
decide-eq-nil os (i ∷ is) h = absurd (h refl)

decide-none_escalates :
    (os : List Operand) (is : List String)
    → decide os is ≡ allow
    → any (λ (o : Operand). escalates o.decision_ceiling) os ≡ false
unfolding decide
decide-none_escalates os [] h = ground arith
decide-none_escalates os (i ∷ is) h = cc

sort_texts-nil : sort_texts [] ≡ []
unfolding sort_texts
sort_texts-nil = refl

final_issues-eq-nil :
    (os : List Operand) (issues : List String)
    → final_issues os issues ≡ []
    → (any (λ (o : Operand). denies o.decision_ceiling) os ≡ false)
      × ((eqb (length os) 4 && has_empty_part (effective_scope os)) ≡ false)
      × (issues ≡ [])
unfolding final_issues
final_issues-eq-nil os issues h =
    let (explicit, h1) =
      add_if-eq-nil (any (λ (o : Operand). denies o.decision_ceiling) os)
        "EFFECTIVE_RIGHTS_EXPLICIT_DENY" _ h in
    let (empty, before) =
      add_if-eq-nil (eqb (length os) 4 && has_empty_part (effective_scope os))
        "EFFECTIVE_RIGHTS_EMPTY_INTERSECTION_DENIED" issues h1 in
    (explicit, empty, before)

module _ (sha256_hex : String → String) where
  count :
      {r : EffectiveRights} (b : IsBuilt sha256_hex r) (k : OperandKind)
      → ceilings_of_kind k b.ceilings ≡ of_kind k b.operands
  count b k =
      ceilings_of-of_kind sha256_hex k (by_kind b.operands) b.listed
      ∙ length-keep-sort kind_lt (λ (o : Operand). kind_eq o.kind k) b.operands

  draft-IsPermitted :
      {r : EffectiveRights} (b : IsBuilt sha256_hex r)
      → decide b.operands
          (final_issues b.operands (judged b.actor b.tenant b.operands b.read_issues))
        ≢ deny
      → IsPermitted
          (record (draft b.input_digest b.actor b.tenant b.operands
            (final_issues b.operands (judged b.actor b.tenant b.operands b.read_issues))
            b.ceilings) { result_digest = b.result_digest })
  unfolding draft
  draft-IsPermitted b h =
      let none_left = decide-eq-nil b.operands _ h in
      let (explicit, empty, before) = final_issues-eq-nil b.operands _ none_left in
      let counts = judged-eq-nil b.actor b.tenant b.operands b.read_issues before in
      let four : length b.operands ≡ 4 =
        omega
          (arith, length-of_kind b.operands, counts.0, counts.1.0, counts.1.1.0, counts.1.1.1.0) in
      record {
        no_issue = ap sort_texts none_left ∙ sort_texts-nil;
        one_each = (
          count b profile ∙ counts.0,
          (
            count b assignment ∙ counts.1.0,
            (count b capability ∙ counts.1.1.0, (count b constraint ∙ counts.1.1.1.0, tt)),
          ),
        );
        none_denies =
            ceilings_of-All sha256_hex (λ (o : Operand). denies o.decision_ceiling ≡ false) _
              (λ o d p. p) (by_kind b.operands) b.listed
              (All-sort kind_lt (λ (o : Operand). denies o.decision_ceiling ≡ false) b.operands
                (any-eq-false (λ (o : Operand). denies o.decision_ceiling) b.operands explicit));
        permits_some = parts (effective_scope b.operands) (
            subst (λ n. (eqb n 4 && has_empty_part (effective_scope b.operands)) ≡ false) four
              empty);
        none_escalates = λ allowed.
            ceilings_of-All sha256_hex (λ (o : Operand). escalates o.decision_ceiling ≡ false) _
              (λ o d p. p) (by_kind b.operands) b.listed
              (All-sort kind_lt (λ (o : Operand). escalates o.decision_ceiling ≡ false) b.operands
                (any-eq-false (λ (o : Operand). escalates o.decision_ceiling) b.operands
                  (decide-none_escalates b.operands _ allowed)));
      }

  -- A compiled result that does not deny has no issue, exactly one ceiling of each of the four
  -- kinds, none that denies, and permits something in every part of its scope; one that allows
  -- has no ceiling that escalates.
  pub compile-IsPermitted :
      (v : Value) (r : EffectiveRights)
      → compile sha256_hex v ≡ ok r
      → r.outcome ≢ deny
      → IsPermitted r
  unfolding draft
  compile-IsPermitted v r h permitted =
      let b = compile-IsBuilt sha256_hex v h in
      subst IsPermitted (sym b.result)
        (draft-IsPermitted b (subst (λ (s : EffectiveRights). s.outcome ≢ deny) b.result permitted))
