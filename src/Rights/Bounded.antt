-- ===== src/Rights/Bounded.antt =====
-- effective-rights.ts: what a result permits, and its outcome, against the ceilings that it lists.
use chimp_maera.Common.{
  ok_injective, String, ◌≡◌, refl, sym, ◌∙◌, Bool, true, false, ◌&&◌, Option, List, [], ◌∷◌, ◌==◌,
  arith, eqb, length, includes, keep, all, All, inl, inr, Bool-cases, eq_iff, subst, ok, on_ok,
}
use chimp_maera.Common.Order.Kept.{All-sort, includes-sort_texts}
use chimp_maera.Json.{Value}
use chimp_maera.Rights.{Scope, Operand, Ceiling, EffectiveRights}
use chimp_maera.Rights.Values.{operand_value}
use chimp_maera.Rights.Compile.{
  by_kind, ceiling_of, ceilings_of, compile, compile_operands, build_result, digest, draft,
  effective_scope, final_issues, intersected, intersection, judged, kind_lt, parsed, scope_when,
  permits, sealed,
}

-- A part of a scope.
pub data Part : Type 0 where
  of_actions of_resources of_fields of_purposes of_effects : Part

abbrev pub part_of : Part → Scope → List String
part_of of_actions s = s.actions
part_of of_resources s = s.resources
part_of of_fields s = s.fields
part_of of_purposes s = s.purposes
part_of of_effects s = s.effects

and-eq-true : (a b : Bool) → (a && b) ≡ true → (a ≡ true) × (b ≡ true)
and-eq-true true b h = (refl, h)
and-eq-true false b h = cc

all-All {ℓ} : {A : Type ℓ} (p : A → Bool) (xs : List A) → all p xs ≡ true → All (λ x. p x ≡ true) xs
all-All p [] h = tt
all-All p (x ∷ xs) h =
    let (here, rest) = and-eq-true (p x) (all p xs) h in (here, all-All p xs rest)

includes-keep :
    (p : String → Bool) (xs : List String) (v : String)
    → includes (keep p xs) v ≡ true
    → (includes xs v ≡ true) × (p v ≡ true)
includes-keep p [] v h = cc
includes-keep p (x ∷ xs) v h = elim (Bool-cases (p x)) [
  | inl kept ↦ elim (Bool-cases (x == v)) [
    | inl same ↦ (ground (arith, same), subst (λ y. p y ≡ true) ((eq_iff x v).0 same) kept)
    | inr other ↦
        let (rest, passed) = includes-keep p xs v (ground (arith, h, kept, other)) in
        (ground (arith, rest, other), passed)
  ]
  | inr dropped ↦
      let (rest, passed) = includes-keep p xs v (ground (arith, h, dropped)) in
      (ground (arith, rest, Bool-cases (x == v)), passed)
]

-- A member of the intersection is in that part of every operand's scope.
intersection-permits :
    (part : Scope → List String) (operands : List Operand) (v : String)
    → includes (intersection part operands) v ≡ true
    → All (λ o. permits part v o ≡ true) operands
unfolding intersection
intersection-permits part [] v h = tt
intersection-permits part (first ∷ rest) v h =
    let (here, others) =
      includes-keep (λ value. all (permits part value) rest) (part first.scope) v
        (sym (
            includes-sort_texts (keep (λ value. all (permits part value) rest) (part first.scope))
              v)
          ∙ h) in
    (here, all-All (permits part v) rest others)

intersected-permits :
    (part : Part) (operands : List Operand) (v : String)
    → includes (part_of part (intersected operands)) v ≡ true
    → All (λ o. permits (part_of part) v o ≡ true) operands
unfolding intersected
intersected-permits of_actions operands v h = intersection-permits (λ s. s.actions) operands v h
intersected-permits of_resources operands v h = intersection-permits (λ s. s.resources) operands v h
intersected-permits of_fields operands v h = intersection-permits (λ s. s.fields) operands v h
intersected-permits of_purposes operands v h = intersection-permits (λ s. s.purposes) operands v h
intersected-permits of_effects operands v h = intersection-permits (λ s. s.effects) operands v h

scope_when-permits :
    (complete : Bool) (part : Part) (operands : List Operand) (v : String)
    → includes (part_of part (scope_when complete operands)) v ≡ true
    → All (λ o. permits (part_of part) v o ≡ true) operands
scope_when-permits true part operands v h = intersected-permits part operands v h
scope_when-permits false of_actions operands v h = cc
scope_when-permits false of_resources operands v h = cc
scope_when-permits false of_fields operands v h = cc
scope_when-permits false of_purposes operands v h = cc
scope_when-permits false of_effects operands v h = cc

effective_scope-permits :
    (part : Part) (operands : List Operand) (v : String)
    → includes (part_of part (effective_scope operands)) v ≡ true
    → All (λ o. permits (part_of part) v o ≡ true) operands
unfolding effective_scope
effective_scope-permits part operands v h =
    scope_when-permits (eqb (length operands) 4) part operands v h

module _ (sha256_hex : String → String) where
  -- How a result was built, from the operands that were read.
  pub record IsBuilt (r : EffectiveRights) : Type 0 where
    pub actor : Option String
    pub tenant : Option String
    pub operands : List Operand
    pub read_issues : List String
    pub input_digest : String
    pub ceilings : List Ceiling
    pub result_digest : String
    pub listed : ceilings_of sha256_hex (by_kind operands) ≡ ok ceilings
    pub result :
        r
        ≡ record (draft input_digest actor tenant operands
            (final_issues operands (judged actor tenant operands read_issues))
            ceilings) { result_digest = result_digest }

  compile_operands-IsBuilt :
      (actor tenant : Option String) (operands : List Operand) (issues : List String)
      {r : EffectiveRights}
      → compile_operands sha256_hex actor tenant operands issues ≡ ok r
      → IsBuilt r
  unfolding compile_operands build_result sealed
  compile_operands-IsBuilt actor tenant operands issues h =
      on_ok (digest sha256_hex _) _ h λ input_digest _ h1.
        on_ok (ceilings_of sha256_hex (by_kind operands)) _ h1 λ ceilings listed h2.
          on_ok (digest sha256_hex _) _ h2 λ d _ h3. record {
            actor = actor;
            tenant = tenant;
            operands = operands;
            read_issues = issues;
            input_digest = input_digest;
            ceilings = ceilings;
            result_digest = d;
            listed = listed;
            result = sym (ok_injective h3);
          }

  pub compile-IsBuilt : (v : Value) {r : EffectiveRights} → compile sha256_hex v ≡ ok r → IsBuilt r
  unfolding compile
  compile-IsBuilt v h = compile_operands-IsBuilt _ _ (parsed v).1 (parsed v).0 h

  -- What holds of every operand holds of every ceiling.
  pub ceilings_of-All :
      (P : Operand → Type 0) (Q : Ceiling → Type 0)
      → ((o : Operand) (d : String) → P o → Q (ceiling_of o d))
      → (os : List Operand) {xs : List Ceiling} → ceilings_of sha256_hex os ≡ ok xs
      → All P os
      → All Q xs
  unfolding ceilings_of
  ceilings_of-All P Q f [] h p = subst (All Q) (ok_injective h) tt
  ceilings_of-All P Q f (o ∷ os) h p = on_ok (digest sha256_hex (operand_value o)) _ h λ d _ h1.
      on_ok (ceilings_of sha256_hex os) _ h1 λ xs listed h2.
        subst (All Q) (ok_injective h2) (f o d p.0, ceilings_of-All P Q f os listed p.1)

  built-permits :
      {r : EffectiveRights} (b : IsBuilt r) (part : Part) (x : String)
      → includes (part_of part (effective_scope b.operands)) x ≡ true
      → All (λ (c : Ceiling). includes (part_of part c.scope) x ≡ true) b.ceilings
  built-permits b part x member =
      ceilings_of-All (λ o. permits (part_of part) x o ≡ true) _ (λ o d p. p) (by_kind b.operands)
        b.listed
        (All-sort kind_lt (λ o. permits (part_of part) x o ≡ true) b.operands
          (effective_scope-permits part b.operands x member))

  -- What the effective scope of a compiled result permits, in any of its five parts, is permitted
  -- by every ceiling that the result lists.
  pub compile-permits :
      (v : Value) (r : EffectiveRights)
      → compile sha256_hex v ≡ ok r
      → (part : Part) (x : String) → includes (part_of part r.effective_scope) x ≡ true
      → All (λ (c : Ceiling). includes (part_of part c.scope) x ≡ true) r.ceilings
  unfolding draft effective_scope
  compile-permits v r h part x member =
      let b = compile-IsBuilt v h in
      subst
        (λ (s : EffectiveRights).
          All (λ (c : Ceiling). includes (part_of part c.scope) x ≡ true) s.ceilings)
        (sym b.result)
        (built-permits b part x (
          subst (λ (s : EffectiveRights). includes (part_of part s.effective_scope) x ≡ true)
            b.result member))
