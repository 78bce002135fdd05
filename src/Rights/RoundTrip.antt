-- ===== src/Rights/RoundTrip.antt =====
-- effective-rights.ts: what the verifier answers on the compiler's results.
use chimp_maera.Common.{
  ok_injective, String, ◌≡◌, refl, sym, subst, inl, inr, true, Option, List, [], ◌∷◌, arith, all,
  eq_refl, map, if◌then◌else◌, All, Bool-cases, Option-cases, ok, err, on_ok,
}
use chimp_maera.Common.Order.Kept.{All-sort}
use chimp_maera.Json.{Value, Fields, str, obj, arr, array, items, field_of}
use chimp_maera.Json.Canonical.{canonical_json}
use chimp_maera.Json.Guards.{as_array, exact_keys, max_safe_integer}
use chimp_maera.Rights.{Operand, Ceiling, EffectiveRights}
use chimp_maera.Rights.Values.{core_value, fact_value, operand_value, rights_entries, rights_value}
use chimp_maera.Rights.Compile.{
  build_result, by_kind, ceiling_of, ceilings_of, compile, compile_operands, digest, digested_input,
  input_issues, values_or_none, draft, final_issues, input_fields, judged, kind_lt, parsed, sealed,
}
use chimp_maera.Rights.Verify.{
  digest_text_ok, invalid_rights, is_fact, is_framed_result, is_member, known_issues, verify_rights,
}
use chimp_maera.Rights.Known.{final_issues-AreIssues, input_issues-AreIssues, judged-AreIssues}
use chimp_maera.Rights.Checked.{AreIssues, IsOperand, parse_operands-AreOperands}
use chimp_maera.Rights.Listed.{
  IsListed, all-values, are_new, check_ceilings-are_new, facts_of-IsFact, outcome_name-known,
  sort_texts-AreIssues, valid_scope_shape-scope_value,
}

-- the fields of a result that the verifier tests in front of its digest
is_framed_result-sealed :
    (r : EffectiveRights)
    → digest_text_ok r.input_digest ≡ true
    → digest_text_ok r.result_digest ≡ true
    → is_framed_result (rights_entries r) ≡ true
unfolding is_framed_result chimp_maera.Json.Guards.has_keys
is_framed_result-sealed r hashed sealed_by = ground (
  arith,
  hashed,
  sealed_by,
  outcome_name-known r.outcome,
  valid_scope_shape-scope_value r.effective_scope,
)

module _ (sha256_hex : String → String)
    (hex : (s : String) → digest_text_ok (sha256_hex s) ≡ true) where
  digest-hex : (v : Value) {d : String} → digest sha256_hex v ≡ ok d → digest_text_ok d ≡ true
  unfolding digest
  digest-hex v h = elim (Option-cases (canonical_json v)) [
    | inl nothing ↦ cc (rw (nothing, digest) at h)
    | inr (text, found) ↦
        subst (λ d. digest_text_ok d ≡ true) (ok_injective (rw (found, digest) at h)) (hex text)
  ]

  ceiling_of-IsListed :
      (o : Operand) (d : String) → IsOperand o → digest_text_ok d ≡ true → IsListed (ceiling_of o d)
  ceiling_of-IsListed o d k h = ground (
    arith,
    k.bound,
    k.safe,
    h,
    outcome_name-known o.decision_ceiling,
    valid_scope_shape-scope_value o.scope,
  )

  ceilings_of-AreListed :
      (os : List Operand) {xs : List Ceiling}
      → ceilings_of sha256_hex os ≡ ok xs
      → All IsOperand os
      → All IsListed xs
  unfolding ceilings_of
  ceilings_of-AreListed [] h k = subst (All IsListed) (ok_injective h) tt
  ceilings_of-AreListed (o ∷ os) h k = on_ok (digest sha256_hex (operand_value o)) _ h λ d p h1.
      on_ok (ceilings_of sha256_hex os) _ h1 λ xs q h2. subst (All IsListed) (ok_injective h2) (
        ceiling_of-IsListed o d k.0 (digest-hex (operand_value o) p),
        ceilings_of-AreListed os q k.1,
      )

  -- How a compiled result is made, as far as the verifier looks.
  record IsCompiled (r : EffectiveRights) : Type 0 where
    actor : Option String
    tenant : Option String
    operands : List Operand
    issues : List String
    input_digest : String
    ceilings : List Ceiling
    result_digest : String
    hashed : digest_text_ok input_digest ≡ true
    listed : All IsListed ceilings
    known : AreIssues issues
    sealed_by :
        digest sha256_hex (core_value (draft input_digest actor tenant operands issues ceilings))
        ≡ ok result_digest
    same : r ≡ record (draft input_digest actor tenant operands issues ceilings) {
      result_digest = result_digest;
    }

  compile_operands-IsCompiled :
      (actor tenant : Option String) (operands : List Operand) (issues : List String)
      {r : EffectiveRights}
      → AreIssues issues
      → All IsOperand operands
      → compile_operands sha256_hex actor tenant operands issues ≡ ok r
      → IsCompiled r
  unfolding compile_operands build_result sealed
  compile_operands-IsCompiled actor tenant operands issues known read h =
      let judged_issues = judged actor tenant operands issues in
      on_ok (digest sha256_hex (digested_input actor tenant operands judged_issues)) _ h
        λ input_digest p h1.
          on_ok (ceilings_of sha256_hex (by_kind operands)) _ h1 λ ceilings listed h2.
            on_ok
              (digest sha256_hex (
                core_value (
                  draft input_digest actor tenant operands (final_issues operands judged_issues)
                    ceilings)))
              _ h2
              λ d q h3. record {
                actor = actor;
                tenant = tenant;
                operands = operands;
                issues = final_issues operands judged_issues;
                input_digest = input_digest;
                ceilings = ceilings;
                result_digest = d;
                hashed = digest-hex (digested_input actor tenant operands judged_issues) p;
                listed =
                    ceilings_of-AreListed (by_kind operands) listed
                      (All-sort kind_lt IsOperand operands read);
                known =
                    final_issues-AreIssues operands judged_issues
                      (judged-AreIssues actor tenant operands issues known);
                sealed_by = q;
                same = sym (ok_injective h3);
              }

  compile-IsCompiled :
      (v : Value) {r : EffectiveRights} → compile sha256_hex v ≡ ok r → IsCompiled r
  unfolding compile
  compile-IsCompiled v h =
      let (known, read) =
        parse_operands-AreOperands
          (values_or_none (as_array (field_of "operands" (input_fields v)))) (input_issues v)
          (input_issues-AreIssues v) in
      compile_operands-IsCompiled _ _ (parsed v).1 (parsed v).0 known read h

  -- What the verifier answers on a sealed result with known issues and ceilings that pass.
  verify_rights-sealed :
      (r : EffectiveRights)
      → digest_text_ok r.input_digest ≡ true
      → digest sha256_hex (core_value r) ≡ ok r.result_digest
      → All IsListed r.ceilings
      → all is_fact (items (array (map fact_value r.reason_facts))) ≡ true
      → all (is_member known_issues) (items (array (map str r.issues))) ≡ true
      → verify_rights sha256_hex (rights_value r)
        ≡ (if are_new [] r.ceilings then ok (rights_value r) else err invalid_rights)
  unfolding verify_rights chimp_maera.Json.Guards.has_keys
  verify_rights-sealed r hashed sealed_by listed facts issues =
      let framed : is_framed_result (rights_entries r) ≡ true =
        is_framed_result-sealed r hashed (digest-hex (core_value r) sealed_by) in
      elim (Bool-cases (are_new [] r.ceilings)) [
        | inl new ↦
            rw
              (
                framed,
                sealed_by,
                eq_refl r.result_digest,
                check_ceilings-are_new r.ceilings [] listed,
                new,
                facts,
                issues,
                verify_rights,
              )
              refl
        | inr again ↦
            rw
              (
                framed,
                sealed_by,
                eq_refl r.result_digest,
                check_ceilings-are_new r.ceilings [] listed,
                again,
                verify_rights,
              )
              refl
      ]

  -- The verifier accepts a compiled result exactly when no two of its ceilings have the same kind.
  pub compile-verified :
      (v : Value) {r : EffectiveRights}
      → compile sha256_hex v ≡ ok r
      → verify_rights sha256_hex (rights_value r)
        ≡ (if are_new [] r.ceilings then ok (rights_value r) else err invalid_rights)
  unfolding draft
  compile-verified v h =
      let k = compile-IsCompiled v h in
      let built = record (draft k.input_digest k.actor k.tenant k.operands k.issues k.ceilings) {
        result_digest = k.result_digest;
      } in
      subst
        (λ (x : EffectiveRights).
          verify_rights sha256_hex (rights_value x)
          ≡ (if are_new [] x.ceilings then ok (rights_value x) else err invalid_rights))
        (sym k.same)
        (verify_rights-sealed built k.hashed k.sealed_by k.listed
          (all-values is_fact fact_value built.reason_facts
            (facts_of-IsFact k.ceilings k.issues built.outcome))
          (sort_texts-AreIssues k.issues k.known))
