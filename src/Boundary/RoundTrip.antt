-- ===== src/Boundary/RoundTrip.antt =====
-- injection-trust-boundary.ts: the verifier accepts every result of the boundary.
use chimp_maera.Common.{
  ℕ, suc, ltb, String, ◌≡◌, refl, sym, ◌∙◌, subst, inl, inr, Bool, true, false, Option, List, [],
  ◌∷◌, arith, includes, length, map, eq_refl, ok,
}
use chimp_maera.Common.Order.{sort_texts}
use chimp_maera.Common.Order.Kept.{includes-sort_texts}
use chimp_maera.Common.Members.{includes_self}
use chimp_maera.Json.{Value, array, items, obj, str}
use chimp_maera.Rights.Compile.{digest}
use chimp_maera.Boundary.{BoundaryResult, Evidence, ReconstructedAction}
use chimp_maera.Boundary.Candidate.{reconstruct_action}
use chimp_maera.Boundary.Values.{
  action_fields, evidence_list, result_core, result_entries, result_value,
}
use chimp_maera.Boundary.Reconstruct.{denial, reconstruct, reconstruction}
use chimp_maera.Boundary.Verify.{require_candidate, require_digest, require_outcome, verify_result}
use chimp_maera.Boundary.Decided.{
  IsSealed, make_result-IsSealed, reconstruct-cases, reconstruct_parsed-IsMade,
}

-- a list with a member is sorted to one with a head
sort_texts-cons :
    (i : String) (is : List String)
    → (j : String) × (js : List String) × (sort_texts (i ∷ is) ≡ j ∷ js)
sort_texts-cons i is =
    headed_of (sort_texts (i ∷ is)) (includes-sort_texts (i ∷ is) i ∙ includes_self i is)
  where
    headed_of :
        (xs : List String)
        → includes xs i ≡ true
        → (j : String) × (js : List String) × (xs ≡ j ∷ js)
    headed_of [] h = cc
    headed_of (j ∷ js) h = (j, js, refl)

ltb_one : (n : ℕ) → ltb (suc n) 1 ≡ false
ltb_one n = ground arith

module _ (sha256_hex : String → String) where
  require_digest-ok :
      (v : Value) (d : String)
      → digest sha256_hex v ≡ ok d
      → require_digest sha256_hex v (str d) ≡ ok tt
  unfolding require_digest
  require_digest-ok v d h = rw (h, eq_refl d, require_digest) refl

  -- the verifier accepts a result with its own digest that passes the tests of its outcome
  verify_result-sealed :
      (r : BoundaryResult)
      → digest sha256_hex (result_core r) ≡ ok r.result_digest
      → require_outcome sha256_hex (result_entries r) ≡ ok tt
      → verify_result sha256_hex (result_value r) ≡ ok (result_value r)
  unfolding verify_result chimp_maera.Json.Guards.has_keys
  verify_result-sealed r digested passed =
      rw (require_digest-ok (result_core r) r.result_digest digested, passed, verify_result) refl

  verify_result-denial :
      (input_digest : Option String) (i : String) (is : List String) {r : BoundaryResult}
      → IsSealed sha256_hex (denial input_digest (i ∷ is)) r
      → verify_result sha256_hex (result_value r) ≡ ok (result_value r)
  unfolding require_outcome
  verify_result-denial input_digest i is k =
      let draft = record (denial input_digest (i ∷ is)) { result_digest = k.result_digest } in
      let (j, js, sorted) = sort_texts-cons i is in
      subst
        (λ (x : BoundaryResult). verify_result sha256_hex (result_value x) ≡ ok (result_value x))
        (sym k.same)
        (verify_result-sealed draft k.digested
          (rw (sorted, require_outcome) (rw (ltb_one (length (items (array (map str js))))) refl)))

  verify_result-reconstruction :
      (a b : String) (evidence_digest action_digest : String) (action : ReconstructedAction)
      (evidence : List Evidence) {r : BoundaryResult}
      → digest sha256_hex (evidence_list evidence) ≡ ok evidence_digest
      → digest sha256_hex (obj (action_fields action)) ≡ ok action_digest
      → IsSealed sha256_hex (reconstruction a b evidence_digest action_digest action evidence) r
      → verify_result sha256_hex (result_value r) ≡ ok (result_value r)
  unfolding require_outcome require_candidate
  verify_result-reconstruction a b evidence_digest action_digest action evidence bound named k =
      let draft = record (reconstruction a b evidence_digest action_digest action evidence) {
        result_digest = k.result_digest;
      } in
      subst
        (λ (x : BoundaryResult). verify_result sha256_hex (result_value x) ≡ ok (result_value x))
        (sym k.same)
        (verify_result-sealed draft k.digested (
          rw
            (
              require_digest-ok (evidence_list evidence) evidence_digest bound,
              require_digest-ok (obj (action_fields action)) action_digest named,
              require_outcome,
            )
            refl))

  -- The verifier accepts every result of the boundary, and returns it as it is.
  pub reconstruct-verified :
      (locale_lt : String → String → Bool) (candidate context : Value) {r : BoundaryResult}
      → reconstruct sha256_hex locale_lt candidate context ≡ ok r
      → verify_result sha256_hex (result_value r) ≡ ok (result_value r)
  reconstruct-verified locale_lt candidate context h =
      elim (reconstruct-cases sha256_hex locale_lt candidate context h) [
        | inr d ↦
            verify_result-denial d.input_digest d.issue d.issues
              (make_result-IsSealed sha256_hex (denial d.input_digest (d.issue ∷ d.issues)) d.made)
        | inl x ↦
            let m = reconstruct_parsed-IsMade sha256_hex x.k x.c x.made in
            let action = reconstruct_action x.k.arguments x.c in
            verify_result-reconstruction m.input_digest m.candidate_digest m.evidence_digest
              m.action_digest action m.evidence m.evidence_bound m.action_bound
              (make_result-IsSealed sha256_hex
                (reconstruction m.input_digest m.candidate_digest m.evidence_digest m.action_digest
                  action m.evidence)
                m.made)
      ]
