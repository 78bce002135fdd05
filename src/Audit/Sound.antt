-- ===== src/Audit/Sound.antt =====
-- protected-audit-timeline.ts: what the verifier accepts is a chain.
use chimp_maera.Common.{
  ok_injective, ℕ, ◌+◌, String, ◌≡◌, refl, sym, ap, ◌∙◌, Option, none, some, List, [], ◌∷◌, ok,
  on_ok, subst, eq_iff,
}
use chimp_maera.Json.{Value, obj}
use chimp_maera.Audit.{AuditEvent, Candidate, Checkpoint, Crypto, TrustPolicy}
use chimp_maera.Audit.Event.{Validation, allow, deny, digest, validate_event}
use chimp_maera.Audit.Shape.{read_envelope}
use chimp_maera.Audit.Causal.{causal_issues, report}
use chimp_maera.Audit.Verify.{
  Scan, advance, envelope_issues, event_tests, scan_all, scan_candidate, scan_event, scan_envelope,
}
use chimp_maera.Audit.Laws.{validate_event-deny}
use chimp_maera.Audit.Silent.{AllFalse}
use chimp_maera.Audit.Quiet.{
  SignedBy, report-eq-nil, push_all-eq-nil, push_unique-eq-nil, signature_issues-eq-nil,
}
use chimp_maera.Audit.Tracks.{not-eq-false}
use chimp_maera.Audit.Chain.{Link}

module _ (c : Crypto) (trust : TrustPolicy) (checkpoint : Checkpoint) where
  -- A round of the loop that leaves no issue.
  pub record IsClean (index : ℕ) (s : Scan) (v : Value) (t : Scan) : Type 0 where
    pub link : Link
    pub read : read_envelope v ≡ some link.candidate
    pub valid :
        validate_event c link.candidate.event ≡ ok (allow link.event link.candidate.event_digest)
    pub digested : digest c (obj link.candidate.fields) ≡ ok link.envelope_digest
    pub tests :
        AllFalse
          (event_tests checkpoint index s link.candidate link.event link.candidate.event_digest)
    pub causal : causal_issues link.event s.prior_by_kind ≡ []
    pub signed :
        SignedBy c trust link.candidate.signer link.candidate.signed_at_ms link.candidate.fields
          link.candidate.signature_base64
    pub before : s.issues ≡ []
    pub state :
        t ≡ advance s [] link.candidate link.event link.candidate.event_digest link.envelope_digest

  envelope_issues-eq-nil :
      (index : ℕ) (s : Scan) (cand : Candidate) (e : AuditEvent) (d : String)
      → envelope_issues c trust checkpoint index s cand e d ≡ []
      → SignedBy c trust cand.signer cand.signed_at_ms cand.fields cand.signature_base64
        × (causal_issues e s.prior_by_kind ≡ [])
        × AllFalse (event_tests checkpoint index s cand e d)
        × (s.issues ≡ [])
  unfolding envelope_issues
  envelope_issues-eq-nil index s cand e d h =
      let tests = event_tests checkpoint index s cand e d in
      let (signed, h1) =
        signature_issues-eq-nil c trust cand.signer cand.signed_at_ms cand.fields
          cand.signature_base64 "AUDIT_ENVELOPE_SIGNATURE_DENIED" _ h in
      let (causal, h2) =
        push_all-eq-nil (causal_issues e s.prior_by_kind) (report tests s.issues) h1 in
      let (silent, before) = report-eq-nil tests s.issues h2 in (signed, causal, silent, before)

  scan_event-IsClean :
      (index : ℕ) (s : Scan) (v : Value) (cand : Candidate) (validated : Validation) {t : Scan}
      → read_envelope v ≡ some cand
      → validate_event c cand.event ≡ ok validated
      → scan_event c trust checkpoint index s cand validated ≡ ok t
      → t.issues ≡ []
      → IsClean index s v t
  unfolding scan_event
  scan_event-IsClean index s v cand (deny is) {t} r p h q =
      let issues = push_all-eq-nil is s.issues (ap (λ (u : Scan). u.issues) (ok_injective h) ∙ q) in
      absurd (
        validate_event-deny c cand.event
          (subst (λ x. validate_event c cand.event ≡ ok (deny x)) issues.0 p))
  scan_event-IsClean index s v cand (allow e d) {t} r p h q =
      on_ok (digest c (obj cand.fields)) _ h λ envelope_digest digested h1.
        let issues = ap (λ (u : Scan). u.issues) (ok_injective h1) ∙ q in
        let (signed, causal, tests, before) = envelope_issues-eq-nil index s cand e d issues in
        let same = sym ((eq_iff cand.event_digest d).0 (not-eq-false _ tests.0)) in
        record {
          link = record { candidate = cand; event = e; envelope_digest = envelope_digest };
          read = r;
          valid = subst (λ x. validate_event c cand.event ≡ ok (allow e x)) same p;
          digested = digested;
          tests = subst (λ x. AllFalse (event_tests checkpoint index s cand e x)) same tests;
          causal = causal;
          signed = signed;
          before = before;
          state = sym (ok_injective h1) ∙ λ i. advance s (issues i) cand e (same i) envelope_digest;
        }

  scan_candidate-IsClean :
      (index : ℕ) (s : Scan) (v : Value) (o : Option Candidate) {t : Scan}
      → read_envelope v ≡ o
      → scan_candidate c trust checkpoint index s o ≡ ok t
      → t.issues ≡ []
      → IsClean index s v t
  unfolding scan_candidate
  scan_candidate-IsClean index s v none {t} r h q =
      absurd (push_unique-eq-nil s.issues _ (ap (λ (u : Scan). u.issues) (ok_injective h) ∙ q))
  scan_candidate-IsClean index s v (some cand) {t} r h q =
      on_ok (validate_event c cand.event) _ h
        λ validated p h1. scan_event-IsClean index s v cand validated r p h1 q

  pub scan_envelope-IsClean :
      (index : ℕ) (s : Scan) (v : Value) {t : Scan}
      → scan_envelope c trust checkpoint index s v ≡ ok t
      → t.issues ≡ []
      → IsClean index s v t
  unfolding scan_envelope
  scan_envelope-IsClean index s v h q = scan_candidate-IsClean index s v (read_envelope v) refl h q

  -- Issues are never taken back.
  pub scan_all-clean :
      (index : ℕ) (s : Scan) (vs : List Value) {t : Scan}
      → scan_all c trust checkpoint index s vs ≡ ok t
      → t.issues ≡ []
      → s.issues ≡ []
  unfolding scan_all
  scan_all-clean index s [] h q = ap (λ (u : Scan). u.issues) (ok_injective h) ∙ q
  scan_all-clean index s (v ∷ vs) h q =
      on_ok (scan_envelope c trust checkpoint index s v) _ h
        λ t p h1. (scan_envelope-IsClean index s v p (scan_all-clean (index + 1) t vs h1 q)).before
