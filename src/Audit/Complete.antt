-- ===== src/Audit/Complete.antt =====
-- protected-audit-timeline.ts: what the writer makes, the verifier accepts.
use mathlib.Core.Option
use chimp_maera.Common.{
  ok_injective, ℕ, ◌≤◌, String, ◌≡◌, refl, sym, ap, ◌∙◌, true, false, not, Option, none, some, List,
  [], ◌==◌, arith, length, length-map, eqb_refl, map, All, ok, eq_iff, subst,
}
use chimp_maera.Json.{Value, obj}
use chimp_maera.Audit.{
  AuditEnvelope, Checkpoint, Crypto, Signer, TrustPolicy, Verification, verified,
}
use chimp_maera.Audit.Event.{digest}
use chimp_maera.Audit.Envelope.{envelope_value, signer_reference, stamped}
use chimp_maera.Audit.Shape.{read_checkpoint, verify_signature, unsigned}
use chimp_maera.Audit.Verify.{
  Scan, start, scan_all, head_tests, settle, conclude, checkpoint_issues, verify_timeline,
  signature_issues,
}
use chimp_maera.Audit.Writer.{AuditWriter, previous_digest, snapshot, checkpoint}
use chimp_maera.Audit.Causal.{same_text}
use chimp_maera.Audit.Laws.{CryptoLaws, digest_of_text}
use chimp_maera.Audit.Made.{IsCheckpoint, read_checkpoint-fields}
use chimp_maera.Audit.Signed.{InWindow, sign_core-verifies, digest-digest_ok}
use chimp_maera.Audit.Silent.{report-AllFalse, Trusts, signature_issues-signed}
use chimp_maera.Audit.Agrees.{envelope_fact}
use chimp_maera.Audit.Reached.{Reached, Reached-IsConsistent, IsConsistent, Scanned}
use chimp_maera.Audit.Stamped.{IsStamped, create_checkpoint-IsStamped, HasText-stamped}

head_matches : (o : Option String) (d : String) → o ≡ some d → not (same_text o (some d)) ≡ false
head_matches none d h = cc
head_matches (some x) d h = ground (arith, eq_iff x d)

module _ (c : Crypto) (s : Signer) (laws : CryptoLaws c s) (trust : TrustPolicy)
    (trusts : Trusts trust s) (p : Checkpoint) where
  -- The checks on a checkpoint before the loop find nothing.
  checkpoint_issues-silent :
      p.signer ≡ signer_reference s
      → InWindow s p.issued_at_ms
      → verify_signature c (unsigned p.fields) p.signature_base64 s.public_key_pem ≡ true
      → (p.timeline_id == trust.timeline_id) ≡ true
      → (p.tenant == trust.tenant) ≡ true
      → checkpoint_issues c trust p p.event_count ≡ []
  unfolding checkpoint_issues
  checkpoint_issues-silent signer window signed timeline tenant =
      rw (eqb_refl p.event_count, timeline, tenant)
        (ap
            (λ r.
              signature_issues c trust r p.issued_at_ms p.fields p.signature_base64
                "AUDIT_CHECKPOINT_SIGNATURE_DENIED" [])
            signer
          ∙ signature_issues-signed c trust s trusts p.issued_at_ms p.fields p.signature_base64
              "AUDIT_CHECKPOINT_SIGNATURE_DENIED" [] window.from window.until signed)

  -- The checks behind the loop find nothing.
  conclude-verified :
      (state : Scan) {d : String} {at : ℕ}
      → state.issues ≡ []
      → state.prior_envelope_digest ≡ some p.head_envelope_digest
      → state.prior_signed_at ≡ some at
      → at ≤ p.issued_at_ms
      → digest c (obj p.fields) ≡ ok d
      → conclude c trust p state ≡ ok (verified p.timeline_id p.tenant d state.facts)
  unfolding conclude settle
  conclude-verified state clean head signed clock h =
      ap (settle c trust p state) (
        report-AllFalse (head_tests c trust p state) state.issues (
          head_matches state.prior_envelope_digest p.head_envelope_digest head,
          (rw signed (ground arith), tt),
        )
        ∙ clean)
      ∙ rw (settle, h)

module _ (c : Crypto) (trust : TrustPolicy) (envelopes : List Value) (p : Checkpoint) where
  -- The verifier's answer from the answers of its parts.
  verify_timeline-parts :
      (state : Scan) {answer : Verification}
      → read_checkpoint (obj p.fields) ≡ some p
      → checkpoint_issues c trust p (length envelopes) ≡ []
      → scan_all c trust p 0 (start []) envelopes ≡ ok state
      → conclude c trust p state ≡ ok answer
      → verify_timeline c trust envelopes (obj p.fields) ≡ ok answer
  unfolding verify_timeline
  verify_timeline-parts state read silent run settled =
      rw (read, verify_timeline, silent, run, settled)

previous_digest-some :
    (c : Crypto) (e : AuditEnvelope) {d : String}
    → digest c (envelope_value e) ≡ ok d
    → previous_digest c (some e) ≡ ok (some d)
unfolding previous_digest
previous_digest-some c e h = rw h

module _ (c : Crypto) (timeline tenant : String) (w : AuditWriter) (laws : CryptoLaws c w.signer)
    (k : IsConsistent c timeline tenant w.signer w) (at : ℕ) where
  stamped-IsCheckpoint :
      {p : Checkpoint} (st : IsStamped c w.signer w.envelopes at p)
      → IsCheckpoint (
          stamped st.origin.event
            (length w.envelopes)
            st.head_digest
            at
            (signer_reference w.signer)
            st.signature)
  stamped-IsCheckpoint st =
      let scoped =
        subst
          (All
            (λ (e : AuditEnvelope). (e.event.timeline_id ≡ timeline) × (e.event.tenant ≡ tenant)))
          st.all k.scoped in
      record {
        timeline_id = rw scoped.0.0 k.timeline_ok;
        tenant = rw scoped.0.1 k.tenant_ok;
        positive = rw st.all (omega arith);
        safe = k.small;
        head = digest-digest_ok c w.signer laws (envelope_value st.head) st.digested;
        issued_at = st.window.safe;
        signer = st.window.reference;
        signature = (sign_core-verifies c w.signer laws _ st.signed).1;
        made = refl;
      }

  module _ (trust : TrustPolicy) {p : Checkpoint} (st : IsStamped c w.signer w.envelopes at p)
      (trusts : Trusts trust w.signer) (same_timeline : trust.timeline_id ≡ timeline)
      (same_tenant : trust.tenant ≡ tenant) where
    abbrev given : Checkpoint
    given =
        stamped st.origin.event (length w.envelopes) st.head_digest at (signer_reference w.signer)
          st.signature

    origin_scope : (st.origin.event.timeline_id ≡ timeline) × (st.origin.event.tenant ≡ tenant)
    origin_scope =
        (subst
          (All
            (λ (e : AuditEnvelope). (e.event.timeline_id ≡ timeline) × (e.event.tenant ≡ tenant)))
          st.all k.scoped).0

    abbrev scanned : Scanned c trust given w
    scanned = k.scanned trust given trusts origin_scope.0 origin_scope.1

    issues_silent : checkpoint_issues c trust given (length (snapshot w)) ≡ []
    unfolding snapshot
    issues_silent =
        ap (checkpoint_issues c trust given) (length-map envelope_value w.envelopes)
        ∙ checkpoint_issues-silent c w.signer laws trust trusts given refl st.window
            (sign_core-verifies c w.signer laws _ st.signed).0
            ((eq_iff _ _).1 (origin_scope.0 ∙ sym same_timeline))
            ((eq_iff _ _).1 (origin_scope.1 ∙ sym same_tenant))

    -- The verifier accepts the writer's snapshot with the writer's checkpoint.
    stamped-verified :
        (d : String) × (verify_timeline c trust (snapshot w) (obj given.fields)
          ≡ ok (verified timeline tenant d (map envelope_fact w.envelopes)))
    stamped-verified =
        let text =
          HasText-stamped st.origin.event (length w.envelopes) st.head_digest at
            (signer_reference w.signer) st.signature in
        let agrees = scanned.agrees in
        let concluded =
          conclude-verified c w.signer laws trust trusts given scanned.state agrees.clean
            (ok_injective (
              sym agrees.head
              ∙ ap (previous_digest c) st.last
              ∙ previous_digest-some c st.head st.digested))
            (agrees.signed ∙ ap (Option.map (λ (e : AuditEnvelope). e.signed_at_ms)) st.last)
            st.not_before (digest_of_text c (obj given.fields) text.canonical) in
        (
          c.sha256_hex text.text,
          verify_timeline-parts c trust (snapshot w) given scanned.state
                (read_checkpoint-fields given (stamped-IsCheckpoint st)) issues_silent scanned.run
                concluded
              ∙ λ i. ok (
                  verified (origin_scope.0 i) (origin_scope.1 i) (c.sha256_hex text.text)
                    (agrees.facts i)),
        )

-- Whatever values a writer was given, if it reached a state by successful appends and makes a
-- checkpoint, the verifier accepts the writer's snapshot with the checkpoint and reports the
-- writer's events in their order, under a policy of the same timeline and tenant that trusts the
-- signer; node:crypto is assumed to verify what it signs.
pub checkpoint-verified :
    (c : Crypto) (timeline tenant : String) (s : Signer) (trust : TrustPolicy) (w : AuditWriter)
    (at : ℕ) (p : Checkpoint)
    → CryptoLaws c s
    → Trusts trust s
    → trust.timeline_id ≡ timeline
    → trust.tenant ≡ tenant
    → Reached c timeline tenant s w
    → checkpoint c w at ≡ ok p
    → (d : String) × (verify_timeline c trust (snapshot w) (obj p.fields)
        ≡ ok (verified timeline tenant d (map envelope_fact w.envelopes)))
unfolding checkpoint
checkpoint-verified c timeline tenant s trust w at p laws trusts t u reached h =
    let k = Reached-IsConsistent c timeline tenant s laws reached in
    let laws_w = subst (CryptoLaws c) (sym k.signer) laws in
    let trusts_w = subst (Trusts trust) (sym k.signer) trusts in
    let k_w = subst (λ x. IsConsistent c timeline tenant x w) (sym k.signer) k in
    let st = create_checkpoint-IsStamped c w.signer at w.envelopes h in
    subst
      (λ (q : Checkpoint).
        (d : String) × (verify_timeline c trust (snapshot w) (obj q.fields)
          ≡ ok (verified timeline tenant d (map envelope_fact w.envelopes))))
      (sym st.state) (stamped-verified c timeline tenant w laws_w k_w at trust st trusts_w t u)
