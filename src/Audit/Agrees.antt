-- ===== src/Audit/Agrees.antt =====
-- protected-audit-timeline.ts: the verifier's loop over what the writer made keeps step with the
-- writer's state, and reports nothing.
use mathlib.Core.List.{get_last?, foldl-append, map-append}
use mathlib.Core.Option
use chimp_maera.Common.{
  ok_injective, ℕ, ◌≤◌, String, ◌≡◌, refl, sym, ap, ◌∙◌, true, false, not, ◌||◌, Option, none, some,
  List, [], ◌∷◌, ◌++◌, arith, length, ltb, map, includes, is_some, get_last?-snoc, ok, eq_refl,
  eq_iff, subst,
}
use chimp_maera.Json.{Value}
use chimp_maera.Audit.{
  AuditEvent, AuditEnvelope, Checkpoint, Crypto, EventKind, TrustPolicy, VerifiedFact,
}
use chimp_maera.Audit.Event.{digest}
use chimp_maera.Audit.Envelope.{envelope_value, envelope_fields}
use chimp_maera.Audit.Causal.{same_text, causal_issues, no_prior, push_all, report, set_prior}
use chimp_maera.Audit.Verify.{
  Scan, event_tests, advance, envelope_issues, scan_candidate, scan_event, scan_envelope, fact_of,
  is_before, not_after, differs_from, or_set, signature_issues,
}
use chimp_maera.Audit.Writer.{AuditWriter, lookup, prior_of, set_envelope, follows, previous_digest}
use chimp_maera.Audit.Laws.{CryptoLaws}
use chimp_maera.Audit.Made.{candidate_of, read_envelope-envelope_value}
use chimp_maera.Audit.Appended.{extended, IsAppended}
use chimp_maera.Audit.Silent.{AllFalse, report-AllFalse, Trusts, signature_issues-signed}

abbrev pub envelope_fact : AuditEnvelope → VerifiedFact
envelope_fact e = fact_of e.event e.event_digest

-- The loop's variables after the envelopes of a writer.
pub record Agrees (c : Crypto) (w : AuditWriter) (s : Scan) : Type 0 where
  pub clean : s.issues ≡ []
  pub facts : s.facts ≡ map envelope_fact w.envelopes
  pub prior : s.prior_by_kind ≡ prior_of w.envelopes
  pub ids : (id : String) → includes s.event_ids id ≡ is_some (lookup id w.events_by_id)
  pub head : previous_digest c (get_last? w.envelopes) ≡ ok s.prior_envelope_digest
  pub signed :
      s.prior_signed_at ≡ Option.map (λ (e : AuditEnvelope). e.signed_at_ms) (get_last? w.envelopes)
  pub occurred :
      s.prior_occurred_at
      ≡ Option.map (λ (e : AuditEnvelope). e.event.occurred_at_ms) (get_last? w.envelopes)
  pub observed :
      s.prior_observed_at
      ≡ Option.map (λ (e : AuditEnvelope). e.event.observed_at_ms) (get_last? w.envelopes)
  pub operation :
      s.operation_id
      ≡ Option.map (λ (e : AuditEnvelope). e.event.operation_id) (get_last? w.envelopes)
  pub correlation :
      s.correlation_id
      ≡ Option.map (λ (e : AuditEnvelope). e.event.correlation_id) (get_last? w.envelopes)

same_text_refl : (o : Option String) → same_text o o ≡ true
same_text_refl none = refl
same_text_refl (some s) = eq_refl s

-- What `follows` has checked, in the words of the verifier's tests.
follows-clock :
    (e : AuditEvent) (at : ℕ) (last : Option AuditEnvelope) {u : Unit {0}}
    → follows e at last ≡ ok u
    → e.observed_at_ms ≤ at
    → (not_after at (Option.map (λ (p : AuditEnvelope). p.signed_at_ms) last)
        || is_before e.occurred_at_ms
            (Option.map (λ (p : AuditEnvelope). p.event.occurred_at_ms) last)
        || is_before e.observed_at_ms
            (Option.map (λ (p : AuditEnvelope). p.event.observed_at_ms) last)
        || ltb at e.observed_at_ms)
      ≡ false
unfolding follows
follows-clock e at none h o = ground arith
follows-clock e at (some p) h o = ground arith

follows-ids :
    (e : AuditEvent) (at : ℕ) (last : Option AuditEnvelope) {u : Unit {0}}
    → follows e at last ≡ ok u
    → (differs_from e.operation_id (Option.map (λ (p : AuditEnvelope). p.event.operation_id) last)
        ≡ false)
      × (differs_from e.correlation_id
            (Option.map (λ (p : AuditEnvelope). p.event.correlation_id) last)
          ≡ false)
unfolding follows
follows-ids e at none h = (refl, refl)
follows-ids e at (some p) h = ground arith

or_set_lem : (o : Option String) (id : String) → differs_from id o ≡ false → or_set o id ≡ some id
or_set_lem none id h = refl
or_set_lem (some p) id h = ground (arith, eq_iff id p)

module _ (c : Crypto) (trust : TrustPolicy) (checkpoint : Checkpoint) (w : AuditWriter)
    (laws : CryptoLaws c w.signer) (trusts : Trusts trust w.signer)
    (timeline : checkpoint.timeline_id ≡ w.timeline_id)
    (tenant : checkpoint.tenant ≡ w.tenant) where
  event_tests-AllFalse :
      (s : Scan) {v : Value} {at : ℕ} {w' : AuditWriter} (e : AuditEnvelope)
      → Agrees c w s
      → IsAppended c w laws v at w' e
      → AllFalse
          (event_tests checkpoint (length w.envelopes) s (candidate_of e) e.event e.event_digest)
  event_tests-AllFalse s {at} e g a =
      let fits =
        subst (λ t. follows e.event t (get_last? w.envelopes) ≡ ok tt) (sym a.made.signed_at)
          a.admitted.follows in
      let (op, cor) = follows-ids e.event e.signed_at_ms (get_last? w.envelopes) fits in
      let head : s.prior_envelope_digest ≡ e.previous_envelope_digest =
        ok_injective (sym g.head ∙ a.previous) ∙ sym a.made.previous in
      (
        rw (eq_refl e.event_digest),
        (
          rw (timeline, tenant, a.admitted.timeline_id, a.admitted.tenant),
          (
            ap not a.admitted.sequence,
            (
              a.admitted.root,
              (
                rw head (rw (same_text_refl e.previous_envelope_digest)),
                (
                  rw (g.signed, g.occurred, g.observed)
                      (follows-clock e.event e.signed_at_ms (get_last? w.envelopes) fits
                        a.made.signed.observed),
                  (
                    g.ids e.event.event_id ∙ ap is_some a.unknown,
                    (
                      ap (λ (p : EventKind → Option String). is_some (p e.event.kind)) g.prior
                          ∙ a.admitted.fresh,
                      (rw g.operation op, (rw g.correlation cor, tt)),
                    ),
                  ),
                ),
              ),
            ),
          ),
        ),
      )

  causal_issues-silent :
      (s : Scan) {v : Value} {at : ℕ} {w' : AuditWriter} (e : AuditEnvelope)
      → Agrees c w s
      → IsAppended c w laws v at w' e
      → (issues : List String) → push_all (causal_issues e.event s.prior_by_kind) issues ≡ issues
  unfolding push_all
  causal_issues-silent s e g a issues =
      ap (λ p. push_all (causal_issues e.event p) issues) g.prior
      ∙ ap (λ is. push_all is issues) a.admitted.causal

  envelope_issues-silent :
      (s : Scan) {v : Value} {at : ℕ} {w' : AuditWriter} (e : AuditEnvelope)
      → Agrees c w s
      → IsAppended c w laws v at w' e
      → envelope_issues c trust checkpoint
          (length w.envelopes)
          s
          (candidate_of e)
          e.event
          e.event_digest
        ≡ []
  unfolding envelope_issues
  envelope_issues-silent s e g a =
      let signed = a.made.signed in
      let tests =
        event_tests checkpoint (length w.envelopes) s (candidate_of e) e.event e.event_digest in
      let reported = report tests s.issues in
      let caused = push_all (causal_issues e.event s.prior_by_kind) reported in
      ap
        (λ r.
          signature_issues c trust r e.signed_at_ms (envelope_fields e) e.signature_base64
            "AUDIT_ENVELOPE_SIGNATURE_DENIED" caused)
        signed.signer
      ∙ signature_issues-signed c trust w.signer trusts e.signed_at_ms (envelope_fields e)
          e.signature_base64 "AUDIT_ENVELOPE_SIGNATURE_DENIED" caused signed.window.from
          signed.window.until signed.signed
      ∙ causal_issues-silent s e g a reported
      ∙ report-AllFalse tests s.issues (event_tests-AllFalse s e g a)
      ∙ g.clean

  pub scan_envelope-appended :
      (s : Scan) {v : Value} {at : ℕ} {w' : AuditWriter} (e : AuditEnvelope) {d : String}
      → Agrees c w s
      → IsAppended c w laws v at w' e
      → digest c (envelope_value e) ≡ ok d
      → scan_envelope c trust checkpoint (length w.envelopes) s (envelope_value e)
        ≡ ok (advance s [] (candidate_of e) e.event e.event_digest d)
  unfolding scan_envelope scan_candidate scan_event
  scan_envelope-appended s e g a h = rw (
    read_envelope-envelope_value e a.made.signed.shaped,
    a.made.signed.valid,
    h,
    envelope_issues-silent s e g a,
  )

  -- The loop's variables agree with the writer's state after the append.
  pub advance-Agrees :
      (s : Scan) {v : Value} {at : ℕ} {w' : AuditWriter} (e : AuditEnvelope) {d : String}
      → Agrees c w s
      → IsAppended c w laws v at w' e
      → digest c (envelope_value e) ≡ ok d
      → Agrees c (extended w e) (advance s [] (candidate_of e) e.event e.event_digest d)
  unfolding lookup previous_digest
  advance-Agrees s {at} e {d} g a h =
      let fits =
        subst (λ t. follows e.event t (get_last? w.envelopes) ≡ ok tt) (sym a.made.signed_at)
          a.admitted.follows in
      let (op, cor) = follows-ids e.event e.signed_at_ms (get_last? w.envelopes) fits in
      let last = get_last?-snoc w.envelopes e in
      record {
        clean = refl;
        facts =
            ap (λ fs. fs ++ envelope_fact e ∷ []) g.facts
            ∙ sym (map-append envelope_fact w.envelopes (e ∷ []));
        prior =
            ap (set_prior e.event.kind e.event_digest) g.prior
            ∙ sym (foldl-append set_envelope no_prior w.envelopes (e ∷ []));
        ids = λ id. ground (arith, g.ids id);
        head = rw (last, previous_digest, h);
        signed = rw last;
        occurred = rw last;
        observed = rw last;
        operation = rw last (or_set_lem s.operation_id e.event.operation_id (rw g.operation op));
        correlation =
            rw last (or_set_lem s.correlation_id e.event.correlation_id (rw g.correlation cor));
      }
