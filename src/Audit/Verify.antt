-- ===== src/Audit/Verify.antt =====
-- protected-audit-timeline.ts: `verifyProtectedAuditTimelineV1`.
use chimp_maera.Common.{
  ℕ, ◌+◌, String, Bool, false, not, ◌&&◌, ◌||◌, Option, none, some, List, [], ◌∷◌, ◌++◌, ◌==◌, ltb,
  leb, eqb, length, includes, is_some, if◌then◌else◌, Result, ok, ◌>>=◌,
}
use chimp_maera.Json.{Value, obj, Fields}
use chimp_maera.Audit.{
  EventKind, AuditEvent, Candidate, Checkpoint, Crypto, kind_eq, SignerReference, TrustPolicy,
  VerifiedFact, Verification, verified, unverifiable,
}
use chimp_maera.Audit.Event.{Validation, allow, deny, digest, validate_event}
use chimp_maera.Audit.Shape.{
  read_envelope, read_checkpoint, verify_signature, unsigned, KeyFinding, found, missing, key_for,
}
use chimp_maera.Audit.Causal.{
  push_unique, report, push_all, same_text, PriorByKind, no_prior, set_prior, causal_issues,
}

-- The variables of the verifier's loop. `none` of a time is the initial -1, of the digest null, and
-- of the two ids undefined.
pub record Scan : Type 0 where
  pub issues : List String
  pub facts : List VerifiedFact
  pub prior_by_kind : PriorByKind
  pub event_ids : List String
  pub prior_envelope_digest : Option String
  pub prior_signed_at : Option ℕ
  pub prior_occurred_at : Option ℕ
  pub prior_observed_at : Option ℕ
  pub operation_id : Option String
  pub correlation_id : Option String

abbrev pub start : List String → Scan
start issues = record {
  issues = issues;
  facts = [];
  prior_by_kind = no_prior;
  event_ids = [];
  prior_envelope_digest = none;
  prior_signed_at = none;
  prior_occurred_at = none;
  prior_observed_at = none;
  operation_id = none;
  correlation_id = none;
}

-- `time < prior`, `time <= prior`
abbrev pub is_before : ℕ → Option ℕ → Bool
is_before t none = false
is_before t (some p) = ltb t p

abbrev pub not_after : ℕ → Option ℕ → Bool
not_after t none = false
not_after t (some p) = leb t p

-- `prior !== undefined && id !== prior`
abbrev pub differs_from : String → Option String → Bool
differs_from id none = false
differs_from id (some p) = not (id == p)

-- `prior ??= id`
abbrev pub or_set : Option String → String → Option String
or_set none id = some id
or_set (some p) id = some p

abbrev pub fact_of : AuditEvent → String → VerifiedFact
fact_of e d = record {
  sequence = e.sequence;
  event_id = e.event_id;
  kind = e.kind;
  event_digest = d;
  outcome = e.outcome;
  reason_codes = e.reason_codes;
  references = e.references;
}

-- The tests of the loop's body before the causal ones, in their order.
abbrev pub event_tests :
    Checkpoint → ℕ → Scan → Candidate → AuditEvent → String → List (Bool × String)
event_tests checkpoint index s cand e d =
    (not (cand.event_digest == d), "AUDIT_EVENT_DIGEST_MISMATCH_DENIED")
    ∷ (
      not (e.timeline_id == checkpoint.timeline_id) || not (e.tenant == checkpoint.tenant),
      "AUDIT_EVENT_SCOPE_DENIED",
    )
    ∷ (not (eqb e.sequence (index + 1)), "AUDIT_SEQUENCE_DENIED")
    ∷ (eqb index 0 && not (kind_eq e.kind EventKind.identity), "AUDIT_IDENTITY_ROOT_MISSING_DENIED")
    ∷ (
      not (same_text cand.previous_envelope_digest s.prior_envelope_digest),
      "AUDIT_ENVELOPE_CHAIN_DENIED",
    )
    ∷ (
      not_after cand.signed_at_ms s.prior_signed_at
          || is_before e.occurred_at_ms s.prior_occurred_at
          || is_before e.observed_at_ms s.prior_observed_at
          || ltb cand.signed_at_ms e.observed_at_ms,
      "AUDIT_CLOCK_ROLLBACK_DENIED",
    )
    ∷ (includes s.event_ids e.event_id, "AUDIT_EVENT_REPLAY_DUPLICATE_DENIED")
    ∷ (is_some (s.prior_by_kind e.kind), "AUDIT_EVENT_KIND_DUPLICATE_DENIED")
    ∷ (differs_from e.operation_id s.operation_id, "AUDIT_OPERATION_BINDING_DENIED")
    ∷ (differs_from e.correlation_id s.correlation_id, "AUDIT_CORRELATION_BINDING_DENIED")
    ∷ []

-- the variables after an envelope whose event is valid
abbrev pub advance : Scan → List String → Candidate → AuditEvent → String → String → Scan
advance s issues cand e d envelope_digest = record {
  issues = issues;
  facts = s.facts ++ fact_of e d ∷ [];
  prior_by_kind = set_prior e.kind d s.prior_by_kind;
  event_ids = e.event_id ∷ s.event_ids;
  prior_envelope_digest = some envelope_digest;
  prior_signed_at = some cand.signed_at_ms;
  prior_occurred_at = some e.occurred_at_ms;
  prior_observed_at = some e.observed_at_ms;
  operation_id = or_set s.operation_id e.operation_id;
  correlation_id = or_set s.correlation_id e.correlation_id;
}

module _ (c : Crypto) (trust : TrustPolicy) where
  -- the issues after `keyFor`, which pushes without a test for duplicates, and `verifySignature`
  unfoldable pub judge_signature : KeyFinding → Fields → String → String → List String → List String
  unfolding verify_signature
  judge_signature (missing found_issue) fields signature issue issues = issues ++ found_issue ∷ []
  judge_signature (found k) fields signature issue issues =
      if verify_signature c (unsigned fields) signature k.public_key_pem
      then issues
      else push_unique issues issue

  unfoldable pub signature_issues :
      SignerReference → ℕ → Fields → String → String → List String → List String
  unfolding key_for judge_signature
  signature_issues signer at = judge_signature (key_for trust signer at)

  module _ (checkpoint : Checkpoint) where
    -- The issues after an envelope whose event is valid.
    unfoldable pub envelope_issues : ℕ → Scan → Candidate → AuditEvent → String → List String
    unfolding report push_all causal_issues signature_issues
    envelope_issues index s cand e d =
        signature_issues cand.signer cand.signed_at_ms cand.fields cand.signature_base64
          "AUDIT_ENVELOPE_SIGNATURE_DENIED"
          (push_all (causal_issues e s.prior_by_kind)
            (report (event_tests checkpoint index s cand e d) s.issues))

    -- the body of the loop behind the validation of the event
    unfoldable pub scan_event : ℕ → Scan → Candidate → Validation → Result Scan
    unfolding digest envelope_issues
    scan_event index s cand (deny issues) = ok (record s { issues = push_all issues s.issues })
    scan_event index s cand (allow e d) = do
      envelope_digest ← digest c (obj cand.fields)
      ok (advance s (envelope_issues index s cand e d) cand e d envelope_digest)

    -- the body of the loop behind the test of the envelope's shape
    unfoldable pub scan_candidate : ℕ → Scan → Option Candidate → Result Scan
    unfolding validate_event scan_event
    scan_candidate index s none =
        ok (record s { issues = push_unique s.issues "AUDIT_ENVELOPE_SCHEMA_DENIED" })
    scan_candidate index s (some cand) = do
      validated ← validate_event c cand.event
      scan_event index s cand validated

    -- the body of the loop
    unfoldable pub scan_envelope : ℕ → Scan → Value → Result Scan
    unfolding read_envelope scan_candidate
    scan_envelope index s v = scan_candidate index s (read_envelope v)

    unfoldable pub scan_all : ℕ → Scan → List Value → Result Scan
    scan_all index s [] = ok s
    scan_all index s (v ∷ vs) = do s' ← scan_envelope index s v; scan_all (index + 1) s' vs

    -- the answer, from all issues
    unfoldable pub settle : Scan → List String → Result Verification
    settle s [] = do
      d ← digest c (obj checkpoint.fields)
      ok (verified checkpoint.timeline_id checkpoint.tenant d s.facts)
    settle s (i ∷ is) = ok (unverifiable (i ∷ is))

    abbrev pub head_tests : Scan → List (Bool × String)
    head_tests s =
        (
          not (same_text s.prior_envelope_digest (some checkpoint.head_envelope_digest)),
          "AUDIT_CHECKPOINT_HEAD_MISMATCH_DENIED",
        )
        ∷ (is_before checkpoint.issued_at_ms s.prior_signed_at, "AUDIT_CHECKPOINT_CLOCK_DENIED")
        ∷ []

    -- the checks behind the loop
    unfoldable pub conclude : Scan → Result Verification
    unfolding report settle
    conclude s = settle s (report (head_tests s) s.issues)

    -- the checks of the checkpoint before the loop
    unfoldable pub checkpoint_issues : ℕ → List String
    unfolding report signature_issues
    checkpoint_issues count =
        report
          ((not (eqb count checkpoint.event_count), "AUDIT_CHECKPOINT_COUNT_MISMATCH_DENIED") ∷ [])
          (signature_issues checkpoint.signer checkpoint.issued_at_ms checkpoint.fields
            checkpoint.signature_base64 "AUDIT_CHECKPOINT_SIGNATURE_DENIED"
            (report
              ((
                not (checkpoint.timeline_id == trust.timeline_id)
                    || not (checkpoint.tenant == trust.tenant),
                "AUDIT_CHECKPOINT_SCOPE_DENIED",
              )
                ∷ [])
              []))

  -- `verifyProtectedAuditTimelineV1`
  unfoldable pub verify_timeline : List Value → Value → Result Verification
  unfolding read_checkpoint checkpoint_issues scan_all conclude
  verify_timeline envelopes checkpoint_value = elim (read_checkpoint checkpoint_value) [
    | none ↦ ok (unverifiable ("AUDIT_CHECKPOINT_SCHEMA_DENIED" ∷ []))
    | some checkpoint ↦ do
      s ← scan_all checkpoint 0 (start (checkpoint_issues checkpoint (length envelopes))) envelopes
      conclude checkpoint s
  ]
