-- ===== src/Audit/Envelope.antt =====
-- protected-audit-timeline.ts: envelopes and checkpoints, made by a signer and read by the verifier.
use chimp_maera.Common.{
  ℕ, String, Bool, true, ◌&&◌, Option, none, some, List, [], ◌∷◌, ◌==◌, ltb, leb, length, Result,
  ok, err, ◌>>=◌, ◌>>◌, require, or_throw,
}
use chimp_maera.Json.{Value, null, str, num, nat, obj, Fields, end, field}
use chimp_maera.Json.Canonical.{canonical_json}
use chimp_maera.Json.Guards.{max_safe_integer}
use chimp_maera.Audit.{AuditEvent, AuditEnvelope, Checkpoint, Crypto, Signer, SignerReference}
use chimp_maera.Audit.Guards.{id_ok, digest_ok}
use chimp_maera.Audit.Event.{allow, deny, digest, validate_event}
use mathlib.Core.List.{get_last?}

abbrev pub envelope_schema : String
envelope_schema = "chimpmaera.audit/protected-envelope/v1"

abbrev pub checkpoint_schema : String
checkpoint_schema = "chimpmaera.audit/protected-checkpoint/v1"

abbrev pub null_or : Option String → Value
null_or none = null
null_or (some s) = str s

abbrev pub signer_value : SignerReference → Value
signer_value s = obj (
    field "algorithm" (str s.algorithm)
      (field "keyId" (str s.key_id) (field "generation" (num (nat s.generation)) end)))

-- `signerReference`
abbrev pub signer_reference : Signer → SignerReference
signer_reference s = record {
  algorithm = s.algorithm;
  key_id = s.key_id;
  generation = s.generation;
}

-- The fields of an envelope before `rest`: the core that is signed with `end`, the envelope with the
-- signature's field.
abbrev pub envelope_core : Value → String → Option String → ℕ → SignerReference → Fields → Fields
envelope_core event event_digest previous signed_at signer rest =
    field "schemaVersion" (str envelope_schema) (
      field "event" event (
        field "eventDigest" (str event_digest) (
          field "previousEnvelopeDigest" (null_or previous) (
            field "signedAtMs" (num (nat signed_at)) (field "signer" (signer_value signer) rest)))))

abbrev pub signature_field : String → Fields
signature_field signature = field "signatureBase64" (str signature) end

abbrev pub envelope_fields : AuditEnvelope → Fields
envelope_fields e =
    envelope_core e.event.value e.event_digest e.previous_envelope_digest e.signed_at_ms e.signer
      (signature_field e.signature_base64)

abbrev pub envelope_value : AuditEnvelope → Value
envelope_value e = obj (envelope_fields e)

abbrev pub checkpoint_core : String → String → ℕ → String → ℕ → SignerReference → Fields → Fields
checkpoint_core timeline tenant count head issued_at signer rest =
    field "schemaVersion" (str checkpoint_schema) (
      field "timelineId" (str timeline) (
        field "tenant" (str tenant) (
          field "eventCount" (num (nat count)) (
            field "headEnvelopeDigest" (str head) (
              field "issuedAtMs" (num (nat issued_at))
                (field "signer" (signer_value signer) rest))))))

-- `assertSignerUsable`
unfoldable pub assert_signer_usable : Signer → ℕ → Result (Unit {0})
unfolding id_ok
assert_signer_usable s at =
    require
      (s.algorithm == "Ed25519"
        && id_ok s.key_id
        && leb s.generation max_safe_integer
        && leb 1 s.generation
        && leb at max_safe_integer
        && leb s.valid_from_ms at
        && ltb at s.valid_until_ms)
      "AUDIT_SIGNER_WINDOW_DENIED"

abbrev first_issue : List String → String
first_issue [] = "undefined"
first_issue (i ∷ is) = i

abbrev pub previous_ok : Option String → Bool
previous_ok none = true
previous_ok (some d) = digest_ok d

abbrev pub built :
    AuditEvent → String → Option String → ℕ → SignerReference → String → AuditEnvelope
built event event_digest previous signed_at signer signature = record {
  event = event;
  event_digest = event_digest;
  previous_envelope_digest = previous;
  signed_at_ms = signed_at;
  signer = signer;
  signature_base64 = signature;
}

abbrev pub stamped : AuditEvent → ℕ → String → ℕ → SignerReference → String → Checkpoint
stamped event count head issued_at signer signature = record {
  fields =
      checkpoint_core event.timeline_id event.tenant count head issued_at signer
        (signature_field signature);
  timeline_id = event.timeline_id;
  tenant = event.tenant;
  event_count = count;
  head_envelope_digest = head;
  issued_at_ms = issued_at;
  signer = signer;
  signature_base64 = signature;
}

module _ (c : Crypto) where
  -- `sign(null, canonicalJson(core), privateKey).toString("base64")`
  unfoldable pub sign_core : Fields → Signer → Result String
  sign_core core s = do
    message ← or_throw (canonical_json (obj core)) "TypeError"
    signature ← or_throw (c.sign message s.private_key_pem) "ERR_CRYPTO"
    ok (c.to_base64 signature)

  -- `throw new Error(validated.issues[0])` where the event is denied
  unfoldable pub require_event : Value → Result (AuditEvent × String)
  unfolding validate_event
  require_event v = do
    validated ← validate_event c v
    elim validated [ deny issues ↦ err (first_issue issues) | allow event d ↦ ok (event, d) ]

  -- `createProtectedAuditEnvelopeV1`
  unfoldable pub create_envelope : Value → Option String → Signer → ℕ → Result AuditEnvelope
  unfolding require_event assert_signer_usable sign_core digest_ok
  create_envelope v previous s signed_at = do
    (event, event_digest) ← require_event v
    require (previous_ok previous) "AUDIT_PREVIOUS_ENVELOPE_DIGEST_DENIED"
    assert_signer_usable s signed_at
    require (leb event.observed_at_ms signed_at) "AUDIT_SIGNED_BEFORE_OBSERVATION_DENIED"
    signature ←
        sign_core (envelope_core v event_digest previous signed_at (signer_reference s) end) s
    ok (built event event_digest previous signed_at (signer_reference s) signature)

  -- `createCheckpoint`, on the first and the last envelope
  unfoldable pub checkpoint_of : AuditEnvelope → AuditEnvelope → ℕ → Signer → ℕ → Result Checkpoint
  unfolding assert_signer_usable sign_core digest
  checkpoint_of first head count s issued_at = do
    assert_signer_usable s issued_at
    require (leb head.signed_at_ms issued_at) "AUDIT_CHECKPOINT_CLOCK_DENIED"
    head_digest ← digest c (obj (envelope_fields head))
    signature ←
        sign_core
          (checkpoint_core first.event.timeline_id first.event.tenant count head_digest issued_at
            (signer_reference s) end)
          s
    ok (stamped first.event count head_digest issued_at (signer_reference s) signature)

  -- the head is `envelopes.at(-1)`
  unfoldable pub checkpoint_at :
      AuditEnvelope → Option AuditEnvelope → ℕ → Signer → ℕ → Result Checkpoint
  checkpoint_at first none count s issued_at = err "AUDIT_CHECKPOINT_EMPTY_DENIED"
  checkpoint_at first (some head) count s issued_at = checkpoint_of first head count s issued_at

  unfoldable pub create_checkpoint : List AuditEnvelope → Signer → ℕ → Result Checkpoint
  unfolding checkpoint_at checkpoint_of
  create_checkpoint [] s issued_at = err "AUDIT_CHECKPOINT_EMPTY_DENIED"
  create_checkpoint (first ∷ rest) s issued_at =
      checkpoint_at first (get_last? (first ∷ rest)) (length (first ∷ rest)) s issued_at
