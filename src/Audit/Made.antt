-- ===== src/Audit/Made.antt =====
-- protected-audit-timeline.ts: what the writer's side makes, the verifier's side reads back.
use chimp_maera.Common.{ℕ, ◌≤◌, String, ◌≡◌, refl, sym, ap, true, Option, none, some, arith, eq_iff}
use chimp_maera.Json.{str, num, nat, obj, Fields}
use chimp_maera.Json.Guards.{has_keys, max_safe_integer, safe_integer}
use chimp_maera.Audit.{AuditEnvelope, Candidate, Checkpoint, SignerReference}
use chimp_maera.Audit.Guards.{digest_ok, id_ok, valid_digest, valid_id}
use chimp_maera.Audit.Read.{read_signer_reference}
use chimp_maera.Audit.Envelope.{
  null_or, signer_value, envelope_fields, envelope_value, previous_ok, checkpoint_core,
  signature_field,
}
use chimp_maera.Audit.Shape.{base64_ok, digest_or_null, read_envelope, read_checkpoint}

-- A signer's reference that passes `validSignerReference`.
pub record IsUsable (s : SignerReference) : Type 0 where
  pub ed25519 : s.algorithm ≡ "Ed25519"
  pub key_id : id_ok s.key_id ≡ true
  pub positive : 1 ≤ s.generation
  pub safe : s.generation ≤ max_safe_integer

safe_integer_lem :
    (least n : ℕ) → least ≤ n → n ≤ max_safe_integer → safe_integer least (num (nat n)) ≡ some n
safe_integer_lem least n h k = ground arith

read_signer_reference-signer_value :
    (s : SignerReference) → IsUsable s → read_signer_reference (signer_value s) ≡ some s
unfolding read_signer_reference has_keys
read_signer_reference-signer_value s u = ground (arith, eq_iff s.algorithm "Ed25519")

valid_digest_lem : (d : String) → digest_ok d ≡ true → valid_digest (str d) ≡ some d
unfolding valid_digest
valid_digest_lem d h = rw h

digest_or_null_lem :
    (o : Option String) → previous_ok o ≡ true → digest_or_null (null_or o) ≡ some o
digest_or_null_lem none h = refl
digest_or_null_lem (some d) h = rw (valid_digest_lem d h)

abbrev pub candidate_of : AuditEnvelope → Candidate
candidate_of e = record {
  fields = envelope_fields e;
  event = e.event.value;
  event_digest = e.event_digest;
  previous_envelope_digest = e.previous_envelope_digest;
  signed_at_ms = e.signed_at_ms;
  signer = e.signer;
  signature_base64 = e.signature_base64;
}

-- An envelope whose own texts and numbers pass `validateEnvelopeShape`.
pub record IsShaped (e : AuditEnvelope) : Type 0 where
  pub digested : digest_ok e.event_digest ≡ true
  pub previous : previous_ok e.previous_envelope_digest ≡ true
  pub signed_at : e.signed_at_ms ≤ max_safe_integer
  pub signer : IsUsable e.signer
  pub signature : base64_ok e.signature_base64 ≡ true

pub read_envelope-envelope_value :
    (e : AuditEnvelope) → IsShaped e → read_envelope (envelope_value e) ≡ some (candidate_of e)
unfolding read_envelope has_keys
read_envelope-envelope_value e s = rw (
  s.digested,
  digest_or_null_lem e.previous_envelope_digest s.previous,
  safe_integer_lem 0 e.signed_at_ms (omega arith) s.signed_at,
  read_signer_reference-signer_value e.signer s.signer,
  s.signature,
)

-- A checkpoint whose own texts and numbers pass `validateCheckpointShape`, with the fields that
-- `createCheckpoint` gives it.
pub record IsCheckpoint (p : Checkpoint) : Type 0 where
  pub timeline_id : id_ok p.timeline_id ≡ true
  pub tenant : id_ok p.tenant ≡ true
  pub positive : 1 ≤ p.event_count
  pub safe : p.event_count ≤ max_safe_integer
  pub head : digest_ok p.head_envelope_digest ≡ true
  pub issued_at : p.issued_at_ms ≤ max_safe_integer
  pub signer : IsUsable p.signer
  pub signature : base64_ok p.signature_base64 ≡ true
  pub made :
      p.fields
      ≡ checkpoint_core p.timeline_id p.tenant p.event_count p.head_envelope_digest p.issued_at_ms
          p.signer
          (signature_field p.signature_base64)

valid_id_lem : (s : String) → id_ok s ≡ true → valid_id (str s) ≡ some s
unfolding valid_id
valid_id_lem s h = rw h

pub read_checkpoint-fields :
    (p : Checkpoint) → IsCheckpoint p → read_checkpoint (obj p.fields) ≡ some p
unfolding read_checkpoint has_keys
read_checkpoint-fields p s = simp s.made (
    rw
      (
        s.timeline_id,
        valid_id_lem p.tenant s.tenant,
        safe_integer_lem 1 p.event_count s.positive s.safe,
        valid_digest_lem p.head_envelope_digest s.head,
        safe_integer_lem 0 p.issued_at_ms (omega arith) s.issued_at,
        read_signer_reference-signer_value p.signer s.signer,
        s.signature,
      )
      (ap (λ (fs : Fields). some (record p { fields = fs })) (sym s.made)))
