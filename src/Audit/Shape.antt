-- ===== src/Audit/Shape.antt =====
-- protected-audit-timeline.ts: the shapes that the verifier accepts, `verifySignature` and `keyFor`.
use chimp_maera.Common.{
  ℕ, String, Bool, true, false, not, ◌&&◌, ◌||◌, Option, none, some, List, [], ◌∷◌, ◌==◌, ltb, leb,
  eqb, length, find, if◌then◌else◌,
}
use chimp_maera.Common.Order.{codes, sort_texts}
use chimp_maera.Common.Pattern.{is_alnum, one_of, ◌or◌, padded}
use chimp_maera.Common.Maybe.{◌>>=◌, ◌>>◌, check}
use chimp_maera.Json.{Value, obj, Fields, field_of, omit}
use chimp_maera.Json.Canonical.{canonical_json}
use chimp_maera.Json.Guards.{exact_object, as_text, is_text, is_null, safe_integer}
use chimp_maera.Audit.{
  Candidate, Checkpoint, Crypto, KeyStatus, active, retired, SignerReference, TrustKey, TrustPolicy,
}
use chimp_maera.Audit.Guards.{valid_id, valid_digest, valid_time}
use chimp_maera.Audit.Read.{read_signer_reference}
use chimp_maera.Audit.Envelope.{envelope_schema, checkpoint_schema}

abbrev pub envelope_keys : List String
envelope_keys = sort_texts (
    "event" ∷ "eventDigest" ∷ "previousEnvelopeDigest" ∷ "schemaVersion" ∷ "signatureBase64"
    ∷ "signedAtMs" ∷ "signer" ∷ [])

abbrev pub checkpoint_keys : List String
checkpoint_keys = sort_texts (
    "eventCount" ∷ "headEnvelopeDigest" ∷ "issuedAtMs" ∷ "schemaVersion" ∷ "signatureBase64"
    ∷ "signer" ∷ "tenant" ∷ "timelineId" ∷ [])

-- `/^[A-Za-z0-9+/]+={0,2}$/`
unfoldable pub base64_ok : String → Bool
unfolding padded
base64_ok s = padded (is_alnum or one_of (codes "+/")) (codes s)

-- null or a digest
abbrev pub digest_or_null : Value → Option (Option String)
digest_or_null v =
    if is_null v then some none else elim (valid_digest v) [ none ↦ none | some d ↦ some (some d) ]

-- `validateEnvelopeShape`
unfoldable pub read_envelope : Value → Option Candidate
unfolding valid_digest read_signer_reference base64_ok
read_envelope v = do
  fs ← exact_object v envelope_keys
  check (is_text (field_of "schemaVersion" fs) envelope_schema)
  event_digest ← valid_digest (field_of "eventDigest" fs)
  previous ← digest_or_null (field_of "previousEnvelopeDigest" fs)
  signed_at ← valid_time (field_of "signedAtMs" fs)
  signer ← read_signer_reference (field_of "signer" fs)
  signature ← as_text (field_of "signatureBase64" fs)
  check (base64_ok signature)
  some (record {
    fields = fs;
    event = field_of "event" fs;
    event_digest = event_digest;
    previous_envelope_digest = previous;
    signed_at_ms = signed_at;
    signer = signer;
    signature_base64 = signature;
  })

-- `validateCheckpointShape`
unfoldable pub read_checkpoint : Value → Option Checkpoint
unfolding valid_id valid_digest read_signer_reference base64_ok
read_checkpoint v = do
  fs ← exact_object v checkpoint_keys
  check (is_text (field_of "schemaVersion" fs) checkpoint_schema)
  timeline ← valid_id (field_of "timelineId" fs)
  tenant ← valid_id (field_of "tenant" fs)
  count ← safe_integer 1 (field_of "eventCount" fs)
  head ← valid_digest (field_of "headEnvelopeDigest" fs)
  issued_at ← valid_time (field_of "issuedAtMs" fs)
  signer ← read_signer_reference (field_of "signer" fs)
  signature ← as_text (field_of "signatureBase64" fs)
  check (base64_ok signature)
  some (record {
    fields = fs;
    timeline_id = timeline;
    tenant = tenant;
    event_count = count;
    head_envelope_digest = head;
    issued_at_ms = issued_at;
    signer = signer;
    signature_base64 = signature;
  })

-- `verifySignature` on the fields without the signature; an exception is caught and means false.
unfoldable pub verify_signature : Crypto → Fields → String → String → Bool
verify_signature c core signature public_key_pem =
    let bytes = c.from_base64 signature in
    elim (canonical_json (obj core)) [
      | none ↦ false
      | some message ↦
          ltb 0 (length bytes)
          && c.to_base64 bytes == signature
          && (elim (c.verify message public_key_pem bytes) [ none ↦ false | some answer ↦ answer ])
    ]

-- the fields that a signature covers
abbrev pub unsigned : Fields → Fields
unsigned fs = omit "signatureBase64" fs

pub data KeyFinding : Type 0 where
  found : TrustKey → KeyFinding
  missing : String → KeyFinding

abbrev pub is_active : KeyStatus → Bool
is_active active = true
is_active retired = false

abbrev pub names_key : SignerReference → TrustKey → Bool
names_key s k = k.key_id == s.key_id && eqb k.generation s.generation

-- the tests of `keyFor` on the key that was looked up
unfoldable pub judge_key : TrustPolicy → SignerReference → ℕ → Option TrustKey → KeyFinding
judge_key trust s at none = missing "AUDIT_SIGNER_UNKNOWN_DENIED"
judge_key trust s at (some k) =
    if ltb s.generation trust.minimum_generation || not (is_active k.status)
    then missing "AUDIT_SIGNER_GENERATION_STALE_DENIED"
    else if not (k.algorithm == "Ed25519") || ltb at k.valid_from_ms || leb k.valid_until_ms at
    then missing "AUDIT_SIGNER_WINDOW_DENIED"
    else found k

-- `keyFor`: the key, or the issue that it pushes
unfoldable pub key_for : TrustPolicy → SignerReference → ℕ → KeyFinding
unfolding judge_key
key_for trust s at = judge_key trust s at (find (names_key s) trust.keys)
