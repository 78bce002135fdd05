-- ===== src/Audit/Read.antt =====
-- protected-audit-timeline.ts: what `validateProtectedAuditEventV1` reads from a value, in the three
-- groups of its denials, and `validSignerReference`.
use chimp_maera.Common.{
  ℕ, String, Bool, true, Option, some, List, leb, all, length, map, if◌then◌else◌, is_some,
}
use chimp_maera.Common.Order.{sort_texts}
use chimp_maera.Common.Maybe.{◌>>=◌, ◌>>◌, check}
use chimp_maera.Json.{Value, Fields, field_of}
use chimp_maera.Json.Guards.{
  exact_object, as_text, is_text, is_null, as_array, safe_integer, texts_where,
}
use chimp_maera.Audit.{
  EventKind, Outcome, ReferenceKey, kind_of, outcome_of, reference_keys, reference_name,
  SignerReference,
}
use chimp_maera.Audit.Guards.{
  event_schema, fact_keys, signer_keys, valid_id, valid_digest, valid_time, digest_ok, reason_ok,
  sorted_unique,
}

pub record Binding : Type 0 where
  pub timeline_id : String
  pub tenant : String
  pub event_id : String
  pub actor_id : String
  pub operation_id : String
  pub correlation_id : String
  pub sequence : ℕ
  pub kind : EventKind
  pub occurred_at_ms : ℕ
  pub observed_at_ms : ℕ

-- the test whose failure is AUDIT_EVENT_BINDING_DENIED
unfoldable pub read_binding : Fields → Option Binding
unfolding valid_id kind_of
read_binding fs = do
  check (is_text (field_of "schemaVersion" fs) event_schema)
  timeline_id ← valid_id (field_of "timelineId" fs)
  tenant ← valid_id (field_of "tenant" fs)
  event_id ← valid_id (field_of "eventId" fs)
  actor_id ← valid_id (field_of "actorId" fs)
  operation_id ← valid_id (field_of "operationId" fs)
  correlation_id ← valid_id (field_of "correlationId" fs)
  sequence ← safe_integer 1 (field_of "sequence" fs)
  kind_text ← as_text (field_of "eventKind" fs)
  kind ← kind_of kind_text
  occurred ← valid_time (field_of "occurredAtMs" fs)
  observed ← valid_time (field_of "observedAtMs" fs)
  check (leb occurred observed)
  some (record {
    timeline_id = timeline_id;
    tenant = tenant;
    event_id = event_id;
    actor_id = actor_id;
    operation_id = operation_id;
    correlation_id = correlation_id;
    sequence = sequence;
    kind = kind;
    occurred_at_ms = occurred;
    observed_at_ms = observed;
  })

-- `value !== null` narrowed: a reference is null or a digest
abbrev reference_valid : Value → Bool
reference_valid v = if is_null v then true else is_some (valid_digest v)

-- The ten references, `none` for null; the test is that of AUDIT_EVENT_REFERENCES_DENIED.
unfoldable pub read_references : Value → Option (ReferenceKey → Option String)
unfolding valid_digest
read_references v = do
  fs ← exact_object v (sort_texts (map reference_name reference_keys))
  check (all (λ k. reference_valid (field_of (reference_name k) fs)) reference_keys)
  some (λ k. as_text (field_of (reference_name k) fs))

pub record Facts : Type 0 where
  pub outcome : Outcome
  pub reason_codes : List String
  pub evidence_digests : List String

-- the test whose failure is AUDIT_EVENT_FACTS_DENIED
unfoldable pub read_facts : Value → Option Facts
unfolding outcome_of reason_ok digest_ok sorted_unique
read_facts v = do
  fs ← exact_object v fact_keys
  outcome_text ← as_text (field_of "outcome" fs)
  outcome ← outcome_of outcome_text
  reasons ← as_array (field_of "reasonCodes" fs)
  check (leb (length reasons) 32)
  reason_codes ← texts_where reason_ok reasons
  check (sorted_unique reason_codes)
  evidence ← as_array (field_of "evidenceDigests" fs)
  check (leb (length evidence) 32)
  evidence_digests ← texts_where digest_ok evidence
  check (sorted_unique evidence_digests)
  some (record {
    outcome = outcome;
    reason_codes = reason_codes;
    evidence_digests = evidence_digests;
  })

-- `validSignerReference`
unfoldable pub read_signer_reference : Value → Option SignerReference
unfolding valid_id
read_signer_reference v = do
  fs ← exact_object v signer_keys
  check (is_text (field_of "algorithm" fs) "Ed25519")
  key_id ← valid_id (field_of "keyId" fs)
  generation ← safe_integer 1 (field_of "generation" fs)
  some (record { algorithm = "Ed25519"; key_id = key_id; generation = generation })
