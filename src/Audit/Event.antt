-- ===== src/Audit/Event.antt =====
-- protected-audit-timeline.ts: digests and `validateProtectedAuditEventV1`.
use chimp_maera.Common.{String, Option, none, some, List, [], ◌∷◌, Result, ok, err, ◌>>=◌}
use chimp_maera.Json.{Value, field_of}
use chimp_maera.Json.Canonical.{canonical_json}
use chimp_maera.Json.Guards.{exact_object}
use chimp_maera.Audit.{AuditEvent, Crypto, ReferenceKey}
use chimp_maera.Audit.Guards.{event_keys}
use chimp_maera.Audit.Read.{Binding, Facts, read_binding, read_references, read_facts}

-- `validateProtectedAuditEventV1` answers with the event and its digest, or with the issues.
pub data Validation : Type 0 where
  allow : AuditEvent → String → Validation
  deny : List String → Validation

abbrev pub event_of : Value → Binding → (ReferenceKey → Option String) → Facts → AuditEvent
event_of v b references f = record {
  value = v;
  timeline_id = b.timeline_id;
  tenant = b.tenant;
  sequence = b.sequence;
  event_id = b.event_id;
  kind = b.kind;
  actor_id = b.actor_id;
  operation_id = b.operation_id;
  correlation_id = b.correlation_id;
  occurred_at_ms = b.occurred_at_ms;
  observed_at_ms = b.observed_at_ms;
  references = references;
  outcome = f.outcome;
  reason_codes = f.reason_codes;
  evidence_digests = f.evidence_digests;
}

module _ (c : Crypto) where
  -- `sha256(canonicalJson(value))`
  unfoldable pub digest : Value → Result String
  digest v = elim (canonical_json v) [ none ↦ err "TypeError" | some text ↦ ok (c.sha256_hex text) ]

  -- the answer, from the three groups of checks
  unfoldable pub decide_event :
      Value
      → Option Binding
      → Option (ReferenceKey → Option String)
      → Option Facts
      → Result Validation
  decide_event v none references facts = ok (deny ("AUDIT_EVENT_BINDING_DENIED" ∷ []))
  decide_event v (some b) none facts = ok (deny ("AUDIT_EVENT_REFERENCES_DENIED" ∷ []))
  decide_event v (some b) (some references) none = ok (deny ("AUDIT_EVENT_FACTS_DENIED" ∷ []))
  decide_event v (some b) (some references) (some facts) = do
    d ← digest v
    ok (allow (event_of v b references facts) d)

  unfoldable pub validate_event : Value → Result Validation
  unfolding decide_event digest
  validate_event v = elim (exact_object v event_keys) [
    | none ↦ ok (deny ("AUDIT_EVENT_SCHEMA_DENIED" ∷ []))
    | some fs ↦
        decide_event v (read_binding fs) (read_references (field_of "references" fs))
          (read_facts (field_of "facts" fs))
  ]
