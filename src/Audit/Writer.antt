-- ===== src/Audit/Writer.antt =====
-- protected-audit-timeline.ts: `ProtectedAuditWriterV1`. A method returns the object's new state with
-- its result; one that throws leaves the state as it was. The source keeps the event object that the
-- caller gave by reference; here it is a value, so a caller that changes the object afterwards is not
-- modelled. What the methods return is a copy, by `structuredClone`.
use mathlib.Core.List.{get_last?, foldl}
use chimp_maera.Common.{
  ℕ, ◌+◌, String, not, ◌&&◌, Option, none, some, List, [], ◌∷◌, ◌++◌, ◌==◌, ltb, leb, eqb, length,
  is_some, if◌then◌else◌, map, Result, ok, err, ◌>>=◌, ◌>>◌, require,
}
use chimp_maera.Json.{Value, obj}
use chimp_maera.Audit.{EventKind, AuditEvent, AuditEnvelope, Checkpoint, Crypto, Signer, kind_eq}
use chimp_maera.Audit.Guards.{id_ok}
use chimp_maera.Audit.Event.{digest}
use chimp_maera.Audit.Envelope.{
  require_event, create_envelope, create_checkpoint, envelope_fields, envelope_value,
}
use chimp_maera.Audit.Causal.{PriorByKind, no_prior, set_prior, causal_issues}

-- an entry of `#eventsById`
pub record Known : Type 0 where
  pub event_id : String
  pub digest : String
  pub envelope : AuditEnvelope

pub record AuditWriter : Type 0 where
  pub timeline_id : String
  pub tenant : String
  pub signer : Signer
  pub envelopes : List AuditEnvelope
  pub events_by_id : List Known

pub data Replay : Type 0 where
  first same_envelope : Replay

-- the constructor
unfoldable pub new_writer : String → String → Signer → Result AuditWriter
unfolding id_ok
new_writer timeline tenant s = do
  require (id_ok timeline && id_ok tenant) "AUDIT_WRITER_SCOPE_DENIED"
  ok (record {
    timeline_id = timeline;
    tenant = tenant;
    signer = s;
    envelopes = [];
    events_by_id = [];
  })

-- `#eventsById.get`
unfoldable pub lookup : String → List Known → Option Known
lookup id [] = none
lookup id (k ∷ ks) = if k.event_id == id then some k else lookup id ks

abbrev pub set_envelope : PriorByKind → AuditEnvelope → PriorByKind
set_envelope prior e = set_prior e.event.kind e.event_digest prior

-- `new Map(envelopes.map(…))`: a later entry replaces an earlier one
abbrev pub prior_of : List AuditEnvelope → PriorByKind
prior_of envelopes = foldl set_envelope no_prior envelopes

abbrev pub no_issue : List String → Result (Unit {0})
no_issue [] = ok tt
no_issue (i ∷ is) = err i

-- the checks against the last envelope
unfoldable pub follows : AuditEvent → ℕ → Option AuditEnvelope → Result (Unit {0})
follows e signed_at none = ok tt
follows e signed_at (some p) = do
  require (e.operation_id == p.event.operation_id) "AUDIT_OPERATION_BINDING_DENIED"
  require (e.correlation_id == p.event.correlation_id) "AUDIT_CORRELATION_BINDING_DENIED"
  require
      (leb p.event.occurred_at_ms e.occurred_at_ms
        && leb p.event.observed_at_ms e.observed_at_ms
        && ltb p.signed_at_ms signed_at)
      "AUDIT_CLOCK_ROLLBACK_DENIED"

module _ (c : Crypto) where
  unfoldable pub previous_digest : Option AuditEnvelope → Result (Option String)
  previous_digest none = ok none
  previous_digest (some p) = do d ← digest c (obj (envelope_fields p)); ok (some d)

  -- the part of `append` for an event id that is not known
  unfoldable pub append_new :
      AuditWriter → AuditEvent → String → ℕ → Result (AuditWriter × Replay × AuditEnvelope)
  unfolding causal_issues follows previous_digest create_envelope set_prior
  append_new w e d signed_at = do
    require (e.timeline_id == w.timeline_id && e.tenant == w.tenant) "AUDIT_WRITER_SCOPE_DENIED"
    require (eqb e.sequence (length w.envelopes + 1)) "AUDIT_SEQUENCE_DENIED"
    require (not (eqb (length w.envelopes) 0 && not (kind_eq e.kind EventKind.identity)))
        "AUDIT_IDENTITY_ROOT_MISSING_DENIED"
    require (not (is_some (prior_of w.envelopes e.kind))) "AUDIT_EVENT_KIND_DUPLICATE_DENIED"
    no_issue (causal_issues e (prior_of w.envelopes))
    follows e signed_at (get_last? w.envelopes)
    previous ← previous_digest (get_last? w.envelopes)
    envelope ← create_envelope c e.value previous w.signer signed_at
    ok (
      record w {
        envelopes = w.envelopes ++ envelope ∷ [];
        events_by_id =
            record { event_id = e.event_id; digest = d; envelope = envelope } ∷ w.events_by_id;
      },
      first,
      envelope,
    )

  -- `append`
  unfoldable pub append : AuditWriter → Value → ℕ → Result (AuditWriter × Replay × AuditEnvelope)
  unfolding require_event lookup append_new
  append w v signed_at = do
    (e, d) ← require_event c v
    elim (lookup e.event_id w.events_by_id) [
      | some known ↦ do
        require (known.digest == d) "AUDIT_EVENT_REPLAY_CONFLICT_DENIED"
        ok (w, same_envelope, known.envelope)
      | none ↦ append_new w e d signed_at
    ]

  -- `checkpoint`
  unfoldable pub checkpoint : AuditWriter → ℕ → Result Checkpoint
  unfolding create_checkpoint
  checkpoint w issued_at = create_checkpoint c w.envelopes w.signer issued_at

-- `snapshot`, as values
unfoldable pub snapshot : AuditWriter → List Value
snapshot w = map envelope_value w.envelopes
