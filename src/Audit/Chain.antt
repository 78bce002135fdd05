-- ===== src/Audit/Chain.antt =====
-- protected-audit-timeline.ts: what a verified timeline is, said without the verifier's loop: a chain
-- of signed envelopes, each linked to the one before and to the events that it refers to.
use chimp_maera.Common.{
  ℕ, ◌+◌, ◌≤◌, ◌<◌, String, ◌≡◌, ◌≢◌, Option, none, some, List, [], ◌∷◌, length, map, All, ◌⊎◌, ok,
}
use chimp_maera.Json.{Value, obj}
use chimp_maera.Audit.{
  EventKind, AuditEvent, Candidate, Checkpoint, Crypto, ReferenceKey, TrustPolicy, VerifiedFact,
  kind_by_reference, required_references,
}
use chimp_maera.Audit.Event.{allow, digest, validate_event}
use chimp_maera.Audit.Shape.{read_envelope, read_checkpoint}
use chimp_maera.Audit.Verify.{fact_of}
use chimp_maera.Audit.Quiet.{SignedBy}

-- One envelope that was read, its event, and the digest of the whole envelope.
pub record Link : Type 0 where
  pub candidate : Candidate
  pub event : AuditEvent
  pub envelope_digest : String

abbrev pub link_fact : Link → VerifiedFact
link_fact l = fact_of l.event l.candidate.event_digest

-- the digest that the next envelope has to name, null for the first
abbrev pub last_digest : List Link → Option String
last_digest [] = none
last_digest (p ∷ earlier) = some p.envelope_digest

-- not before the last envelope, and signed strictly later
abbrev pub IsLater : Link → List Link → Type 0
IsLater l [] = Unit
IsLater l (p ∷ earlier) =
    (p.candidate.signed_at_ms < l.candidate.signed_at_ms)
    × (p.event.occurred_at_ms ≤ l.event.occurred_at_ms)
    × (p.event.observed_at_ms ≤ l.event.observed_at_ms)
    × (p.event.operation_id ≡ l.event.operation_id)
    × (p.event.correlation_id ≡ l.event.correlation_id)

-- an earlier event of a kind, with a digest
abbrev pub Holds : EventKind → String → List Link → Type 0
Holds k d [] = ⊥
Holds k d (p ∷ earlier) = ((p.event.kind ≡ k) × (p.candidate.event_digest ≡ d)) ⊎ Holds k d earlier

-- a reference names an earlier event of its kind, or is null
abbrev pub Resolves : List Link → ReferenceKey → Option String → Type 0
Resolves earlier k none = Unit
Resolves earlier k (some d) = Holds (kind_by_reference k) d earlier

-- The value `v` is an envelope that continues the envelopes `earlier`, newest first.
pub record IsLinked (c : Crypto) (trust : TrustPolicy) (checkpoint : Checkpoint) (index : ℕ)
    (earlier : List Link) (v : Value) (l : Link) : Type 0 where
  pub read : read_envelope v ≡ some l.candidate
  pub valid : validate_event c l.candidate.event ≡ ok (allow l.event l.candidate.event_digest)
  pub digested : digest c (obj l.candidate.fields) ≡ ok l.envelope_digest
  pub timeline_id : l.event.timeline_id ≡ checkpoint.timeline_id
  pub tenant : l.event.tenant ≡ checkpoint.tenant
  pub sequence : l.event.sequence ≡ index + 1
  pub root : index ≡ 0 → l.event.kind ≡ EventKind.identity
  pub chained : l.candidate.previous_envelope_digest ≡ last_digest earlier
  pub later : IsLater l earlier
  pub observed : l.event.observed_at_ms ≤ l.candidate.signed_at_ms
  pub new_id : All (λ p. p.event.event_id ≢ l.event.event_id) earlier
  pub new_kind : All (λ p. p.event.kind ≢ l.event.kind) earlier
  pub required : All (λ k. l.event.references k ≢ none) (required_references l.event.kind)
  pub resolved : (k : ReferenceKey) → Resolves earlier k (l.event.references k)
  pub signed :
      SignedBy c trust l.candidate.signer l.candidate.signed_at_ms l.candidate.fields
        l.candidate.signature_base64

-- The values from an index on are linked, one by one.
abbrev pub Chain :
    Crypto → TrustPolicy → Checkpoint → ℕ → List Link → List Value → List Link → Type 0
Chain c trust checkpoint index earlier [] [] = Unit
Chain c trust checkpoint index earlier [] (l ∷ ls) = ⊥
Chain c trust checkpoint index earlier (v ∷ vs) [] = ⊥
Chain c trust checkpoint index earlier (v ∷ vs) (l ∷ ls) =
    IsLinked c trust checkpoint index earlier v l
    × Chain c trust checkpoint (index + 1) (l ∷ earlier) vs ls

-- the links, newest first
abbrev pub onto : List Link → List Link → List Link
onto earlier [] = earlier
onto earlier (l ∷ ls) = onto (l ∷ earlier) ls

-- issued at or after the last signature
abbrev pub IsIssuedAfter : Checkpoint → List Link → Type 0
IsIssuedAfter checkpoint [] = Unit
IsIssuedAfter checkpoint (p ∷ earlier) = p.candidate.signed_at_ms ≤ checkpoint.issued_at_ms

-- What a verified answer stands for.
pub record IsVerified (c : Crypto) (trust : TrustPolicy) (envelopes : List Value)
    (checkpoint_value : Value) (timeline tenant checkpoint_digest : String)
    (facts : List VerifiedFact) : Type 0 where
  pub checkpoint : Checkpoint
  pub links : List Link
  pub read : read_checkpoint checkpoint_value ≡ some checkpoint
  pub timeline_trusted : checkpoint.timeline_id ≡ trust.timeline_id
  pub tenant_trusted : checkpoint.tenant ≡ trust.tenant
  pub signed :
      SignedBy c trust checkpoint.signer checkpoint.issued_at_ms checkpoint.fields
        checkpoint.signature_base64
  pub count : length envelopes ≡ checkpoint.event_count
  pub chain : Chain c trust checkpoint 0 [] envelopes links
  pub head : last_digest (onto [] links) ≡ some checkpoint.head_envelope_digest
  pub issued : IsIssuedAfter checkpoint (onto [] links)
  pub timeline_id : timeline ≡ checkpoint.timeline_id
  pub tenant_id : tenant ≡ checkpoint.tenant
  pub digested : digest c (obj checkpoint.fields) ≡ ok checkpoint_digest
  pub reported : facts ≡ map link_fact links
