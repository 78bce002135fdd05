-- ===== src/Audit/Admitted.antt =====
-- protected-audit-timeline.ts: what a successful `append` admits, said of the envelopes that the writer
-- holds and without the writer's tests.
use mathlib.Core.List.{get_last?}
use chimp_maera.Common.{
  ℕ, ◌+◌, ◌≤◌, ◌<◌, String, ◌≡◌, ◌≢◌, sym, ap, ◌∙◌, false, not, ◌&&◌, Option, none, some, List, [],
  ◌∷◌, ◌==◌, arith, eq_iff, eqb, eqb→eq, length, All, ◌⊎◌, inl, inr, Bool-cases, ok, on_ok,
  on_require, some_injective, ok_injective, subst,
}
use chimp_maera.Common.Members.{In}
use chimp_maera.Json.{Value, obj}
use chimp_maera.Audit.{
  AuditEvent, AuditEnvelope, Crypto, EventKind, ReferenceKey, kind_eq, required_references,
}
use chimp_maera.Audit.Event.{allow, digest, validate_event}
use chimp_maera.Audit.Envelope.{envelope_fields}
use chimp_maera.Audit.Writer.{
  AuditWriter, Known, Replay, first, same_envelope, append, follows, lookup, previous_digest,
  prior_of,
}
use chimp_maera.Audit.Laws.{CryptoLaws}
use chimp_maera.Audit.Signed.{IsMadeFrom}
use chimp_maera.Audit.Tracks.{kind_eq→eq, causal_issues-none}
use chimp_maera.Audit.Appended.{Admits, append-parts, extended}
use chimp_maera.Audit.Priors.{IsResolved, prior-free, resolved}

-- An event continues the envelopes of a writer, when it is signed at a time.
pub record IsNext (w : AuditWriter) (e : AuditEvent) (at : ℕ) : Type 0 where
  pub timeline_id : e.timeline_id ≡ w.timeline_id
  pub tenant : e.tenant ≡ w.tenant
  pub sequence : e.sequence ≡ length w.envelopes + 1
  pub root : w.envelopes ≡ [] → e.kind ≡ EventKind.identity
  pub new_kind : All (λ (p : AuditEnvelope). p.event.kind ≢ e.kind) w.envelopes
  pub required : All (λ k. e.references k ≢ none) (required_references e.kind)
  pub resolved : (k : ReferenceKey) → IsResolved w.envelopes k (e.references k)
  pub operation :
      (p : AuditEnvelope)
      → get_last? w.envelopes ≡ some p
      → (e.operation_id ≡ p.event.operation_id) × (e.correlation_id ≡ p.event.correlation_id)
  pub later :
      (p : AuditEnvelope)
      → get_last? w.envelopes ≡ some p
      → (p.event.occurred_at_ms ≤ e.occurred_at_ms)
        × (p.event.observed_at_ms ≤ e.observed_at_ms)
        × (p.signed_at_ms < at)

-- what the `previousEnvelopeDigest` of the next envelope is
abbrev pub IsPrevious : Crypto → Option AuditEnvelope → Option String → Type 0
IsPrevious c none previous = previous ≡ none
IsPrevious c (some p) previous =
    (d : String) × (digest c (obj (envelope_fields p)) ≡ ok d) × (previous ≡ some d)

follows-later :
    (e : AuditEvent) (at : ℕ) (p : AuditEnvelope)
    → follows e at (some p) ≡ ok tt
    → ((e.operation_id ≡ p.event.operation_id) × (e.correlation_id ≡ p.event.correlation_id))
      × ((p.event.occurred_at_ms ≤ e.occurred_at_ms)
          × (p.event.observed_at_ms ≤ e.observed_at_ms)
          × (p.signed_at_ms < at))
unfolding follows
follows-later e at p h = on_require (e.operation_id == p.event.operation_id) _ _ h λ operation h1.
    on_require (e.correlation_id == p.event.correlation_id) _ _ h1 λ correlation h2. (
      ((eq_iff _ _).0 operation, (eq_iff _ _).0 correlation),
      (ground (arith, h2), ground (arith, h2), ground (arith, h2)),
    )

is_root :
    (n : ℕ) (k : EventKind)
    → (eqb n 0 && not (kind_eq k EventKind.identity)) ≡ false
    → n ≡ 0
    → k ≡ EventKind.identity
is_root n k h p = kind_eq→eq k EventKind.identity (ground (arith, h, p))

Admits-IsNext :
    (c : Crypto) (w : AuditWriter) (e : AuditEvent) (at : ℕ) → Admits c w e at → IsNext w e at
Admits-IsNext c w e at a =
    let (required, matched) = causal_issues-none e (prior_of w.envelopes) a.causal in
    let fits = λ (p : AuditEnvelope) (last : get_last? w.envelopes ≡ some p).
      follows-later e at p (subst (λ o. follows e at o ≡ ok tt) last a.follows) in
    record {
      timeline_id = (eq_iff _ _).0 a.timeline_id;
      tenant = (eq_iff _ _).0 a.tenant;
      sequence = eqb→eq _ _ a.sequence;
      root = λ p. is_root (length w.envelopes) e.kind a.root (ap length p);
      new_kind = (prior-free _ w.envelopes e.kind a.fresh).1;
      required = required;
      resolved = λ k. resolved w.envelopes k (e.references k) (matched k);
      operation = λ p last. (fits p last).0;
      later = λ p last. (fits p last).1;
    }

previous_digest-IsPrevious :
    (c : Crypto) (last : Option AuditEnvelope) {previous : Option String}
    → previous_digest c last ≡ ok previous
    → IsPrevious c last previous
unfolding previous_digest
previous_digest-IsPrevious c none h = sym (ok_injective h)
previous_digest-IsPrevious c (some p) h =
    on_ok (digest c (obj (envelope_fields p))) _ h λ d q h1. (d, q, sym (ok_injective h1))

-- an entry that is found is listed under its id
lookup-In :
    (id : String) (ks : List Known) {k : Known}
    → lookup id ks ≡ some k
    → In k ks × (k.event_id ≡ id)
unfolding lookup
lookup-In id [] h = cc
lookup-In id (x ∷ ks) {k} h = elim (Bool-cases (x.event_id == id)) [
  | inl here ↦
      let same : x ≡ k = some_injective (rw (here, lookup) at h) in
      (
        subst (λ y. In y (x ∷ ks)) same In.first,
        ap (λ (y : Known). y.event_id) (sym same) ∙ (eq_iff _ _).0 here,
      )
  | inr there ↦ let (i, p) = lookup-In id ks (rw (there, lookup) at h) in (In.later i, p)
]

lookup-unlisted :
    (id : String) (ks : List Known) → lookup id ks ≡ none → All (λ (k : Known). k.event_id ≢ id) ks
unfolding lookup
lookup-unlisted id [] h = tt
lookup-unlisted id (x ∷ ks) h = elim (Bool-cases (x.event_id == id)) [
  | inl here ↦ cc (rw (here, lookup) at h)
  | inr there ↦ (
    λ p. cc (sym there ∙ (eq_iff x.event_id id).1 p),
    lookup-unlisted id ks (rw (there, lookup) at h),
  )
]

-- A known event: the writer lists it with the same digest, answers with its envelope and stays.
pub record IsKnown (c : Crypto) (w : AuditWriter) (v : Value) (w' : AuditWriter) (r : Replay)
    (e : AuditEnvelope) : Type 0 where
  pub event : AuditEvent
  pub event_digest : String
  pub valid : validate_event c v ≡ ok (allow event event_digest)
  pub known : Known
  pub listed : In known w.events_by_id
  pub same_id : known.event_id ≡ event.event_id
  pub same_digest : known.digest ≡ event_digest
  pub envelope : e ≡ known.envelope
  pub state : w' ≡ w
  pub replay : r ≡ same_envelope

-- A new event: its id is not listed, it continues the envelopes, and the state has one envelope more,
-- made of the value, signed by the writer's signer at the time and linked to the last envelope.
pub record IsAdded (c : Crypto) (w : AuditWriter) (laws : CryptoLaws c w.signer) (v : Value)
    (at : ℕ) (w' : AuditWriter) (r : Replay) (e : AuditEnvelope) : Type 0 where
  pub previous : Option String
  pub made : IsMadeFrom c w.signer laws v previous at e
  pub linked : IsPrevious c (get_last? w.envelopes) previous
  pub new_id : All (λ (k : Known). k.event_id ≢ e.event.event_id) w.events_by_id
  pub next : IsNext w e.event at
  pub state : w' ≡ extended w e
  pub replay : r ≡ first

-- A successful append answers an event that the writer lists under its id with the same digest with
-- the listed envelope, and changes nothing; or the event is new, and the state has one more envelope,
-- of this event, signed by the writer's signer and naming the digest of the last one. A new event has
-- an id that is not listed, the writer's timeline and tenant, the next sequence number and a kind that
-- no envelope has, the first is of kind IDENTITY; the references that its kind requires are there and
-- all name the digests of envelopes of the right kinds; and against the last envelope it has the same
-- operation and correlation ids, is not earlier and is signed strictly later. node:crypto is assumed
-- to verify what it signs.
pub append-cases :
    (c : Crypto) (w : AuditWriter) (laws : CryptoLaws c w.signer) (v : Value) (at : ℕ)
    {w' : AuditWriter} {r : Replay} {e : AuditEnvelope}
    → append c w v at ≡ ok (w', r, e)
    → IsKnown c w v w' r e ⊎ IsAdded c w laws v at w' r e
append-cases c w laws v at h = elim (append-parts c w laws v at h) [
  | inl k ↦ inl (
      let (i, p) = lookup-In k.event.event_id w.events_by_id k.listed in
      record {
        event = k.event;
        event_digest = k.event_digest;
        valid = k.valid;
        known = k.known;
        listed = i;
        same_id = p;
        same_digest = (eq_iff _ _).0 k.same;
        envelope = k.envelope;
        state = k.state;
        replay = k.replay;
      })
  | inr (a, replay) ↦ inr (record {
    previous = a.before;
    made = a.made;
    linked = previous_digest-IsPrevious c (get_last? w.envelopes) a.previous;
    new_id = lookup-unlisted _ w.events_by_id a.unknown;
    next = Admits-IsNext c w _ at a.admitted;
    state = a.state;
    replay = replay;
  })
]
