-- ===== src/Audit/Replays.antt =====
-- protected-audit-timeline.ts: `append` after an `append` of an event with the same id.
use chimp_maera.Common.{
  ℕ, String, ◌≡◌, refl, sym, ap, ◌∙◌, some, ◌==◌, arith, ◌≢◌, ◌⊎◌, Bool-cases, eq_iff, ok, err,
  subst, eq_refl, inl, inr,
}
use chimp_maera.Json.{Value}
use chimp_maera.Audit.{AuditEvent, AuditEnvelope, Crypto}
use chimp_maera.Audit.Event.{allow, validate_event}
use chimp_maera.Audit.Envelope.{require_event}
use chimp_maera.Audit.Writer.{AuditWriter, Known, Replay, same_envelope, append, lookup}
use chimp_maera.Audit.Laws.{CryptoLaws}
use chimp_maera.Audit.Appended.{append-parts, extended}

require_event-allow :
    (c : Crypto) (v : Value) {e : AuditEvent} {d : String}
    → validate_event c v ≡ ok (allow e d)
    → require_event c v ≡ ok (e, d)
unfolding require_event
require_event-allow c v h = rw h

-- An event whose id is known is answered with the known envelope when its digest is the known
-- one, and denied as a conflict otherwise; the state stays as it is.
append-known :
    (c : Crypto) (w : AuditWriter) (v : Value) (at : ℕ) (e : AuditEvent) (d : String)
    (known : Known)
    → validate_event c v ≡ ok (allow e d)
    → lookup e.event_id w.events_by_id ≡ some known
    → ((known.digest ≡ d) × (append c w v at ≡ ok (w, same_envelope, known.envelope)))
      ⊎ ((known.digest ≢ d) × (append c w v at ≡ err "AUDIT_EVENT_REPLAY_CONFLICT_DENIED"))
unfolding append
append-known c w v at e d known valid listed =
    let read = require_event-allow c v valid in
    elim (Bool-cases (known.digest == d)) [
      | inl same ↦ inl ((eq_iff known.digest d).0 same, ground (arith, read, listed, same))
      | inr other ↦ inr (
        λ p. ground (arith, other, (eq_iff known.digest d).1 p),
        ground (arith, read, listed, other),
      )
    ]

lookup-extended :
    (w : AuditWriter) (e : AuditEnvelope)
    → lookup e.event.event_id (extended w e).events_by_id
      ≡ some (record { event_id = e.event.event_id; digest = e.event_digest; envelope = e })
unfolding lookup
lookup-extended w e = rw (eq_refl e.event.event_id)

-- The answer to an event whose id is known with its own digest.
append-same :
    (c : Crypto) (w : AuditWriter) (v : Value) (at : ℕ) (e : AuditEvent) (d : String)
    (known : Known)
    → validate_event c v ≡ ok (allow e d)
    → lookup e.event_id w.events_by_id ≡ some known
    → known.digest ≡ d
    → append c w v at ≡ ok (w, same_envelope, known.envelope)
append-same c w v at e d known valid listed same =
    elim (append-known c w v at e d known valid listed) [
      | inl (_, h) ↦ h
      | inr (other, _) ↦ absurd (other same)
    ]

-- A value has one validation.
one_validation :
    (c : Crypto) (v : Value) {e f : AuditEvent} {d t : String}
    → validate_event c v ≡ ok (allow e d)
    → validate_event c v ≡ ok (allow f t)
    → (e ≡ f) × (d ≡ t)
one_validation c v p q = (cc, cc)

-- The answer to any event under a known id.
abbrev Answers : Crypto → AuditWriter → Value → ℕ → String → String → AuditEnvelope → Type 0
Answers c w v at t d e =
    ((t ≡ d) × (append c w v at ≡ ok (w, same_envelope, e)))
    ⊎ ((t ≢ d) × (append c w v at ≡ err "AUDIT_EVENT_REPLAY_CONFLICT_DENIED"))

known-Answers :
    (c : Crypto) (w : AuditWriter) (v : Value) (at : ℕ) (f : AuditEvent) (t : String)
    (known : Known)
    → validate_event c v ≡ ok (allow f t)
    → lookup f.event_id w.events_by_id ≡ some known
    → Answers c w v at t known.digest known.envelope
known-Answers c w v at f t known valid listed =
    elim (append-known c w v at f t known valid listed) [
      | inl (same, h) ↦ inl (sym same, h)
      | inr (other, h) ↦ inr (λ p. other (sym p), h)
    ]

-- After a successful append of a value, appending any valid event with the same event id, at any time,
-- changes nothing: it is answered with the envelope of the first append when its digest is that of the
-- first event, and denied as a replay conflict when it is another; node:crypto is assumed to verify
-- what it signs.
pub append-conflict :
    (c : Crypto) (w : AuditWriter) (laws : CryptoLaws c w.signer) (v v' : Value) (at later : ℕ)
    {w' : AuditWriter} {r : Replay} {e : AuditEnvelope} (g f : AuditEvent) (d t : String)
    → append c w v at ≡ ok (w', r, e)
    → validate_event c v ≡ ok (allow g d)
    → validate_event c v' ≡ ok (allow f t)
    → f.event_id ≡ g.event_id
    → ((t ≡ d) × (append c w' v' later ≡ ok (w', same_envelope, e)))
      ⊎ ((t ≢ d) × (append c w' v' later ≡ err "AUDIT_EVENT_REPLAY_CONFLICT_DENIED"))
append-conflict c w laws v v' at later {w'} {r} {e} g f d t h first_valid valid same =
    elim (append-parts c w laws v at h) [
      | inl replayed ↦
          let (event, digest) = one_validation c v first_valid replayed.valid in
          let known = (eq_iff _ _).0 replayed.same ∙ sym digest in
          let id = same ∙ ap (λ (x : AuditEvent). x.event_id) event in
          let listed = ap (λ i. lookup i w.events_by_id) id ∙ replayed.listed in
          let answer = known-Answers c w v' later f t replayed.known valid listed in
          subst (λ x. Answers c x v' later t d e) (sym replayed.state)
            (subst (λ x. Answers c w v' later t d x) (sym replayed.envelope)
              (subst (λ x. Answers c w v' later t x replayed.known.envelope) known answer))
      | inr (a, _) ↦
          let (event, digest) = one_validation c v first_valid a.made.valid in
          let id = same ∙ ap (λ (x : AuditEvent). x.event_id) event in
          let listed = ap (λ i. lookup i (extended w e).events_by_id) id ∙ lookup-extended w e in
          let answer = known-Answers c (extended w e) v' later f t _ valid listed in
          subst (λ x. Answers c x v' later t d e) (sym a.state)
            (subst (λ x. Answers c (extended w e) v' later t x e) (sym digest) answer)
    ]

-- After a successful append of a value, appending the same value again, at any time, changes
-- nothing and answers with the same envelope; node:crypto is assumed to verify what it signs.
pub append-append :
    (c : Crypto) (w : AuditWriter) (laws : CryptoLaws c w.signer) (v : Value) (at later : ℕ)
    {w' : AuditWriter} {r : Replay} {e : AuditEnvelope}
    → append c w v at ≡ ok (w', r, e)
    → append c w' v later ≡ ok (w', same_envelope, e)
append-append c w laws v at later {w'} {r} {e} h = elim (append-parts c w laws v at h) [
  | inl replayed ↦
      subst (λ x. append c x v later ≡ ok (x, same_envelope, e)) (sym replayed.state)
        (subst (λ x. append c w v later ≡ ok (w, same_envelope, x)) (sym replayed.envelope)
          (append-same c w v later replayed.event replayed.event_digest replayed.known
            replayed.valid replayed.listed ((eq_iff _ _).0 replayed.same)))
  | inr (a, _) ↦
      subst (λ x. append c x v later ≡ ok (x, same_envelope, e)) (sym a.state)
        (append-same c (extended w e) v later e.event e.event_digest _ a.made.valid
          (lookup-extended w e) refl)
]
