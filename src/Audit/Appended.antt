-- ===== src/Audit/Appended.antt =====
-- protected-audit-timeline.ts: the tests that a successful `append` has passed, and what it changes.
-- Admitted says it without the tests.
use mathlib.Core.List.{get_last?}
use chimp_maera.Common.{
  ℕ, ◌+◌, String, ◌≡◌, refl, sym, ap, Bool, true, false, not, ◌&&◌, Option, none, some, List, [],
  ◌∷◌, ◌++◌, ◌==◌, length, eqb, is_some, Result, ok, on_ok, on_require, subst, Option-cases, inl,
  inr, ◌⊎◌,
}
use chimp_maera.Json.{Value}
use chimp_maera.Audit.{AuditEvent, AuditEnvelope, Crypto, EventKind, kind_eq}
use chimp_maera.Audit.Event.{allow, validate_event}
use chimp_maera.Audit.Envelope.{create_envelope, require_event}
use chimp_maera.Audit.Causal.{causal_issues}
use chimp_maera.Audit.Writer.{
  AuditWriter, Known, Replay, same_envelope, first, lookup, prior_of, no_issue, follows,
  previous_digest, append_new, append,
}
use chimp_maera.Audit.Laws.{CryptoLaws, validate_event-allow, require_event-eq-ok}
use chimp_maera.Audit.Signed.{IsMadeFrom, create_envelope-IsMadeFrom}

-- The state after an append: one more envelope at the end, known by its event's id.
abbrev pub extended : AuditWriter → AuditEnvelope → AuditWriter
extended w e = record w {
  envelopes = w.envelopes ++ e ∷ [];
  events_by_id =
      record { event_id = e.event.event_id; digest = e.event_digest; envelope = e }
      ∷ w.events_by_id;
}

-- What `append` has checked of an event that is new in the state `w`.
pub record Admits (c : Crypto) (w : AuditWriter) (e : AuditEvent) (at : ℕ) : Type 0 where
  pub timeline_id : (e.timeline_id == w.timeline_id) ≡ true
  pub tenant : (e.tenant == w.tenant) ≡ true
  pub sequence : eqb e.sequence (length w.envelopes + 1) ≡ true
  pub root : (eqb (length w.envelopes) 0 && not (kind_eq e.kind EventKind.identity)) ≡ false
  pub fresh : is_some (prior_of w.envelopes e.kind) ≡ false
  pub causal : causal_issues e (prior_of w.envelopes) ≡ []
  pub follows : follows e at (get_last? w.envelopes) ≡ ok tt

no_issue-eq-ok : (is : List String) {u : Unit {0}} → no_issue is ≡ ok u → is ≡ []
no_issue-eq-ok [] h = refl
no_issue-eq-ok (i ∷ is) h = cc

not-eq-true : (b : Bool) → not b ≡ true → b ≡ false
not-eq-true true h = cc
not-eq-true false h = refl

and_true : (a b : Bool) → (a && b) ≡ true → (a ≡ true) × (b ≡ true)
and_true true b h = (refl, h)
and_true false b h = cc

Triple : Type 0
Triple = AuditWriter × Replay × AuditEnvelope

ok_triple :
    {w w' : AuditWriter} {r r' : Replay} {e e' : AuditEnvelope}
    → ◌≡◌ {A = Result (AuditWriter × Replay × AuditEnvelope)} (ok (w, r, e)) (ok (w', r', e'))
    → (w ≡ w') × (r ≡ r') × (e ≡ e')
ok_triple h = (cc, cc, cc)

module _ (c : Crypto) (w : AuditWriter) (laws : CryptoLaws c w.signer) where
  -- A new event that was appended: what was checked, and the envelope that was made.
  pub record IsAppended (v : Value) (at : ℕ) (w' : AuditWriter) (e : AuditEnvelope) : Type 0 where
    pub admitted : Admits c w e.event at
    pub unknown : lookup e.event.event_id w.events_by_id ≡ none
    pub before : Option String
    pub previous : previous_digest c (get_last? w.envelopes) ≡ ok before
    pub made : IsMadeFrom c w.signer laws v before at e
    pub state : w' ≡ extended w e

  same_event :
      (v : Value) {e f : AuditEvent} {d t : String}
      → validate_event c v ≡ ok (allow e d)
      → validate_event c v ≡ ok (allow f t)
      → (e ≡ f) × (d ≡ t)
  same_event v p q = (cc, cc)

  recorded : AuditEvent → String → AuditEnvelope → AuditWriter
  recorded e d made = record w {
    envelopes = w.envelopes ++ made ∷ [];
    events_by_id = record { event_id = e.event_id; digest = d; envelope = made } ∷ w.events_by_id;
  }

  recorded-extended :
      (e : AuditEvent) (d : String) (made : AuditEnvelope)
      → e ≡ made.event
      → d ≡ made.event_digest
      → recorded e d made ≡ extended w made
  unfolding recorded
  recorded-extended e d made p q i = recorded (p i) (q i) made

  append_finish :
      (v : Value) (e : AuditEvent) (d : String) (at : ℕ) (before : Option String)
      (made : AuditEnvelope)
      → validate_event c v ≡ ok (allow e d)
      → lookup e.event_id w.events_by_id ≡ none
      → Admits c w e at
      → previous_digest c (get_last? w.envelopes) ≡ ok before
      → create_envelope c e.value before w.signer at ≡ ok made
      → IsAppended v at (recorded e d made) made
  append_finish v e d at before made valid unknown admitted previous m =
      let value = ap (λ (x : AuditEvent). x.value) (validate_event-allow c v valid).event in
      let from =
        create_envelope-IsMadeFrom c w.signer laws v before at
          (subst (λ x. create_envelope c x before w.signer at ≡ ok made) value m) in
      let (p, q) = same_event v valid from.valid in
      record {
        admitted = subst (λ x. Admits c w x at) p admitted;
        unknown = subst (λ (x : AuditEvent). lookup x.event_id w.events_by_id ≡ none) p unknown;
        before = before;
        previous = previous;
        made = from;
        state = recorded-extended e d made p q;
      }

  append_new-IsAppended :
      (v : Value) (e : AuditEvent) (d : String) (at : ℕ) {w' : AuditWriter} {r : Replay}
      {envelope : AuditEnvelope}
      → validate_event c v ≡ ok (allow e d)
      → lookup e.event_id w.events_by_id ≡ none
      → append_new c w e d at ≡ ok (w', r, envelope)
      → IsAppended v at w' envelope × (r ≡ first)
  unfolding append_new recorded
  append_new-IsAppended v e d at {envelope} valid unknown h =
      on_require (e.timeline_id == w.timeline_id && e.tenant == w.tenant) _ _ h λ scope h1.
        on_require (eqb e.sequence (length w.envelopes + 1)) _ _ h1 λ sequence h2.
          on_require (not (eqb (length w.envelopes) 0 && not (kind_eq e.kind EventKind.identity))) _
            _ h2
            λ root h3. on_require (not (is_some (prior_of w.envelopes e.kind))) _ _ h3 λ fresh h4.
              on_ok (no_issue (causal_issues e (prior_of w.envelopes))) _ h4 λ _ causal h5.
                on_ok (follows e at (get_last? w.envelopes)) _ h5 λ _ fits h6.
                  on_ok (previous_digest c (get_last? w.envelopes)) _ h6 λ before previous h7.
                    on_ok (create_envelope c e.value before w.signer at) _ h7 λ made m h8.
                      let (timeline, tenant) =
                        and_true (e.timeline_id == w.timeline_id) (e.tenant == w.tenant) scope in
                      let admitted : Admits c w e at = record {
                        timeline_id = timeline;
                        tenant = tenant;
                        sequence = sequence;
                        root = not-eq-true _ root;
                        fresh = not-eq-true _ fresh;
                        causal = no_issue-eq-ok _ causal;
                        follows = fits;
                      } in
                      let (state, replay, same) = ok_triple h8 in
                      (
                        subst (λ x. IsAppended v at x envelope) state
                            (subst (IsAppended v at (recorded e d made)) same (
                              append_finish v e d at before made valid unknown admitted previous
                                m)),
                        sym replay,
                      )

  -- An event whose id is known with the same digest: nothing changes.
  pub record IsReplayed (v : Value) (w' : AuditWriter) (r : Replay) (e : AuditEnvelope)
      : Type 0 where
    pub event : AuditEvent
    pub event_digest : String
    pub valid : validate_event c v ≡ ok (allow event event_digest)
    pub known : Known
    pub listed : lookup event.event_id w.events_by_id ≡ some known
    pub same : (known.digest == event_digest) ≡ true
    pub state : w' ≡ w
    pub envelope : e ≡ known.envelope
    pub replay : r ≡ same_envelope

  -- What the tests of a successful append were: those of a known event, or those of a new one.
  pub append-parts :
      (v : Value) (at : ℕ) {w' : AuditWriter} {r : Replay} {e : AuditEnvelope}
      → append c w v at ≡ ok (w', r, e)
      → IsReplayed v w' r e ⊎ (IsAppended v at w' e × (r ≡ first))
  unfolding append
  append-parts v at h = on_ok (require_event c v) _ h λ made r h1.
      let valid = require_event-eq-ok c v r in
      elim (Option-cases (lookup made.0.event_id w.events_by_id)) [
        | inl unknown ↦
            inr (append_new-IsAppended v made.0 made.1 at valid unknown (rw unknown at h1))
        | inr (known, listed) ↦ inl (
            on_require (known.digest == made.1) _ _ (rw listed at h1) λ same h2.
              let (state, replay, envelope) = ok_triple h2 in
              record {
                event = made.0;
                event_digest = made.1;
                valid = valid;
                known = known;
                listed = listed;
                same = same;
                state = sym state;
                envelope = sym envelope;
                replay = sym replay;
              })
      ]
