-- ===== src/Audit/Tests.antt =====
-- protected-audit-timeline.ts: runs of the model, and the theorems at a concrete timeline.
use chimp_maera.Common.{String, ◌≡◌, refl, true, Bool, ◌⊎◌, false, [], arith, map, Result, ok, err}
use chimp_maera.Json.{obj}
use chimp_maera.Json.Guards.{has_keys}
use chimp_maera.Json.Canonical.{canonical_json}
use chimp_maera.Audit.{AuditEnvelope, Checkpoint, verified}
use chimp_maera.Audit.Event.{Validation, allow, deny, validate_event}
use chimp_maera.Common.{◌≢◌}
use chimp_maera.Audit.{AuditEvent}
use chimp_maera.Audit.Read.{read_binding, read_references, read_facts}
use chimp_maera.Audit.Writer.{AuditWriter, Replay, new_writer, append, snapshot, checkpoint}
use chimp_maera.Audit.Verify.{verify_timeline}
use chimp_maera.Audit.Laws.{CryptoLaws}
use chimp_maera.Audit.Silent.{Trusts}
use chimp_maera.Audit.Agrees.{envelope_fact}
use chimp_maera.Audit.Reached.{Reached, made, appended}
use chimp_maera.Audit.Complete.{checkpoint-verified}
use chimp_maera.Audit.Verified.{verify_timeline-IsVerified}
use chimp_maera.Audit.Explained.{IsExplained, explain_timeline-IsExplained}
use chimp_maera.Audit.Replays.{append-append, append-conflict}
use chimp_maera.Audit.Chain.{IsVerified}
use chimp_maera.Audit.Explain.{Explanation, explain, explain_timeline}
use chimp_maera.Audit.Writer.{same_envelope}
use chimp_maera.Audit.Admitted.{IsAdded, IsKnown, append-cases}
use chimp_maera.Audit.Reached.{IsConsistent, Reached-IsConsistent}
use chimp_maera.Audit.Sample.{
  sample_crypto, sample_laws, sample_signer, sample_trust, parity_crypto, parity_laws,
  conflicting_event, first_event, second_event, unary_text, unary_bytes,
}

-- opens all that a run computes through
run : Unit {0}
unfolding unary_text unary_bytes new_writer append checkpoint snapshot verify_timeline has_keys
    read_binding read_references read_facts canonical_json
run = tt

abbrev Appended : Type 0
Appended = Result (AuditWriter × Replay × AuditEnvelope)

abbrev timeline : String
timeline = "timeline:aas023-fixture"

abbrev tenant : String
tenant = "tenant:panskys-zoo"

abbrev blank : AuditWriter
blank = record {
  timeline_id = timeline;
  tenant = tenant;
  signer = sample_signer;
  envelopes = [];
  events_by_id = [];
}

is_ok {ℓ} : {A : Type ℓ} → Result A → Bool
is_ok (ok a) = true
is_ok (err e) = false

after : AuditWriter → Appended → AuditWriter
after w (ok r) = r.0
after w (err e) = w

-- A result that is `ok`, with its parts.
appended_parts :
    (w : AuditWriter) (r : Appended)
    → is_ok r ≡ true
    → (replay : Replay) × (e : AuditEnvelope) × (r ≡ ok (after w r, replay, e))
unfolding is_ok after
appended_parts w (ok (w', replay, e)) h = (replay, e, refl)
appended_parts w (err e) h = cc

one_event : AuditWriter
one_event = after blank (append sample_crypto blank first_event 1785000000012)

two_events : AuditWriter
two_events = after one_event (append sample_crypto one_event second_event 1785000000022)

Reached-blank : Reached sample_crypto timeline tenant sample_signer blank
unfolding run
Reached-blank = made refl

Reached-one_event : Reached sample_crypto timeline tenant sample_signer one_event
unfolding one_event run is_ok
Reached-one_event =
    let (_, _, h) =
      appended_parts blank (append sample_crypto blank first_event 1785000000012) refl in
    appended first_event 1785000000012 Reached-blank h

Reached-two_events : Reached sample_crypto timeline tenant sample_signer two_events
unfolding two_events one_event run is_ok after
Reached-two_events =
    let (_, _, h) =
      appended_parts one_event (append sample_crypto one_event second_event 1785000000022) refl in
    appended second_event 1785000000022 Reached-one_event h

sample_Trusts : Trusts sample_trust sample_signer
sample_Trusts = record {
  key = _;
  listed = refl;
  public_key = refl;
  ed25519 = refl;
  status = refl;
  generation = omega arith;
  from = omega arith;
  until = omega arith;
}

checkpoint_parts : (r : Result Checkpoint) → is_ok r ≡ true → (p : Checkpoint) × (r ≡ ok p)
unfolding is_ok
checkpoint_parts (ok p) h = (p, refl)
checkpoint_parts (err e) h = cc

sample_checkpoint : (p : Checkpoint) × (checkpoint sample_crypto two_events 1785000000100 ≡ ok p)
unfolding two_events one_event run is_ok after
sample_checkpoint = checkpoint_parts (checkpoint sample_crypto two_events 1785000000100) refl

checkpoint-verified_run :
    (d : String) × (verify_timeline sample_crypto sample_trust
        (snapshot two_events)
        (obj sample_checkpoint.0.fields)
      ≡ ok (verified timeline tenant d (map envelope_fact two_events.envelopes)))
checkpoint-verified_run =
    checkpoint-verified sample_crypto timeline tenant sample_signer sample_trust two_events
      1785000000100 sample_checkpoint.0 (sample_laws sample_signer) sample_Trusts refl refl
      Reached-two_events sample_checkpoint.1

checkpoint-verified_example :
    (d : String) × (verify_timeline sample_crypto sample_trust
        (snapshot two_events)
        (obj sample_checkpoint.0.fields)
      ≡ ok (verified timeline tenant d (map envelope_fact two_events.envelopes)))
checkpoint-verified_example =
    checkpoint-verified sample_crypto timeline tenant sample_signer sample_trust two_events
      1785000000100 sample_checkpoint.0 (sample_laws sample_signer) sample_Trusts refl refl
      Reached-two_events sample_checkpoint.1

Reached-IsConsistent_example : IsConsistent sample_crypto timeline tenant sample_signer two_events
Reached-IsConsistent_example =
    Reached-IsConsistent sample_crypto timeline tenant sample_signer (sample_laws sample_signer)
      Reached-two_events

abbrev second_append : Appended
second_append = append sample_crypto one_event second_event 1785000000022

second_parts :
    (replay : Replay) × (e : AuditEnvelope) × (second_append
      ≡ ok (after one_event second_append, replay, e))
unfolding one_event run is_ok after
second_parts = appended_parts one_event second_append refl

abbrev one_laws : CryptoLaws sample_crypto one_event.signer
one_laws = sample_laws one_event.signer

append-cases_example :
    IsKnown sample_crypto one_event second_event
      (after one_event second_append)
      second_parts.0
      second_parts.1
    ⊎ IsAdded sample_crypto one_event one_laws second_event 1785000000022
        (after one_event second_append)
        second_parts.0
        second_parts.1
append-cases_example =
    append-cases sample_crypto one_event one_laws second_event 1785000000022 second_parts.2

verify_timeline-IsVerified_example :
    IsVerified sample_crypto sample_trust
      (snapshot two_events)
      (obj sample_checkpoint.0.fields)
      timeline
      tenant
      checkpoint-verified_run.0
      (map envelope_fact two_events.envelopes)
verify_timeline-IsVerified_example =
    verify_timeline-IsVerified sample_crypto sample_trust (snapshot two_events)
      (obj sample_checkpoint.0.fields) checkpoint-verified_run.1

abbrev sample_explanation : Explanation
sample_explanation =
    explain
      (verified timeline tenant checkpoint-verified_run.0 (map envelope_fact two_events.envelopes))

explained :
    explain_timeline sample_crypto sample_trust
      (snapshot two_events)
      (obj sample_checkpoint.0.fields)
    ≡ ok sample_explanation
unfolding explain_timeline
explained = rw checkpoint-verified_run.1

explain_timeline-IsExplained_example :
    IsExplained sample_crypto sample_trust
      (snapshot two_events)
      (obj sample_checkpoint.0.fields)
      sample_explanation
explain_timeline-IsExplained_example =
    explain_timeline-IsExplained sample_crypto sample_trust (snapshot two_events)
      (obj sample_checkpoint.0.fields) sample_explanation explained

append-append_example :
    append sample_crypto (after one_event second_append) second_event 1785000000099
    ≡ ok (after one_event second_append, same_envelope, second_parts.1)
append-append_example =
    append-append sample_crypto one_event one_laws second_event 1785000000022 1785000000099
      second_parts.2

is_valid : Result Validation → Bool
is_valid (ok (allow e d)) = true
is_valid _ = false

valid_parts :
    (r : Result Validation)
    → is_valid r ≡ true
    → (e : AuditEvent) × (d : String) × (r ≡ ok (allow e d))
unfolding is_valid
valid_parts (ok (allow e d)) h = (e, d, refl)
valid_parts (ok (deny is)) h = cc
valid_parts (err e) h = cc

abbrev parity_append : Appended
parity_append = append parity_crypto blank first_event 1785000000012

parity_parts :
    (replay : Replay) × (e : AuditEnvelope) × (parity_append
      ≡ ok (after blank parity_append, replay, e))
unfolding run is_ok after
parity_parts = appended_parts blank parity_append refl

parity_first :
    (e : AuditEvent) × (d : String) × (validate_event parity_crypto first_event ≡ ok (allow e d))
unfolding run is_valid
parity_first = valid_parts (validate_event parity_crypto first_event) refl

parity_other :
    (e : AuditEvent) × (d : String) × (validate_event parity_crypto conflicting_event
      ≡ ok (allow e d))
unfolding run is_valid
parity_other = valid_parts (validate_event parity_crypto conflicting_event) refl

same_id : parity_other.0.event_id ≡ parity_first.0.event_id
unfolding run is_valid parity_other parity_first valid_parts
same_id = refl

append-conflict_example :
    ((parity_other.1 ≡ parity_first.1)
      × (append parity_crypto (after blank parity_append) conflicting_event 1785000000099
          ≡ ok (after blank parity_append, same_envelope, parity_parts.1)))
    ⊎ ((parity_other.1 ≢ parity_first.1)
        × (append parity_crypto (after blank parity_append) conflicting_event 1785000000099
            ≡ err "AUDIT_EVENT_REPLAY_CONFLICT_DENIED"))
append-conflict_example =
    append-conflict parity_crypto blank (parity_laws sample_signer) first_event conflicting_event
      1785000000012 1785000000099 parity_first.0 parity_other.0 parity_first.1 parity_other.1
      parity_parts.2 parity_first.2 parity_other.2 same_id

-- the stand-in tells the two events apart
conflict_run :
    append parity_crypto (after blank parity_append) conflicting_event 1785000000099
    ≡ err "AUDIT_EVENT_REPLAY_CONFLICT_DENIED"
unfolding run after
conflict_run = refl
