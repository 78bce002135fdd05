-- ===== src/Intake/Tests.antt =====
-- signal-release-intake.ts: runs of the model, and its theorems at a concrete intake.
use chimp_maera.Common.{String, ◌≡◌, refl, true, false, some, List, [], ◌∷◌, ok, err}
use chimp_maera.Json.{Value, bool, str, obj, Fields, end, field}
use chimp_maera.Json.Canonical.{canonical_json}
use chimp_maera.Json.Guards.{has_keys}
use chimp_maera.Intake.{IntakeDecision, rejected, evaluate}
use chimp_maera.Intake.Shape.{read_intake, gate_names}
use chimp_maera.Intake.Decided.{IsDecided, evaluate-IsDecided, evaluate_total}

abbrev sample_hash : String → String
sample_hash text = "0123456789abcdef0123456789abcdef0123456789abcdef0123456789abcdef"

abbrev open_gates : List String → Fields
open_gates [] = end
open_gates (g ∷ gs) = field g (bool true) (open_gates gs)

abbrev sample_gates : Fields
sample_gates = open_gates gate_names

abbrev sample_intake : Value
sample_intake = obj (
    field "schemaVersion" (str "chimpmaera.dev/signal-release-intake/v1")
      (field "signalDigest" (str (sample_hash "")) (field "gates" (obj sample_gates) end)))

sample_read :
    read_intake sample_intake
    ≡ some (record { signal_digest = sample_hash ""; gates = sample_gates })
unfolding read_intake has_keys
sample_read = refl

abbrev with_gates : Fields → Value
with_gates gates = obj (
    field "schemaVersion" (str "chimpmaera.dev/signal-release-intake/v1")
      (field "signalDigest" (str (sample_hash "")) (field "gates" (obj gates) end)))

-- two gates that are false, in front of others that are true
abbrev closed_gates_of : List String → Fields
closed_gates_of gates =
    field "IP_CLEAR" (bool false) (field "THREAD_LIVE" (bool false) (open_gates gates))

two_closed :
    evaluate sample_hash (
      with_gates (
        closed_gates_of (
          "NOT_DUPLICATE" ∷ "CHIMPMAERA_FIT" ∷ "PROBLEM_EVIDENCED" ∷ "ACTIONABLE" ∷ "PUBLIC_ONLY"
          ∷ "CONTENT_SAFE" ∷ "LOCAL_DECISION_ONLY" ∷ [])))
    ≡ ok (record {
      disposition = rejected;
      rejection_reasons = "THREAD_LIVE_DENIED" ∷ "IP_CLEAR_DENIED" ∷ [];
      decision_digest = sample_hash "";
    })
unfolding evaluate has_keys canonical_json
two_closed = refl

one_missing :
    evaluate sample_hash (with_gates (closed_gates_of []))
    ≡ err "SIGNAL_RELEASE_INTAKE_SCHEMA_DENIED"
unfolding evaluate has_keys
one_missing = refl

sample_decision : (d : IntakeDecision) × (evaluate sample_hash sample_intake ≡ ok d)
sample_decision = evaluate_total sample_hash sample_intake _ sample_read

evaluate-IsDecided_example : IsDecided sample_intake sample_decision.0
evaluate-IsDecided_example =
    evaluate-IsDecided sample_hash sample_intake sample_decision.0 sample_decision.1
