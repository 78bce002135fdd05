-- ===== src/Intake.antt =====
-- packages/contracts/src/signal-release-intake.ts: the decision over the gates of a signal. Shape reads
-- the intake.
pub mod Shape
pub mod Formed
pub mod Decided
mod Tests
use chimp_maera.Common.{
  String, Bool, true, false, not, Option, none, some, List, [], ◌∷◌, ◌++◌, keep, map, Result, ok,
  err, ◌>>=◌, or_throw,
}
use chimp_maera.Json.{Value, bool, str, arr, obj, Fields, end, field, field_of, array}
use chimp_maera.Json.Canonical.{canonical_json}
use chimp_maera.Intake.Shape.{Intake, read_intake, gate_names, reason_of, is_true}

pub data Disposition : Type 0 where
  pre_candidate rejected : Disposition

-- `SignalReleaseIntakeDecisionV1`, without its constant fields
pub record IntakeDecision : Type 0 where
  pub disposition : Disposition
  pub rejection_reasons : List String
  pub decision_digest : String

abbrev pub disposition_of : List String → Disposition
disposition_of [] = pre_candidate
disposition_of (r ∷ rs) = rejected

abbrev pub disposition_name : Disposition → String
disposition_name pre_candidate = "PRE_CANDIDATE"
disposition_name rejected = "REJECTED"

-- `GATES.filter((gate) => !gates[gate])`
unfoldable pub closed_gates : Fields → List String
closed_gates gates = keep (λ gate. not (is_true (field_of gate gates))) gate_names

-- what the decision's digest covers
abbrev pub unsigned_value : String → List String → Value
unsigned_value signal_digest reasons = obj (
    field "signalDigest" (str signal_digest) (
      field "disposition" (str (disposition_name (disposition_of reasons))) (
        field "rejectionReasons" (arr (array (map str reasons))) (
          field "evaluatedGates" (arr (array (map str gate_names))) (
            field "authorityBoundary"
              (str "LOCAL_SYNTHETIC_DECISION_NO_MONITORING_POSTING_OR_RELEASE") end)))))

module _ (sha256_hex : String → String) where
  -- `evaluateSignalReleaseIntakeV1`
  unfoldable pub evaluate : Value → Result IntakeDecision
  unfolding read_intake closed_gates
  evaluate v = do
    intake ← or_throw (read_intake v) "SIGNAL_RELEASE_INTAKE_SCHEMA_DENIED"
    let reasons = map reason_of (closed_gates intake.gates)
    text ← or_throw (canonical_json (unsigned_value intake.signal_digest reasons)) "TypeError"
    ok (record {
      disposition = disposition_of reasons;
      rejection_reasons = reasons;
      decision_digest = sha256_hex text;
    })
