-- ===== src/Intake/Shape.antt =====
-- signal-release-intake.ts: the gates, and the shape of an intake.
use Prim.Native.String.{◌++◌}
use chimp_maera.Common.{String, Bool, true, false, ◌&&◌, Option, some, List, [], ◌∷◌}
use chimp_maera.Common.Order.{codes}
use chimp_maera.Common.Pattern.{run, is_hex}
use chimp_maera.Common.Maybe.{◌>>=◌, ◌>>◌, check}
use chimp_maera.Json.{Value, bool, Fields, end, field, field_of}
use chimp_maera.Json.Guards.{exact_keys, as_text, is_text}

-- `SIGNAL_RELEASE_INTAKE_GATES_V1`
abbrev pub gate_names : List String
gate_names =
    "THREAD_LIVE" ∷ "NOT_DUPLICATE" ∷ "CHIMPMAERA_FIT" ∷ "PROBLEM_EVIDENCED" ∷ "ACTIONABLE"
    ∷ "PUBLIC_ONLY" ∷ "CONTENT_SAFE" ∷ "IP_CLEAR" ∷ "LOCAL_DECISION_ONLY" ∷ []

abbrev pub reason_of : String → String
reason_of gate = gate ++ "_DENIED"

abbrev pub is_true : Value → Bool
is_true (bool b) = b
is_true v = false

abbrev pub is_boolean : Value → Bool
is_boolean (bool b) = true
is_boolean v = false

-- `Object.values(gates).every((gate) => typeof gate === "boolean")`
abbrev pub all_boolean : Fields → Bool
all_boolean end = true
all_boolean (field k v fs) = is_boolean v && all_boolean fs

pub record Intake : Type 0 where
  pub signal_digest : String
  pub gates : Fields

abbrev pub intake_keys : List String
intake_keys = "schemaVersion" ∷ "signalDigest" ∷ "gates" ∷ []

-- the checks whose failure is SIGNAL_RELEASE_INTAKE_SCHEMA_DENIED
unfoldable pub read_intake : Value → Option Intake
unfolding run
read_intake v = do
  fs ← exact_keys v intake_keys
  check (is_text (field_of "schemaVersion" fs) "chimpmaera.dev/signal-release-intake/v1")
  signal_digest ← as_text (field_of "signalDigest" fs)
  check (run is_hex 64 64 (codes signal_digest))
  gates ← exact_keys (field_of "gates" fs) gate_names
  check (all_boolean gates)
  some (record { signal_digest = signal_digest; gates = gates })
