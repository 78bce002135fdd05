-- ===== src/Policy.antt =====
-- packages/contracts/src/policy-evaluator.ts: `verifyPolicyDecisionV1`. The input and the context are
-- plain objects. The decision may be anything: its test, unlike those of Json.Guards, asks for no
-- prototype, so a class instance with the right fields of its own passes.
pub mod Constrained
pub mod Digests
pub mod Accepted
mod Tests
use chimp_maera.Common.{
  String, Bool, true, false, ◌&&◌, Option, none, some, List, [], ◌∷◌, ◌==◌, eqb, includes,
  if◌then◌else◌, when, Result, ok, err, ◌>>=◌,
}
use chimp_maera.Json.{Value, Fields, undefined, null, bool, num, nat, str, obj, field_of, omit}
use chimp_maera.Json.Guards.{has_keys, is_text}
use chimp_maera.Common.Order.{sort_texts}
use chimp_maera.Rights.Compile.{digest}

abbrev pub input_version : String
input_version = "chimpmaera.demo/policy-evaluation-input/v1"

abbrev pub policy_context_version : String
policy_context_version = "chimpmaera.demo/trusted-policy-context/v1"

abbrev pub decision_version : String
decision_version = "chimpmaera.demo/policy-decision/v1"

abbrev pub decision_keys : List String
decision_keys =
    "constraints" ∷ "contextDigest" ∷ "decisionDigest" ∷ "evaluator" ∷ "inputDigest" ∷ "outcome"
    ∷ "reasonCodes" ∷ "schemaVersion" ∷ []

-- What is given as the decision. `object` is any object that is not an array, whatever its prototype,
-- by its own enumerable fields; `...core` of it is the plain object of these fields.
pub data Decision : Type 0 where
  null_value primitive array_value : Decision
  object : Fields → Decision

-- `exactKeys`, with the fields that are behind it. The canonical JSON of two lists of keys is the same
-- when the lists are.
abbrev pub exact_own_keys : Decision → List String → Option Fields
exact_own_keys (object fs) expected = when (has_keys fs (sort_texts expected)) fs
exact_own_keys null_value expected = none
exact_own_keys primitive expected = none
exact_own_keys array_value expected = none

-- `value[key]`, which throws on undefined and null
abbrev pub property_of : Value → String → Result Value
property_of (obj fs) key = ok (field_of key fs)
property_of undefined key = err "TypeError"
property_of null key = err "TypeError"
property_of _ key = ok undefined

-- `a && b`, where b may throw
abbrev pub and_also : Bool → Result Bool → Result Bool
and_also true rest = rest
and_also false rest = ok false

-- `["AUTO_GRANT", "OWNER_ESCALATION", "DENY"].includes(value)`
abbrev pub is_outcome : Value → Bool
is_outcome (str s) = includes ("AUTO_GRANT" ∷ "OWNER_ESCALATION" ∷ "DENY" ∷ []) s
is_outcome _ = false

abbrev pub is_true_value : Value → Bool
is_true_value (bool b) = b
is_true_value _ = false

-- `value === (outcome === "DENY" ? 0 : 1)`
abbrev pub is_effect_limit : Value → Value → Bool
is_effect_limit outcome (num (nat n)) = eqb n (if is_text outcome "DENY" then 0 else 1)
is_effect_limit outcome _ = false

-- the tests of the constraints
unfoldable pub check_constraints : Fields → Result Bool
check_constraints fs = do
  let constraints = field_of "constraints" fs
  issuer ← property_of constraints "authorityIssuer"
  exact ← property_of constraints "exactInputRequired"
  effects ← property_of constraints "maximumEffects"
  ok (
      is_text issuer "CHIMPMAERA_GATE_ONLY"
      && is_true_value exact
      && is_effect_limit (field_of "outcome" fs) effects)

abbrev pub is_versioned : Fields → Fields → Fields → Bool
is_versioned fs input context =
    is_text (field_of "schemaVersion" fs) decision_version
    && is_text (field_of "schemaVersion" input) input_version
    && is_text (field_of "schemaVersion" context) policy_context_version

module _ (sha256_hex : String → String) where
  -- `claimed === digest(value)`
  unfoldable pub is_digest_of : Value → Value → Result Bool
  unfolding digest
  is_digest_of claimed v = do d ← digest sha256_hex v; ok (is_text claimed d)

  -- behind the tests of the versions
  unfoldable pub check_digests : Fields → Fields → Fields → Result Bool
  unfolding is_digest_of check_constraints
  check_digests fs input context = do
    of_input ← is_digest_of (field_of "inputDigest" fs) (obj input)
    and_also of_input (do
      of_context ← is_digest_of (field_of "contextDigest" fs) (obj context)
      and_also of_context (do
        of_decision ← is_digest_of (field_of "decisionDigest" fs) (obj (omit "decisionDigest" fs))
        and_also of_decision
            (and_also (is_outcome (field_of "outcome" fs)) (check_constraints fs))))

  abbrev pub verify_fields : Option Fields → Fields → Fields → Result Bool
  verify_fields none input context = ok false
  verify_fields (some fs) input context =
      and_also (is_versioned fs input context) (check_digests fs input context)

  -- `verifyPolicyDecisionV1`
  unfoldable pub verify_decision : Decision → Fields → Fields → Result Bool
  unfolding check_digests
  verify_decision decision input context =
      verify_fields (exact_own_keys decision decision_keys) input context
