-- ===== src/Policy/Tests.antt =====
-- policy-evaluator.ts: decisions on a small input.
use chimp_maera.Common.{String, ◌≡◌, ◌↔◌, refl, true, false, [], ok, ℕ}
use chimp_maera.Json.{Fields, arr, array, bool, num, nat, null, str, obj, end, field}
use chimp_maera.Rights.Compile.{digest}
use chimp_maera.Policy.{
  decision_version, input_version, policy_context_version, verify_decision, Decision, object,
  null_value, array_value, primitive,
}
use chimp_maera.Policy.Accepted.{IsAccepted, verify_decision-IsAccepted, verify_decision-same}

abbrev a_hash : String → String
a_hash s = "0123456789abcdef0123456789abcdef0123456789abcdef0123456789abcdef"

abbrev an_input : Fields
an_input = field "schemaVersion" (str input_version) (field "actor" (str "agent:admin") end)

abbrev another_input : Fields
another_input = field "schemaVersion" (str input_version) (field "actor" (str "agent:other") end)

abbrev a_context : Fields
a_context = field "schemaVersion" (str policy_context_version) (field "policyId" (str "policy") end)

abbrev a_decision : String → ℕ → Decision
a_decision outcome effects = object (
    field "schemaVersion" (str decision_version) (
      field "inputDigest" (str (a_hash "")) (
        field "contextDigest" (str (a_hash "")) (
          field "evaluator" null (
            field "outcome" (str outcome) (
              field "reasonCodes" (arr (array [])) (
                field "constraints"
                  (obj (
                    field "authorityIssuer" (str "CHIMPMAERA_GATE_ONLY") (
                      field "maximumEffects" (num (nat effects))
                        (field "exactInputRequired" (bool true) end))))
                  (field "decisionDigest" (str (a_hash "")) end))))))))

decisions :
    (verify_decision a_hash (a_decision "AUTO_GRANT" 1) an_input a_context ≡ ok true)
    × (verify_decision a_hash (a_decision "DENY" 0) an_input a_context ≡ ok true)
    × (verify_decision a_hash (a_decision "DENY" 1) an_input a_context ≡ ok false)
    × (verify_decision a_hash (a_decision "GRANT" 1) an_input a_context ≡ ok false)
    × (verify_decision a_hash null_value an_input a_context ≡ ok false)
    × (verify_decision a_hash primitive an_input a_context ≡ ok false)
    × (verify_decision a_hash array_value an_input a_context ≡ ok false)
unfolding verify_decision chimp_maera.Json.Guards.has_keys chimp_maera.Json.Canonical.canonical_json
decisions = (refl, refl, refl, refl, refl, refl, refl)

verify_decision-IsAccepted_example :
    (verify_decision a_hash (a_decision "DENY" 0) an_input a_context ≡ ok true)
    ↔ IsAccepted a_hash (a_decision "DENY" 0) an_input a_context
verify_decision-IsAccepted_example =
    verify_decision-IsAccepted a_hash (a_decision "DENY" 0) an_input a_context

denial_example : IsAccepted a_hash (a_decision "DENY" 0) an_input a_context
denial_example =
    (verify_decision-IsAccepted a_hash (a_decision "DENY" 0) an_input a_context).0 decisions.1

-- a hash that does not tell the two inputs apart
another : verify_decision a_hash (a_decision "DENY" 0) another_input a_context ≡ ok true
unfolding verify_decision chimp_maera.Json.Guards.has_keys chimp_maera.Json.Canonical.canonical_json
another = refl

verify_decision-same_example :
    (digest a_hash (obj an_input) ≡ digest a_hash (obj another_input))
    × (digest a_hash (obj a_context) ≡ digest a_hash (obj a_context))
verify_decision-same_example =
    verify_decision-same a_hash (a_decision "DENY" 0) an_input a_context another_input a_context
      decisions.1 another
