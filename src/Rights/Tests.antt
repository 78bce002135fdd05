-- ===== src/Rights/Tests.antt =====
-- effective-rights.ts: runs of the model, and its theorems at a concrete input.
use chimp_maera.Common.{
  ℕ, String, ◌≡◌, ◌↔◌, ◌≢◌, refl, Bool, true, false, if◌then◌else◌, not, Option, none, some, List,
  [], ◌∷◌, includes, All, Result, ok, err,
}
use chimp_maera.Json.{Value, null, str, num, nat, arr, obj, end, field, array}
use chimp_maera.Json.Canonical.{canonical_json}
use chimp_maera.Json.Guards.{has_keys}
use chimp_maera.Rights.{RightsOutcome, allow, escalate, deny, Ceiling, EffectiveRights}
use chimp_maera.Rights.Values.{texts_value, input_schema, rights_value}
use chimp_maera.Rights.Verify.{digest_text_ok, invalid_rights, verify_rights}
use chimp_maera.Rights.Listed.{are_new}
use chimp_maera.Rights.RoundTrip.{compile-verified}
use chimp_maera.Rights.Xray.{HaveText, IsXray, render_xray, verify_parity, render_xray-parity}
use chimp_maera.Rights.Compile.{compile}
use chimp_maera.Rights.Total.{compile_total}
use chimp_maera.Rights.Bounded.{part_of, of_actions, compile-permits}
use chimp_maera.Rights.Ceilings.{IsPermitted, compile-IsPermitted}

abbrev sample_hash : String → String
sample_hash text = "0123456789abcdef0123456789abcdef0123456789abcdef0123456789abcdef"

abbrev sample_scope : List String → List String → List String → List String → Value
sample_scope actions resources fields purposes = obj (
    field "actions" (texts_value actions) (
      field "resources" (texts_value resources) (
        field "fields" (texts_value fields) (
          field "purposes" (texts_value purposes)
            (field "effects" (texts_value ("CREATE" ∷ [])) end)))))

abbrev sample_operand : String → String → ℕ → String → Value → Value
sample_operand kind id generation ceiling scope = obj (
    field "kind" (str kind) (
      field "operandId" (str id) (
        field "tenant" (str "panskys-zoo-demo") (
          field "actor" (str "agent:admin-ai-poc") (
            field "profileId" (str "SAFE_GUIDED") (
              field "profileGeneration" (num (nat 1)) (
                field "generation" (num (nat generation))
                  (field "decisionCeiling" (str ceiling) (field "scope" scope end)))))))))

abbrev wide : Value
wide =
    sample_scope ("crm.contact.create" ∷ "erp.order.create" ∷ [])
      ("dolibarr.order" ∷ "espocrm.contact" ∷ []) ("email" ∷ "name" ∷ "quantity" ∷ "sku" ∷ [])
      ("owner.review" ∷ "synthetic.demo" ∷ [])

abbrev narrow : Value
narrow =
    sample_scope ("crm.contact.create" ∷ []) ("espocrm.contact" ∷ []) ("email" ∷ "name" ∷ [])
      ("synthetic.demo" ∷ [])

abbrev sample_operands : String → List Value
sample_operands ceiling =
    sample_operand "PROFILE" "synthetic.profile.v1" 1 "ALLOW" wide
    ∷ sample_operand "ASSIGNMENT" "synthetic.assignment.v1" 2 "ALLOW" narrow
    ∷ sample_operand "CAPABILITY" "synthetic.capability.v1" 3 "ALLOW" narrow
    ∷ sample_operand "CONSTRAINT" "synthetic.constraint.v1" 4 ceiling narrow
    ∷ []

abbrev input_with : List Value → Value
input_with operands = obj (
    field "schemaVersion" (str input_schema) (
      field "actor" (str "agent:admin-ai-poc")
        (field "tenant" (str "panskys-zoo-demo") (field "operands" (arr (array operands)) end))))

-- the synthetic input, with the ceiling of the constraint
abbrev sample_input : String → Value
sample_input ceiling = input_with (sample_operands ceiling)

-- the synthetic input, with a second profile
abbrev doubled_input : Value
doubled_input =
    input_with
      (sample_operand "PROFILE" "synthetic.profile.v1" 1 "ALLOW" wide ∷ sample_operands "ALLOW")

outcome_of_result : Result EffectiveRights → Option RightsOutcome
outcome_of_result (ok r) = some r.outcome
outcome_of_result (err e) = none

outcomes :
    (outcome_of_result (compile sample_hash (sample_input "ALLOW")) ≡ some allow)
    × (outcome_of_result (compile sample_hash (sample_input "ESCALATE")) ≡ some escalate)
    × (outcome_of_result (compile sample_hash (sample_input "DENY")) ≡ some deny)
    × (outcome_of_result (compile sample_hash null) ≡ some deny)
unfolding compile outcome_of_result canonical_json has_keys
outcomes = (refl, refl, refl, refl)

compile_total_example : (r : EffectiveRights) × (compile sample_hash (sample_input "ALLOW") ≡ ok r)
compile_total_example = compile_total sample_hash (sample_input "ALLOW")

passes : (EffectiveRights → Bool) → Result EffectiveRights → Bool
passes test (ok r) = test r
passes test (err e) = false

-- A result that passes a test.
passed :
    (test : EffectiveRights → Bool) (x : Result EffectiveRights)
    → passes test x ≡ true
    → (r : EffectiveRights) × (x ≡ ok r) × (test r ≡ true)
unfolding passes
passed test (ok r) h = (r, refl, h)
passed test (err e) h = cc

abbrev creates_contact : EffectiveRights → Bool
creates_contact r = includes (part_of of_actions r.effective_scope) "crm.contact.create"

contact :
    (r : EffectiveRights) × (compile sample_hash (sample_input "ALLOW") ≡ ok r)
    × (creates_contact r ≡ true)
unfolding compile passes canonical_json has_keys
contact = passed creates_contact (compile sample_hash (sample_input "ALLOW")) refl

compile-permits_example :
    All
      (λ (c : Ceiling). includes (part_of of_actions c.scope) "crm.contact.create" ≡ true)
      contact.0.ceilings
compile-permits_example =
    compile-permits sample_hash (sample_input "ALLOW") contact.0 contact.1 of_actions
      "crm.contact.create" contact.2

abbrev is_allowed : RightsOutcome → Bool
is_allowed allow = true
is_allowed _ = false

allowed :
    (r : EffectiveRights) × (compile sample_hash (sample_input "ALLOW") ≡ ok r)
    × (is_allowed r.outcome ≡ true)
unfolding compile passes canonical_json has_keys
allowed = passed (λ r. is_allowed r.outcome) (compile sample_hash (sample_input "ALLOW")) refl

is_allowed-not_deny : (o : RightsOutcome) → is_allowed o ≡ true → o ≢ deny
is_allowed-not_deny allow h p = cc
is_allowed-not_deny escalate h p = cc
is_allowed-not_deny deny h p = cc

compile-IsPermitted_example : IsPermitted allowed.0
compile-IsPermitted_example =
    compile-IsPermitted sample_hash (sample_input "ALLOW") allowed.0 allowed.1
      (is_allowed-not_deny allowed.0.outcome allowed.2)

sample_hex : (s : String) → digest_text_ok (sample_hash s) ≡ true
unfolding digest_text_ok
sample_hex s = refl

abbrev has_new_kinds : EffectiveRights → Bool
has_new_kinds r = are_new [] r.ceilings

verifiable :
    (r : EffectiveRights) × (compile sample_hash (sample_input "ALLOW") ≡ ok r)
    × (has_new_kinds r ≡ true)
unfolding compile passes canonical_json has_keys
verifiable = passed has_new_kinds (compile sample_hash (sample_input "ALLOW")) refl

-- the denial of an input with two profiles, which the verifier rejects
doubled :
    (r : EffectiveRights) × (compile sample_hash doubled_input ≡ ok r)
    × (not (has_new_kinds r) ≡ true)
unfolding compile passes canonical_json has_keys
doubled = passed (λ r. not (has_new_kinds r)) (compile sample_hash doubled_input) refl

compile-verified_example : verify_rights sample_hash (rights_value verifiable.0) ≡ (
    if are_new [] verifiable.0.ceilings then ok (rights_value verifiable.0) else err invalid_rights)
compile-verified_example =
    compile-verified sample_hash sample_hex (sample_input "ALLOW") verifiable.1

render_xray-parity_example :
    (view : Value) × (render_xray sample_hash (rights_value verifiable.0) ≡ ok view)
    × IsXray verifiable.0 view
    × (verify_parity sample_hash view (rights_value verifiable.0) ≡ true)
    × ((other : Value)
        → (verify_parity sample_hash other (rights_value verifiable.0) ≡ true)
          ↔ HaveText other view)
render_xray-parity_example =
    render_xray-parity sample_hash sample_hex (sample_input "ALLOW") verifiable.1 verifiable.2
