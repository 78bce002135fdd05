-- ===== src/Rights/Values.antt =====
-- effective-rights.ts: the values that are digested.
use chimp_maera.Common.{ℕ, String, true, Option, none, some, List, map}
use chimp_maera.Common.Order.{sort_texts}
use chimp_maera.Json.{Value, null, bool, str, num, nat, arr, obj, Fields, end, field, array}
use chimp_maera.Rights.{
  Scope, Operand, Ceiling, ReasonFact, EffectiveRights, kind_name, outcome_name,
}

abbrev pub input_schema : String
input_schema = "chimpmaera.security/effective-rights-input/v1"

abbrev pub result_schema : String
result_schema = "chimpmaera.security/effective-rights-result/v1"

abbrev pub texts_value : List String → Value
texts_value texts = arr (array (map str texts))

abbrev pub scope_value : Scope → Value
scope_value s = obj (
    field "actions" (texts_value s.actions) (
      field "resources" (texts_value s.resources) (
        field "fields" (texts_value s.fields) (
          field "purposes" (texts_value s.purposes)
            (field "effects" (texts_value s.effects) end)))))

abbrev pub operand_value : Operand → Value
operand_value o = obj (
    field "kind" (str (kind_name o.kind)) (
      field "operandId" (str o.operand_id) (
        field "tenant" (str o.tenant) (
          field "actor" (str o.actor) (
            field "generation" (num (nat o.generation)) (
              field "profileId" (str o.profile_id) (
                field "profileGeneration" (num (nat o.profile_generation)) (
                  field "decisionCeiling" (str (outcome_name o.decision_ceiling))
                    (field "scope" (scope_value o.scope) end)))))))))

abbrev pub ceiling_value : Ceiling → Value
ceiling_value x = obj (
    field "kind" (str (kind_name x.kind)) (
      field "operandId" (str x.operand_id) (
        field "generation" (num (nat x.generation)) (
          field "decisionCeiling" (str (outcome_name x.decision_ceiling)) (
            field "scope" (scope_value x.scope)
              (field "operandDigest" (str x.operand_digest) end))))))

abbrev pub fact_value : ReasonFact → Value
fact_value f =
    obj (
      field "code" (str f.code) (field "source" (str f.source) (field "detail" (str f.detail) end)))

abbrev pub text_or_null : Option String → Value
text_or_null none = null
text_or_null (some s) = str s

abbrev pub number_or_null : Option ℕ → Value
number_or_null none = null
number_or_null (some n) = num (nat n)

-- the fields of `core` of `buildResult`, in front of those that are given
abbrev pub core_fields : EffectiveRights → Fields → Fields
core_fields r rest = field "schemaVersion" (str result_schema) (
    field "inputDigest" (str r.input_digest) (
      field "actor" (text_or_null r.actor) (
        field "tenant" (text_or_null r.tenant) (
          field "profileBinding"
            (obj (
              field "profileId" (text_or_null r.profile_id)
                (field "profileGeneration" (number_or_null r.profile_generation) end)))
            (field "outcome" (str (outcome_name r.outcome)) (
              field "effectiveScope" (scope_value r.effective_scope) (
                field "ceilings" (arr (array (map ceiling_value r.ceilings))) (
                  field "reasonFacts" (arr (array (map fact_value r.reason_facts))) (
                    field "issues" (texts_value r.issues)
                      (field "informationalOnly" (bool true) rest))))))))))

-- `core` of `buildResult`
abbrev pub core_value : EffectiveRights → Value
core_value r = obj (core_fields r end)

-- the fields of a result
abbrev pub rights_entries : EffectiveRights → Fields
rights_entries r = core_fields r (field "resultDigest" (str r.result_digest) end)

-- a result as a value
abbrev pub rights_value : EffectiveRights → Value
rights_value r = obj (rights_entries r)

abbrev pub invalid_value : List String → Value
invalid_value issues =
    obj (field "invalidInput" (bool true) (field "issues" (texts_value (sort_texts issues)) end))

-- `normalizedInput` on the operands in the order of their kinds, as a value
abbrev pub normalized_value : String → String → List Operand → Value
normalized_value actor tenant operands = obj (
    field "schemaVersion" (str input_schema) (
      field "actor" (str actor) (
        field "tenant" (str tenant)
          (field "operands" (arr (array (map operand_value operands))) end))))
