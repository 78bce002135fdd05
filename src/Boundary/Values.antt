-- ===== src/Boundary/Values.antt =====
-- injection-trust-boundary.ts: the values that are digested.
use chimp_maera.Common.{String, Option, none, some, List, map}
use chimp_maera.Json.{Value, null, str, num, nat, arr, obj, Fields, end, field, array}
use chimp_maera.Rights.Values.{text_or_null, texts_value}
use chimp_maera.Boundary.{
  ActionArguments, BoundaryOutcome, BoundaryResult, ContentEnvelope, Evidence, ParsedCandidate,
  ReconstructedAction, ReconstructionContext, class_name, contact_arguments, denied,
  order_arguments, origin_name, reconstructed_candidate, trust_name,
}
use chimp_maera.Boundary.Parse.{catalog_version, context_version, envelope_version}
use chimp_maera.Boundary.Candidate.{candidate_version}

abbrev pub result_version : String
result_version = "chimpmaera.security/trust-boundary-result/v1"

abbrev pub no_authority : String
no_authority = "CANDIDATE_ONLY_NO_DECISION_APPROVAL_AUTHORITY_OR_PROVIDER_CALL"

abbrev pub boundary_outcome_name : BoundaryOutcome → String
boundary_outcome_name reconstructed_candidate = "RECONSTRUCTED_CANDIDATE"
boundary_outcome_name denied = "DENY"

abbrev pub envelope_value : ContentEnvelope → Value
envelope_value e = obj (
    field "schemaVersion" (str envelope_version) (
      field "envelopeId" (str e.envelope_id) (
        field "origin" (str (origin_name e.origin)) (
          field "trust" (str (trust_name e.trust)) (
            field "tenant" (str e.tenant) (
              field "dataClass" (str (class_name e.data_class)) (
                field "instructionEligibility" (str "DATA_ONLY")
                  (field "content" (str e.content) end))))))))

abbrev pub context_value : ReconstructionContext → Value
context_value c = obj (
    field "schemaVersion" (str context_version) (
      field "catalogVersion" (str catalog_version) (
        field "actor" (str c.actor) (
          field "tenant" (str c.tenant) (
            field "replayKey" (str c.replay_key)
              (field "envelopes" (arr (array (map envelope_value c.envelopes))) end))))))

abbrev pub arguments_value : ActionArguments → Value
arguments_value (contact_arguments email_address first_name last_name) = obj (
    field "emailAddress" (str email_address)
      (field "firstName" (str first_name) (field "lastName" (str last_name) end)))
arguments_value (order_arguments customer_id customer_reference order_date_epoch) = obj (
    field "customerId" (num (nat customer_id)) (
      field "customerReference" (str customer_reference)
        (field "orderDateEpoch" (num (nat order_date_epoch)) end)))

abbrev pub action_id : ActionArguments → String
action_id (contact_arguments email_address first_name last_name) = "crm.contact.create"
action_id (order_arguments customer_id customer_reference order_date_epoch) = "erp.order.create"

abbrev pub candidate_value : ParsedCandidate → Value
candidate_value k = obj (
    field "schemaVersion" (str candidate_version) (
      field "catalogVersion" (str catalog_version) (
        field "actionId" (str (action_id k.arguments)) (
          field "arguments" (arguments_value k.arguments)
            (field "evidenceEnvelopeIds" (texts_value k.evidence_ids) end)))))

abbrev pub action_fields : ReconstructedAction → Fields
action_fields a = field "actionType" (str "PROVIDER_MUTATION_CANDIDATE") (
    field "actor" (str a.actor) (
      field "catalogVersion" (str catalog_version) (
        field "credentialHandle" (str a.credential_handle) (
          field "payload"
            (obj (
              field "method" (str "POST")
                (field "path" (str a.path) (field "body" (obj a.body) end))))
            (field "replayKey" (str a.replay_key) (
              field "scope"
                (obj (
                  field "actor" (str a.actor) (
                    field "tenant" (str a.tenant) (
                      field "provider" (str a.provider) (
                        field "entity" (str a.entity)
                          (field "operation" (str "CREATE_IF_ABSENT") end))))))
                end))))))

abbrev pub evidence_value : Evidence → Value
evidence_value e = obj (
    field "envelopeId" (str e.envelope_id) (
      field "origin" (str (origin_name e.origin)) (
        field "trust" (str (trust_name e.trust)) (
          field "tenant" (str e.tenant) (
            field "dataClass" (str (class_name e.data_class)) (
              field "instructionEligibility" (str "DATA_ONLY")
                (field "contentDigest" (str e.content_digest) end)))))))

abbrev pub evidence_list : List Evidence → Value
evidence_list es = arr (array (map evidence_value es))

abbrev pub action_or_null : Option ReconstructedAction → Value
action_or_null none = null
action_or_null (some a) = obj (action_fields a)

-- the fields of a result, in front of those that are given
abbrev result_fields : BoundaryResult → Fields → Fields
result_fields r rest = field "schemaVersion" (str result_version) (
    field "outcome" (str (boundary_outcome_name r.outcome)) (
      field "claim" (str no_authority) (
        field "inputDigest" (text_or_null r.input_digest) (
          field "candidateDigest" (text_or_null r.candidate_digest) (
            field "evidenceDigest" (text_or_null r.evidence_digest) (
              field "actionDigest" (text_or_null r.action_digest) (
                field "action" (action_or_null r.action) (
                  field "evidence" (evidence_list r.evidence)
                    (field "issues" (texts_value r.issues) rest)))))))))

-- `core` of `makeResult`
abbrev pub result_core : BoundaryResult → Value
result_core r = obj (result_fields r end)

-- the fields of a result
abbrev pub result_entries : BoundaryResult → Fields
result_entries r = result_fields r (field "resultDigest" (str r.result_digest) end)

-- a result as a value
abbrev pub result_value : BoundaryResult → Value
result_value r = obj (result_entries r)
