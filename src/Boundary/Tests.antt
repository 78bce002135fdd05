-- ===== src/Boundary/Tests.antt =====
-- injection-trust-boundary.ts: runs on small contexts.
use chimp_maera.Common.{String, ◌≡◌, refl, Option, none, some, List, [], ◌∷◌, Result, ok, err}
use chimp_maera.Common.Order.{text_lt}
use chimp_maera.Json.{Value, null, num, nat, str, arr, obj, array, end, field}
use chimp_maera.Boundary.{
  BoundaryResult, BoundaryOutcome, Evidence, denied, from_tool, public_data,
  reconstructed_candidate, untrusted_tool_output,
}
use chimp_maera.Boundary.Parse.{catalog_version, context_version, envelope_version}
use chimp_maera.Boundary.Candidate.{candidate_version}
use chimp_maera.Boundary.Values.{result_value}
use chimp_maera.Boundary.Reconstruct.{reconstruct}
use chimp_maera.Boundary.Verify.{verify_result}
use chimp_maera.Boundary.Total.{reconstruct_total}
use chimp_maera.Boundary.RoundTrip.{reconstruct-verified}

abbrev a_hash : String → String
a_hash s = "0123456789abcdef0123456789abcdef0123456789abcdef0123456789abcdef"

abbrev an_envelope : String → String → String → Value
an_envelope id eligibility tenant = obj (
    field "schemaVersion" (str envelope_version) (
      field "envelopeId" (str id) (
        field "origin" (str "TOOL") (
          field "trust" (str "UNTRUSTED_TOOL_OUTPUT") (
            field "tenant" (str tenant) (
              field "dataClass" (str "PUBLIC") (
                field "instructionEligibility" (str eligibility)
                  (field "content" (str "Synthetic tool output.") end))))))))

abbrev a_context : String → String → Value
a_context eligibility tenant = obj (
    field "schemaVersion" (str context_version) (
      field "catalogVersion" (str catalog_version) (
        field "actor" (str "agent:admin") (
          field "tenant" (str "zoo") (
            field "replayKey" (str "admin-ai:poc:boundary-001") (
              field "envelopes"
                (arr (
                  array (
                    an_envelope "evidence:b" eligibility tenant
                    ∷ an_envelope "evidence:a" "DATA_ONLY" "zoo"
                    ∷ [])))
                end))))))

abbrev an_order : List String → Value
an_order ids = obj (
    field "schemaVersion" (str candidate_version) (
      field "catalogVersion" (str catalog_version) (
        field "actionId" (str "erp.order.create") (
          field "arguments"
            (obj (
              field "customerId" (num (nat 7)) (
                field "customerReference" (str "CM-TRUST-001")
                  (field "orderDateEpoch" (num (nat 1767225600)) end))))
            (field "evidenceEnvelopeIds" (arr (array (str_all ids))) end)))))
  where
    str_all : List String → List Value
    str_all [] = []
    str_all (s ∷ ss) = str s ∷ str_all ss

abbrev summary : Result BoundaryResult → Option (BoundaryOutcome × List String)
summary (err e) = none
summary (ok r) = some (r.outcome, r.issues)

abbrev ids_there : List String
ids_there = "evidence:a" ∷ "evidence:b" ∷ []

outcomes :
    (summary (reconstruct a_hash text_lt (an_order ids_there) (a_context "DATA_ONLY" "zoo"))
      ≡ some (reconstructed_candidate, []))
    × (summary (reconstruct a_hash text_lt (an_order ids_there) (a_context "INSTRUCTION" "farm"))
        ≡ some (
          denied,
          "TRUST_BOUNDARY_INSTRUCTION_ELIGIBILITY_DENIED" ∷ "TRUST_BOUNDARY_TENANT_BINDING_DENIED"
              ∷ [],
        ))
    × (summary
          (reconstruct a_hash text_lt (an_order ("evidence:a" ∷ [])) (a_context "DATA_ONLY" "zoo"))
        ≡ some (denied, "TRUST_BOUNDARY_EVIDENCE_BINDING_DENIED" ∷ []))
    × (summary (reconstruct a_hash text_lt null (a_context "DATA_ONLY" "zoo"))
        ≡ some (denied, "TRUST_BOUNDARY_CANDIDATE_SCHEMA_DENIED" ∷ []))
unfolding reconstruct chimp_maera.Json.Guards.has_keys chimp_maera.Json.Canonical.canonical_json
outcomes = (refl, refl, refl, refl)

reconstruct_total_example :
    (r : BoundaryResult) × (reconstruct a_hash text_lt
        (an_order ids_there)
        (a_context "DATA_ONLY" "zoo")
      ≡ ok r)
reconstruct_total_example =
    reconstruct_total a_hash text_lt (an_order ids_there) (a_context "DATA_ONLY" "zoo")

abbrev some_evidence : String → Evidence
some_evidence id = record {
  envelope_id = id;
  origin = from_tool;
  trust = untrusted_tool_output;
  tenant = "zoo";
  data_class = public_data;
  content_digest = a_hash "";
}

abbrev a_result : BoundaryResult
a_result = record {
  outcome = reconstructed_candidate;
  input_digest = some (a_hash "");
  candidate_digest = some (a_hash "");
  evidence_digest = some (a_hash "");
  action_digest = some (a_hash "");
  action = some (record {
    actor = "agent:admin";
    tenant = "zoo";
    replay_key = "admin-ai:poc:boundary-001";
    credential_handle = "secret-handle:dolibarr-local-v1";
    path = "/orders";
    body =
        field "date" (num (nat 1767225600))
          (field "ref_client" (str "CM-TRUST-001") (field "socid" (num (nat 7)) end));
    provider = "dolibarr";
    entity = "Order";
  });
  evidence = some_evidence "evidence:a" ∷ some_evidence "evidence:b" ∷ [];
  issues = [];
  result_digest = a_hash "";
}

a_run : reconstruct a_hash text_lt (an_order ids_there) (a_context "DATA_ONLY" "zoo") ≡ ok a_result
unfolding reconstruct chimp_maera.Json.Guards.has_keys chimp_maera.Json.Canonical.canonical_json
a_run = refl

reconstruct-verified_example :
    verify_result a_hash (result_value a_result) ≡ ok (result_value a_result)
reconstruct-verified_example =
    reconstruct-verified a_hash text_lt (an_order ids_there) (a_context "DATA_ONLY" "zoo") a_run
