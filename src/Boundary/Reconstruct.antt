-- ===== src/Boundary/Reconstruct.antt =====
-- injection-trust-boundary.ts: `makeResult`, `deny` and `reconstructTrustedActionCandidateV1`.
use chimp_maera.Common.{String, Bool, Option, none, some, List, [], ◌∷◌, Result, ok, err, ◌>>=◌}
use chimp_maera.Common.Order.{sort_texts}
use chimp_maera.Json.{Value, str, obj, end, field}
use chimp_maera.Rights.Parse.{Checked}
use chimp_maera.Rights.Compile.{digest}
use chimp_maera.Boundary.{
  BoundaryResult, ContentEnvelope, Evidence, ParsedCandidate, ReconstructedAction,
  ReconstructionContext, denied, reconstructed_candidate,
}
use chimp_maera.Boundary.Parse.{parse_context}
use chimp_maera.Boundary.Candidate.{parse_candidate, reconstruct_action}
use chimp_maera.Boundary.Values.{
  action_fields, candidate_value, context_value, evidence_list, result_core,
}

-- `digestOrNull`
abbrev pub digest_or_none : Result String → Option String
digest_or_none (ok d) = some d
digest_or_none (err e) = none

abbrev pub input_value : Value → Value → Value
input_value candidate context =
    obj (field "candidate" candidate (field "trustedContext" context end))

abbrev pub denial : Option String → List String → BoundaryResult
denial input_digest issues = record {
  outcome = denied;
  input_digest = input_digest;
  candidate_digest = none;
  evidence_digest = none;
  action_digest = none;
  action = none;
  evidence = [];
  issues = sort_texts issues;
  result_digest = "";
}

abbrev pub evidence_of : ContentEnvelope → String → Evidence
evidence_of e d = record {
  envelope_id = e.envelope_id;
  origin = e.origin;
  trust = e.trust;
  tenant = e.tenant;
  data_class = e.data_class;
  content_digest = d;
}

abbrev pub reconstruction :
    String → String → String → String → ReconstructedAction → List Evidence → BoundaryResult
reconstruction input_digest candidate_digest evidence_digest action_digest action evidence =
    record {
      outcome = reconstructed_candidate;
      input_digest = some input_digest;
      candidate_digest = some candidate_digest;
      evidence_digest = some evidence_digest;
      action_digest = some action_digest;
      action = some action;
      evidence = evidence;
      issues = [];
      result_digest = "";
    }

module _ (sha256_hex : String → String) where
  -- `makeResult`
  unfoldable pub make_result : BoundaryResult → Result BoundaryResult
  unfolding digest
  make_result r = do d ← digest sha256_hex (result_core r); ok (record r { result_digest = d })

  -- `deny`
  unfoldable pub deny : Value → Value → List String → Result BoundaryResult
  unfolding make_result
  deny candidate context issues =
      make_result
        (denial (digest_or_none (digest sha256_hex (input_value candidate context))) issues)

  -- `evidence`, with the digest of every content
  unfoldable pub collect_evidence : List ContentEnvelope → Result (List Evidence)
  unfolding digest
  collect_evidence [] = ok []
  collect_evidence (e ∷ es) = do
    d ← digest sha256_hex (str e.content)
    rest ← collect_evidence es
    ok (evidence_of e d ∷ rest)

  -- behind the two parsers
  unfoldable pub reconstruct_parsed :
      ParsedCandidate → ReconstructionContext → Result BoundaryResult
  unfolding collect_evidence make_result reconstruct_action
  reconstruct_parsed k c = do
    evidence ← collect_evidence c.envelopes
    let action = reconstruct_action k.arguments c
    input_digest ← digest sha256_hex (input_value (candidate_value k) (context_value c))
    candidate_digest ← digest sha256_hex (candidate_value k)
    evidence_digest ← digest sha256_hex (evidence_list evidence)
    action_digest ← digest sha256_hex (obj (action_fields action))
    make_result
        (reconstruction input_digest candidate_digest evidence_digest action_digest action evidence)

  -- behind the parser of the candidate
  abbrev pub reconstruct_candidate :
      Value → Value → ReconstructionContext → Checked ParsedCandidate → Result BoundaryResult
  reconstruct_candidate candidate context c (issues, none) = deny candidate context issues
  reconstruct_candidate candidate context c (issues, some k) = reconstruct_parsed k c

  -- behind the parser of the context
  abbrev pub reconstruct_context :
      Value → Value → Checked ReconstructionContext → Result BoundaryResult
  reconstruct_context candidate context (issues, none) = deny candidate context issues
  reconstruct_context candidate context (issues, some c) =
      reconstruct_candidate candidate context c (parse_candidate candidate c issues)

  -- `reconstructTrustedActionCandidateV1`; the order is that of `localeCompare`
  unfoldable pub reconstruct : (String → String → Bool) → Value → Value → Result BoundaryResult
  unfolding deny reconstruct_parsed parse_context parse_candidate
  reconstruct locale_lt candidate context =
      reconstruct_context candidate context (parse_context locale_lt context)
