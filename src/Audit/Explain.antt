-- ===== src/Audit/Explain.antt =====
-- protected-audit-timeline.ts: `explainProtectedAuditTimelineV1`.
use mathlib.Core.List.{get_last?}
use chimp_maera.Common.{
  String, Bool, true, false, Option, none, some, List, [], if◌then◌else◌, Result, ok, ◌>>=◌,
}
use chimp_maera.Json.{Value}
use chimp_maera.Audit.{
  EventKind, Outcome, committed, reconciled, rolled_back, Crypto, TrustPolicy, VerifiedFact,
  Verification, verified, unverifiable,
}
use chimp_maera.Audit.Verify.{verify_timeline}

pub data ExplanationStatus : Type 0 where
  verified_success verified_non_success status_unverifiable : ExplanationStatus

-- The explanation without its summary text, which joins these values for a reader.
pub record Explanation : Type 0 where
  pub status : ExplanationStatus
  pub issues : List String
  pub stages : List VerifiedFact

abbrev pub is_success_outcome : EventKind → Outcome → Bool
is_success_outcome EventKind.readback committed = true
is_success_outcome EventKind.reconcile reconciled = true
is_success_outcome EventKind.rollback rolled_back = true
is_success_outcome _ _ = false

abbrev pub is_success : Option VerifiedFact → Bool
is_success none = false
is_success (some f) = is_success_outcome f.kind f.outcome

abbrev pub explain : Verification → Explanation
explain (unverifiable issues) = record {
  status = status_unverifiable;
  issues = issues;
  stages = [];
}
explain (verified timeline tenant checkpoint_digest facts) = record {
  status = if is_success (get_last? facts) then verified_success else verified_non_success;
  issues = [];
  stages = facts;
}

-- `explainProtectedAuditTimelineV1`
unfoldable pub explain_timeline : Crypto → TrustPolicy → List Value → Value → Result Explanation
unfolding verify_timeline
explain_timeline c trust envelopes checkpoint_value = do
  verification ← verify_timeline c trust envelopes checkpoint_value
  ok (explain verification)
