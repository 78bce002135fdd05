-- ===== src/Audit/Explained.antt =====
-- protected-audit-timeline.ts: what `explainProtectedAuditTimelineV1` reports as a success.
use mathlib.Core.List.{get_last?}
use chimp_maera.Common.{
  ok_injective, String, ◌≡◌, refl, ap, Bool, true, false, Option, none, some, List, [], ◌⊎◌, inl,
  inr, if◌then◌else◌, Bool-cases, ok, on_ok, subst,
}
use chimp_maera.Json.{Value}
use chimp_maera.Audit.{
  EventKind, Outcome, committed, reconciled, rolled_back, Crypto, TrustPolicy, VerifiedFact,
  Verification, verified, unverifiable,
}
use chimp_maera.Audit.Verify.{verify_timeline}
use chimp_maera.Audit.Explain.{
  Explanation, verified_success, verified_non_success, status_unverifiable, explain,
  explain_timeline, is_success, is_success_outcome,
}
use chimp_maera.Audit.Chain.{IsVerified}
use chimp_maera.Audit.Verified.{verify_timeline-IsVerified}

-- A read back effect was committed, a reconciliation reconciled, or a rollback rolled back.
abbrev pub Succeeds : VerifiedFact → Type 0
Succeeds f =
    ((f.kind ≡ EventKind.readback) × (f.outcome ≡ committed))
    ⊎ ((f.kind ≡ EventKind.reconcile) × (f.outcome ≡ reconciled))
    ⊎ ((f.kind ≡ EventKind.rollback) × (f.outcome ≡ rolled_back))

-- An explanation of success: the timeline is verified, and its last event succeeds.
pub record IsSuccess (c : Crypto) (trust : TrustPolicy) (envelopes : List Value)
    (checkpoint : Value) (x : Explanation) : Type 0 where
  pub timeline : String
  pub tenant : String
  pub checkpoint_digest : String
  pub verified : IsVerified c trust envelopes checkpoint timeline tenant checkpoint_digest x.stages
  pub last : VerifiedFact
  pub is_last : get_last? x.stages ≡ some last
  pub succeeds : Succeeds last

is_success_outcome-Succeeds :
    (f : VerifiedFact) (k : EventKind) (o : Outcome)
    → f.kind ≡ k
    → f.outcome ≡ o
    → is_success_outcome k o ≡ true
    → Succeeds f
is_success_outcome-Succeeds f EventKind.readback committed p q h = inl (p, q)
is_success_outcome-Succeeds f EventKind.reconcile reconciled p q h = inr (inl (p, q))
is_success_outcome-Succeeds f EventKind.rollback rolled_back p q h = inr (inr (p, q))
is_success_outcome-Succeeds f _ _ p q h = cc

is_success-last :
    (o : Option VerifiedFact) → is_success o ≡ true → (f : VerifiedFact) × (o ≡ some f) × Succeeds f
is_success-last none h = cc
is_success-last (some f) h = (f, refl, is_success_outcome-Succeeds f f.kind f.outcome refl refl h)

true-ne-false : {b : Bool} → b ≡ true → b ≡ false → ⊥
true-ne-false h k = cc

failing : (f : VerifiedFact) → is_success_outcome f.kind f.outcome ≡ false → Succeeds f → ⊥
failing f h (inl (k, o)) = true-ne-false (λ i. is_success_outcome (k i) (o i)) h
failing f h (inr (inl (k, o))) = true-ne-false (λ i. is_success_outcome (k i) (o i)) h
failing f h (inr (inr (k, o))) = true-ne-false (λ i. is_success_outcome (k i) (o i)) h

not_success-last :
    (o : Option VerifiedFact)
    → is_success o ≡ false
    → (f : VerifiedFact) → o ≡ some f
    → Succeeds f
    → ⊥
not_success-last none h f p q = cc
not_success-last (some g) h f p succeeds =
    let same : g ≡ f = cc in
    failing f (subst (λ (x : VerifiedFact). is_success_outcome x.kind x.outcome ≡ false) same h)
      succeeds

-- An explanation that is no success: the timeline is verified, and its last event does not succeed.
pub record IsNonSuccess (c : Crypto) (trust : TrustPolicy) (envelopes : List Value)
    (checkpoint : Value) (x : Explanation) : Type 0 where
  pub timeline : String
  pub tenant : String
  pub checkpoint_digest : String
  pub verified : IsVerified c trust envelopes checkpoint timeline tenant checkpoint_digest x.stages
  pub fails : (f : VerifiedFact) → get_last? x.stages ≡ some f → Succeeds f → ⊥

-- The three answers of an explanation.
abbrev pub IsExplained : Crypto → TrustPolicy → List Value → Value → Explanation → Type 0
IsExplained c trust envelopes checkpoint x =
    ((x.status ≡ verified_success) × IsSuccess c trust envelopes checkpoint x)
    ⊎ ((x.status ≡ verified_non_success) × IsNonSuccess c trust envelopes checkpoint x)
    ⊎ ((x.status ≡ status_unverifiable)
        × (x.stages ≡ [])
        × (verify_timeline c trust envelopes checkpoint ≡ ok (unverifiable x.issues)))

explain-IsExplained :
    (c : Crypto) (trust : TrustPolicy) (envelopes : List Value) (checkpoint : Value)
    (r : Verification)
    → verify_timeline c trust envelopes checkpoint ≡ ok r
    → IsExplained c trust envelopes checkpoint (explain r)
explain-IsExplained c trust envelopes checkpoint (unverifiable is) p = inr (inr (refl, refl, p))
explain-IsExplained c trust envelopes checkpoint (verified timeline tenant d facts) p =
    let chain = verify_timeline-IsVerified c trust envelopes checkpoint p in
    elim (Bool-cases (is_success (get_last? facts))) [
      | inl success ↦
          let (last, is_last, succeeds) = is_success-last (get_last? facts) success in
          inl (
            ap (λ b. if b then verified_success else verified_non_success) success,
            record {
              timeline = timeline;
              tenant = tenant;
              checkpoint_digest = d;
              verified = chain;
              last = last;
              is_last = is_last;
              succeeds = succeeds;
            },
          )
      | inr failure ↦ inr (
          inl (
            ap (λ b. if b then verified_success else verified_non_success) failure,
            record {
              timeline = timeline;
              tenant = tenant;
              checkpoint_digest = d;
              verified = chain;
              fails = not_success-last (get_last? facts) failure;
            },
          ))
    ]

-- An explanation says success exactly of a verified timeline whose last event is a committed
-- readback, a reconciled reconciliation or a rolled back rollback, non-success of every other
-- verified timeline, and otherwise repeats the verifier's issues without any stage.
pub explain_timeline-IsExplained :
    (c : Crypto) (trust : TrustPolicy) (envelopes : List Value) (checkpoint : Value)
    (x : Explanation)
    → explain_timeline c trust envelopes checkpoint ≡ ok x
    → IsExplained c trust envelopes checkpoint x
unfolding explain_timeline
explain_timeline-IsExplained c trust envelopes checkpoint x h =
    on_ok (verify_timeline c trust envelopes checkpoint) _ h λ r p h1.
      subst (IsExplained c trust envelopes checkpoint) (ok_injective h1)
        (explain-IsExplained c trust envelopes checkpoint r p)
