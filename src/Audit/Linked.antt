-- ===== src/Audit/Linked.antt =====
-- protected-audit-timeline.ts: an envelope that leaves no issue continues the chain.
use chimp_maera.Common.{
  ℕ, ◌≤◌, String, ◌≡◌, refl, sym, ap, ◌∙◌, Bool, false, not, ◌&&◌, ◌||◌, Option, none, some, List,
  [], ◌∷◌, ◌==◌, arith, ltb, eqb, eqb→eq, is_some, subst, eq_iff,
}
use chimp_maera.Json.{Value}
use chimp_maera.Audit.{EventKind, AuditEvent, Candidate, Checkpoint, Crypto, TrustPolicy, kind_eq}
use chimp_maera.Audit.Verify.{Scan, differs_from, is_before, not_after, or_set}
use chimp_maera.Audit.Chain.{Link, IsLater, IsLinked}
use chimp_maera.Audit.Tracks.{
  Tracks, LastOf, causal_issues-eq-nil, differs_from-eq-false, ids-unseen, kind_eq→eq, not-eq-false,
  or-eq-false, same_text-eq-true, set_prior-Holds, set_prior-free,
}
use chimp_maera.Audit.Sound.{IsClean}

pub both_eq : (a b x y : String) → (not (a == b) || not (x == y)) ≡ false → (a ≡ b) × (x ≡ y)
both_eq a b x y h =
    let (p, q) = or-eq-false (not (a == b)) (not (x == y)) h in
    ((eq_iff a b).0 (not-eq-false _ p), (eq_iff x y).0 (not-eq-false _ q))

is_root :
    (index : ℕ) (k : EventKind)
    → (eqb index 0 && not (kind_eq k EventKind.identity)) ≡ false
    → index ≡ 0
    → k ≡ EventKind.identity
is_root index k h p = kind_eq→eq k EventKind.identity (ground (arith, h, p))

is_some-eq-false : (o : Option String) → is_some o ≡ false → o ≡ none
is_some-eq-false none h = refl
is_some-eq-false (some d) h = cc

or_set-differs :
    (o : Option String) (id : String) → differs_from id o ≡ false → or_set o id ≡ some id
or_set-differs none id h = refl
or_set-differs (some p) id h = ap some (differs_from-eq-false id p h)

abbrev clock : Candidate → AuditEvent → Scan → Bool
clock cand e s =
    not_after cand.signed_at_ms s.prior_signed_at
    || is_before e.occurred_at_ms s.prior_occurred_at
    || is_before e.observed_at_ms s.prior_observed_at
    || ltb cand.signed_at_ms e.observed_at_ms

clock-observed :
    (cand : Candidate) (e : AuditEvent) (s : Scan)
    → clock cand e s ≡ false
    → e.observed_at_ms ≤ cand.signed_at_ms
clock-observed cand e s h =
    let (_, h1) = or-eq-false _ (ltb cand.signed_at_ms e.observed_at_ms) h in ground (arith, h1)

clock-IsLater :
    (l : Link) (s : Scan) (earlier : List Link)
    → LastOf s earlier
    → clock l.candidate l.event s ≡ false
    → differs_from l.event.operation_id s.operation_id ≡ false
    → differs_from l.event.correlation_id s.correlation_id ≡ false
    → IsLater l earlier
clock-IsLater l s [] last h o c = tt
clock-IsLater l s (p ∷ earlier) (signed, occurred, observed, operation, correlation) h o c =
    let (g1, _) = or-eq-false _ (ltb l.candidate.signed_at_ms l.event.observed_at_ms) h in
    let (g2, h3) = or-eq-false _ (is_before l.event.observed_at_ms s.prior_observed_at) g1 in
    let (h1, h2) =
      or-eq-false (not_after l.candidate.signed_at_ms s.prior_signed_at)
        (is_before l.event.occurred_at_ms s.prior_occurred_at) g2 in
    let signed_h = subst (λ x. not_after l.candidate.signed_at_ms x ≡ false) signed h1 in
    let occurred_h = subst (λ x. is_before l.event.occurred_at_ms x ≡ false) occurred h2 in
    let observed_h = subst (λ x. is_before l.event.observed_at_ms x ≡ false) observed h3 in
    (
      ground (arith, signed_h),
      ground (arith, occurred_h),
      ground (arith, observed_h),
      differs_from-eq-false l.event.operation_id p.event.operation_id
          (subst (λ x. differs_from l.event.operation_id x ≡ false) operation o),
      differs_from-eq-false l.event.correlation_id p.event.correlation_id
          (subst (λ x. differs_from l.event.correlation_id x ≡ false) correlation c),
    )

module _ (c : Crypto) (trust : TrustPolicy) (checkpoint : Checkpoint) where
  pub IsClean-IsLinked :
      {index : ℕ} {earlier : List Link} {s t : Scan} {v : Value}
      → Tracks earlier s
      → (clean : IsClean c trust checkpoint index s v t)
      → IsLinked c trust checkpoint index earlier v clean.link
  IsClean-IsLinked {index} {earlier} {s} tracks clean =
      let l = clean.link in
      let scope = clean.tests.1.0 in
      let sequence = clean.tests.1.1.0 in
      let root = clean.tests.1.1.1.0 in
      let chain = clean.tests.1.1.1.1.0 in
      let late = clean.tests.1.1.1.1.1.0 in
      let id = clean.tests.1.1.1.1.1.1.0 in
      let kind = clean.tests.1.1.1.1.1.1.1.0 in
      let operation = clean.tests.1.1.1.1.1.1.1.1.0 in
      let correlation = clean.tests.1.1.1.1.1.1.1.1.1.0 in
      let (timeline_id, tenant) =
        both_eq l.event.timeline_id checkpoint.timeline_id l.event.tenant checkpoint.tenant scope in
      let (required, resolved) = causal_issues-eq-nil tracks l.event clean.causal in
      record {
        read = clean.read;
        valid = clean.valid;
        digested = clean.digested;
        timeline_id = timeline_id;
        tenant = tenant;
        sequence = eqb→eq _ _ (not-eq-false _ sequence);
        root = is_root index l.event.kind root;
        chained =
            same_text-eq-true l.candidate.previous_envelope_digest s.prior_envelope_digest
              (not-eq-false _ chain)
            ∙ tracks.head;
        later = clock-IsLater l s earlier tracks.last late operation correlation;
        observed = clock-observed l.candidate l.event s late;
        new_id = tracks.unseen l.event.event_id id;
        new_kind = tracks.free l.event.kind (is_some-eq-false (s.prior_by_kind l.event.kind) kind);
        required = required;
        resolved = resolved;
        signed = clean.signed;
      }

  pub IsClean-Tracks :
      {index : ℕ} {earlier : List Link} {s t : Scan} {v : Value}
      → Tracks earlier s
      → (clean : IsClean c trust checkpoint index s v t) → Tracks (clean.link ∷ earlier) t
  IsClean-Tracks {index} {earlier} {s} tracks clean =
      let l = clean.link in
      let operation = clean.tests.1.1.1.1.1.1.1.1.0 in
      let correlation = clean.tests.1.1.1.1.1.1.1.1.1.0 in
      subst (Tracks (l ∷ earlier)) (sym clean.state) (record {
        held = set_prior-Holds tracks l;
        free = set_prior-free tracks l;
        unseen = ids-unseen tracks l;
        head = refl;
        last = (
          refl,
          refl,
          refl,
          or_set-differs s.operation_id l.event.operation_id operation,
          or_set-differs s.correlation_id l.event.correlation_id correlation,
        );
      })
