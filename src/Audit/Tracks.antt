-- ===== src/Audit/Tracks.antt =====
-- protected-audit-timeline.ts: the verifier's variables stand for the envelopes it has passed.
use chimp_maera.Common.{
  ℕ, String, ◌≡◌, ◌≢◌, refl, sym, ap, ◌∙◌, Bool, true, false, not, ◌||◌, Option, none, some, List,
  [], ◌∷◌, ◌==◌, arith, eqb, eqb→eq, includes, map, All, if◌then◌else◌, Bool-cases, inl, inr,
  eq_iff,
}
use chimp_maera.Audit.{
  EventKind, AuditEvent, ReferenceKey, kind_eq, kind_rank, kind_by_reference, reference_keys,
  required_references,
}
use chimp_maera.Audit.Causal.{
  PriorByKind, causal_issues, is_mismatch, same_text, set_prior, link_missing, link_mismatch,
}
use chimp_maera.Audit.Verify.{Scan, differs_from, start}
use chimp_maera.Audit.Silent.{AllFalse}
use chimp_maera.Audit.Quiet.{report-eq-nil}
use chimp_maera.Audit.Chain.{Link, Holds, Resolves, last_digest}

pub not-eq-false : (b : Bool) → not b ≡ false → b ≡ true
not-eq-false true h = refl
not-eq-false false h = cc

pub or-eq-false : (a b : Bool) → (a || b) ≡ false → (a ≡ false) × (b ≡ false)
or-eq-false true b h = cc
or-eq-false false b h = (refl, h)

-- the kind of a rank
kind_at : ℕ → EventKind
kind_at n =
    if eqb n 0
    then EventKind.identity
    else if eqb n 1
    then EventKind.intent
    else if eqb n 2
    then EventKind.plan
    else if eqb n 3
    then EventKind.policy
    else if eqb n 4
    then EventKind.approval
    else if eqb n 5
    then EventKind.budget
    else if eqb n 6
    then EventKind.effect
    else if eqb n 7
    then EventKind.readback
    else if eqb n 8
    then EventKind.reconcile
    else if eqb n 9
    then EventKind.stop
    else EventKind.rollback

kind_at-kind_rank : (k : EventKind) → kind_at (kind_rank k) ≡ k
unfolding kind_at
kind_at-kind_rank EventKind.identity = refl
kind_at-kind_rank EventKind.intent = refl
kind_at-kind_rank EventKind.plan = refl
kind_at-kind_rank EventKind.policy = refl
kind_at-kind_rank EventKind.approval = refl
kind_at-kind_rank EventKind.budget = refl
kind_at-kind_rank EventKind.effect = refl
kind_at-kind_rank EventKind.readback = refl
kind_at-kind_rank EventKind.reconcile = refl
kind_at-kind_rank EventKind.stop = refl
kind_at-kind_rank EventKind.rollback = refl

pub kind_eq→eq : (a b : EventKind) → kind_eq a b ≡ true → a ≡ b
kind_eq→eq a b h =
    sym (kind_at-kind_rank a)
    ∙ ap kind_at (eqb→eq (kind_rank a) (kind_rank b) h)
    ∙ kind_at-kind_rank b

pub kind_eq_refl : (a : EventKind) → kind_eq a a ≡ true
kind_eq_refl a = ground arith

pub same_text-eq-true : (a b : Option String) → same_text a b ≡ true → a ≡ b
same_text-eq-true none none h = refl
same_text-eq-true (some s) (some t) h = ap some ((eq_iff s t).0 h)
same_text-eq-true none (some t) h = cc
same_text-eq-true (some s) none h = cc

pub differs_from-eq-false : (id p : String) → differs_from id (some p) ≡ false → p ≡ id
differs_from-eq-false id p h = sym ((eq_iff id p).0 (not-eq-false _ h))

-- The variables that hold the last envelope's times and the bound ids.
abbrev pub LastOf : Scan → List Link → Type 0
LastOf s [] = (s.operation_id ≡ none) × (s.correlation_id ≡ none)
LastOf s (p ∷ earlier) =
    (s.prior_signed_at ≡ some p.candidate.signed_at_ms)
    × (s.prior_occurred_at ≡ some p.event.occurred_at_ms)
    × (s.prior_observed_at ≡ some p.event.observed_at_ms)
    × (s.operation_id ≡ some p.event.operation_id)
    × (s.correlation_id ≡ some p.event.correlation_id)

-- The variables of the loop after the envelopes `earlier`, newest first.
pub record Tracks (earlier : List Link) (s : Scan) : Type 0 where
  pub held : (k : EventKind) (d : String) → s.prior_by_kind k ≡ some d → Holds k d earlier
  pub free : (k : EventKind) → s.prior_by_kind k ≡ none → All (λ p. p.event.kind ≢ k) earlier
  pub unseen :
      (id : String) → includes s.event_ids id ≡ false → All (λ p. p.event.event_id ≢ id) earlier
  pub head : s.prior_envelope_digest ≡ last_digest earlier
  pub last : LastOf s earlier

pub start-Tracks : (issues : List String) → Tracks [] (start issues)
start-Tracks issues = record {
  held = λ k d h. cc;
  free = λ k h. tt;
  unseen = λ id h. tt;
  head = refl;
  last = (refl, refl);
}

missing-eq-false :
    (e : AuditEvent) (ks : List ReferenceKey)
    → AllFalse (map (link_missing e) ks)
    → All (λ k. e.references k ≢ none) ks
missing-eq-false e [] h = tt
missing-eq-false e (k ∷ ks) h = (λ p. ground (arith, h.0, p), missing-eq-false e ks h.1)

mismatch-eq-false :
    (e : AuditEvent) (prior : PriorByKind) (k : ReferenceKey)
    → AllFalse (map (link_mismatch e prior) reference_keys)
    → is_mismatch prior k (e.references k) ≡ false
mismatch-eq-false e prior ReferenceKey.identity h = h.0
mismatch-eq-false e prior ReferenceKey.intent h = h.1.0
mismatch-eq-false e prior ReferenceKey.plan h = h.1.1.0
mismatch-eq-false e prior ReferenceKey.policy h = h.1.1.1.0
mismatch-eq-false e prior ReferenceKey.approval h = h.1.1.1.1.0
mismatch-eq-false e prior ReferenceKey.budget h = h.1.1.1.1.1.0
mismatch-eq-false e prior ReferenceKey.effect h = h.1.1.1.1.1.1.0
mismatch-eq-false e prior ReferenceKey.readback h = h.1.1.1.1.1.1.1.0
mismatch-eq-false e prior ReferenceKey.reconcile h = h.1.1.1.1.1.1.1.1.0
mismatch-eq-false e prior ReferenceKey.stop h = h.1.1.1.1.1.1.1.1.1.0

-- No causal issue: the references that the kind needs are there, and none is a mismatch.
pub causal_issues-none :
    (e : AuditEvent) (prior : PriorByKind)
    → causal_issues e prior ≡ []
    → All (λ k. e.references k ≢ none) (required_references e.kind)
      × ((k : ReferenceKey) → is_mismatch prior k (e.references k) ≡ false)
unfolding causal_issues
causal_issues-none e prior h =
    let (matched, h1) = report-eq-nil (map (link_mismatch e prior) reference_keys) _ h in
    let (there, _) = report-eq-nil (map (link_missing e) (required_references e.kind)) [] h1 in
    (
      missing-eq-false e (required_references e.kind) there,
      λ k. mismatch-eq-false e prior k matched,
    )

module _ {earlier : List Link} {s : Scan} (tracks : Tracks earlier s) where
  resolves :
      (k : ReferenceKey) (o : Option String)
      → is_mismatch s.prior_by_kind k o ≡ false
      → Resolves earlier k o
  resolves k none h = tt
  resolves k (some r) h =
      tracks.held (kind_by_reference k) r
        (same_text-eq-true (s.prior_by_kind (kind_by_reference k)) (some r) (not-eq-false _ h))

  -- No causal issue: the references that the kind needs are there, and every reference resolves.
  pub causal_issues-eq-nil :
      (e : AuditEvent)
      → causal_issues e s.prior_by_kind ≡ []
      → All (λ k. e.references k ≢ none) (required_references e.kind)
        × ((k : ReferenceKey) → Resolves earlier k (e.references k))
  causal_issues-eq-nil e h =
      let (there, matched) = causal_issues-none e s.prior_by_kind h in
      (there, λ k. resolves k (e.references k) (matched k))

  pub set_prior-Holds :
      (l : Link) (k : EventKind) (d : String)
      → set_prior l.event.kind l.candidate.event_digest s.prior_by_kind k ≡ some d
      → Holds k d (l ∷ earlier)
  unfolding set_prior
  set_prior-Holds l k d h = elim (Bool-cases (kind_eq l.event.kind k)) [
    | inl same ↦ inl (kind_eq→eq _ _ same, ground (arith, h, same))
    | inr other ↦ inr (tracks.held k d (ground (arith, h, other)))
  ]

  pub set_prior-free :
      (l : Link) (k : EventKind)
      → set_prior l.event.kind l.candidate.event_digest s.prior_by_kind k ≡ none
      → All (λ p. p.event.kind ≢ k) (l ∷ earlier)
  unfolding set_prior
  set_prior-free l k h = elim (Bool-cases (kind_eq l.event.kind k)) [
    | inl same ↦ absurd (ground (arith, h, same))
    | inr other ↦ (
      λ p. ground (arith, other, kind_eq_refl k, ap (λ x. kind_eq x k) p),
      tracks.free k (ground (arith, h, other)),
    )
  ]

  pub ids-unseen :
      (l : Link) (id : String)
      → includes (l.event.event_id ∷ s.event_ids) id ≡ false
      → All (λ p. p.event.event_id ≢ id) (l ∷ earlier)
  ids-unseen l id h =
      let (other, rest) = or-eq-false (l.event.event_id == id) (includes s.event_ids id) h in
      (λ p. ground (arith, other, (eq_iff l.event.event_id id).1 p), tracks.unseen id rest)
