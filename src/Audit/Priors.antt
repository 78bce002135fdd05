-- ===== src/Audit/Priors.antt =====
-- protected-audit-timeline.ts: what the map from kinds to digests that `append` builds says of the
-- writer's envelopes.
use mathlib.Core.List.{foldl}
use chimp_maera.Common.{
  String, ◌≡◌, ◌≢◌, ap, false, Option, none, some, List, [], ◌∷◌, arith, is_some, All, ◌⊎◌, inl,
  inr, Bool-cases,
}
use chimp_maera.Common.Members.{In}
use chimp_maera.Audit.{AuditEnvelope, EventKind, ReferenceKey, kind_by_reference, kind_eq}
use chimp_maera.Audit.Causal.{PriorByKind, is_mismatch, set_prior}
use chimp_maera.Audit.Writer.{prior_of, set_envelope}
use chimp_maera.Audit.Tracks.{kind_eq→eq, kind_eq_refl, not-eq-false, same_text-eq-true}

-- one of the envelopes has an event of a kind, with a digest
abbrev pub Names : EventKind → String → List AuditEnvelope → Type 0
Names k d envelopes =
    (p : AuditEnvelope) × In p envelopes × (p.event.kind ≡ k) × (p.event_digest ≡ d)

-- a reference is null, or names an envelope by its kind and digest
abbrev pub IsResolved : List AuditEnvelope → ReferenceKey → Option String → Type 0
IsResolved envelopes k none = Unit
IsResolved envelopes k (some d) = Names (kind_by_reference k) d envelopes

set_prior-Names :
    (prior : PriorByKind) (e : AuditEnvelope) (k : EventKind) (d : String)
    → set_envelope prior e k ≡ some d
    → (prior k ≡ some d) ⊎ ((e.event.kind ≡ k) × (e.event_digest ≡ d))
unfolding set_prior
set_prior-Names prior e k d h = elim (Bool-cases (kind_eq e.event.kind k)) [
  | inl same ↦ inr (kind_eq→eq _ _ same, ground (arith, h, same))
  | inr other ↦ inl (ground (arith, h, other))
]

set_prior-free :
    (prior : PriorByKind) (e : AuditEnvelope) (k : EventKind)
    → is_some (set_envelope prior e k) ≡ false
    → (is_some (prior k) ≡ false) × (e.event.kind ≢ k)
unfolding set_prior
set_prior-free prior e k h = elim (Bool-cases (kind_eq e.event.kind k)) [
  | inl same ↦ absurd (ground (arith, h, same))
  | inr other ↦ (
    ground (arith, h, other),
    λ p. ground (arith, other, kind_eq_refl k, ap (λ x. kind_eq x k) p),
  )
]

prior-Names :
    (prior : PriorByKind) (envelopes : List AuditEnvelope) (k : EventKind) (d : String)
    → foldl set_envelope prior envelopes k ≡ some d
    → (prior k ≡ some d) ⊎ Names k d envelopes
prior-Names prior [] k d h = inl h
prior-Names prior (e ∷ es) k d h = elim (prior-Names (set_envelope prior e) es k d h) [
  | inl set ↦ elim (set_prior-Names prior e k d set) [
    | inl before ↦ inl before
    | inr (kind, same) ↦ inr (e, In.first, kind, same)
  ]
  | inr (p, i, kind, same) ↦ inr (p, In.later i, kind, same)
]

pub prior-free :
    (prior : PriorByKind) (envelopes : List AuditEnvelope) (k : EventKind)
    → is_some (foldl set_envelope prior envelopes k) ≡ false
    → (is_some (prior k) ≡ false) × All (λ (p : AuditEnvelope). p.event.kind ≢ k) envelopes
prior-free prior [] k h = (h, tt)
prior-free prior (e ∷ es) k h =
    let (set, rest) = prior-free (set_envelope prior e) es k h in
    let (before, other) = set_prior-free prior e k set in (before, (other, rest))

pub resolved :
    (envelopes : List AuditEnvelope) (k : ReferenceKey) (o : Option String)
    → is_mismatch (prior_of envelopes) k o ≡ false
    → IsResolved envelopes k o
resolved envelopes k none h = tt
resolved envelopes k (some r) h =
    elim (prior-Names _ envelopes (kind_by_reference k) r
      (same_text-eq-true _ (some r) (not-eq-false _ h))) [
        | inl nothing ↦ cc nothing
        | inr named ↦ named
      ]
