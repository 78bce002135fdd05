-- ===== src/Audit/Verified.antt =====
-- protected-audit-timeline.ts: an accepted timeline is a chain of signed envelopes.
use chimp_maera.Common.{
  ok_injective, ℕ, ◌+◌, String, ◌≡◌, refl, sym, ap, ◌∙◌, false, not, ◌||◌, some, List, [], ◌∷◌,
  ◌++◌, ◌==◌, arith, eqb, eqb→eq, length, map, subst, Result, ok, on_ok, Option-cases, inl, inr,
}
use mathlib.Core.List.{append_assoc, append-nil}
use chimp_maera.Json.{Value, obj}
use chimp_maera.Audit.{
  Checkpoint, Crypto, TrustPolicy, VerifiedFact, Verification, verified, unverifiable,
}
use chimp_maera.Audit.Event.{digest}
use chimp_maera.Audit.Shape.{read_checkpoint}
use chimp_maera.Audit.Verify.{
  Scan, start, scan_all, scan_envelope, settle, head_tests, conclude, checkpoint_issues,
  verify_timeline, is_before,
}
use chimp_maera.Audit.Quiet.{SignedBy, report-eq-nil, signature_issues-eq-nil}
use chimp_maera.Audit.Chain.{Link, Chain, IsVerified, IsIssuedAfter, link_fact, onto}
use chimp_maera.Audit.Tracks.{Tracks, LastOf, not-eq-false, same_text-eq-true, start-Tracks}
use chimp_maera.Audit.Sound.{scan_all-clean, scan_envelope-IsClean}
use chimp_maera.Audit.Linked.{IsClean-IsLinked, IsClean-Tracks, both_eq}

module _ (c : Crypto) (trust : TrustPolicy) (checkpoint : Checkpoint) where
  -- The loop from an index on, when it leaves no issue.
  record IsChained (index : ℕ) (earlier : List Link) (s : Scan) (vs : List Value) (t : Scan)
      : Type 0 where
    links : List Link
    chain : Chain c trust checkpoint index earlier vs links
    facts : t.facts ≡ s.facts ++ map link_fact links
    tracks : Tracks (onto earlier links) t

  scan_all-IsChained :
      (index : ℕ) (earlier : List Link) (s : Scan) (vs : List Value) {t : Scan}
      → Tracks earlier s
      → scan_all c trust checkpoint index s vs ≡ ok t
      → t.issues ≡ []
      → IsChained index earlier s vs t
  unfolding scan_all
  scan_all-IsChained index earlier s [] tracks h q = record {
    links = [];
    chain = tt;
    facts = ap (λ (u : Scan). u.facts) (sym (ok_injective h)) ∙ sym (append-nil s.facts);
    tracks = subst (Tracks earlier) (ok_injective h) tracks;
  }
  scan_all-IsChained index earlier s (v ∷ vs) {t} tracks h q =
      on_ok (scan_envelope c trust checkpoint index s v) _ h λ u p h1.
        let clean =
          scan_envelope-IsClean c trust checkpoint index s v p
            (scan_all-clean c trust checkpoint (index + 1) u vs h1 q) in
        let l = clean.link in
        let rest =
          scan_all-IsChained (index + 1) (l ∷ earlier) u vs
            (IsClean-Tracks c trust checkpoint tracks clean) h1 q in
        record {
          links = l ∷ rest.links;
          chain = (IsClean-IsLinked c trust checkpoint tracks clean, rest.chain);
          facts =
              rest.facts
              ∙ ap (λ (x : Scan). x.facts ++ map link_fact rest.links) clean.state
              ∙ append_assoc s.facts (link_fact l ∷ []) (map link_fact rest.links);
          tracks = rest.tracks;
        }

  -- What the checks of the checkpoint say when they leave no issue.
  checkpoint_issues-eq-nil :
      (count : ℕ)
      → checkpoint_issues c trust checkpoint count ≡ []
      → (checkpoint.timeline_id ≡ trust.timeline_id)
        × (checkpoint.tenant ≡ trust.tenant)
        × (count ≡ checkpoint.event_count)
        × SignedBy c trust checkpoint.signer checkpoint.issued_at_ms checkpoint.fields
            checkpoint.signature_base64
  unfolding checkpoint_issues
  checkpoint_issues-eq-nil count h =
      let (counted, h1) =
        report-eq-nil
          ((not (eqb count checkpoint.event_count), "AUDIT_CHECKPOINT_COUNT_MISMATCH_DENIED") ∷ [])
          _ h in
      let (signed, h2) =
        signature_issues-eq-nil c trust checkpoint.signer checkpoint.issued_at_ms checkpoint.fields
          checkpoint.signature_base64 "AUDIT_CHECKPOINT_SIGNATURE_DENIED" _ h1 in
      let (scope, _) =
        report-eq-nil
          ((
            not (checkpoint.timeline_id == trust.timeline_id)
                || not (checkpoint.tenant == trust.tenant),
            "AUDIT_CHECKPOINT_SCOPE_DENIED",
          )
            ∷ [])
          [] h2 in
      let (timeline_id, tenant) =
        both_eq checkpoint.timeline_id trust.timeline_id checkpoint.tenant trust.tenant scope.0 in
      (timeline_id, tenant, eqb→eq _ _ (not-eq-false _ counted.0), signed)

  head-IsIssuedAfter :
      (s : Scan) (earlier : List Link)
      → LastOf s earlier
      → is_before checkpoint.issued_at_ms s.prior_signed_at ≡ false
      → IsIssuedAfter checkpoint earlier
  head-IsIssuedAfter s [] last h = tt
  head-IsIssuedAfter s (p ∷ earlier) last h =
      let issued = subst (λ x. is_before checkpoint.issued_at_ms x ≡ false) last.0 h in
      ground (arith, issued)

  -- A verified answer: no issue was left.
  record IsSettled (s : Scan) (timeline tenant d : String) (facts : List VerifiedFact)
      : Type 0 where
    timeline_id : timeline ≡ checkpoint.timeline_id
    tenant_id : tenant ≡ checkpoint.tenant
    digested : digest c (obj checkpoint.fields) ≡ ok d
    reported : facts ≡ s.facts

  settle-verified :
      (s : Scan) (is : List String) {timeline tenant d : String} {facts : List VerifiedFact}
      → settle c trust checkpoint s is ≡ ok (verified timeline tenant d facts)
      → (is ≡ []) × IsSettled s timeline tenant d facts
  unfolding settle
  settle-verified s [] {timeline} {tenant} {d} {facts} h =
      on_ok (digest c (obj checkpoint.fields)) _ h λ x p h1.
        (refl, record { timeline_id = cc; tenant_id = cc; digested = p ∙ cc; reported = cc })
  settle-verified s (i ∷ is) h = cc

  conclude-verified :
      (envelopes : List Value) (checkpoint_value : Value) {timeline tenant d : String}
      {facts : List VerifiedFact} {s : Scan}
      → read_checkpoint checkpoint_value ≡ some checkpoint
      → scan_all c trust checkpoint 0
          (start (checkpoint_issues c trust checkpoint (length envelopes)))
          envelopes
        ≡ ok s
      → conclude c trust checkpoint s ≡ ok (verified timeline tenant d facts)
      → IsVerified c trust envelopes checkpoint_value timeline tenant d facts
  unfolding conclude
  conclude-verified envelopes checkpoint_value {s = s} read scanned h =
      let (silent, settled) = settle-verified s _ h in
      let (heads, clean) = report-eq-nil (head_tests c trust checkpoint s) s.issues silent in
      let before = scan_all-clean c trust checkpoint 0 _ envelopes scanned clean in
      let (timeline_id, tenant, count, signed) =
        checkpoint_issues-eq-nil (length envelopes) before in
      let chained = scan_all-IsChained 0 [] _ envelopes (start-Tracks _) scanned clean in
      record {
        checkpoint = checkpoint;
        links = chained.links;
        read = read;
        timeline_trusted = timeline_id;
        tenant_trusted = tenant;
        signed = signed;
        count = count;
        chain = chained.chain;
        head = sym chained.tracks.head ∙ same_text-eq-true _ _ (not-eq-false _ heads.0);
        issued = head-IsIssuedAfter s (onto [] chained.links) chained.tracks.last heads.1.0;
        timeline_id = settled.timeline_id;
        tenant_id = settled.tenant_id;
        digested = settled.digested;
        reported = settled.reported ∙ chained.facts;
      }

-- If the verifier accepts a timeline, the timeline is a chain: the checkpoint is read, has the
-- policy's timeline and tenant, is signed by a trusted key and counts the envelopes; each
-- envelope is signed by a trusted key, in sequence, names the digest of the one before, is later,
-- has a new id and a new kind, and refers only to earlier events of the right kinds, with all
-- that its kind requires; the head and the reported facts are those of the envelopes, in order.
pub verify_timeline-IsVerified :
    (c : Crypto) (trust : TrustPolicy) (envelopes : List Value) (checkpoint_value : Value)
    {timeline tenant d : String} {facts : List VerifiedFact}
    → verify_timeline c trust envelopes checkpoint_value ≡ ok (verified timeline tenant d facts)
    → IsVerified c trust envelopes checkpoint_value timeline tenant d facts
unfolding verify_timeline
verify_timeline-IsVerified c trust envelopes checkpoint_value h =
    elim (Option-cases (read_checkpoint checkpoint_value)) [
      | inl unread ↦ absurd (refused (rw (unread, verify_timeline) at h))
      | inr (checkpoint, read) ↦
          on_ok (scan_all c trust checkpoint 0 _ envelopes) _ (rw (read, verify_timeline) at h)
            λ s scanned h1.
              conclude-verified c trust checkpoint envelopes checkpoint_value read scanned h1
    ]
  where
    refused :
        {is : List String} {timeline tenant d : String} {facts : List VerifiedFact}
        → ◌≡◌ {A = Result Verification}
            (ok (unverifiable is))
            (ok (verified timeline tenant d facts))
        → ⊥
    refused q = cc
