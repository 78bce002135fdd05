-- ===== src/Audit/Quiet.antt =====
-- protected-audit-timeline.ts: what an empty list of issues says of the checks that were made.
use chimp_maera.Common.{
  ℕ, ◌≤◌, ◌<◌, String, ◌≡◌, refl, Bool, true, false, Option, none, some, List, [], ◌∷◌, ◌++◌, ◌==◌,
  arith, find, subst, Bool-cases, inl, inr,
}
use chimp_maera.Json.{Fields}
use chimp_maera.Audit.{Crypto, KeyStatus, active, retired, SignerReference, TrustKey, TrustPolicy}
use chimp_maera.Audit.Causal.{push_unique, report, push_all}
use chimp_maera.Audit.Shape.{
  KeyFinding, found, missing, is_active, judge_key, key_for, names_key, unsigned, verify_signature,
}
use chimp_maera.Audit.Verify.{judge_signature, signature_issues}
use chimp_maera.Audit.Silent.{AllFalse}

snoc-eq-nil : (xs : List String) (x : String) → xs ++ x ∷ [] ≡ [] → ⊥
snoc-eq-nil [] x h = cc
snoc-eq-nil (y ∷ xs) x h = cc

pub push_unique-eq-nil : (xs : List String) (x : String) → push_unique xs x ≡ [] → ⊥
push_unique-eq-nil [] x h = cc
push_unique-eq-nil (y ∷ xs) x h = ground arith

-- No issue is reported only if every test is false, and none was reported before.
pub report-eq-nil :
    (tests : List (Bool × String)) (issues : List String)
    → report tests issues ≡ []
    → AllFalse tests × (issues ≡ [])
unfolding report
report-eq-nil [] issues h = (tt, h)
report-eq-nil ((true, issue) ∷ rest) issues h =
    absurd (push_unique-eq-nil issues issue (report-eq-nil rest (push_unique issues issue) h).1)
report-eq-nil ((false, issue) ∷ rest) issues h =
    let (later, before) = report-eq-nil rest issues h in ((refl, later), before)

pub push_all-eq-nil :
    (is issues : List String) → push_all is issues ≡ [] → (is ≡ []) × (issues ≡ [])
unfolding push_all
push_all-eq-nil [] issues h = (refl, h)
push_all-eq-nil (i ∷ is) issues h =
    absurd (push_unique-eq-nil issues i (push_all-eq-nil is (push_unique issues i) h).1)

-- The policy lists an active key of the signer, in its window, under which the signature verifies.
pub record SignedBy (c : Crypto) (trust : TrustPolicy) (s : SignerReference) (at : ℕ)
    (fields : Fields) (signature : String) : Type 0 where
  pub key : TrustKey
  pub listed : find (names_key s) trust.keys ≡ some key
  pub status : key.status ≡ active
  pub generation : trust.minimum_generation ≤ s.generation
  pub ed25519 : (key.algorithm == "Ed25519") ≡ true
  pub from : key.valid_from_ms ≤ at
  pub until : at < key.valid_until_ms
  pub verifies : verify_signature c (unsigned fields) signature key.public_key_pem ≡ true

record IsFound (trust : TrustPolicy) (s : SignerReference) (at : ℕ) (key : TrustKey) : Type 0 where
  listed : find (names_key s) trust.keys ≡ some key
  status : key.status ≡ active
  generation : trust.minimum_generation ≤ s.generation
  ed25519 : (key.algorithm == "Ed25519") ≡ true
  from : key.valid_from_ms ≤ at
  until : at < key.valid_until_ms

is_active-eq-true : (k : KeyStatus) → is_active k ≡ true → k ≡ active
is_active-eq-true active h = refl
is_active-eq-true retired h = cc

judge_key-IsFound :
    (trust : TrustPolicy) (s : SignerReference) (at : ℕ) (o : Option TrustKey) {key : TrustKey}
    → find (names_key s) trust.keys ≡ o
    → judge_key trust s at o ≡ found key
    → IsFound trust s at key
unfolding judge_key
judge_key-IsFound trust s at none q h = cc
judge_key-IsFound trust s at (some k) {key} q h =
    let same : k ≡ key = ground arith in
    subst (IsFound trust s at) same (record {
      listed = q;
      status = is_active-eq-true k.status (ground arith);
      generation = ground arith;
      ed25519 = ground arith;
      from = ground arith;
      until = ground arith;
    })

module _ (c : Crypto) (trust : TrustPolicy) where
  judge_signature-eq-nil :
      (finding : KeyFinding) (s : SignerReference) (at : ℕ) (fields : Fields)
      (signature issue : String) (issues : List String)
      → key_for trust s at ≡ finding
      → judge_signature c trust finding fields signature issue issues ≡ []
      → SignedBy c trust s at fields signature × (issues ≡ [])
  unfolding judge_signature key_for
  judge_signature-eq-nil (missing i) s at fields signature issue issues q h =
      absurd (snoc-eq-nil issues i h)
  judge_signature-eq-nil (found k) s at fields signature issue issues q h =
      elim (Bool-cases (verify_signature c (unsigned fields) signature k.public_key_pem)) [
        | inl v ↦
            let f = judge_key-IsFound trust s at (find (names_key s) trust.keys) refl q in
            (
              record {
                key = k;
                listed = f.listed;
                status = f.status;
                generation = f.generation;
                ed25519 = f.ed25519;
                from = f.from;
                until = f.until;
                verifies = v;
              },
              rw v at h,
            )
        | inr v ↦ absurd (push_unique-eq-nil issues issue (rw v at h))
      ]

  -- No issue of a signature means that a trusted key verifies it.
  pub signature_issues-eq-nil :
      (s : SignerReference) (at : ℕ) (fields : Fields) (signature issue : String)
      (issues : List String)
      → signature_issues c trust s at fields signature issue issues ≡ []
      → SignedBy c trust s at fields signature × (issues ≡ [])
  unfolding signature_issues
  signature_issues-eq-nil s at fields signature issue issues h =
      judge_signature-eq-nil (key_for trust s at) s at fields signature issue issues refl h
