-- ===== src/Audit/Silent.antt =====
-- protected-audit-timeline.ts: when the verifier's checks find nothing to report.
use chimp_maera.Common.{
  ℕ, ◌≤◌, ◌<◌, String, ◌≡◌, refl, Bool, true, false, some, List, [], ◌∷◌, ◌==◌, arith, find,
}
use chimp_maera.Json.{Fields}
use chimp_maera.Audit.{Crypto, Signer, TrustKey, TrustPolicy, active}
use chimp_maera.Audit.Causal.{report}
use chimp_maera.Audit.Envelope.{signer_reference}
use chimp_maera.Audit.Shape.{found, judge_key, key_for, names_key, unsigned, verify_signature}
use chimp_maera.Audit.Verify.{signature_issues}

-- every test of a list is false
abbrev pub AllFalse : List (Bool × String) → Type 0
AllFalse [] = Unit
AllFalse ((test, issue) ∷ rest) = (test ≡ false) × AllFalse rest

pub report-AllFalse :
    (tests : List (Bool × String)) (issues : List String)
    → AllFalse tests
    → report tests issues ≡ issues
unfolding report
report-AllFalse [] issues h = refl
report-AllFalse ((test, issue) ∷ rest) issues h = rw h.0 (report-AllFalse rest issues h.1)

-- The verifier's policy lists the signer's public key as active, for at least the signer's window.
pub record Trusts (trust : TrustPolicy) (s : Signer) : Type 0 where
  pub key : TrustKey
  pub listed : find (names_key (signer_reference s)) trust.keys ≡ some key
  pub public_key : key.public_key_pem ≡ s.public_key_pem
  pub ed25519 : (key.algorithm == "Ed25519") ≡ true
  pub status : key.status ≡ active
  pub generation : trust.minimum_generation ≤ s.generation
  pub from : key.valid_from_ms ≤ s.valid_from_ms
  pub until : s.valid_until_ms ≤ key.valid_until_ms

module _ (c : Crypto) (trust : TrustPolicy) (s : Signer) (trusts : Trusts trust s) where
  key_for-found :
      (at : ℕ)
      → s.valid_from_ms ≤ at
      → at < s.valid_until_ms
      → key_for trust (signer_reference s) at ≡ found trusts.key
  unfolding key_for
  key_for-found at p q =
      rw (trusts.listed, key_for, judge_key)
        (ground
          (arith, trusts.status, trusts.ed25519, trusts.generation, trusts.from, trusts.until))

  pub signature_issues-signed :
      (at : ℕ) (fields : Fields) (signature issue : String) (issues : List String)
      → s.valid_from_ms ≤ at
      → at < s.valid_until_ms
      → verify_signature c (unsigned fields) signature s.public_key_pem ≡ true
      → signature_issues c trust (signer_reference s) at fields signature issue issues ≡ issues
  unfolding signature_issues
  signature_issues-signed at fields signature issue issues p q v =
      rw (key_for-found at p q, signature_issues, trusts.public_key, v)
