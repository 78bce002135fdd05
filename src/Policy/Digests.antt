-- ===== src/Policy/Digests.antt =====
-- policy-evaluator.ts: what a digest in a decision is when it passes its test.
use chimp_maera.Common.{
  ok_injective, String, ◌≡◌, refl, sym, ap, ◌∙◌, true, some, inl, inr, Option-cases, ok, on_ok,
  eq_refl,
}
use chimp_maera.Json.{Value, str}
use chimp_maera.Json.Canonical.{canonical_json}
use chimp_maera.Rights.Compile.{digest}
use chimp_maera.Policy.{is_digest_of}
use chimp_maera.Policy.Constrained.{is_text-str}

-- A text that is the hash of the canonical JSON of a value.
abbrev pub IsDigest : (String → String) → Value → Value → Type 0
IsDigest sha256_hex claimed v =
    (t : String) × (canonical_json v ≡ some t) × (claimed ≡ str (sha256_hex t))

module _ (sha256_hex : String → String) where
  digest-canonical_json :
      (v : Value) {d : String}
      → digest sha256_hex v ≡ ok d
      → (t : String) × (canonical_json v ≡ some t) × (sha256_hex t ≡ d)
  unfolding digest
  digest-canonical_json v h = elim (Option-cases (canonical_json v)) [
    | inl nothing ↦ cc (rw (nothing, digest) at h)
    | inr (t, found) ↦ (t, found, ok_injective (rw (found, digest) at h))
  ]

  pub canonical_json-digest :
      (v : Value) {t : String} → canonical_json v ≡ some t → digest sha256_hex v ≡ ok (sha256_hex t)
  unfolding digest
  canonical_json-digest v h = rw (h, digest) refl

  pub is_digest_of-IsDigest :
      (claimed v : Value)
      → is_digest_of sha256_hex claimed v ≡ ok true
      → IsDigest sha256_hex claimed v
  unfolding is_digest_of
  is_digest_of-IsDigest claimed v h = on_ok (digest sha256_hex v) _ h λ d p h1.
      let (t, found, hashed) = digest-canonical_json v p in
      (t, found, is_text-str claimed d (ok_injective h1) ∙ ap str (sym hashed))

  pub IsDigest-is_digest_of :
      (claimed v : Value)
      → IsDigest sha256_hex claimed v
      → is_digest_of sha256_hex claimed v ≡ ok true
  unfolding is_digest_of
  IsDigest-is_digest_of claimed v (t, p, q) =
      rw (canonical_json-digest v p, q, is_digest_of) (ap ok (eq_refl (sha256_hex t)))
