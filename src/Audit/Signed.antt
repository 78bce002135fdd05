-- ===== src/Audit/Signed.antt =====
-- protected-audit-timeline.ts: what `createProtectedAuditEnvelopeV1` and `createCheckpoint` guarantee
-- of their results.
use chimp_maera.Common.{
  ok_injective, ℕ, ◌≤◌, ◌<◌, String, ◌≡◌, refl, sym, ap, true, Option, none, some, List, arith, leb,
  ok, bind-eq-ok, on_ok, on_require, or_throw, or_throw-eq-ok, leb→le, subst, eq_refl, eq_iff,
}
use chimp_maera.Json.{Value, obj, Fields, end}
use chimp_maera.Json.Canonical.{canonical_json}
use chimp_maera.Json.Guards.{max_safe_integer}
use chimp_maera.Json.Total.{
  HasText, HasText-null, HasText-str, HasText-nat, HasText-obj, HasTexts-end, HasTexts-field,
}
use chimp_maera.Audit.{SignerReference, AuditEvent, AuditEnvelope, Crypto, Signer}
use chimp_maera.Audit.Guards.{digest_ok}
use chimp_maera.Audit.Event.{allow, digest, validate_event}
use chimp_maera.Audit.Envelope.{
  assert_signer_usable, built, create_envelope, envelope_core, envelope_fields, envelope_value,
  previous_ok, null_or, signer_value, require_event, sign_core, signer_reference,
}
use chimp_maera.Audit.Shape.{base64_ok, unsigned, verify_signature}
use chimp_maera.Audit.Laws.{
  CryptoLaws, digest-eq-ok, digest_of_text, validate_event-allow, require_event-eq-ok,
}
use chimp_maera.Audit.Made.{IsShaped, IsUsable}

-- What `assertSignerUsable` has checked.
pub record InWindow (s : Signer) (at : ℕ) : Type 0 where
  pub reference : IsUsable (signer_reference s)
  pub safe : at ≤ max_safe_integer
  pub from : s.valid_from_ms ≤ at
  pub until : at < s.valid_until_ms

pub assert_signer_usable-InWindow :
    (s : Signer) (at : ℕ) {u : Unit {0}} → assert_signer_usable s at ≡ ok u → InWindow s at
unfolding assert_signer_usable
assert_signer_usable-InWindow s at h = ground (arith, eq_iff s.algorithm "Ed25519")

sign_core-eq-ok :
    (c : Crypto) (s : Signer) (core : Fields) {signature : String}
    → sign_core c core s ≡ ok signature
    → (message : String) × (bytes : List ℕ) × (canonical_json (obj core) ≡ some message)
      × (c.sign message s.private_key_pem ≡ some bytes)
      × (c.to_base64 bytes ≡ signature)
unfolding sign_core
sign_core-eq-ok c s core h =
    let (message, m, h') = bind-eq-ok (or_throw (canonical_json (obj core)) "TypeError") _ h in
    let (bytes, b, h'') =
      bind-eq-ok (or_throw (c.sign message s.private_key_pem) "ERR_CRYPTO") _ h' in
    (message, bytes, or_throw-eq-ok _ _ m, or_throw-eq-ok _ _ b, ok_injective h'')

module _ (c : Crypto) (s : Signer) (laws : CryptoLaws c s) where
  verify_signature-made :
      (core : Fields) (message : String) (bytes : List ℕ)
      → canonical_json (obj core) ≡ some message
      → c.sign message s.private_key_pem ≡ some bytes
      → verify_signature c core (c.to_base64 bytes) s.public_key_pem ≡ true
  unfolding verify_signature
  verify_signature-made core message bytes m b =
      rw
        (
          m,
          verify_signature,
          laws.base64_back bytes (laws.signed_bytes message bytes b),
          laws.verifies message bytes b,
        )
        (ground (arith, laws.nonempty message bytes, eq_refl (c.to_base64 bytes)))

  -- A signature that was made verifies, and has the alphabet of base64.
  pub sign_core-verifies :
      (core : Fields) {signature : String}
      → sign_core c core s ≡ ok signature
      → (verify_signature c core signature s.public_key_pem ≡ true) × (base64_ok signature ≡ true)
  sign_core-verifies core h =
      let (message, bytes, m, b, same) = sign_core-eq-ok c s core h in
      rw (← same) (
        verify_signature-made core message bytes m b,
        laws.base64_text bytes (laws.signed_bytes message bytes b) (laws.nonempty message bytes b),
      )

  pub digest-digest_ok : (v : Value) {d : String} → digest c v ≡ ok d → digest_ok d ≡ true
  digest-digest_ok v h = let (text, _, same) = digest-eq-ok c v h in rw (← same) (laws.hex text)

  -- An envelope as `createProtectedAuditEnvelopeV1` makes it.
  pub record IsSigned (e : AuditEnvelope) : Type 0 where
    pub valid : validate_event c e.event.value ≡ ok (allow e.event e.event_digest)
    pub shaped : IsShaped e
    pub signed :
        verify_signature c (unsigned (envelope_fields e)) e.signature_base64 s.public_key_pem ≡ true
    pub signer : e.signer ≡ signer_reference s
    pub window : InWindow s e.signed_at_ms
    pub observed : e.event.observed_at_ms ≤ e.signed_at_ms

  -- What is made by `create_envelope` from a value, a digest of the previous envelope and a time.
  pub record IsMadeFrom (v : Value) (before : Option String) (at : ℕ) (e : AuditEnvelope)
      : Type 0 where
    pub value : e.event.value ≡ v
    pub valid : validate_event c v ≡ ok (allow e.event e.event_digest)
    pub previous : e.previous_envelope_digest ≡ before
    pub signed_at : e.signed_at_ms ≡ at
    pub signed : IsSigned e

  built-IsMadeFrom :
      (event : AuditEvent) (d : String) (before : Option String) (at : ℕ) (signature : String)
      → validate_event c event.value ≡ ok (allow event d)
      → previous_ok before ≡ true
      → InWindow s at
      → leb event.observed_at_ms at ≡ true
      → sign_core c (envelope_core event.value d before at (signer_reference s) end) s
        ≡ ok signature
      → IsMadeFrom event.value before at (built event d before at (signer_reference s) signature)
  built-IsMadeFrom event d before at signature valid p w o g =
      let (verifies, text) = sign_core-verifies _ g in
      record {
        value = refl;
        valid = valid;
        previous = refl;
        signed_at = refl;
        signed = record {
          valid = valid;
          shaped = record {
            digested = digest-digest_ok event.value (validate_event-allow c _ valid).digested;
            previous = p;
            signed_at = w.safe;
            signer = w.reference;
            signature = text;
          };
          signed = verifies;
          signer = refl;
          window = w;
          observed = leb→le _ _ o;
        };
      }

  finish :
      (v : Value) (before : Option String) (at : ℕ) (event : AuditEvent) (d signature : String)
      {e : AuditEnvelope}
      → event.value ≡ v
      → validate_event c v ≡ ok (allow event d)
      → previous_ok before ≡ true
      → InWindow s at
      → leb event.observed_at_ms at ≡ true
      → sign_core c (envelope_core v d before at (signer_reference s) end) s ≡ ok signature
      → built event d before at (signer_reference s) signature ≡ e
      → IsMadeFrom v before at e
  finish v before at event d signature same valid p w o g made =
      subst (λ e. IsMadeFrom v before at e) made
        (subst
          (λ x. IsMadeFrom x before at (built event d before at (signer_reference s) signature))
          same
          (built-IsMadeFrom event d before at signature
            (subst (λ x. validate_event c x ≡ ok (allow event d)) (sym same) valid) p w o
            (subst
              (λ x.
                sign_core c (envelope_core x d before at (signer_reference s) end) s ≡ ok signature)
              (sym same) g)))

  pub create_envelope-IsMadeFrom :
      (v : Value) (before : Option String) (at : ℕ) {e : AuditEnvelope}
      → create_envelope c v before s at ≡ ok e
      → IsMadeFrom v before at e
  unfolding create_envelope
  create_envelope-IsMadeFrom v before at h = on_ok (require_event c v) _ h λ made r h1.
      on_require _ _ _ h1 λ p h2. on_ok (assert_signer_usable s at) _ h2 λ _ w h3.
        on_require _ _ _ h3 λ o h4. on_ok (sign_core c _ s) _ h4 λ signature g h5.
          let valid = require_event-eq-ok c v r in
          let same = ap (λ (x : AuditEvent). x.value) (validate_event-allow c v valid).event in
          finish v before at made.0 made.1 signature same valid p
            (assert_signer_usable-InWindow s at w) o g (ok_injective h5)

HasText-null_or : (o : Option String) → HasText (null_or o)
HasText-null_or none = HasText-null
HasText-null_or (some d) = HasText-str d

HasText-signer_value : (r : SignerReference) → HasText (signer_value r)
HasText-signer_value r = HasText-obj (
    HasTexts-field (HasText-str r.algorithm) (
      HasTexts-field (HasText-str r.key_id)
        (HasTexts-field (HasText-nat r.generation) HasTexts-end)))

-- An envelope around a value that has a canonical text has one too.
HasText-envelope_value : (e : AuditEnvelope) → HasText e.event.value → HasText (envelope_value e)
HasText-envelope_value e h = HasText-obj (
    HasTexts-field (HasText-str _) (
      HasTexts-field h (
        HasTexts-field (HasText-str e.event_digest) (
          HasTexts-field (HasText-null_or e.previous_envelope_digest) (
            HasTexts-field (HasText-nat e.signed_at_ms) (
              HasTexts-field (HasText-signer_value e.signer)
                (HasTexts-field (HasText-str e.signature_base64) HasTexts-end)))))))

-- The digest of a signed envelope exists.
pub IsSigned-digest :
    (c : Crypto) (s : Signer) (laws : CryptoLaws c s) (e : AuditEnvelope)
    → IsSigned c s laws e
    → (d : String) × (digest c (envelope_value e) ≡ ok d)
IsSigned-digest c s laws e signed =
    let accepted = validate_event-allow c e.event.value signed.valid in
    let (text, t, _) = digest-eq-ok c e.event.value accepted.digested in
    let whole = HasText-envelope_value e (record { text = text; canonical = t }) in
    (c.sha256_hex whole.text, digest_of_text c (envelope_value e) whole.canonical)
