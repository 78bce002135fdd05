-- ===== src/Audit/Laws.antt =====
-- What the audit timeline relies on of node:crypto and Buffer, and what a successful validation says.
use chimp_maera.Common.{
  All, ℕ, ◌<◌, String, ◌≡◌, refl, true, Option, none, some, List, [], arith, length, Result, ok,
  Option-cases, bind-eq-ok, on_ok, sym, ap, ◌∙◌, inl, inr,
}
use chimp_maera.Json.{Value, Fields, field_of}
use chimp_maera.Json.Canonical.{canonical_json}
use chimp_maera.Json.Guards.{exact_object}
use chimp_maera.Audit.{AuditEvent, Crypto, ReferenceKey, Signer}
use chimp_maera.Audit.Guards.{digest_ok, event_keys}
use chimp_maera.Audit.Read.{Binding, Facts, read_binding, read_references, read_facts}
use chimp_maera.Audit.Shape.{base64_ok}
use chimp_maera.Audit.Event.{
  Validation, allow, deny, digest, decide_event, validate_event, event_of,
}
use chimp_maera.Audit.Envelope.{require_event}

-- the contents of a Buffer
abbrev pub AreBytes : List ℕ → Type 0
AreBytes = All (λ b. b < 256)

-- A SHA-256 digest is printed as 64 hexadecimal digits; base64 of bytes is read back and uses its
-- alphabet; an Ed25519 signature is bytes, is not empty, and verifies under the public key of the key
-- that made it.
pub record CryptoLaws (c : Crypto) (s : Signer) : Type 0 where
  pub hex : (text : String) → digest_ok (c.sha256_hex text) ≡ true
  pub base64_back : (bytes : List ℕ) → AreBytes bytes → c.from_base64 (c.to_base64 bytes) ≡ bytes
  pub base64_text :
      (bytes : List ℕ) → AreBytes bytes → 0 < length bytes → base64_ok (c.to_base64 bytes) ≡ true
  pub signed_bytes :
      (message : String) (bytes : List ℕ)
      → c.sign message s.private_key_pem ≡ some bytes
      → AreBytes bytes
  pub nonempty :
      (message : String) (bytes : List ℕ)
      → c.sign message s.private_key_pem ≡ some bytes
      → 0 < length bytes
  pub verifies :
      (message : String) (bytes : List ℕ)
      → c.sign message s.private_key_pem ≡ some bytes
      → c.verify message s.public_key_pem bytes ≡ some true

allow-event :
    {e f : AuditEvent} {d t : String}
    → ◌≡◌ {A = Result Validation} (ok (allow e d)) (ok (allow f t))
    → e ≡ f
allow-event h = cc

allow-digest :
    {e f : AuditEvent} {d t : String}
    → ◌≡◌ {A = Result Validation} (ok (allow e d)) (ok (allow f t))
    → d ≡ t
allow-digest h = cc

module _ (c : Crypto) where
  pub digest-eq-ok :
      (v : Value) {d : String}
      → digest c v ≡ ok d
      → (text : String) × (canonical_json v ≡ some text) × (c.sha256_hex text ≡ d)
  unfolding digest
  digest-eq-ok v h = elim (Option-cases (canonical_json v)) [
    | inl n ↦ cc (rw (n, digest) at h)
    | inr (text, e) ↦ (text, e, cc (rw (e, digest) at h))
  ]

  pub digest_of_text :
      (v : Value) {text : String}
      → canonical_json v ≡ some text
      → digest c v ≡ ok (c.sha256_hex text)
  unfolding digest
  digest_of_text v h = rw (h, digest)

  -- What an accepted event was read from.
  pub record Accepted (v : Value) (e : AuditEvent) (d : String) : Type 0 where
    pub fields : Fields
    pub binding : Binding
    pub references : ReferenceKey → Option String
    pub facts : Facts
    pub shape : exact_object v event_keys ≡ some fields
    pub bound : read_binding fields ≡ some binding
    pub referred : read_references (field_of "references" fields) ≡ some references
    pub stated : read_facts (field_of "facts" fields) ≡ some facts
    pub event : e ≡ event_of v binding references facts
    pub digested : digest c v ≡ ok d

  decide_event-allow :
      (v : Value) (fs : Fields) (ob : Option Binding) (or : Option (ReferenceKey → Option String))
      (of : Option Facts) {e : AuditEvent} {d : String}
      → exact_object v event_keys ≡ some fs
      → read_binding fs ≡ ob
      → read_references (field_of "references" fs) ≡ or
      → read_facts (field_of "facts" fs) ≡ of
      → decide_event c v ob or of ≡ ok (allow e d)
      → Accepted v e d
  unfolding decide_event
  decide_event-allow v fs none or of p q r s h = cc
  decide_event-allow v fs (some b) none of p q r s h = cc
  decide_event-allow v fs (some b) (some r) none p q m s h = cc
  decide_event-allow v fs (some b) (some r) (some f) p q m s h =
      let (d', digested, same) = bind-eq-ok (digest c v) (λ t. ok (allow (event_of v b r f) t)) h in
      record {
        fields = fs;
        binding = b;
        references = r;
        facts = f;
        shape = p;
        bound = q;
        referred = m;
        stated = s;
        event = sym (allow-event same);
        digested = digested ∙ ap ok (allow-digest same);
      }

  pub validate_event-allow :
      (v : Value) {e : AuditEvent} {d : String}
      → validate_event c v ≡ ok (allow e d)
      → Accepted v e d
  unfolding validate_event
  validate_event-allow v h = elim (Option-cases (exact_object v event_keys)) [
    | inl n ↦ cc (rw (n, validate_event) at h)
    | inr (fs, p) ↦ decide_event-allow v fs _ _ _ p refl refl refl (rw (p, validate_event) at h)
  ]

  decide_event-deny :
      (v : Value) (ob : Option Binding) (or : Option (ReferenceKey → Option String))
      (of : Option Facts)
      → ¬ (decide_event c v ob or of ≡ ok (deny []))
  unfolding decide_event
  decide_event-deny v none or of h = cc
  decide_event-deny v (some b) none of h = cc
  decide_event-deny v (some b) (some r) none h = cc
  decide_event-deny v (some b) (some r) (some f) h = on_ok (digest c v) _ h λ d _ h1. cc

  -- A denial names an issue.
  pub validate_event-deny : (v : Value) → ¬ (validate_event c v ≡ ok (deny []))
  unfolding validate_event
  validate_event-deny v h = elim (Option-cases (exact_object v event_keys)) [
    | inl n ↦ cc (rw (n, validate_event) at h)
    | inr (fs, p) ↦ decide_event-deny v _ _ _ (rw (p, validate_event) at h)
  ]

  pub require_event-eq-ok :
      (v : Value) {e : AuditEvent} {d : String}
      → require_event c v ≡ ok (e, d)
      → validate_event c v ≡ ok (allow e d)
  unfolding require_event
  require_event-eq-ok v h = ground arith
