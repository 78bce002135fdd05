-- ===== src/Audit/Sample.antt =====
-- A stand-in for node:crypto that keeps the laws, and a small timeline: constants for the tests.
use Prim.Native.Char.{code}
use chimp_maera.Common.{
  Bool-cases, inl, inr, ◌%◌, All, subst, some_injective, ℕ, zero, suc, ◌+◌, ◌*◌, ◌<◌, String, ◌≡◌,
  refl, Bool, true, some, List, [], ◌∷◌, arith, length, all, eqb, if◌then◌else◌, ap, ◌∙◌,
}
use chimp_maera.Common.Order.{codes}
use chimp_maera.Common.Pattern.{padded, is_alnum, one_of, ◌or◌}
use chimp_maera.Json.{Value, null, str, num, nat, arr, obj, nil, cons, end, field}
use chimp_maera.Audit.{Crypto, Signer, TrustPolicy, active}
use chimp_maera.Audit.Guards.{digest_ok}
use chimp_maera.Audit.Laws.{CryptoLaws}
use chimp_maera.Audit.Shape.{base64_ok}

-- bytes in unary: n times A and a B for the byte n
byte_text : ℕ → String → String
byte_text zero rest = String.◌∷◌ "B" rest
byte_text (suc n) rest = String.◌∷◌ "A" (byte_text n rest)

unfoldable pub unary_text : List ℕ → String
unfolding byte_text
unary_text [] = ""
unary_text (b ∷ bs) = byte_text b (unary_text bs)

unfoldable pub unary_bytes : ℕ → String → List ℕ
unary_bytes seen String.[] = []
unary_bytes seen (String.◌∷◌ c s) =
    let closed = seen ∷ unary_bytes 0 s in
    let longer = unary_bytes (seen + 1) s in if eqb (code c) 66 then closed else longer

unary_bytes-byte_text :
    (seen n : ℕ) (s : String) → unary_bytes seen (byte_text n s) ≡ (seen + n) ∷ unary_bytes 0 s
unfolding unary_bytes byte_text
unary_bytes-byte_text seen zero s = ap (λ n. n ∷ unary_bytes 0 s) (omega arith)
unary_bytes-byte_text seen (suc n) s =
    unary_bytes-byte_text (seen + 1) n s ∙ ap (λ n. n ∷ unary_bytes 0 s) (omega arith)

unary_back : (bs : List ℕ) → unary_bytes 0 (unary_text bs) ≡ bs
unfolding unary_text
unary_back [] = unfold unary_bytes in refl
unary_back (b ∷ bs) =
    unary_bytes-byte_text 0 b (unary_text bs) ∙ (λ i. (zero_plus b i) ∷ (unary_back bs i))
  where
    zero_plus : (n : ℕ) → 0 + n ≡ n
    zero_plus n = omega arith

class : ℕ → Bool
class = is_alnum or one_of (codes "+/")

letters_all : (s : List ℕ) → all class (66 ∷ s) ≡ all class s
unfolding class
letters_all s = refl

letters_byte : (n : ℕ) (s : String) → all class (codes (byte_text n s)) ≡ all class (codes s)
unfolding byte_text class
letters_byte zero s = refl
letters_byte (suc n) s = letters_byte n s

letters_text : (bs : List ℕ) → all class (codes (unary_text bs)) ≡ true
unfolding unary_text
letters_text [] = refl
letters_text (b ∷ bs) = letters_byte b (unary_text bs) ∙ letters_text bs

padded_all : (p : ℕ → Bool) (c : ℕ) (s : List ℕ) → all p (c ∷ s) ≡ true → padded p (c ∷ s) ≡ true
unfolding padded
padded_all p c [] h = ground arith
padded_all p c (d ∷ s) h = ground (arith, padded_all p d s)

nonempty_padded : (p : ℕ → Bool) (s : List ℕ) → 0 < length s → all p s ≡ true → padded p s ≡ true
nonempty_padded p [] n h = elim n [ ]
nonempty_padded p (c ∷ s) n h = padded_all p c s h

byte_text-length : (n : ℕ) (s : String) → 0 < length (codes (byte_text n s))
unfolding byte_text
byte_text-length zero s = omega arith
byte_text-length (suc n) s = omega arith

unary_text-length : (bs : List ℕ) → 0 < length bs → 0 < length (codes (unary_text bs))
unfolding unary_text
unary_text-length [] h = elim h [ ]
unary_text-length (b ∷ bs) h = byte_text-length b (unary_text bs)

-- A hash that is constant, and a signature that is one byte.
abbrev pub sample_crypto : Crypto
sample_crypto = record {
  sha256_hex = λ text. "0123456789abcdef0123456789abcdef0123456789abcdef0123456789abcdef";
  sign = λ message key. some (1 ∷ []);
  verify = λ message key bytes. some (eqb (length bytes) 1);
  to_base64 = unary_text;
  from_base64 = unary_bytes 0;
}

pub sample_laws : (s : Signer) → CryptoLaws sample_crypto s
unfolding base64_ok digest_ok class
sample_laws s = record {
  hex = λ text. refl;
  base64_back = λ bytes b. unary_back bytes;
  base64_text = λ bytes b h.
      nonempty_padded class (codes (unary_text bytes)) (unary_text-length bytes h)
        (letters_text bytes);
  signed_bytes = λ message bytes h. subst (All (λ b. b < 256)) (some_injective h) (omega arith, tt);
  nonempty = λ message bytes h. ground arith;
  verifies = λ message bytes h. ground arith;
}

-- A hash that tells texts of even and odd lengths apart.
abbrev pub parity_crypto : Crypto
parity_crypto = record sample_crypto {
  sha256_hex = λ text.
      if eqb (length (codes text) % 2) 0
      then "0123456789abcdef0123456789abcdef0123456789abcdef0123456789abcdef"
      else "fedcba9876543210fedcba9876543210fedcba9876543210fedcba9876543210";
}

pub parity_laws : (s : Signer) → CryptoLaws parity_crypto s
unfolding digest_ok
parity_laws s =
    let l = sample_laws s in
    record {
      hex = λ text. elim (Bool-cases (eqb (length (codes text) % 2) 0)) [
        | inl even ↦ rw even refl
        | inr odd ↦ rw odd refl
      ];
      base64_back = l.base64_back;
      base64_text = l.base64_text;
      signed_bytes = l.signed_bytes;
      nonempty = l.nonempty;
      verifies = l.verifies;
    }

abbrev pub sample_signer : Signer
sample_signer = record {
  key_id = "audit_key:fixture-001";
  generation = 1;
  algorithm = "Ed25519";
  private_key_pem = "private";
  public_key_pem = "public";
  valid_from_ms = 1780000000000;
  valid_until_ms = 1790000000000;
}

abbrev pub sample_trust : TrustPolicy
sample_trust = record {
  tenant = "tenant:panskys-zoo";
  timeline_id = "timeline:aas023-fixture";
  minimum_generation = 1;
  keys =
      record {
        key_id = "audit_key:fixture-001";
        generation = 1;
        algorithm = "Ed25519";
        public_key_pem = "public";
        valid_from_ms = 1780000000000;
        valid_until_ms = 1790000000000;
        status = active;
      }
      ∷ [];
}

abbrev sample_references : Value → Value
sample_references identity = obj (
    field "identity" identity (
      field "intent" null (
        field "plan" null (
          field "policy" null (
            field "approval" null (
              field "budget" null (
                field "effect" null
                  (field "readback" null (field "reconcile" null (field "stop" null end))))))))))

-- An event, with the reference to the identity event.
abbrev pub sample_event : ℕ → String → String → Value → Value
sample_event sequence event_id kind identity = obj (
    field "schemaVersion" (str "chimpmaera.audit/protected-event/v1") (
      field "timelineId" (str "timeline:aas023-fixture") (
        field "tenant" (str "tenant:panskys-zoo") (
          field "sequence" (num (nat sequence)) (
            field "eventId" (str event_id) (
              field "eventKind" (str kind) (
                field "actorId" (str "workload:admin-ai") (
                  field "operationId" (str "operation:audit-fixture") (
                    field "correlationId" (str "correlation:audit-fixture") (
                      field "occurredAtMs" (num (nat (1785000000000 + sequence * 10))) (
                        field "observedAtMs" (num (nat (1785000000001 + sequence * 10))) (
                          field "references" (sample_references identity) (
                            field "facts"
                              (obj (
                                field "outcome" (str "OBSERVED") (
                                  field "reasonCodes" (arr (cons (str "AAS023_VERIFIED") nil))
                                    (field "evidenceDigests" (arr nil) end))))
                              end)))))))))))))

abbrev pub first_event : Value
first_event = sample_event 1 "event:00000001" "IDENTITY" null

abbrev pub second_event : Value
second_event =
    sample_event 2 "event:00000002" "INTENT"
      (str "0123456789abcdef0123456789abcdef0123456789abcdef0123456789abcdef")

-- another event under the id of the first
abbrev pub conflicting_event : Value
conflicting_event = sample_event 10 "event:00000001" "IDENTITY" null
