-- ===== src/Audit/Stamped.antt =====
-- protected-audit-timeline.ts: the checkpoint that a writer makes.
use mathlib.Core.List.{get_last?}
use chimp_maera.Common.{
  ok_injective, ℕ, ◌≤◌, String, ◌≡◌, refl, sym, Option, none, some, List, [], ◌∷◌, length, leb,
  leb→le, ok, on_ok, on_require,
}
use chimp_maera.Json.{obj, end}
use chimp_maera.Json.Total.{
  HasText, HasText-str, HasText-nat, HasText-obj, HasTexts-end, HasTexts-field,
}
use chimp_maera.Audit.{AuditEvent, AuditEnvelope, Checkpoint, Crypto, Signer, SignerReference}
use chimp_maera.Audit.Event.{digest}
use chimp_maera.Audit.Envelope.{
  assert_signer_usable, checkpoint_at, checkpoint_core, checkpoint_of, create_checkpoint,
  envelope_value, sign_core, signer_reference, signer_value, stamped,
}
use chimp_maera.Audit.Signed.{InWindow, assert_signer_usable-InWindow}

-- What `createCheckpoint` has made, from the first and the last envelope.
pub record IsStamped (c : Crypto) (s : Signer) (envelopes : List AuditEnvelope) (at : ℕ)
    (p : Checkpoint) : Type 0 where
  pub origin : AuditEnvelope
  pub rest : List AuditEnvelope
  pub all : envelopes ≡ origin ∷ rest
  pub head : AuditEnvelope
  pub last : get_last? envelopes ≡ some head
  pub window : InWindow s at
  pub not_before : head.signed_at_ms ≤ at
  pub head_digest : String
  pub digested : digest c (envelope_value head) ≡ ok head_digest
  pub signature : String
  pub signed :
      sign_core c
        (checkpoint_core origin.event.timeline_id origin.event.tenant
          (length envelopes)
          head_digest
          at
          (signer_reference s)
          end)
        s
      ≡ ok signature
  pub state :
      p ≡ stamped origin.event (length envelopes) head_digest at (signer_reference s) signature

module _ (c : Crypto) (s : Signer) (at : ℕ) where
  checkpoint_of-IsStamped :
      (origin : AuditEnvelope) (rest : List AuditEnvelope) (head : AuditEnvelope) {p : Checkpoint}
      → get_last? (origin ∷ rest) ≡ some head
      → checkpoint_of c origin head (length (origin ∷ rest)) s at ≡ ok p
      → IsStamped c s (origin ∷ rest) at p
  unfolding checkpoint_of
  checkpoint_of-IsStamped origin rest head last h =
      on_ok (assert_signer_usable s at) _ h λ _ usable h1.
        on_require (leb head.signed_at_ms at) _ _ h1 λ clock h2.
          on_ok (digest c (envelope_value head)) _ h2 λ d digested h3.
            on_ok (sign_core c _ s) _ h3 λ signature signed h4. record {
              origin = origin;
              rest = rest;
              all = refl;
              head = head;
              last = last;
              window = assert_signer_usable-InWindow s at usable;
              not_before = leb→le _ _ clock;
              head_digest = d;
              digested = digested;
              signature = signature;
              signed = signed;
              state = sym (ok_injective h4);
            }

  checkpoint_at-IsStamped :
      (origin : AuditEnvelope) (rest : List AuditEnvelope) (last : Option AuditEnvelope)
      {p : Checkpoint}
      → get_last? (origin ∷ rest) ≡ last
      → checkpoint_at c origin last (length (origin ∷ rest)) s at ≡ ok p
      → IsStamped c s (origin ∷ rest) at p
  unfolding checkpoint_at
  checkpoint_at-IsStamped origin rest none q h = cc
  checkpoint_at-IsStamped origin rest (some head) q h = checkpoint_of-IsStamped origin rest head q h

  pub create_checkpoint-IsStamped :
      (envelopes : List AuditEnvelope) {p : Checkpoint}
      → create_checkpoint c envelopes s at ≡ ok p
      → IsStamped c s envelopes at p
  unfolding create_checkpoint
  create_checkpoint-IsStamped [] h = cc
  create_checkpoint-IsStamped (origin ∷ rest) h =
      checkpoint_at-IsStamped origin rest (get_last? (origin ∷ rest)) refl h

HasText-signer : (r : SignerReference) → HasText (signer_value r)
HasText-signer r = HasText-obj (
    HasTexts-field (HasText-str r.algorithm) (
      HasTexts-field (HasText-str r.key_id)
        (HasTexts-field (HasText-nat r.generation) HasTexts-end)))

pub HasText-stamped :
    (e : AuditEvent) (count : ℕ) (head : String) (at : ℕ) (r : SignerReference) (signature : String)
    → HasText (obj (stamped e count head at r signature).fields)
HasText-stamped e count head at r signature = HasText-obj (
    HasTexts-field (HasText-str _) (
      HasTexts-field (HasText-str e.timeline_id) (
        HasTexts-field (HasText-str e.tenant) (
          HasTexts-field (HasText-nat count) (
            HasTexts-field (HasText-str head) (
              HasTexts-field (HasText-nat at) (
                HasTexts-field (HasText-signer r)
                  (HasTexts-field (HasText-str signature) HasTexts-end))))))))
