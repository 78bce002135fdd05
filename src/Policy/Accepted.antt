-- ===== src/Policy/Accepted.antt =====
-- policy-evaluator.ts: what a verified decision is, said without the verifier's tests.
use chimp_maera.Common.{
  String, ◌≡◌, refl, sym, ap, ◌∙◌, Bool, true, false, inl, inr, ◌↔◌, Bool-cases, Result, ok, on_ok,
  [], ◌∷◌, texts_eq_sound, texts_eq_refl,
}
use chimp_maera.Common.Order.{sort_texts}
use chimp_maera.Json.{Value, Fields, str, obj, keys, field_of, omit}
use chimp_maera.Json.Guards.{has_keys}
use chimp_maera.Rights.Compile.{digest}
use chimp_maera.Policy.{
  Decision, object, null_value, primitive, array_value, and_also, check_constraints, check_digests,
  decision_keys, is_digest_of, is_outcome, is_versioned, verify_decision,
}
use chimp_maera.Policy.Constrained.{
  IsConstrained, is_text-str, and_true, check_constraints-IsConstrained,
  IsConstrained-check_constraints,
}
use chimp_maera.Policy.Digests.{
  IsDigest, canonical_json-digest, is_digest_of-IsDigest, IsDigest-is_digest_of,
}

-- What a verified decision is: an object with the eight keys, of the versions of its contract, bound by
-- digests to one input, to one context and to itself, and constrained.
pub record IsAccepted (sha256_hex : String → String) (decision : Decision) (input context : Fields)
    : Type 0 where
  pub fields : Fields
  pub is_object : decision ≡ object fields
  pub keyed :
      sort_texts (keys fields)
      ≡ "constraints" ∷ "contextDigest" ∷ "decisionDigest" ∷ "evaluator" ∷ "inputDigest" ∷ "outcome"
        ∷ "reasonCodes" ∷ "schemaVersion" ∷ []
  pub version : field_of "schemaVersion" fields ≡ str "chimpmaera.demo/policy-decision/v1"
  pub input_version :
      field_of "schemaVersion" input ≡ str "chimpmaera.demo/policy-evaluation-input/v1"
  pub context_version :
      field_of "schemaVersion" context ≡ str "chimpmaera.demo/trusted-policy-context/v1"
  pub input_bound : IsDigest sha256_hex (field_of "inputDigest" fields) (obj input)
  pub context_bound : IsDigest sha256_hex (field_of "contextDigest" fields) (obj context)
  pub decision_bound :
      IsDigest sha256_hex (field_of "decisionDigest" fields) (obj (omit "decisionDigest" fields))
  pub constrained : IsConstrained (field_of "outcome" fields) (field_of "constraints" fields)

on_and_also {μ} :
    {P : Type μ} (b : Bool) (rest : Result Bool)
    → and_also b rest ≡ ok true
    → (b ≡ true → rest ≡ ok true → P)
    → P
on_and_also true rest h k = k refl h
on_and_also false rest h k = cc

module _ (sha256_hex : String → String) where
  -- the tests of the digests and of the constraints, one behind the other
  check_digests-IsAccepted :
      (fs input context : Fields)
      → has_keys fs (sort_texts decision_keys) ≡ true
      → is_versioned fs input context ≡ true
      → check_digests sha256_hex fs input context ≡ ok true
      → IsAccepted sha256_hex (object fs) input context
  unfolding check_digests has_keys sort_texts
  check_digests-IsAccepted fs input context keyed versioned h =
      let (versions, context_version) = and_true _ _ versioned in
      let (version, input_version) = and_true _ _ versions in
      let core = obj (omit "decisionDigest" fs) in
      on_ok (is_digest_of sha256_hex (field_of "inputDigest" fs) (obj input)) _ h λ a p h1.
        on_and_also a _ h1 λ of_input h2.
          on_ok (is_digest_of sha256_hex (field_of "contextDigest" fs) (obj context)) _ h2 λ b q h3.
            on_and_also b _ h3 λ of_context h4.
              on_ok (is_digest_of sha256_hex (field_of "decisionDigest" fs) core) _ h4 λ d r h5.
                on_and_also d _ h5 λ of_decision h6.
                  on_and_also (is_outcome (field_of "outcome" fs)) (check_constraints fs) h6
                    λ known h7. record {
                      fields = fs;
                      is_object = refl;
                      keyed = texts_eq_sound _ _ keyed;
                      version = is_text-str _ _ version;
                      input_version = is_text-str _ _ input_version;
                      context_version = is_text-str _ _ context_version;
                      input_bound =
                          is_digest_of-IsDigest sha256_hex _ (obj input) (p ∙ ap ok of_input);
                      context_bound =
                          is_digest_of-IsDigest sha256_hex _ (obj context) (q ∙ ap ok of_context);
                      decision_bound =
                          is_digest_of-IsDigest sha256_hex _ core (r ∙ ap ok of_decision);
                      constrained = check_constraints-IsConstrained fs known h7;
                    }

  verify_decision_sound :
      (decision : Decision) (input context : Fields)
      → verify_decision sha256_hex decision input context ≡ ok true
      → IsAccepted sha256_hex decision input context
  unfolding verify_decision
  verify_decision_sound (object fs) input context h =
      elim (Bool-cases (has_keys fs (sort_texts decision_keys))) [
        | inl keyed ↦
            on_and_also (is_versioned fs input context) (check_digests sha256_hex fs input context)
              (rw (keyed, verify_decision) at h) (check_digests-IsAccepted fs input context keyed)
        | inr other ↦ cc (rw (other, verify_decision) at h)
      ]
  verify_decision_sound null_value input context h = cc
  verify_decision_sound primitive input context h = cc
  verify_decision_sound array_value input context h = cc

  keyed-has_keys :
      (fs : Fields)
      → sort_texts (keys fs) ≡ sort_texts decision_keys
      → has_keys fs (sort_texts decision_keys) ≡ true
  unfolding has_keys
  keyed-has_keys fs h = rw (h, has_keys) (texts_eq_refl (sort_texts decision_keys))

  IsAccepted-check_digests :
      {decision : Decision} (input context : Fields)
      (k : IsAccepted sha256_hex decision input context)
      → check_digests sha256_hex k.fields input context ≡ ok true
  unfolding check_digests
  IsAccepted-check_digests input context k =
      let (known, checked) = IsConstrained-check_constraints k.fields k.constrained in
      rw
        (
          IsDigest-is_digest_of sha256_hex _ _ k.input_bound,
          IsDigest-is_digest_of sha256_hex _ _ k.context_bound,
          IsDigest-is_digest_of sha256_hex _ _ k.decision_bound,
          known,
          checked,
          check_digests,
        )
        refl

  -- The verifier accepts a decision, for an input and a context, exactly when it is an object with the
  -- eight keys; the three have the versions of their contracts; the digests in the decision are the
  -- hashes of the canonical JSON of the input, of the context and of the decision without its own
  -- digest; the issuer is CHIMPMAERA_GATE_ONLY, exact input is required, and the number of effects is
  -- 0 for DENY, and 1 for AUTO_GRANT and OWNER_ESCALATION, which are the other outcomes.
  pub verify_decision-IsAccepted :
      (decision : Decision) (input context : Fields)
      → (verify_decision sha256_hex decision input context ≡ ok true)
        ↔ IsAccepted sha256_hex decision input context
  unfolding verify_decision sort_texts
  verify_decision-IsAccepted decision input context = (
    verify_decision_sound decision input context,
    λ (k : IsAccepted sha256_hex decision input context).
        rw
          (
            k.is_object,
            keyed-has_keys k.fields k.keyed,
            k.version,
            k.input_version,
            k.context_version,
            IsAccepted-check_digests input context k,
            verify_decision,
          )
          refl,
  )

  -- A decision that the verifier accepts for two inputs and contexts is for one: the digests of the
  -- inputs agree, and those of the contexts.
  pub verify_decision-same :
      (decision : Decision) (input context other_input other_context : Fields)
      → verify_decision sha256_hex decision input context ≡ ok true
      → verify_decision sha256_hex decision other_input other_context ≡ ok true
      → (digest sha256_hex (obj input) ≡ digest sha256_hex (obj other_input))
        × (digest sha256_hex (obj context) ≡ digest sha256_hex (obj other_context))
  verify_decision-same decision input context other_input other_context h k =
      let a = verify_decision_sound decision input context h in
      let b = verify_decision_sound decision other_input other_context k in
      let same = object_injective (sym a.is_object ∙ b.is_object) in
      (
        same_digest "inputDigest" (obj input) (obj other_input) same a.input_bound b.input_bound,
        same_digest "contextDigest" (obj context) (obj other_context) same a.context_bound
            b.context_bound,
      )
    where
      object_injective : {fs gs : Fields} → object fs ≡ object gs → fs ≡ gs
      object_injective h = cc

      str_injective : {d e : String} → str d ≡ str e → d ≡ e
      str_injective h = cc

      same_digest :
          (key : String) {fs gs : Fields} (v u : Value)
          → fs ≡ gs
          → IsDigest sha256_hex (field_of key fs) v
          → IsDigest sha256_hex (field_of key gs) u
          → digest sha256_hex v ≡ digest sha256_hex u
      same_digest key v u same (t, p, q) (s, p', q') =
          canonical_json-digest sha256_hex v p
          ∙ ap ok (str_injective (sym q ∙ ap (field_of key) same ∙ q'))
          ∙ sym (canonical_json-digest sha256_hex u p')
