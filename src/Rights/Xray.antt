-- ===== src/Rights/Xray.antt =====
-- effective-rights.ts: `renderPermissionXrayV1` and `verifyPermissionXrayParityV1`.
use chimp_maera.Common.{
  String, ◌≡◌, refl, ◌∙◌, Bool, true, false, Option, none, some, [], ◌∷◌, map, ap, sym, eq_iff, ◌↔◌,
  ◌==◌, eq_refl, Result, ok, err, ◌>>=◌,
}
use chimp_maera.Json.{Value, Fields, arr, array, keys, str, obj, bool, end, field, field_of}
use chimp_maera.Json.Canonical.{canonical_json}
use chimp_maera.Json.Total.{
  HasText, HasText-str, HasText-bool, HasText-arr, HasText-obj, HasTexts-end, HasTexts-field,
  HasItems-array,
}
use chimp_maera.Rights.{EffectiveRights, outcome_name}
use chimp_maera.Rights.Values.{ceiling_value, fact_value, rights_value, scope_value}
use chimp_maera.Rights.Compile.{compile, input_fields}
use chimp_maera.Rights.Verify.{digest_text_ok, verify_rights}
use chimp_maera.Rights.Listed.{are_new}
use chimp_maera.Rights.RoundTrip.{compile-verified}
use chimp_maera.Rights.Total.{
  HasText-ceiling_value, HasText-fact_value, HasText-scope_value, HasText-texts_value,
}

-- the view of the fields of a result; a clone of a value is the value
abbrev pub xray_value : Fields → Value
xray_value fs = obj (
    field "schemaVersion" (str "chimpmaera.security/permission-xray/v1") (
      field "title" (str "Permission X-ray — local synthetic facts") (
        field "claim" (str "INFORMATIONAL_ONLY_NO_EXECUTABLE_AUTHORITY") (
          field "sourceResultDigest" (field_of "resultDigest" fs) (
            field "outcome" (field_of "outcome" fs) (
              field "effectiveScope" (field_of "effectiveScope" fs) (
                field "ceilings" (field_of "ceilings" fs) (
                  field "reasonFacts" (field_of "reasonFacts" fs) (
                    field "issues" (field_of "issues" fs)
                      (field "informationalOnly" (bool true) end))))))))))

-- two texts that are there and the same
abbrev same_texts : Option String → Option String → Bool
same_texts (some a) (some b) = a == b
same_texts _ _ = false

abbrev parity_with : Value → Result Value → Bool
parity_with view (ok x) = same_texts (canonical_json view) (canonical_json x)
parity_with view (err e) = false

-- The view of a result, field by field.
pub record IsXray (r : EffectiveRights) (view : Value) : Type 0 where
  pub fields : Fields
  pub is_object : view ≡ obj fields
  pub keyed :
      keys fields
      ≡ "schemaVersion" ∷ "title" ∷ "claim" ∷ "sourceResultDigest" ∷ "outcome" ∷ "effectiveScope"
        ∷ "ceilings" ∷ "reasonFacts" ∷ "issues" ∷ "informationalOnly" ∷ []
  pub version : field_of "schemaVersion" fields ≡ str "chimpmaera.security/permission-xray/v1"
  pub title : field_of "title" fields ≡ str "Permission X-ray — local synthetic facts"
  pub claim : field_of "claim" fields ≡ str "INFORMATIONAL_ONLY_NO_EXECUTABLE_AUTHORITY"
  pub source : field_of "sourceResultDigest" fields ≡ str r.result_digest
  pub outcome : field_of "outcome" fields ≡ str (outcome_name r.outcome)
  pub effective_scope : field_of "effectiveScope" fields ≡ scope_value r.effective_scope
  pub ceilings : field_of "ceilings" fields ≡ arr (array (map ceiling_value r.ceilings))
  pub reason_facts : field_of "reasonFacts" fields ≡ arr (array (map fact_value r.reason_facts))
  pub issues : field_of "issues" fields ≡ arr (array (map str r.issues))
  pub informational : field_of "informationalOnly" fields ≡ bool true

xray_value-IsXray : (r : EffectiveRights) → IsXray r (xray_value (input_fields (rights_value r)))
xray_value-IsXray r = record {
  fields = _;
  is_object = refl;
  keyed = refl;
  version = refl;
  title = refl;
  claim = refl;
  source = refl;
  outcome = refl;
  effective_scope = refl;
  ceilings = refl;
  reason_facts = refl;
  issues = refl;
  informational = refl;
}

-- two values with the same canonical JSON
abbrev pub HaveText : Value → Value → Type 0
HaveText a b = (t : String) × (canonical_json a ≡ some t) × (canonical_json b ≡ some t)

same_texts-eq-true :
    (a b : Option String) → same_texts a b ≡ true → (t : String) × (a ≡ some t) × (b ≡ some t)
same_texts-eq-true (some s) (some t) h = (t, ap some ((eq_iff s t).0 h), refl)
same_texts-eq-true none b h = cc
same_texts-eq-true (some s) none h = cc

same_texts-HaveText :
    (a b : Value) → same_texts (canonical_json a) (canonical_json b) ≡ true → HaveText a b
same_texts-HaveText a b h = same_texts-eq-true (canonical_json a) (canonical_json b) h

module _ (sha256_hex : String → String) where
  -- `renderPermissionXrayV1`
  unfoldable pub render_xray : Value → Result Value
  unfolding verify_rights
  render_xray v = do result ← verify_rights sha256_hex v; ok (xray_value (input_fields result))

  -- `verifyPermissionXrayParityV1`, which answers false where its parts throw
  unfoldable pub verify_parity : Value → Value → Bool
  unfolding render_xray
  verify_parity view result = parity_with view (render_xray result)

  HasText-xray : (r : EffectiveRights) → HasText (xray_value (input_fields (rights_value r)))
  HasText-xray r = HasText-obj (
      HasTexts-field (HasText-str _) (
        HasTexts-field (HasText-str _) (
          HasTexts-field (HasText-str _) (
            HasTexts-field (HasText-str _) (
              HasTexts-field (HasText-str _) (
                HasTexts-field (HasText-scope_value r.effective_scope) (
                  HasTexts-field
                    (HasText-arr (HasItems-array ceiling_value HasText-ceiling_value r.ceilings))
                    (HasTexts-field
                      (HasText-arr (HasItems-array fact_value HasText-fact_value r.reason_facts))
                      (HasTexts-field (HasText-texts_value r.issues)
                        (HasTexts-field (HasText-bool true) HasTexts-end))))))))))

  rendered_parity :
      (view result shown : Value)
      → render_xray result ≡ ok shown
      → (verify_parity view result ≡ true) ↔ HaveText view shown
  unfolding verify_parity
  rendered_parity view result shown rendered =
      let opened : verify_parity view result
          ≡ same_texts (canonical_json view) (canonical_json shown) =
        rw (rendered, verify_parity) refl in
      (
        λ h. same_texts-HaveText view shown (sym opened ∙ h),
        λ (t, p, q). opened ∙ (rw (p, q) (eq_refl t)),
      )

  -- A compiled result whose ceilings have different kinds has a view. The view has the ten fields of its
  -- contract: the digest, outcome, effective scope, ceilings, reason facts and issues are those of the
  -- result, and it is marked as informational only. A value passes the check of parity with the result
  -- exactly when its canonical JSON is that of the view, as it is for the view itself; the hash is
  -- assumed to give 64 hexadecimal digits.
  pub render_xray-parity :
      (hex : (s : String) → digest_text_ok (sha256_hex s) ≡ true) (v : Value) {r : EffectiveRights}
      → compile sha256_hex v ≡ ok r
      → are_new [] r.ceilings ≡ true
      → (view : Value) × (render_xray (rights_value r) ≡ ok view)
        × IsXray r view
        × (verify_parity view (rights_value r) ≡ true)
        × ((other : Value) → (verify_parity other (rights_value r) ≡ true) ↔ HaveText other view)
  unfolding render_xray
  render_xray-parity hex v {r} h new =
      let t = HasText-xray r in
      let view = xray_value (input_fields (rights_value r)) in
      let verified : verify_rights sha256_hex (rights_value r) ≡ ok (rights_value r) =
        compile-verified sha256_hex hex v h ∙ (rw new refl) in
      let rendered : render_xray (rights_value r) ≡ ok view = rw (verified, render_xray) refl in
      let parity = rendered_parity view (rights_value r) view rendered in
      (
        view,
        rendered,
        xray_value-IsXray r,
        parity.1 (t.text, t.canonical, t.canonical),
        λ other. rendered_parity other (rights_value r) view rendered,
      )
