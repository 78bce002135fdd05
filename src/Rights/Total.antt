-- ===== src/Rights/Total.antt =====
-- effective-rights.ts: the compiler never throws.
use chimp_maera.Common.{
  ℕ, String, ◌≡◌, refl, true, Option, none, some, List, [], ◌∷◌, ok, bind-total,
}
use chimp_maera.Json.{Value, str}
use chimp_maera.Json.Total.{
  HasText, HasText-null, HasText-str, HasText-nat, HasText-bool, HasText-obj, HasText-arr,
  HasTexts-end, HasTexts-field, HasItems-array,
}
use chimp_maera.Rights.{Scope, Operand, Ceiling, ReasonFact, EffectiveRights}
use chimp_maera.Rights.Values.{
  texts_value, scope_value, operand_value, ceiling_value, fact_value, core_value, invalid_value,
  text_or_null, number_or_null,
}
use chimp_maera.Rights.Compile.{
  judged, parsed, digest, ceilings_of, sealed, draft, build_result, by_kind, compile,
  compile_operands, digested_input, final_issues,
}

pub HasText-texts_value : (texts : List String) → HasText (texts_value texts)
HasText-texts_value texts = HasText-arr (HasItems-array str HasText-str texts)

pub HasText-scope_value : (s : Scope) → HasText (scope_value s)
HasText-scope_value s = HasText-obj (
    HasTexts-field (HasText-texts_value s.actions) (
      HasTexts-field (HasText-texts_value s.resources) (
        HasTexts-field (HasText-texts_value s.fields) (
          HasTexts-field (HasText-texts_value s.purposes)
            (HasTexts-field (HasText-texts_value s.effects) HasTexts-end)))))

HasText-operand_value : (o : Operand) → HasText (operand_value o)
HasText-operand_value o = HasText-obj (
    HasTexts-field (HasText-str _) (
      HasTexts-field (HasText-str _) (
        HasTexts-field (HasText-str _) (
          HasTexts-field (HasText-str _) (
            HasTexts-field (HasText-nat _) (
              HasTexts-field (HasText-str _) (
                HasTexts-field (HasText-nat _) (
                  HasTexts-field (HasText-str _)
                    (HasTexts-field (HasText-scope_value o.scope) HasTexts-end)))))))))

pub HasText-ceiling_value : (x : Ceiling) → HasText (ceiling_value x)
HasText-ceiling_value x = HasText-obj (
    HasTexts-field (HasText-str _) (
      HasTexts-field (HasText-str _) (
        HasTexts-field (HasText-nat _) (
          HasTexts-field (HasText-str _) (
            HasTexts-field (HasText-scope_value x.scope)
              (HasTexts-field (HasText-str _) HasTexts-end))))))

pub HasText-fact_value : (f : ReasonFact) → HasText (fact_value f)
HasText-fact_value f = HasText-obj (
    HasTexts-field (HasText-str _)
      (HasTexts-field (HasText-str _) (HasTexts-field (HasText-str _) HasTexts-end)))

pub HasText-text_or_null : (o : Option String) → HasText (text_or_null o)
HasText-text_or_null none = HasText-null
HasText-text_or_null (some s) = HasText-str s

HasText-number_or_null : (o : Option ℕ) → HasText (number_or_null o)
HasText-number_or_null none = HasText-null
HasText-number_or_null (some n) = HasText-nat n

HasText-core_value : (r : EffectiveRights) → HasText (core_value r)
HasText-core_value r = HasText-obj (
    HasTexts-field (HasText-str _) (
      HasTexts-field (HasText-str _) (
        HasTexts-field (HasText-text_or_null r.actor) (
          HasTexts-field (HasText-text_or_null r.tenant) (
            HasTexts-field
              (HasText-obj (
                HasTexts-field (HasText-text_or_null r.profile_id)
                  (HasTexts-field (HasText-number_or_null r.profile_generation) HasTexts-end)))
              (HasTexts-field (HasText-str _) (
                HasTexts-field (HasText-scope_value r.effective_scope) (
                  HasTexts-field
                    (HasText-arr (HasItems-array ceiling_value HasText-ceiling_value r.ceilings))
                    (HasTexts-field
                      (HasText-arr (HasItems-array fact_value HasText-fact_value r.reason_facts))
                      (HasTexts-field (HasText-texts_value r.issues)
                        (HasTexts-field (HasText-bool true) HasTexts-end)))))))))))

HasText-invalid : (issues : List String) → HasText (invalid_value issues)
HasText-invalid issues =
    HasText-obj
      (HasTexts-field (HasText-bool true) (HasTexts-field (HasText-texts_value _) HasTexts-end))

HasText-digested_input :
    (actor tenant : Option String) (operands : List Operand) (issues : List String)
    → HasText (digested_input actor tenant operands issues)
HasText-digested_input (some actor) (some tenant) operands issues = HasText-obj (
    HasTexts-field (HasText-str _) (
      HasTexts-field (HasText-str actor) (
        HasTexts-field (HasText-str tenant) (
          HasTexts-field
            (HasText-arr (HasItems-array operand_value HasText-operand_value (by_kind operands)))
            HasTexts-end))))
HasText-digested_input none tenant operands issues = HasText-invalid issues
HasText-digested_input (some actor) none operands issues = HasText-invalid issues

module _ (sha256_hex : String → String) where
  pub digest-HasText : {v : Value} → HasText v → (d : String) × (digest sha256_hex v ≡ ok d)
  unfolding digest
  digest-HasText h = (sha256_hex h.text, rw (h.canonical, digest) refl)

  ceilings_of-total :
      (os : List Operand) → (xs : List Ceiling) × (ceilings_of sha256_hex os ≡ ok xs)
  unfolding ceilings_of
  ceilings_of-total [] = ([], refl)
  ceilings_of-total (o ∷ os) =
      bind-total (digest-HasText (HasText-operand_value o))
        λ d. bind-total (ceilings_of-total os) λ xs. (_, refl)

  build_result-total :
      (input_digest : String) (actor tenant : Option String) (operands : List Operand)
      (issues : List String)
      → (r : EffectiveRights) × (build_result sha256_hex input_digest actor tenant operands issues
          ≡ ok r)
  unfolding build_result sealed
  build_result-total input_digest actor tenant operands issues =
      bind-total (ceilings_of-total (by_kind operands)) λ xs.
        bind-total
          (digest-HasText (
            HasText-core_value
              (draft input_digest actor tenant operands (final_issues operands issues) xs)))
          λ d. (_, refl)

  compile_operands-total :
      (actor tenant : Option String) (operands : List Operand) (issues : List String)
      → (r : EffectiveRights) × (compile_operands sha256_hex actor tenant operands issues ≡ ok r)
  unfolding compile_operands
  compile_operands-total actor tenant operands issues =
      bind-total
        (digest-HasText
          (HasText-digested_input actor tenant operands (judged actor tenant operands issues)))
        λ d. build_result-total d actor tenant operands (judged actor tenant operands issues)

  -- The compiler throws on no value: every value, whatever its shape, has a result.
  pub compile_total : (v : Value) → (r : EffectiveRights) × (compile sha256_hex v ≡ ok r)
  unfolding compile
  compile_total v = compile_operands-total _ _ (parsed v).1 (parsed v).0
