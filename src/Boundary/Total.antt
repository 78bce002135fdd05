-- ===== src/Boundary/Total.antt =====
-- injection-trust-boundary.ts: the boundary answers every pair of values.
use chimp_maera.Common.{String, ◌≡◌, refl, Bool, Option, none, some, List, [], ◌∷◌, ok, bind-total}
use chimp_maera.Json.{Value, obj}
use chimp_maera.Json.Total.{
  HasText, HasTexts, HasText-null, HasText-str, HasText-obj, HasText-arr, HasTexts-end,
  HasTexts-field, HasItems-array, text_rules,
}
use chimp_maera.Rights.Parse.{Checked}
use chimp_maera.Rights.Compile.{digest}
use chimp_maera.Rights.Total.{digest-HasText, HasText-texts_value, HasText-text_or_null}
use chimp_maera.Boundary.{
  ActionArguments, BoundaryResult, ContentEnvelope, Evidence, ParsedCandidate, ReconstructedAction,
  ReconstructionContext, contact_arguments, order_arguments,
}
use chimp_maera.Boundary.Parse.{parse_context}
use chimp_maera.Boundary.Candidate.{parse_candidate, reconstruct_action}
use chimp_maera.Boundary.Values.{
  action_fields, action_or_null, arguments_value, candidate_value, context_value, envelope_value,
  evidence_list, evidence_value, result_core,
}
use chimp_maera.Boundary.Reconstruct.{
  collect_evidence, denial, deny, input_value, make_result, digest_or_none, reconstruct,
  reconstruction, reconstruct_candidate, reconstruct_context, reconstruct_parsed,
}

HasText-envelope_value : (e : ContentEnvelope) → HasText (envelope_value e)
HasText-envelope_value e = search text_rules depth 24

HasText-context_value : (c : ReconstructionContext) → HasText (context_value c)
HasText-context_value c = HasText-obj (
    HasTexts-field (HasText-str _) (
      HasTexts-field (HasText-str _) (
        HasTexts-field (HasText-str _) (
          HasTexts-field (HasText-str _) (
            HasTexts-field (HasText-str _) (
              HasTexts-field
                (HasText-arr (HasItems-array envelope_value HasText-envelope_value c.envelopes))
                HasTexts-end))))))

HasText-arguments_value : (a : ActionArguments) → HasText (arguments_value a)
HasText-arguments_value (contact_arguments email_address first_name last_name) =
    search text_rules depth 24
HasText-arguments_value (order_arguments customer_id customer_reference order_date_epoch) =
    search text_rules depth 24

HasText-candidate_value : (k : ParsedCandidate) → HasText (candidate_value k)
HasText-candidate_value k = HasText-obj (
    HasTexts-field (HasText-str _) (
      HasTexts-field (HasText-str _) (
        HasTexts-field (HasText-str _) (
          HasTexts-field (HasText-arguments_value k.arguments)
            (HasTexts-field (HasText-texts_value k.evidence_ids) HasTexts-end)))))

HasText-evidence_value : (e : Evidence) → HasText (evidence_value e)
HasText-evidence_value e = search text_rules depth 24

HasText-evidence_list : (es : List Evidence) → HasText (evidence_list es)
HasText-evidence_list es = HasText-arr (HasItems-array evidence_value HasText-evidence_value es)

-- The body of an action has a canonical text.
abbrev HasBody : ReconstructedAction → Type 0
HasBody a = HasTexts a.body

HasText-action : (a : ReconstructedAction) → HasBody a → HasText (obj (action_fields a))
HasText-action a h = HasText-obj (
    HasTexts-field (HasText-str _) (
      HasTexts-field (HasText-str _) (
        HasTexts-field (HasText-str _) (
          HasTexts-field (HasText-str _) (
            HasTexts-field
              (HasText-obj (
                HasTexts-field (HasText-str _)
                  (HasTexts-field (HasText-str _) (HasTexts-field (HasText-obj h) HasTexts-end))))
              (HasTexts-field (HasText-str _) (
                HasTexts-field
                  (HasText-obj (
                    HasTexts-field (HasText-str _) (
                      HasTexts-field (HasText-str _) (
                        HasTexts-field (HasText-str _) (
                          HasTexts-field (HasText-str _)
                            (HasTexts-field (HasText-str _) HasTexts-end))))))
                  HasTexts-end)))))))

reconstruct_action-HasBody :
    (a : ActionArguments) (c : ReconstructionContext) → HasBody (reconstruct_action a c)
unfolding reconstruct_action
reconstruct_action-HasBody (contact_arguments email_address first_name last_name) c =
    search text_rules depth 24
reconstruct_action-HasBody (order_arguments customer_id customer_reference order_date_epoch) c =
    search text_rules depth 24

abbrev HasAction : Option ReconstructedAction → Type 0
HasAction none = Unit
HasAction (some a) = HasBody a

HasText-action_or_null : (o : Option ReconstructedAction) → HasAction o → HasText (action_or_null o)
HasText-action_or_null none h = HasText-null
HasText-action_or_null (some a) h = HasText-action a h

HasText-result_core : (r : BoundaryResult) → HasAction r.action → HasText (result_core r)
HasText-result_core r h = HasText-obj (
    HasTexts-field (HasText-str _) (
      HasTexts-field (HasText-str _) (
        HasTexts-field (HasText-str _) (
          HasTexts-field (HasText-text_or_null r.input_digest) (
            HasTexts-field (HasText-text_or_null r.candidate_digest) (
              HasTexts-field (HasText-text_or_null r.evidence_digest) (
                HasTexts-field (HasText-text_or_null r.action_digest) (
                  HasTexts-field (HasText-action_or_null r.action h) (
                    HasTexts-field (HasText-evidence_list r.evidence)
                      (HasTexts-field (HasText-texts_value r.issues) HasTexts-end))))))))))

module _ (sha256_hex : String → String) where
  make_result-total :
      (r : BoundaryResult)
      → HasAction r.action
      → (s : BoundaryResult) × (make_result sha256_hex r ≡ ok s)
  unfolding make_result
  make_result-total r h =
      bind-total (digest-HasText sha256_hex (HasText-result_core r h)) λ d. (_, refl)

  deny-total :
      (candidate context : Value) (issues : List String)
      → (r : BoundaryResult) × (deny sha256_hex candidate context issues ≡ ok r)
  unfolding deny
  deny-total candidate context issues =
      make_result-total
        (denial (digest_or_none (digest sha256_hex (input_value candidate context))) issues) tt

  collect_evidence-total :
      (es : List ContentEnvelope) → (xs : List Evidence) × (collect_evidence sha256_hex es ≡ ok xs)
  unfolding collect_evidence
  collect_evidence-total [] = ([], refl)
  collect_evidence-total (e ∷ es) =
      bind-total (digest-HasText sha256_hex (HasText-str e.content))
        λ d. bind-total (collect_evidence-total es) λ xs. (_, refl)

  reconstruct_parsed-total :
      (k : ParsedCandidate) (c : ReconstructionContext)
      → (r : BoundaryResult) × (reconstruct_parsed sha256_hex k c ≡ ok r)
  unfolding reconstruct_parsed
  reconstruct_parsed-total k c =
      let body = reconstruct_action-HasBody k.arguments c in
      bind-total (collect_evidence-total c.envelopes) λ evidence.
        bind-total
          (digest-HasText sha256_hex (
            HasText-obj (
              HasTexts-field (HasText-candidate_value k)
                (HasTexts-field (HasText-context_value c) HasTexts-end))))
          λ a. bind-total (digest-HasText sha256_hex (HasText-candidate_value k)) λ b.
            bind-total (digest-HasText sha256_hex (HasText-evidence_list evidence)) λ d.
              bind-total
                (digest-HasText sha256_hex (HasText-action (reconstruct_action k.arguments c) body))
                λ e.
                  make_result-total
                    (reconstruction a b d e (reconstruct_action k.arguments c) evidence) body

  reconstruct_candidate-total :
      (candidate context : Value) (c : ReconstructionContext) (k : Checked ParsedCandidate)
      → (r : BoundaryResult) × (reconstruct_candidate sha256_hex candidate context c k ≡ ok r)
  reconstruct_candidate-total candidate context c (issues, none) =
      deny-total candidate context issues
  reconstruct_candidate-total candidate context c (issues, some k) = reconstruct_parsed-total k c

  reconstruct_context-total :
      (candidate context : Value) (c : Checked ReconstructionContext)
      → (r : BoundaryResult) × (reconstruct_context sha256_hex candidate context c ≡ ok r)
  reconstruct_context-total candidate context (issues, none) = deny-total candidate context issues
  reconstruct_context-total candidate context (issues, some c) =
      reconstruct_candidate-total candidate context c (parse_candidate candidate c issues)

  -- Every pair of values has a result, whatever their shapes: the boundary throws on none.
  pub reconstruct_total :
      (locale_lt : String → String → Bool) (candidate context : Value)
      → (r : BoundaryResult) × (reconstruct sha256_hex locale_lt candidate context ≡ ok r)
  unfolding reconstruct
  reconstruct_total locale_lt candidate context =
      reconstruct_context-total candidate context (parse_context locale_lt context)
