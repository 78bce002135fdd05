-- ===== src/Boundary/Bound.antt =====
-- injection-trust-boundary.ts: what the parser of a candidate reads, and that it gives an issue for
-- everything that it does not.
use chimp_maera.Common.{
  String, ◌≡◌, refl, ◌⊎◌, inl, inr, true, not, Option, none, some, List, [], ◌∷◌, Bool-cases,
  Option-cases,
}
use chimp_maera.Json.{Value, Fields, field_of}
use chimp_maera.Json.Guards.{as_record, is_text}
use chimp_maera.Rights.Parse.{Checked, add, add_if, sorted_distinct}
use chimp_maera.Boundary.{ActionArguments, ParsedCandidate, ReconstructionContext}
use chimp_maera.Boundary.Parse.{catalog_version}
use chimp_maera.Boundary.Candidate.{
  argument_denied, candidate_denied, candidate_when, is_bound, judge_evidence, judge_record,
  parse_candidate, read_arguments, read_candidate, read_contact, read_order,
}
use chimp_maera.Boundary.Read.{add-eq-nil, add_if-eq-nil}

-- Issues that there are.
abbrev HasIssues {ℓ} : {A : Type ℓ} → Checked A → Type ℓ
HasIssues {A} x = (i : String) × (is : List String) × (x ≡ (i ∷ is, none))

denied_with {ℓ} : {A : Type ℓ} (is : List String) → (is ≡ [] → ⊥) → HasIssues {A = A} (is, none)
denied_with [] h = absurd (h refl)
denied_with (i ∷ is) h = (i, is, refl)

some_more {ℓ} : {A : Type ℓ} {x : A} {xs : List A} → x ∷ xs ≡ [] → ⊥
some_more h = cc

-- Arguments are read and no issue is added, or there is an issue.
read_arguments-cases :
    (action_id v : Value) (issues : List String)
    → ((a : ActionArguments) × (read_arguments action_id v issues ≡ (issues, some a)))
      ⊎ HasIssues (read_arguments action_id v issues)
unfolding read_arguments
read_arguments-cases action_id v issues =
    elim (Bool-cases (is_text action_id "crm.contact.create")) [
      | inl contact ↦ elim (Option-cases (read_contact v)) [
        | inl nothing ↦ inr (
            rw (contact, nothing)
              (denied_with (add argument_denied issues) (add-eq-nil argument_denied issues)))
        | inr (a, found) ↦ inl (a, rw (contact, found) refl)
      ]
      | inr other ↦ elim (Bool-cases (is_text action_id "erp.order.create")) [
        | inl order ↦ elim (Option-cases (read_order v)) [
          | inl nothing ↦ inr (
              rw (other, order, nothing)
                (denied_with (add argument_denied issues) (add-eq-nil argument_denied issues)))
          | inr (a, found) ↦ inl (a, rw (other, order, found) refl)
        ]
        | inr unknown ↦ inr (rw (other, unknown) (denied_with (add _ issues) (add-eq-nil _ issues)))
      ]
    ]

-- A candidate that was read without an issue.
pub record IsCandidate (v : Value) (c : ReconstructionContext) (k : ParsedCandidate) : Type 0 where
  pub fields : Fields
  pub ids : List String
  pub read : read_candidate v ≡ some (fields, ids)
  pub version : is_text (field_of "catalogVersion" fields) catalog_version ≡ true
  pub arguments :
      read_arguments (field_of "actionId" fields) (field_of "arguments" fields) []
      ≡ ([], some k.arguments)
  pub bound : is_bound ids c ≡ true
  pub evidence : k.evidence_ids ≡ sorted_distinct ids

-- with issues from before, there is no candidate
candidate_when-HasIssues :
    (is : List String) (a : Option ActionArguments) (ids : List String)
    → (is ≡ [] → ⊥)
    → HasIssues (candidate_when is a ids)
candidate_when-HasIssues [] a ids h = absurd (h refl)
candidate_when-HasIssues (i ∷ is) a ids h = (i, is, refl)

judge_evidence-HasIssues :
    (ids : List String) (c : ReconstructionContext) (is : List String) (a : Option ActionArguments)
    → (is ≡ [] → ⊥)
    → HasIssues (judge_evidence ids c (is, a))
judge_evidence-HasIssues ids c is a h =
    candidate_when-HasIssues (add_if (not (is_bound ids c)) _ is) a ids
      λ quiet. h (add_if-eq-nil (not (is_bound ids c)) _ is quiet).1

judge_record-HasIssues :
    (o : Option Fields) (fs : Fields) (ids : List String) (c : ReconstructionContext)
    (is : List String)
    → (is ≡ [] → ⊥)
    → HasIssues (judge_record o fs ids c is)
judge_record-HasIssues none fs ids c is h =
    denied_with (add argument_denied is) (add-eq-nil argument_denied is)
judge_record-HasIssues (some arguments) fs ids c is h =
    elim (read_arguments-cases (field_of "actionId" fs) (field_of "arguments" fs) is) [
      | inl (a, p) ↦ rw p (judge_evidence-HasIssues ids c is (some a) h)
      | inr (i, more, p) ↦ rw p (judge_evidence-HasIssues ids c (i ∷ more) none some_more)
    ]

-- the rest of the reading, when there is no issue yet
judge_record-cases :
    (v : Value) (c : ReconstructionContext) (fs : Fields) (ids : List String)
    → read_candidate v ≡ some (fs, ids)
    → is_text (field_of "catalogVersion" fs) catalog_version ≡ true
    → (o : Option Fields)
    → ((k : ParsedCandidate) × (judge_record o fs ids c [] ≡ ([], some k)) × IsCandidate v c k)
      ⊎ HasIssues (judge_record o fs ids c [])
judge_record-cases v c fs ids found version none = inr (argument_denied, [], refl)
judge_record-cases v c fs ids found version (some arguments) =
    elim (read_arguments-cases (field_of "actionId" fs) (field_of "arguments" fs) []) [
      | inr (i, is, p) ↦ inr (rw p (judge_evidence-HasIssues ids c (i ∷ is) none some_more))
      | inl (a, p) ↦ elim (Bool-cases (is_bound ids c)) [
        | inr apart ↦ inr (rw (p, apart) (denied_with (_ ∷ []) some_more))
        | inl together ↦ inl (
          record { arguments = a; evidence_ids = sorted_distinct ids },
          rw (p, together) refl,
          record {
            fields = fs;
            ids = ids;
            read = found;
            version = version;
            arguments = p;
            bound = together;
            evidence = refl;
          },
        )
      ]
    ]

-- A candidate is read without an issue, or there is one.
pub parse_candidate-cases :
    (v : Value) (c : ReconstructionContext)
    → ((k : ParsedCandidate) × (parse_candidate v c [] ≡ ([], some k)) × IsCandidate v c k)
      ⊎ HasIssues (parse_candidate v c [])
unfolding parse_candidate
parse_candidate-cases v c = elim (Option-cases (read_candidate v)) [
  | inl nothing ↦
      inr (rw nothing (denied_with (add candidate_denied []) (add-eq-nil candidate_denied [])))
  | inr ((fs, ids), found) ↦
      elim (Bool-cases (is_text (field_of "catalogVersion" fs) catalog_version)) [
        | inl version ↦
            elim (judge_record-cases v c fs ids found version
              (as_record (field_of "arguments" fs))) [
                | inl (k, p, is_read) ↦ inl (k, rw (found, version) p, is_read)
                | inr denied ↦ inr (rw (found, version) denied)
              ]
        | inr old ↦ inr (
            rw (found, old)
              (judge_record-HasIssues (as_record (field_of "arguments" fs)) fs ids c _ some_more))
      ]
]
