-- ===== src/Rights/Known.antt =====
-- effective-rights.ts: the issues that the compiler adds are those that the verifier knows.
-- the verifier knows them.
use chimp_maera.Common.{
  String, ◌≡◌, refl, inl, inr, true, not, ◌&&◌, ◌||◌, Option, none, some, List, [], ◌∷◌, eqb, ltb,
  length, includes, any, keep, is_some, Bool-cases,
}
use chimp_maera.Json.{Value, field_of}
use chimp_maera.Json.Guards.{as_array, exact_keys, is_text}
use chimp_maera.Rights.{Operand, OperandKind, kind_eq, operand_kinds}
use chimp_maera.Rights.Parse.{add_if, bound_identifier}
use chimp_maera.Rights.Values.{input_schema}
use chimp_maera.Rights.Compile.{
  denies, effective_scope, has_empty_part, input_fields, input_keys, binding_denied, binding_issues,
  count_issues, final_issues, generation_issue, input_denied, input_issues, is_mismatch,
  is_other_generation, judged, profile_issues,
}
use chimp_maera.Rights.Verify.{known_issues}
use chimp_maera.Rights.Checked.{AreIssues, add_if-AreIssues}

count_issues-AreIssues :
    (ks : List OperandKind) (operands : List Operand) (is : List String)
    → AreIssues is
    → AreIssues (count_issues ks operands is)
unfolding count_issues
count_issues-AreIssues [] operands is h = h
count_issues-AreIssues (k ∷ ks) operands is h =
    let count = length (keep (λ (o : Operand). kind_eq o.kind k) operands) in
    count_issues-AreIssues ks operands _ (
      add_if-AreIssues (ltb 1 count) "EFFECTIVE_RIGHTS_OPERAND_DUPLICATE_DENIED"
        (add_if (eqb count 0) "EFFECTIVE_RIGHTS_OPERAND_MISSING_DENIED" is) refl
        (add_if-AreIssues (eqb count 0) "EFFECTIVE_RIGHTS_OPERAND_MISSING_DENIED" is refl h))

generation_issue-known : (p o : Operand) → includes known_issues (generation_issue p o) ≡ true
generation_issue-known p o = elim (Bool-cases (ltb o.profile_generation p.profile_generation)) [
  | inl older ↦ rw older refl
  | inr newer ↦ rw newer refl
]

binding_issues-AreIssues :
    (actor tenant : Option String) (p : Operand) (os : List Operand) (is : List String)
    → AreIssues is
    → AreIssues (binding_issues actor tenant p os is)
unfolding binding_issues
binding_issues-AreIssues actor tenant p [] is h = h
binding_issues-AreIssues actor tenant p (o ∷ os) is h =
    binding_issues-AreIssues actor tenant p os _ (
      add_if-AreIssues (is_other_generation p o) (generation_issue p o)
        (add_if (is_mismatch actor tenant p o) binding_denied is) (generation_issue-known p o)
        (add_if-AreIssues (is_mismatch actor tenant p o) binding_denied is refl h))

profile_issues-AreIssues :
    (actor tenant : Option String) (p : Option Operand) (os : List Operand) (is : List String)
    → AreIssues is
    → AreIssues (profile_issues actor tenant p os is)
profile_issues-AreIssues actor tenant none os is h = h
profile_issues-AreIssues actor tenant (some p) os is h =
    binding_issues-AreIssues actor tenant p os is h

pub judged-AreIssues :
    (actor tenant : Option String) (os : List Operand) (is : List String)
    → AreIssues is
    → AreIssues (judged actor tenant os is)
unfolding judged
judged-AreIssues actor tenant os is h =
    profile_issues-AreIssues actor tenant _ os _ (count_issues-AreIssues operand_kinds os is h)

pub final_issues-AreIssues :
    (os : List Operand) (is : List String) → AreIssues is → AreIssues (final_issues os is)
unfolding final_issues
final_issues-AreIssues os is h =
    add_if-AreIssues (any (λ o. denies o.decision_ceiling) os) "EFFECTIVE_RIGHTS_EXPLICIT_DENY"
      (add_if (eqb (length os) 4 && has_empty_part (effective_scope os))
        "EFFECTIVE_RIGHTS_EMPTY_INTERSECTION_DENIED" is)
      refl
      (add_if-AreIssues (eqb (length os) 4 && has_empty_part (effective_scope os))
        "EFFECTIVE_RIGHTS_EMPTY_INTERSECTION_DENIED" is refl h)

no_issues : AreIssues []
no_issues = record { known = tt }

pub input_issues-AreIssues : (v : Value) → AreIssues (input_issues v)
unfolding input_issues
input_issues-AreIssues v =
    let fs = input_fields v in
    add_if-AreIssues
      (not (is_text (field_of "schemaVersion" fs) input_schema)
        || not (is_some (bound_identifier (field_of "actor" fs)))
        || not (is_some (bound_identifier (field_of "tenant" fs)))
        || not (is_some (as_array (field_of "operands" fs))))
      input_denied (add_if (not (is_some (exact_keys v input_keys))) input_denied []) refl
      (add_if-AreIssues (not (is_some (exact_keys v input_keys))) input_denied [] refl no_issues)
