-- ===== src/Rights/Compile.antt =====
-- effective-rights.ts: `intersection`, `buildResult` and `compileEffectiveRightsV1`.
use chimp_maera.Common.{
  ℕ, String, Bool, true, false, not, ◌&&◌, ◌||◌, Option, none, some, List, [], ◌∷◌, ◌++◌, ◌==◌, ltb,
  eqb, length, includes, keep, all, any, find, map, is_some, if◌then◌else◌, Result, ok, err, ◌>>=◌,
}
use chimp_maera.Common.Order.{sort, sort_texts}
use chimp_maera.Json.{Value, Fields, end, field_of}
use chimp_maera.Json.Canonical.{canonical_json}
use chimp_maera.Json.Guards.{as_record, as_array, exact_keys, is_text}
use chimp_maera.Rights.{
  OperandKind, profile, RightsOutcome, allow, escalate, deny, Scope, Operand, Ceiling, ReasonFact,
  EffectiveRights, kind_eq, kind_name, kind_rank, operand_kinds, outcome_name,
}
use chimp_maera.Rights.Parse.{
  add_if, bound_identifier, bound_identifier_ok, parse_operands, stale_denied,
}
use chimp_maera.Rights.Values.{
  core_value, operand_value, invalid_value, normalized_value, input_schema,
}

abbrev pub input_denied : String
input_denied = "EFFECTIVE_RIGHTS_INPUT_SCHEMA_DENIED"

abbrev pub binding_denied : String
binding_denied = "EFFECTIVE_RIGHTS_BINDING_MISMATCH_DENIED"

-- `emptyScope`
abbrev pub empty_scope : Scope
empty_scope = record { actions = []; resources = []; fields = []; purposes = []; effects = [] }

abbrev pub permits : (Scope → List String) → String → Operand → Bool
permits part value o = includes (part o.scope) value

-- `intersection`, by the part of a scope
unfoldable pub intersection : (Scope → List String) → List Operand → List String
unfolding sort_texts
intersection part [] = []
intersection part (first ∷ rest) =
    sort_texts (keep (λ value. all (permits part value) rest) (part first.scope))

unfoldable pub intersected : List Operand → Scope
unfolding intersection
intersected operands = record {
  actions = intersection (λ s. s.actions) operands;
  resources = intersection (λ s. s.resources) operands;
  fields = intersection (λ s. s.fields) operands;
  purposes = intersection (λ s. s.purposes) operands;
  effects = intersection (λ s. s.effects) operands;
}

-- `complete ? { … } : emptyScope()`
abbrev pub scope_when : Bool → List Operand → Scope
scope_when true operands = intersected operands
scope_when false operands = empty_scope

unfoldable pub effective_scope : List Operand → Scope
unfolding intersected
effective_scope operands = scope_when (eqb (length operands) 4) operands

abbrev pub is_empty : List String → Bool
is_empty values = eqb (length values) 0

abbrev pub has_empty_part : Scope → Bool
has_empty_part s =
    is_empty s.actions
    || is_empty s.resources
    || is_empty s.fields
    || is_empty s.purposes
    || is_empty s.effects

abbrev pub denies : RightsOutcome → Bool
denies deny = true
denies _ = false

abbrev pub escalates : RightsOutcome → Bool
escalates escalate = true
escalates _ = false

-- the issues of `buildResult`
unfoldable pub final_issues : List Operand → List String → List String
unfolding effective_scope
final_issues operands issues =
    add_if (any (λ o. denies o.decision_ceiling) operands) "EFFECTIVE_RIGHTS_EXPLICIT_DENY" (
      add_if (eqb (length operands) 4 && has_empty_part (effective_scope operands))
        "EFFECTIVE_RIGHTS_EMPTY_INTERSECTION_DENIED" issues)

unfoldable pub decide : List Operand → List String → RightsOutcome
decide operands (i ∷ is) = deny
decide operands [] = if any (λ o. escalates o.decision_ceiling) operands then escalate else allow

-- `left.kind.localeCompare(right.kind)`
abbrev pub kind_lt : Operand → Operand → Bool
kind_lt a b = ltb (kind_rank a.kind) (kind_rank b.kind)

abbrev pub by_kind : List Operand → List Operand
by_kind operands = sort kind_lt operands

abbrev pub ceiling_of : Operand → String → Ceiling
ceiling_of o d = record {
  kind = o.kind;
  operand_id = o.operand_id;
  generation = o.generation;
  decision_ceiling = o.decision_ceiling;
  scope = o.scope;
  operand_digest = d;
}

abbrev pub ceiling_fact : Ceiling → ReasonFact
ceiling_fact x = record {
  code = "EFFECTIVE_RIGHTS_CEILING_CONTRIBUTED";
  source = kind_name x.kind;
  detail = outcome_name x.decision_ceiling;
}

abbrev pub issue_fact : String → ReasonFact
issue_fact code = record { code = code; source = "COMPILER"; detail = "FAIL_CLOSED" }

abbrev pub outcome_detail : RightsOutcome → String
outcome_detail allow = "ALL_REQUIRED_OPERANDS_INTERSECT"
outcome_detail escalate = "RESTRICTIVE_CEILING_REQUIRES_OWNER"
outcome_detail deny = "NO_INFORMATIONAL_ALLOW"

abbrev pub outcome_code : RightsOutcome → String
outcome_code allow = "EFFECTIVE_RIGHTS_ALLOW"
outcome_code escalate = "EFFECTIVE_RIGHTS_ESCALATE"
outcome_code deny = "EFFECTIVE_RIGHTS_DENY"

abbrev pub outcome_fact : RightsOutcome → ReasonFact
outcome_fact o = record { code = outcome_code o; source = "COMPILER"; detail = outcome_detail o }

abbrev pub facts_of : List Ceiling → List String → RightsOutcome → List ReasonFact
facts_of ceilings issues outcome =
    map ceiling_fact ceilings ++ map issue_fact (sort_texts issues) ++ outcome_fact outcome ∷ []

abbrev is_profile : Operand → Bool
is_profile o = kind_eq o.kind profile

abbrev pub profile_id_of : Option Operand → Option String
profile_id_of none = none
profile_id_of (some o) = some o.profile_id

abbrev pub profile_generation_of : Option Operand → Option ℕ
profile_generation_of none = none
profile_generation_of (some o) = some o.profile_generation

-- The result before its digest.
unfoldable pub draft :
    String
    → Option String
    → Option String
    → List Operand
    → List String
    → List Ceiling
    → EffectiveRights
unfolding effective_scope decide
draft input_digest actor tenant operands issues ceilings = record {
  input_digest = input_digest;
  actor = actor;
  tenant = tenant;
  profile_id = profile_id_of (find is_profile operands);
  profile_generation = profile_generation_of (find is_profile operands);
  outcome = decide operands issues;
  effective_scope = effective_scope operands;
  ceilings = ceilings;
  reason_facts = facts_of ceilings issues (decide operands issues);
  issues = sort_texts issues;
  result_digest = "";
}

-- a loop that adds an issue for a kind that is missing or repeated
unfoldable pub count_issues : List OperandKind → List Operand → List String → List String
count_issues [] operands issues = issues
count_issues (k ∷ ks) operands issues =
    let count = length (keep (λ (o : Operand). kind_eq o.kind k) operands) in
    count_issues ks operands (
      add_if (ltb 1 count) "EFFECTIVE_RIGHTS_OPERAND_DUPLICATE_DENIED"
        (add_if (eqb count 0) "EFFECTIVE_RIGHTS_OPERAND_MISSING_DENIED" issues))

-- `value === text`, for a text or null
abbrev pub is_value : Option String → String → Bool
is_value none t = false
is_value (some s) t = s == t

-- whether an operand is bound to another actor, tenant or profile
abbrev pub is_mismatch : Option String → Option String → Operand → Operand → Bool
is_mismatch actor tenant p o =
    not (is_value actor o.actor)
    || not (is_value tenant o.tenant)
    || not (o.profile_id == p.profile_id)

abbrev pub is_other_generation : Operand → Operand → Bool
is_other_generation p o = not (eqb o.profile_generation p.profile_generation)

abbrev pub generation_issue : Operand → Operand → String
generation_issue p o =
    if ltb o.profile_generation p.profile_generation then stale_denied else binding_denied

-- the loop over the operands when there is a profile
unfoldable pub binding_issues :
    Option String → Option String → Operand → List Operand → List String → List String
binding_issues actor tenant p [] issues = issues
binding_issues actor tenant p (o ∷ os) issues = binding_issues actor tenant p os (
    add_if (is_other_generation p o) (generation_issue p o)
      (add_if (is_mismatch actor tenant p o) binding_denied issues))

abbrev pub profile_issues :
    Option String → Option String → Option Operand → List Operand → List String → List String
profile_issues actor tenant none operands issues = issues
profile_issues actor tenant (some p) operands issues = binding_issues actor tenant p operands issues

-- the issues of `compileEffectiveRightsV1`
unfoldable pub judged : Option String → Option String → List Operand → List String → List String
unfolding count_issues binding_issues
judged actor tenant operands read_issues =
    profile_issues actor tenant (find is_profile operands) operands
      (count_issues operand_kinds operands read_issues)

-- what `inputDigest` is the digest of
abbrev pub digested_input : Option String → Option String → List Operand → List String → Value
digested_input (some actor) (some tenant) operands issues =
    normalized_value actor tenant (by_kind operands)
digested_input _ _ operands issues = invalid_value issues

abbrev pub fields_or_none : Option Fields → Fields
fields_or_none none = end
fields_or_none (some fs) = fs

abbrev pub values_or_none : Option (List Value) → List Value
values_or_none none = []
values_or_none (some vs) = vs

abbrev pub input_keys : List String
input_keys = "actor" ∷ "operands" ∷ "schemaVersion" ∷ "tenant" ∷ []

-- `input` as a record, which is empty when it is none
abbrev pub input_fields : Value → Fields
input_fields v = fields_or_none (as_record v)

-- the issues before the operands are read
unfoldable pub input_issues : Value → List String
unfolding bound_identifier_ok
input_issues v =
    let fs = input_fields v in
    add_if
      (not (is_text (field_of "schemaVersion" fs) input_schema)
        || not (is_some (bound_identifier (field_of "actor" fs)))
        || not (is_some (bound_identifier (field_of "tenant" fs)))
        || not (is_some (as_array (field_of "operands" fs))))
      input_denied (add_if (not (is_some (exact_keys v input_keys))) input_denied [])

-- the operands that could be read, with the issues of reading them
abbrev pub parsed : Value → List String × List Operand
parsed v =
    parse_operands (values_or_none (as_array (field_of "operands" (input_fields v))))
      (input_issues v)

module _ (sha256_hex : String → String) where
  -- `digest`
  unfoldable pub digest : Value → Result String
  digest v = elim (canonical_json v) [ none ↦ err "TypeError" | some text ↦ ok (sha256_hex text) ]

  unfoldable pub ceilings_of : List Operand → Result (List Ceiling)
  unfolding digest
  ceilings_of [] = ok []
  ceilings_of (o ∷ os) = do
    d ← digest (operand_value o)
    rest ← ceilings_of os
    ok (ceiling_of o d ∷ rest)

  unfoldable pub sealed : EffectiveRights → Result EffectiveRights
  unfolding digest
  sealed r = do d ← digest (core_value r); ok (record r { result_digest = d })

  -- `buildResult`
  unfoldable pub build_result :
      String → Option String → Option String → List Operand → List String → Result EffectiveRights
  unfolding ceilings_of final_issues draft sealed
  build_result input_digest actor tenant operands issues = do
    ceilings ← ceilings_of (by_kind operands)
    sealed (draft input_digest actor tenant operands (final_issues operands issues) ceilings)

  -- `compileEffectiveRightsV1` behind the reading of the operands
  unfoldable pub compile_operands :
      Option String → Option String → List Operand → List String → Result EffectiveRights
  unfolding build_result judged
  compile_operands actor tenant operands read_issues = do
    let issues = judged actor tenant operands read_issues
    input_digest ← digest (digested_input actor tenant operands issues)
    build_result input_digest actor tenant operands issues

  -- `compileEffectiveRightsV1`
  unfoldable pub compile : Value → Result EffectiveRights
  unfolding compile_operands input_issues parse_operands bound_identifier_ok
  compile v =
      let fs = input_fields v in
      let (issues, operands) = parsed v in
      compile_operands (bound_identifier (field_of "actor" fs))
        (bound_identifier (field_of "tenant" fs)) operands issues
