-- ===== src/Rights/Parse.antt =====
-- effective-rights.ts: `validateScope` and `parseOperand`. They add to a set of issues, which is a list
-- without repetition, and answer null or what they read.
use chimp_maera.Common.{
  ℕ, String, Bool, true, not, Option, none, some, List, [], ◌∷◌, ◌++◌, ◌==◌, eqb, length, includes,
  keep, all, if◌then◌else◌,
}
use chimp_maera.Common.Order.{codes, sort_texts}
use chimp_maera.Common.Pattern.{headed, is_alnum, one_of, ◌or◌}
use chimp_maera.Common.Maybe.{◌>>=◌, ◌>>◌, check}
use chimp_maera.Json.{Value, Fields, field_of}
use chimp_maera.Json.Guards.{as_record, as_array, as_text, exact_keys, safe_integer, texts_where}
use chimp_maera.Rights.{
  OperandKind, RightsOutcome, Scope, Operand, operand_kind_of, rights_outcome_of,
}

abbrev pub schema_denied : String
schema_denied = "EFFECTIVE_RIGHTS_OPERAND_SCHEMA_DENIED"

abbrev pub stale_denied : String
stale_denied = "EFFECTIVE_RIGHTS_OPERAND_GENERATION_STALE_DENIED"

-- `issues.add(issue)`
abbrev pub add : String → List String → List String
add issue issues = if includes issues issue then issues else issues ++ issue ∷ []

-- `if (test) issues.add(issue)`
abbrev pub add_if : Bool → String → List String → List String
add_if test issue issues = if test then add issue issues else issues

-- `new Set(values)`, in the order of insertion
abbrev pub distinct : List String → List String
distinct [] = []
distinct (x ∷ xs) = x ∷ keep (λ y. not (x == y)) (distinct xs)

abbrev pub sorted_distinct : List String → List String
sorted_distinct values = sort_texts (distinct values)

-- `/^[A-Za-z0-9][A-Za-z0-9._:@/-]{0,127}$/`
unfoldable pub bound_identifier_ok : String → Bool
unfolding headed
bound_identifier_ok s = headed is_alnum (is_alnum or one_of (codes "._:@/-")) 0 127 (codes s)

-- `isBoundIdentifier`
abbrev pub bound_identifier : Value → Option String
bound_identifier v = do s ← as_text v; check (bound_identifier_ok s); some s

-- `isPositiveGeneration`
abbrev pub positive_generation : Value → Option ℕ
positive_generation v = safe_integer 1 v

abbrev pub scope_keys : List String
scope_keys = "actions" ∷ "effects" ∷ "fields" ∷ "purposes" ∷ "resources" ∷ []

abbrev pub operand_keys : List String
operand_keys =
    "actor" ∷ "decisionCeiling" ∷ "generation" ∷ "kind" ∷ "operandId" ∷ "profileGeneration"
    ∷ "profileId" ∷ "scope" ∷ "tenant" ∷ []

abbrev pub known_actions : List String
known_actions = "crm.contact.create" ∷ "erp.order.create" ∷ []

abbrev pub known_resources : List String
known_resources = "dolibarr.order" ∷ "espocrm.contact" ∷ []

abbrev pub known_fields : List String
known_fields = "email" ∷ "name" ∷ "quantity" ∷ "sku" ∷ []

abbrev pub known_purposes : List String
known_purposes = "owner.review" ∷ "synthetic.demo" ∷ []

abbrev pub known_effects : List String
known_effects = "CREATE" ∷ []

-- The issues so far, with what was read, `none` for null.
abbrev pub Checked {ℓ} : Type ℓ → Type ℓ
Checked A = List String × Option A

-- `if (value === null) return null`
abbrev pub then_read {ℓ κ} :
    {A : Type ℓ} {B : Type κ} → Checked A → (List String → A → Checked B) → Checked B
then_read (issues, none) next = (issues, none)
then_read (issues, some a) next = next issues a

-- an array of texts that is not empty
abbrev pub nonempty_texts : Value → Option (List String)
nonempty_texts v = do vs ← as_array v; check (not (eqb (length vs) 0)); texts_where (λ s. true) vs

abbrev pub judge_domain : List String → Option (List String) → List String → Checked (List String)
judge_domain allowed none issues = (add schema_denied issues, none)
judge_domain allowed (some values) issues = (
  add_if (not (all (includes allowed) values)) "EFFECTIVE_RIGHTS_SCOPE_UNKNOWN_DENIED" (
      add_if (not (eqb (length (distinct values)) (length values)))
        "EFFECTIVE_RIGHTS_OPERAND_CONFLICT_DENIED" issues),
  some (sorted_distinct values),
)

-- a round of the loop over the domains
unfoldable pub read_domain : Fields → String → List String → List String → Checked (List String)
read_domain fs name allowed issues = judge_domain allowed (nonempty_texts (field_of name fs)) issues

abbrev pub read_scope : Option Fields → List String → Checked Scope
read_scope none issues = (add schema_denied issues, none)
read_scope (some fs) issues =
    then_read (read_domain fs "actions" known_actions issues) λ issues actions.
      then_read (read_domain fs "resources" known_resources issues) λ issues resources.
        then_read (read_domain fs "fields" known_fields issues) λ issues fields.
          then_read (read_domain fs "purposes" known_purposes issues) λ issues purposes.
            then_read (read_domain fs "effects" known_effects issues) λ issues effects. (
              issues,
              some (record {
                actions = actions;
                resources = resources;
                fields = fields;
                purposes = purposes;
                effects = effects;
              }),
            )

-- `validateScope`
unfoldable pub validate_scope : Value → List String → Checked Scope
unfolding read_domain
validate_scope v issues = read_scope (exact_keys v scope_keys) issues

-- The ids and the ceiling of an operand.
pub record Names : Type 0 where
  pub operand_id : String
  pub tenant : String
  pub actor : String
  pub profile_id : String
  pub decision_ceiling : RightsOutcome

abbrev pub read_names : Fields → Option Names
read_names fs = do
  operand_id ← bound_identifier (field_of "operandId" fs)
  tenant ← bound_identifier (field_of "tenant" fs)
  actor ← bound_identifier (field_of "actor" fs)
  profile_id ← bound_identifier (field_of "profileId" fs)
  ceiling ← as_text (field_of "decisionCeiling" fs)
  decision_ceiling ← rights_outcome_of ceiling
  some (record {
    operand_id = operand_id;
    tenant = tenant;
    actor = actor;
    profile_id = profile_id;
    decision_ceiling = decision_ceiling;
  })

abbrev pub read_generations : Fields → Option (ℕ × ℕ)
read_generations fs = do
  generation ← positive_generation (field_of "generation" fs)
  profile_generation ← positive_generation (field_of "profileGeneration" fs)
  some (generation, profile_generation)

abbrev pub operand_of : OperandKind → Names → ℕ × ℕ → Scope → Operand
operand_of kind names generations scope = record {
  kind = kind;
  operand_id = names.operand_id;
  tenant = names.tenant;
  actor = names.actor;
  generation = generations.0;
  profile_id = names.profile_id;
  profile_generation = generations.1;
  decision_ceiling = names.decision_ceiling;
  scope = scope;
}

-- the checks behind the one of the keys
unfoldable pub read_operand :
    OperandKind → Fields → Option Names → Option (ℕ × ℕ) → List String → Checked Operand
unfolding validate_scope
read_operand kind fs none generations issues = (add schema_denied issues, none)
read_operand kind fs (some names) none issues = (add stale_denied issues, none)
read_operand kind fs (some names) (some generations) issues =
    then_read (validate_scope (field_of "scope" fs) issues)
      λ issues scope. (issues, some (operand_of kind names generations scope))

-- the checks behind the one of the kind
unfoldable pub read_kind : Value → Option OperandKind → List String → Checked Operand
unfolding read_operand bound_identifier_ok rights_outcome_of
read_kind v none issues = (add "EFFECTIVE_RIGHTS_OPERAND_KIND_UNKNOWN_DENIED" issues, none)
read_kind v (some kind) issues = elim (exact_keys v operand_keys) [
  | none ↦ (add schema_denied issues, none)
  | some fs ↦ read_operand kind fs (read_names fs) (read_generations fs) issues
]

abbrev kind_in : Fields → Option OperandKind
kind_in fs = do name ← as_text (field_of "kind" fs); operand_kind_of name

-- `parseOperand`
unfoldable pub parse_operand : Value → List String → Checked Operand
unfolding read_kind operand_kind_of
parse_operand v issues = elim (as_record v) [
  | none ↦ (add schema_denied issues, none)
  | some fs ↦ read_kind v (kind_in fs) issues
]

-- `map(parseOperand).filter(notNull)`, with the issues that are added on the way
unfoldable pub parse_operands : List Value → List String → List String × List Operand
unfolding parse_operand
parse_operands [] issues = (issues, [])
parse_operands (v ∷ vs) issues =
    let here = parse_operand v issues in
    let rest = parse_operands vs here.0 in
    (rest.0, elim here.1 [ none ↦ rest.1 | some operand ↦ operand ∷ rest.1 ])
