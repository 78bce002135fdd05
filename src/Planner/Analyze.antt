-- ===== src/Planner/Analyze.antt =====
-- poc-setup-compatibility-planner.ts: `analyzePocSetupCompatibilityV1`.
use Prim.Native.String.{◌++◌ as ◌+++◌}
use chimp_maera.Common.{
  String, Bool, true, false, ◌&&◌, Option, none, some, List, [], ◌∷◌, ◌++◌, ◌==◌, all, includes,
  is_some, map, if◌then◌else◌, Result, ok, ◌>>=◌, ◌>>◌, require, or_throw,
}
use chimp_maera.Common.Integers.{ℤ, pos, ◌+ℤ◌}
use chimp_maera.Common.Order.{sort_texts}
use chimp_maera.Planner.{
  Addition, Analysis, BaseTemplate, Catalog, Component, PlannerMode, PlannerRequest, ProviderGroup,
  Requirement, Status, UseCase, UseCaseCompatibility, ready_real, system_first, use_case_first,
}
use chimp_maera.Planner.Closure.{dependency_closure}
use chimp_maera.Planner.Texts.{distinct, flat_map, is_unique, sorted_set}
use chimp_maera.Planner.Choice.{
  completion_for, evaluate_use_case, get_component, selection_of, truthy, type_error,
}
use chimp_maera.Planner.Values.{analysis_core}
use chimp_maera.Planner.Validate.{digest, use_case_ids, validate_catalog}

abbrev or_later {ℓ} : {A : Type ℓ} → Option A → Option A → Option A
or_later (some later) first = some later
or_later none first = first

-- `templates.get(id)`
unfoldable pub template_of : List BaseTemplate → String → Option BaseTemplate
template_of [] id = none
template_of (t ∷ ts) id =
    or_later (template_of ts id) (if t.template_id == id then some t else none)

-- `useCases.get(id)`
unfoldable pub use_case_of : List UseCase → String → Option UseCase
use_case_of [] id = none
use_case_of (u ∷ us) id =
    or_later (use_case_of us id) (if u.use_case_id == id then some u else none)

-- The initial set of components, and `auto`.
pub record Selecting : Type 0 where
  pub ids : List String
  pub additions : List Addition

-- `if (!initial.has(id)) { initial.add(id); auto.push(…) }`
unfoldable pub admit : String → String → Selecting → Selecting
admit id reason s = if includes s.ids id then s else record {
  ids = s.ids ++ id ∷ [];
  additions = s.additions ++ record { component_id = id; reason = reason } ∷ [];
}

unfoldable pub admit_all : List String → String → Selecting → Selecting
unfolding admit
admit_all [] reason s = s
admit_all (id ∷ ids) reason s = admit_all ids reason (admit id reason s)

-- the provider that was chosen, or the first of the group
abbrev pub provider_of : Option String → List String → Option String
provider_of (some id) ids = some id
provider_of none [] = none
provider_of none (id ∷ ids) = some id

-- An undefined provider is in no list.
abbrev pub included_provider : List String → Option String → Bool
included_provider ids none = false
included_provider ids (some id) = includes ids id

abbrev pub admit_provider : Option String → String → Selecting → Selecting
admit_provider none reason s = s
admit_provider (some id) reason s = admit id reason s

-- the loop over the groups of a use case
unfoldable pub admit_providers :
    String → List (String × String) → List ProviderGroup → Selecting → Result Selecting
unfolding selection_of admit
admit_providers use_case_id selections [] s = ok s
admit_providers use_case_id selections (g ∷ gs) s = do
  let id = provider_of (selection_of selections g.group_id) g.one_of
  require (included_provider g.one_of id) "PROVIDER_ALTERNATIVE_NOT_ALLOWED"
  admit_providers use_case_id selections gs
      (admit_provider id ("provider " +++ g.group_id +++ " for " +++ use_case_id) s)

abbrev pub simulator_for : Bool → Option String → Option String
simulator_for true id = truthy id
simulator_for false id = none

abbrev pub admit_execution :
    Option String → UseCase → List (String × String) → Selecting → Result Selecting
admit_execution (some id) u selections s =
    ok (admit id ("synthetic fallback for " +++ u.use_case_id) s)
admit_execution none u selections s =
    admit_providers u.use_case_id selections u.provider_alternatives s

-- the body of the loop in the mode USE_CASE_FIRST
unfoldable pub admit_use_case : PlannerRequest → UseCase → Selecting → Result Selecting
unfolding admit_all admit_providers
admit_use_case q u s =
    admit_execution (simulator_for q.simulation_only u.simulator_id) u q.provider_selections (
      admit_all (map (λ (r : Requirement). r.component_id) u.required_components)
        ("required by " +++ u.use_case_id) s)

unfoldable pub admit_use_cases : PlannerRequest → List UseCase → Selecting → Result Selecting
unfolding admit_use_case
admit_use_cases q [] s = ok s
admit_use_cases q (u ∷ us) s = do t ← admit_use_case q u s; admit_use_cases q us t

-- the loop over the use cases of a complete bundle
unfoldable pub complete_bundle : PlannerRequest → List UseCase → Selecting → Selecting
unfolding completion_for admit_all
complete_bundle q [] s = s
complete_bundle q (u ∷ us) s = complete_bundle q us (
    admit_all (completion_for u s.ids q.provider_selections)
      ("bundle completion for " +++ u.use_case_id) s)

-- the additions of the mode, in front of the closure
unfoldable pub select : PlannerRequest → PlannerMode → List UseCase → Selecting → Result Selecting
unfolding admit_use_cases complete_bundle
select q use_case_first us s = admit_use_cases q us s
select q system_first us s = ok (if q.complete_bundle then complete_bundle q us s else s)

-- the use cases of a list of ids
unfoldable pub use_cases_of : List UseCase → List String → Result (List UseCase)
unfolding use_case_of
use_cases_of us [] = ok []
use_cases_of us (id ∷ ids) = do
  u ← or_throw (use_case_of us id) type_error
  rest ← use_cases_of us ids
  ok (u ∷ rest)

unfoldable pub evaluate_all :
    List Component
    → List String
    → List (String × String)
    → List UseCase
    → Result (List UseCaseCompatibility)
unfolding evaluate_use_case
evaluate_all components selected selections [] = ok []
evaluate_all components selected selections (u ∷ us) = do
  here ← evaluate_use_case components u selected selections
  rest ← evaluate_all components selected selections us
  ok (here ∷ rest)

-- `selectedComponents`
unfoldable pub components_of : List Component → List String → Result (List Component)
components_of components [] = ok []
components_of components (id ∷ ids) = do
  c ← get_component components id
  rest ← components_of components ids
  ok (c ∷ rest)

-- The sums are exact here; JavaScript rounds a sum from 2 ^ 53 up.
abbrev pub sum_from : (Component → ℤ) → ℤ → List Component → ℤ
sum_from f total [] = total
sum_from f total (c ∷ cs) = sum_from f (total +ℤ f c) cs

abbrev unless_ready : Status → List String → List String
unless_ready ready_real ids = []
unless_ready _ ids = ids

abbrev missing_of : UseCaseCompatibility → List String
missing_of u = unless_ready u.status u.completion_component_ids

abbrev pub requested_ids : PlannerRequest → PlannerMode → Catalog → List String
requested_ids q use_case_first c = q.selected_use_case_ids
requested_ids q system_first c = use_case_ids c

-- the components that are there before an addition
abbrev pub starting : BaseTemplate → PlannerRequest → Selecting
starting t q = record {
  ids = distinct (t.default_component_ids ++ q.selected_component_ids);
  additions = [];
}

unfoldable pub is_selection_valid : Catalog → PlannerRequest → Bool
unfolding use_case_of
is_selection_valid c q =
    is_unique q.selected_use_case_ids
    && is_unique q.selected_component_ids
    && all (λ id. is_some (use_case_of c.use_cases id)) q.selected_use_case_ids

-- what the analysis was made of: the use cases of the request, the closure and the judged use cases
abbrev pub assemble :
    Catalog
    → PlannerRequest
    → List UseCase
    → List Addition
    → List UseCaseCompatibility
    → List Component
    → Analysis
assemble c q chosen auto evaluated selected = record {
  mode = q.mode;
  selected_use_case_ids = q.selected_use_case_ids;
  selected_component_ids = map (λ (x : Component). x.component_id) selected;
  automatically_added = auto;
  required_component_ids = sorted_set (
      flat_map (λ (u : UseCase). map (λ (r : Requirement). r.component_id) u.required_components)
        chosen);
  recommended_component_ids =
      sorted_set (flat_map (λ (u : UseCase). u.recommended_component_ids) chosen);
  optional_component_ids = sorted_set (flat_map (λ (u : UseCase). u.optional_component_ids) chosen);
  missing_component_ids = sorted_set (flat_map missing_of evaluated);
  use_cases = evaluated;
  download_bytes = sum_from (λ (x : Component). x.download_bytes) (pos 0) selected;
  disk_bytes = sum_from (λ (x : Component). x.disk_bytes) (pos 0) selected;
  network_access = sorted_set (flat_map (λ (x : Component). x.network_access) selected);
  effects = sorted_set (
      flat_map (λ (x : Component). x.effects) selected
      ++ flat_map (λ (u : UseCase). u.effects) chosen);
  catalog_digest = c.provenance.digest;
  analysis_digest = "";
}

-- the analysis in front of its digest
unfoldable pub analyze_core : Catalog → PlannerRequest → Result Analysis
unfolding template_of is_selection_valid use_cases_of select dependency_closure evaluate_all
    components_of
analyze_core c q = do
  template ← or_throw (template_of c.base_templates q.base_template_id) "UNKNOWN_BASE_TEMPLATE"
  require (is_selection_valid c q) "UNKNOWN_OR_DUPLICATE_SELECTION"
  chosen ← use_cases_of c.use_cases q.selected_use_case_ids
  initial ← select q q.mode chosen (starting template q)
  closure ← dependency_closure c.components initial.ids
  requested ← use_cases_of c.use_cases (requested_ids q q.mode c)
  evaluated ← evaluate_all c.components closure.ids q.provider_selections requested
  selected ← components_of c.components (sort_texts closure.ids)
  ok (assemble c q chosen (initial.additions ++ closure.additions) evaluated selected)

module _ (sha256_hex : String → String) where
  -- `analyzePocSetupCompatibilityV1`
  unfoldable pub analyze : Catalog → PlannerRequest → Result Analysis
  unfolding validate_catalog analyze_core digest
  analyze catalog_input q = do
    c ← validate_catalog sha256_hex catalog_input
    a ← analyze_core c q
    d ← digest sha256_hex (analysis_core a)
    ok (record a { analysis_digest = d })
