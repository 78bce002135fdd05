-- ===== src/Planner/Choice.antt =====
-- poc-setup-compatibility-planner.ts: `completionForUseCase` and `evaluateUseCase`. The non-null
-- assertions of the source throw a TypeError on a component that the catalog does not hold.
use Prim.Native.String.{◌++◌ as ◌+++◌}
use chimp_maera.Common.{
  String, Bool, true, false, not, ◌||◌, Option, none, some, List, [], ◌∷◌, ◌++◌, ◌==◌, any, find,
  includes, is_some, keep, map, if◌then◌else◌, Result, ok, ◌>>=◌, ◌>>◌, require, or_throw,
}
use chimp_maera.Planner.{
  Component, ExecutionMode, ProviderGroup, Requirement, Status, UseCase, UseCaseCompatibility,
  synthetic, ready_real, ready_simulated, partial_missing, incompatible,
}
use chimp_maera.Planner.Version.{satisfies}
use chimp_maera.Planner.Closure.{component_of}
use chimp_maera.Planner.Texts.{distinct, join, sorted_set}

-- `selections[id]` of a record that holds its own keys alone
unfoldable pub selection_of : List (String × String) → String → Option String
selection_of [] id = none
selection_of ((k, v) ∷ rest) id = if k == id then some v else selection_of rest id

abbrev pub type_error : String
type_error = "TypeError"

-- `oneOfComponentIds[0]!`, which pushes undefined for an empty list: the result has no such entry here.
abbrev pub provider_or_first : Option String → List String → List String
provider_or_first (some id) ids = id ∷ []
provider_or_first none [] = []
provider_or_first none (id ∷ ids) = id ∷ []

abbrev pub has_provider : List String → ProviderGroup → Bool
has_provider selected g = any (includes selected) g.one_of

abbrev completed_groups : List String → List (String × String) → List ProviderGroup → List String
completed_groups selected selections [] = []
completed_groups selected selections (g ∷ gs) =
    let rest = completed_groups selected selections gs in
    if has_provider selected g
    then rest
    else provider_or_first (selection_of selections g.group_id) g.one_of ++ rest

abbrev requirement_ids : List Requirement → List String
requirement_ids rs = map (λ (r : Requirement). r.component_id) rs

-- `completionForUseCase`
unfoldable pub completion_for : UseCase → List String → List (String × String) → List String
unfolding selection_of
completion_for u selected selections = distinct (
    keep (λ id. not (includes selected id)) (requirement_ids u.required_components)
    ++ completed_groups selected selections u.provider_alternatives)

-- A text that is not empty counts as true.
abbrev pub truthy : Option String → Option String
truthy none = none
truthy (some id) = if id == "" then none else some id

-- the provider of a group: the one that was chosen if it is selected, or the first that is
abbrev pub chosen_provider : List String → List String → Option String → Option String
chosen_provider selected ids none = find (includes selected) ids
chosen_provider selected ids (some id) =
    if includes selected id then some id else find (includes selected) ids

abbrev pub allowed_provider : List String → Option String → Bool
allowed_provider ids none = true
allowed_provider ids (some id) = includes ids id

abbrev pub missing_entry : Requirement → String
missing_entry r = "component:" +++ r.component_id +++ "@" +++ r.version_constraint

abbrev if_selected : Bool → Result Bool → Result Bool
if_selected true satisfied = satisfied
if_selected false satisfied = ok false

abbrev pub missing_group : ProviderGroup → String
missing_group g = "provider:" +++ g.group_id +++ "[" +++ join "|" g.one_of +++ "]"

abbrev pub judge_group :
    ProviderGroup → Option String → List String × List String → List String × List String
judge_group g none (providers, missing) = (providers, missing_group g ∷ missing)
judge_group g (some id) (providers, missing) = (id ∷ providers, missing)

abbrev pub conflicts_of : List String → String → Component → List String
conflicts_of selected id c =
    map (λ blocked. "component-conflict:" +++ id +++ "<->" +++ blocked)
      (keep (includes selected) c.incompatible_with)

abbrev pub blocked_by : List String → UseCase → List String
blocked_by selected u =
    map (λ blocked. "use-case-blocks:" +++ blocked) (keep (includes selected) u.incompatible_with)

abbrev pub simulator_selected : List String → Option String → Bool
simulator_selected selected none = false
simulator_selected selected (some id) = includes selected id

abbrev pub is_synthetic : ExecutionMode → Bool
is_synthetic synthetic = true
is_synthetic _ = false

abbrev both_met : Bool → Result Bool → Result Bool
both_met true rest = rest
both_met false rest = ok false

abbrev pub simulated_when : Bool → Status
simulated_when true = ready_simulated
simulated_when false = partial_missing

-- the loop over the groups: the selected providers, and what is missing
unfoldable pub judge_groups :
    List String → List (String × String) → List ProviderGroup → Result (List String × List String)
unfolding selection_of
judge_groups selected selections [] = ok ([], [])
judge_groups selected selections (g ∷ gs) = do
  let chosen = truthy (selection_of selections g.group_id)
  require (allowed_provider g.one_of chosen) "PROVIDER_ALTERNATIVE_NOT_ALLOWED"
  rest ← judge_groups selected selections gs
  ok (judge_group g (truthy (chosen_provider selected g.one_of chosen)) rest)

module _ (components : List Component) where
  abbrev pub get_component : String → Result Component
  get_component id = or_throw (component_of components id) type_error

  unfoldable pub version_met : Requirement → Result Bool
  unfolding component_of satisfies
  version_met r = do
    component ← get_component r.component_id
    satisfies component.version r.version_constraint

  -- whether a required component is selected, in a version that satisfies the constraint
  unfoldable pub is_met : List String → Requirement → Result Bool
  unfolding version_met
  is_met selected r = if_selected (includes selected r.component_id) (version_met r)

  -- the loop over the required components
  unfoldable pub missing_components : List String → List Requirement → Result (List String)
  unfolding is_met
  missing_components selected [] = ok []
  missing_components selected (r ∷ rs) = do
    met ← is_met selected r
    rest ← missing_components selected rs
    ok (if met then rest else missing_entry r ∷ rest)

  -- the loop over the selected components
  unfoldable pub conflicts : List String → List String → Result (List String)
  unfolding component_of
  conflicts selected [] = ok []
  conflicts selected (id ∷ ids) = do
    component ← get_component id
    rest ← conflicts selected ids
    ok (conflicts_of selected id component ++ rest)

  -- whether a provider is synthetic: `providerModes.includes("SYNTHETIC")`
  unfoldable pub any_synthetic : List String → Result Bool
  unfolding component_of
  any_synthetic [] = ok false
  any_synthetic (id ∷ ids) = do
    component ← get_component id
    rest ← any_synthetic ids
    ok (is_synthetic component.execution_mode || rest)

  -- `requiredDependencies.every(…)`
  unfoldable pub dependencies_ready : List String → List Requirement → Result Bool
  unfolding is_met
  dependencies_ready selected [] = ok true
  dependencies_ready selected (r ∷ rs) = do
    let rest = dependencies_ready selected rs
    here ← is_met selected r
    both_met here rest

  -- the status when something is missing
  unfoldable pub fallback_status : List String → Option String → Result Status
  unfolding component_of dependencies_ready
  fallback_status selected none = ok partial_missing
  fallback_status selected (some id) =
      if includes selected id
      then (do
        simulator ← get_component id
        ready ← dependencies_ready selected simulator.required_dependencies
        ok (simulated_when ready))
      else ok partial_missing

  -- the status when nothing is missing
  unfoldable pub ready_status : List String → Option String → List String → Result Status
  unfolding any_synthetic
  ready_status selected simulator providers = do
    synthetic_provider ← any_synthetic providers
    ok (
        if simulator_selected selected simulator || synthetic_provider
        then ready_simulated
        else ready_real)

  unfoldable pub status_of :
      List String → Option String → List String → List String → List String → Result Status
  unfolding fallback_status ready_status
  status_of selected simulator providers missing (reason ∷ reasons) = ok incompatible
  status_of selected simulator providers [] [] = ready_status selected simulator providers
  status_of selected simulator providers (m ∷ ms) [] = fallback_status selected simulator

  -- `evaluateUseCase`
  unfoldable pub evaluate_use_case :
      UseCase → List String → List (String × String) → Result UseCaseCompatibility
  unfolding missing_components judge_groups conflicts status_of completion_for
  evaluate_use_case u selected selections = do
    missing ← missing_components selected u.required_components
    (providers, missing_groups) ← judge_groups selected selections u.provider_alternatives
    conflicting ← conflicts selected selected
    let missing_all = missing ++ missing_groups
    let reasons = blocked_by selected u ++ conflicting
    status ← status_of selected u.simulator_id providers missing_all reasons
    ok (record {
      use_case_id = u.use_case_id;
      display_name = u.display_name;
      status = status;
      selected_provider_ids = providers;
      missing_requirements = missing_all;
      incompatible_reasons = sorted_set reasons;
      simulator_available = is_some u.simulator_id;
      completion_component_ids = completion_for u selected selections;
    })
