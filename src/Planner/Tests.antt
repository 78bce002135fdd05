-- ===== src/Planner/Tests.antt =====
-- poc-setup-compatibility-planner.ts: a small catalog, and runs of the planner on it.
use chimp_maera.Common.{
  String, ◌≡◌, refl, Bool, true, false, Option, none, some, List, [], ◌∷◌, ◌++◌, includes, ◌⊎◌,
  is_some, Result, ok, err, if◌then◌else◌, Bool-cases, eq_iff, arith, ◌==◌, inl, inr, subst,
}
use chimp_maera.Common.Integers.{pos}
use chimp_maera.Common.Members.{includes_one}
use chimp_maera.Planner.{
  Analysis, Catalog, Component, ComponentKind, ExecutionMode, PlannerRequest, Requirement, UseCase,
  UseCaseCompatibility, builtin, curated_verified, provider, ready_real, real, simulator, support,
  synthetic, system, use_case_first, ready_simulated,
}
use chimp_maera.Planner.Closure.{component_of, Closing, dependency_closure}
use chimp_maera.Planner.Closed.{IsClosure, IsUnmet, dependency_closure-cases}
use chimp_maera.Planner.Choice.{evaluate_use_case}
use chimp_maera.Planner.Validate.{validate_catalog}
use chimp_maera.Planner.Valid.{AreKnown, validate_catalog-IsClosure}
use chimp_maera.Planner.Ready.{IsReadyReal, evaluate_use_case-IsReadyReal}
use chimp_maera.Planner.Analyze.{analyze}
use chimp_maera.Planner.Resources.{IsSizedAnalysis, analyze-IsSizedAnalysis}
use chimp_maera.Planner.Seal.{IsSealedCatalog, seal_catalog, seal_catalog-IsSealedCatalog}

abbrev on_core : List Requirement
on_core = record { component_id = "core"; version_constraint = ">=1.0.0 <2.0.0" } ∷ []

abbrev a_component :
    String → ComponentKind → ExecutionMode → List String → List Requirement → Component
a_component id kind mode capabilities dependencies = record {
  component_id = id;
  kind = kind;
  display_name = id;
  version = "1.2.0";
  execution_mode = mode;
  capability_ids = capabilities;
  required_dependencies = dependencies;
  incompatible_with = [];
  download_bytes = pos 10;
  disk_bytes = pos 20;
  network_access = [];
  effects = [];
  label = "Builtin";
  trust_tier = curated_verified;
  rights = "MIT";
}

abbrev some_components : List Component
some_components =
    a_component "core" system support [] []
    ∷ a_component "mail" provider real ("send" ∷ []) on_core
    ∷ a_component "mail-simulator" simulator synthetic ("send" ∷ []) on_core
    ∷ []

abbrev orders : UseCase
orders = record {
  use_case_id = "orders";
  display_name = "Orders";
  required_capabilities = "send" ∷ [];
  required_components = on_core;
  provider_alternatives =
      record {
        group_id = "mailer";
        capability_id = "send";
        one_of = "mail" ∷ "mail-simulator" ∷ [];
      }
      ∷ [];
  recommended_component_ids = [];
  optional_component_ids = [];
  simulator_id = some "mail-simulator";
  incompatible_with = [];
  effects = [];
}

abbrev a_hex : String → String
a_hex s = "0123456789abcdef0123456789abcdef0123456789abcdef0123456789abcdef"

abbrev a_catalog : Catalog
a_catalog = record {
  api_version = "chimpmaera.dev/poc-setup-compatibility-catalog/v1";
  kind = "PocSetupCompatibilityCatalog";
  catalog_id = "catalog";
  catalog_version = "1.0.0";
  provenance = record {
    source = builtin;
    label = "Builtin";
    trust_tier = curated_verified;
    rights = "MIT";
    manifest_path = "catalogs/a.json";
    digest = "sha256:0123456789abcdef0123456789abcdef0123456789abcdef0123456789abcdef";
  };
  capability_ids = "send" ∷ [];
  components = some_components;
  use_cases = orders ∷ [];
  base_templates =
      record {
        template_id = "base";
        display_name = "Base";
        recommended = true;
        selected_use_case_ids = "orders" ∷ [];
        default_component_ids = [];
        recommended_component_ids = [];
        requested_authority_profile = "NONE";
      }
      ∷ [];
}

abbrev a_request : Bool → PlannerRequest
a_request simulation = record {
  mode = use_case_first;
  base_template_id = "base";
  selected_use_case_ids = "orders" ∷ [];
  selected_component_ids = [];
  provider_selections = [];
  simulation_only = simulation;
  complete_bundle = false;
}

-- the ids and states of an analysis
abbrev summary : Result Analysis → Option (List String × List String × List UseCaseCompatibility)
summary (err e) = none
summary (ok a) = some (a.selected_component_ids, a.missing_component_ids, a.use_cases)

abbrev an_outcome : UseCaseCompatibility
an_outcome = record {
  use_case_id = "orders";
  display_name = "Orders";
  status = ready_real;
  selected_provider_ids = "mail" ∷ [];
  missing_requirements = [];
  incompatible_reasons = [];
  simulator_available = true;
  completion_component_ids = [];
}

analyze_test :
    (summary (analyze a_hex a_catalog (a_request false))
      ≡ some ("core" ∷ "mail" ∷ [], [], an_outcome ∷ []))
    × (summary (analyze a_hex a_catalog (a_request true))
        ≡ some (
          "core" ∷ "mail-simulator" ∷ [],
          [],
          record an_outcome {
            status = ready_simulated;
            selected_provider_ids = "mail-simulator" ∷ [];
          }
              ∷ [],
        ))
unfolding analyze chimp_maera.Json.Canonical.canonical_json chimp_maera.Common.Order.sort_texts
    chimp_maera.Common.Integers.◌+ℤ◌
analyze_test = (refl, refl)

valid_catalog : validate_catalog a_hex a_catalog ≡ ok a_catalog
unfolding validate_catalog chimp_maera.Json.Canonical.canonical_json
valid_catalog = refl

dependency_closure-cases_example :
    ((t : Closing) × (dependency_closure some_components ("mail" ∷ []) ≡ ok t)
      × IsClosure some_components ("mail" ∷ []) t)
    ⊎ ((e : String) × (dependency_closure some_components ("mail" ∷ []) ≡ err e)
        × IsUnmet some_components ("mail" ∷ []) e)
dependency_closure-cases_example = dependency_closure-cases some_components ("mail" ∷ [])

mail_known : is_some (component_of some_components "mail") ≡ true
unfolding component_of
mail_known = refl

one_known : AreKnown some_components ("mail" ∷ [])
one_known id h =
    subst (λ x. is_some (component_of some_components x) ≡ true) (includes_one "mail" id h)
      mail_known

validate_catalog-IsClosure_example :
    (t : Closing) × (dependency_closure some_components ("mail" ∷ []) ≡ ok t)
    × IsClosure some_components ("mail" ∷ []) t
validate_catalog-IsClosure_example =
    validate_catalog-IsClosure a_hex a_catalog valid_catalog ("mail" ∷ []) one_known

orders_outcome : evaluate_use_case some_components orders ("core" ∷ "mail" ∷ []) [] ≡ ok an_outcome
unfolding evaluate_use_case chimp_maera.Common.Order.sort_texts
orders_outcome = refl

evaluate_use_case-IsReadyReal_example :
    IsReadyReal some_components orders ("core" ∷ "mail" ∷ []) an_outcome
evaluate_use_case-IsReadyReal_example =
    evaluate_use_case-IsReadyReal some_components orders ("core" ∷ "mail" ∷ []) [] orders_outcome
      refl

abbrev an_analysis : Analysis
an_analysis = record {
  mode = use_case_first;
  selected_use_case_ids = "orders" ∷ [];
  selected_component_ids = "core" ∷ "mail" ∷ [];
  automatically_added =
      record { component_id = "core"; reason = "required by orders" }
      ∷ record { component_id = "mail"; reason = "provider mailer for orders" }
      ∷ [];
  required_component_ids = "core" ∷ [];
  recommended_component_ids = [];
  optional_component_ids = [];
  missing_component_ids = [];
  use_cases = an_outcome ∷ [];
  download_bytes = pos 20;
  disk_bytes = pos 40;
  network_access = [];
  effects = [];
  catalog_digest = "sha256:0123456789abcdef0123456789abcdef0123456789abcdef0123456789abcdef";
  analysis_digest = "";
}

abbrev a_digested_analysis : Analysis
a_digested_analysis = record an_analysis {
  analysis_digest = "sha256:0123456789abcdef0123456789abcdef0123456789abcdef0123456789abcdef";
}

a_digested_run : analyze a_hex a_catalog (a_request false) ≡ ok a_digested_analysis
unfolding analyze chimp_maera.Json.Canonical.canonical_json chimp_maera.Common.Order.sort_texts
    chimp_maera.Common.Integers.◌+ℤ◌
a_digested_run = refl

analyze-IsSizedAnalysis_example : IsSizedAnalysis a_digested_analysis
analyze-IsSizedAnalysis_example =
    analyze-IsSizedAnalysis a_hex a_catalog (a_request false) a_digested_run

a_seal : seal_catalog a_hex a_catalog ≡ ok a_catalog
unfolding seal_catalog chimp_maera.Json.Canonical.canonical_json
a_seal = refl

seal_catalog-IsSealedCatalog_example : IsSealedCatalog a_hex a_catalog a_catalog
seal_catalog-IsSealedCatalog_example = seal_catalog-IsSealedCatalog a_hex a_catalog a_seal
