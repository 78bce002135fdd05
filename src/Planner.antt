-- ===== src/Planner.antt =====
-- packages/contracts/src/poc-setup-compatibility-planner.ts: the data of the setup planner. `Version`
-- compares versions, `Validate` checks a catalog, `Closure` adds what is required, `Choice` evaluates
-- a use case, `Analyze` is the analysis of a request.
pub mod Version
pub mod Closure
pub mod Enlist
pub mod Closed
pub mod Texts
pub mod Choice
pub mod Values
pub mod Validate
pub mod Analyze
pub mod Valid
pub mod Provided
pub mod Ready
pub mod Recorded
pub mod Assembled
pub mod Selected
pub mod Resources
pub mod Seal
mod Tests
use chimp_maera.Common.{String, Bool, Option, List}
use chimp_maera.Common.Integers.{ℤ}

-- `PocSetupCompatibilityStatusV1`
pub data Status : Type 0 where
  ready_real ready_simulated partial_missing incompatible : Status

-- `PocSetupPlannerModeV1`
pub data PlannerMode : Type 0 where
  use_case_first system_first : PlannerMode

-- `PocSetupComponentKindV1`
pub data ComponentKind : Type 0 where
  system tool module_kind provider simulator : ComponentKind

pub data ExecutionMode : Type 0 where
  real synthetic support : ExecutionMode

pub data CatalogSource : Type 0 where
  builtin community custom : CatalogSource

pub data TrustTier : Type 0 where
  curated_verified community_unverified custom_unverified : TrustTier

-- `ProvenanceV1`
pub record Provenance : Type 0 where
  pub source : CatalogSource
  pub label : String
  pub trust_tier : TrustTier
  pub rights : String
  pub manifest_path : String
  pub digest : String

pub record Requirement : Type 0 where
  pub component_id : String
  pub version_constraint : String

-- `PocSetupComponentV1`; the provenance of a component is three of its fields
pub record Component : Type 0 where
  pub component_id : String
  pub kind : ComponentKind
  pub display_name : String
  pub version : String
  pub execution_mode : ExecutionMode
  pub capability_ids : List String
  pub required_dependencies : List Requirement
  pub incompatible_with : List String
  pub download_bytes : ℤ
  pub disk_bytes : ℤ
  pub network_access : List String
  pub effects : List String
  pub label : String
  pub trust_tier : TrustTier
  pub rights : String

pub record ProviderGroup : Type 0 where
  pub group_id : String
  pub capability_id : String
  pub one_of : List String

-- `PocSetupUseCaseV1`
pub record UseCase : Type 0 where
  pub use_case_id : String
  pub display_name : String
  pub required_capabilities : List String
  pub required_components : List Requirement
  pub provider_alternatives : List ProviderGroup
  pub recommended_component_ids : List String
  pub optional_component_ids : List String
  pub simulator_id : Option String
  pub incompatible_with : List String
  pub effects : List String

-- `PocSetupBaseTemplateV1`
pub record BaseTemplate : Type 0 where
  pub template_id : String
  pub display_name : String
  pub recommended : Bool
  pub selected_use_case_ids : List String
  pub default_component_ids : List String
  pub recommended_component_ids : List String
  pub requested_authority_profile : String

-- `PocSetupCompatibilityCatalogV1`
pub record Catalog : Type 0 where
  pub api_version : String
  pub kind : String
  pub catalog_id : String
  pub catalog_version : String
  pub provenance : Provenance
  pub capability_ids : List String
  pub components : List Component
  pub use_cases : List UseCase
  pub base_templates : List BaseTemplate

-- the fields of `PocSetupCompatibilityRequestV1` that the analysis reads
pub record PlannerRequest : Type 0 where
  pub mode : PlannerMode
  pub base_template_id : String
  pub selected_use_case_ids : List String
  pub selected_component_ids : List String
  pub provider_selections : List (String × String)
  pub simulation_only : Bool
  pub complete_bundle : Bool

-- `PocSetupUseCaseCompatibilityV1`
pub record UseCaseCompatibility : Type 0 where
  pub use_case_id : String
  pub display_name : String
  pub status : Status
  pub selected_provider_ids : List String
  pub missing_requirements : List String
  pub incompatible_reasons : List String
  pub simulator_available : Bool
  pub completion_component_ids : List String

-- an entry of `automaticallyAdded`
pub record Addition : Type 0 where
  pub component_id : String
  pub reason : String

-- `PocSetupCompatibilityAnalysisV1`
pub record Analysis : Type 0 where
  pub mode : PlannerMode
  pub selected_use_case_ids : List String
  pub selected_component_ids : List String
  pub automatically_added : List Addition
  pub required_component_ids : List String
  pub recommended_component_ids : List String
  pub optional_component_ids : List String
  pub missing_component_ids : List String
  pub use_cases : List UseCaseCompatibility
  pub download_bytes : ℤ
  pub disk_bytes : ℤ
  pub network_access : List String
  pub effects : List String
  pub catalog_digest : String
  pub analysis_digest : String
