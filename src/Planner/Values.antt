-- ===== src/Planner/Values.antt =====
-- poc-setup-compatibility-planner.ts: the values that are digested.
use chimp_maera.Common.{String, Option, none, some, List, map}
use chimp_maera.Common.Integers.{ℤ, pos, negsuc}
use chimp_maera.Json.{Value, null, bool, str, num, nat, neg, arr, obj, end, field, array}
use chimp_maera.Planner.{
  Addition, Analysis, BaseTemplate, Catalog, CatalogSource, Component, ComponentKind, ExecutionMode,
  PlannerMode, Provenance, ProviderGroup, Requirement, Status, TrustTier, UseCase,
  UseCaseCompatibility, builtin, community, custom, community_unverified, curated_verified,
  custom_unverified, incompatible, module_kind, partial_missing, provider, ready_real,
  ready_simulated, real, simulator, support, synthetic, system, system_first, tool, use_case_first,
}

abbrev pub texts : List String → Value
texts values = arr (array (map str values))

abbrev integer : ℤ → Value
integer (pos n) = num (nat n)
integer (negsuc n) = num (neg n)

abbrev or_null : Option String → Value
or_null none = null
or_null (some s) = str s

abbrev kind_name : ComponentKind → String
kind_name system = "SYSTEM"
kind_name tool = "TOOL"
kind_name module_kind = "MODULE"
kind_name provider = "PROVIDER"
kind_name simulator = "SIMULATOR"

abbrev mode_name : ExecutionMode → String
mode_name real = "REAL"
mode_name synthetic = "SYNTHETIC"
mode_name support = "SUPPORT"

abbrev source_name : CatalogSource → String
source_name builtin = "BUILTIN"
source_name community = "COMMUNITY"
source_name custom = "CUSTOM"

abbrev tier_name : TrustTier → String
tier_name curated_verified = "CURATED_VERIFIED"
tier_name community_unverified = "COMMUNITY_UNVERIFIED"
tier_name custom_unverified = "CUSTOM_UNVERIFIED"

abbrev planner_mode_name : PlannerMode → String
planner_mode_name use_case_first = "USE_CASE_FIRST"
planner_mode_name system_first = "SYSTEM_FIRST"

abbrev status_name : Status → String
status_name ready_real = "READY_REAL"
status_name ready_simulated = "READY_SIMULATED"
status_name partial_missing = "PARTIAL_MISSING"
status_name incompatible = "INCOMPATIBLE"

abbrev requirement_value : Requirement → Value
requirement_value r = obj (
    field "componentId" (str r.component_id)
      (field "versionConstraint" (str r.version_constraint) end))

abbrev component_value : Component → Value
component_value c = obj (
    field "componentId" (str c.component_id) (
      field "kind" (str (kind_name c.kind)) (
        field "displayName" (str c.display_name) (
          field "version" (str c.version) (
            field "executionMode" (str (mode_name c.execution_mode)) (
              field "capabilityIds" (texts c.capability_ids) (
                field "requiredDependencies"
                  (arr (array (map requirement_value c.required_dependencies)))
                  (field "incompatibleWith" (texts c.incompatible_with) (
                    field "downloadBytes" (integer c.download_bytes) (
                      field "diskBytes" (integer c.disk_bytes) (
                        field "networkAccess" (texts c.network_access) (
                          field "effects" (texts c.effects) (
                            field "provenance"
                              (obj (
                                field "label" (str c.label) (
                                  field "trustTier" (str (tier_name c.trust_tier))
                                    (field "rights" (str c.rights) end))))
                              end)))))))))))))

abbrev group_value : ProviderGroup → Value
group_value g = obj (
    field "groupId" (str g.group_id)
      (field "capabilityId" (str g.capability_id) (field "oneOfComponentIds" (texts g.one_of) end)))

abbrev use_case_value : UseCase → Value
use_case_value u = obj (
    field "useCaseId" (str u.use_case_id) (
      field "displayName" (str u.display_name) (
        field "requiredCapabilities" (texts u.required_capabilities) (
          field "requiredComponents" (arr (array (map requirement_value u.required_components))) (
            field "providerAlternatives" (arr (array (map group_value u.provider_alternatives))) (
              field "recommendedComponentIds" (texts u.recommended_component_ids) (
                field "optionalComponentIds" (texts u.optional_component_ids) (
                  field "syntheticSimulatorComponentId" (or_null u.simulator_id) (
                    field "incompatibleWithComponentIds" (texts u.incompatible_with)
                      (field "effects" (texts u.effects) end))))))))))

abbrev template_value : BaseTemplate → Value
template_value t = obj (
    field "templateId" (str t.template_id) (
      field "displayName" (str t.display_name) (
        field "recommended" (bool t.recommended) (
          field "selectedUseCaseIds" (texts t.selected_use_case_ids) (
            field "defaultComponentIds" (texts t.default_component_ids) (
              field "recommendedComponentIds" (texts t.recommended_component_ids)
                (field "requestedAuthorityProfile" (str t.requested_authority_profile) end)))))))

-- the provenance with an empty digest, as `catalogCore` has it
abbrev provenance_core : Provenance → Value
provenance_core p = obj (
    field "source" (str (source_name p.source)) (
      field "label" (str p.label) (
        field "trustTier" (str (tier_name p.trust_tier)) (
          field "rights" (str p.rights)
            (field "manifestPath" (str p.manifest_path) (field "digest" (str "") end))))))

-- `catalogCore`
abbrev pub catalog_core : Catalog → Value
catalog_core c = obj (
    field "apiVersion" (str c.api_version) (
      field "kind" (str c.kind) (
        field "catalogId" (str c.catalog_id) (
          field "catalogVersion" (str c.catalog_version) (
            field "provenance" (provenance_core c.provenance) (
              field "capabilityIds" (texts c.capability_ids) (
                field "components" (arr (array (map component_value c.components))) (
                  field "useCases" (arr (array (map use_case_value c.use_cases))) (
                    field "baseTemplates" (arr (array (map template_value c.base_templates)))
                      end)))))))))

abbrev addition_value : Addition → Value
addition_value a =
    obj (field "componentId" (str a.component_id) (field "reason" (str a.reason) end))

abbrev compatibility_value : UseCaseCompatibility → Value
compatibility_value u = obj (
    field "useCaseId" (str u.use_case_id) (
      field "displayName" (str u.display_name) (
        field "status" (str (status_name u.status)) (
          field "selectedProviderIds" (texts u.selected_provider_ids) (
            field "missingRequirements" (texts u.missing_requirements) (
              field "incompatibleReasons" (texts u.incompatible_reasons) (
                field "simulatorAvailable" (bool u.simulator_available)
                  (field "completionComponentIds" (texts u.completion_component_ids) end))))))))

-- `withoutDigest` of `analyzePocSetupCompatibilityV1`, which is `analysisCore`
abbrev pub analysis_core : Analysis → Value
analysis_core a = obj (
    field "mode" (str (planner_mode_name a.mode)) (
      field "selectedUseCaseIds" (texts a.selected_use_case_ids) (
        field "selectedComponentIds" (texts a.selected_component_ids) (
          field "automaticallyAdded" (arr (array (map addition_value a.automatically_added))) (
            field "requiredComponentIds" (texts a.required_component_ids) (
              field "recommendedComponentIds" (texts a.recommended_component_ids) (
                field "optionalComponentIds" (texts a.optional_component_ids) (
                  field "missingComponentIds" (texts a.missing_component_ids) (
                    field "useCases" (arr (array (map compatibility_value a.use_cases))) (
                      field "resources"
                        (obj (
                          field "downloadBytes" (integer a.download_bytes) (
                            field "diskBytes" (integer a.disk_bytes) (
                              field "networkAccess" (texts a.network_access)
                                (field "effects" (texts a.effects) end)))))
                        (field "catalogDigest" (str a.catalog_digest) end)))))))))))
