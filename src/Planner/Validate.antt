-- ===== src/Planner/Validate.antt =====
-- poc-setup-compatibility-planner.ts: `validatePocSetupCompatibilityCatalogV1`.
use Prim.Native.String.{◌++◌ as ◌+++◌}
use mathlib.Core.List.{reverse}
use chimp_maera.Common.{
  ℕ, String, Bool, true, false, not, ◌&&◌, ◌||◌, Option, none, some, List, [], ◌∷◌, ◌++◌, ◌==◌, all,
  eqb, length, includes, is_some, keep, map, Result, ok, ◌>>=◌, ◌>>◌, require, or_throw,
  if◌then◌else◌,
}
use chimp_maera.Common.Integers.{is_negative}
use chimp_maera.Common.Order.{codes}
use chimp_maera.Common.Pattern.{after_prefix, headed, is_alnum, is_hex, one_of, run, ◌or◌}
use chimp_maera.Json.{Value}
use chimp_maera.Json.Canonical.{canonical_json}
use chimp_maera.Planner.{
  BaseTemplate, Catalog, Component, ComponentKind, ProviderGroup, Requirement, UseCase, simulator,
}
use chimp_maera.Planner.Version.{is_semver, read_version, satisfies}
use chimp_maera.Planner.Closure.{component_of}
use chimp_maera.Planner.Texts.{flat_map, is_unique}
use chimp_maera.Planner.Values.{catalog_core}

-- `/^[a-zA-Z0-9][a-zA-Z0-9._-]{1,79}$/`
unfoldable pub is_identifier : String → Bool
unfolding headed
is_identifier s = headed is_alnum (is_alnum or one_of (codes "._-")) 1 79 (codes s)

-- `/^sha256:[a-f0-9]{64}$/`
unfoldable pub is_sha256 : String → Bool
unfolding after_prefix run
is_sha256 s = after_prefix (codes "sha256:") (run is_hex 64 64) (codes s)

abbrev path_class : ℕ → Bool
path_class = is_alnum or one_of (codes "._/-")

abbrev is_path_part : List ℕ → Bool
is_path_part s = not (eqb (length s) 0) && all path_class s

-- `[a-zA-Z0-9._/-]+\.json$`
abbrev is_json_path : List ℕ → Bool
is_json_path s = after_prefix (reverse (codes ".json")) is_path_part (reverse s)

abbrev starts_with : List ℕ → List ℕ → Bool
starts_with mark s = after_prefix mark (λ rest. true) s

-- `value.includes(mark)`
unfoldable pub contains : List ℕ → List ℕ → Bool
unfolding after_prefix
contains mark [] = starts_with mark []
contains mark (c ∷ s) = let rest = contains mark s in starts_with mark (c ∷ s) || rest

-- the negated condition of `assertSafeManifestPath`
unfoldable pub is_safe_path : String → Bool
unfolding after_prefix contains
is_safe_path path =
    let s = codes path in
    (after_prefix (codes "examples/") is_json_path s
      || after_prefix (codes "catalogs/") is_json_path s)
    && not (starts_with (codes "/") s)
    && not (contains (codes "..") s)
    && not (contains (codes "\\") s)

abbrev is_empty : String → Bool
is_empty s = s == ""

abbrev no_entry {ℓ} : {A : Type ℓ} → List A → Bool
no_entry xs = eqb (length xs) 0

module _ (sha256_hex : String → String) where
  -- `digest`
  unfoldable pub digest : Value → Result String
  digest v = do text ← or_throw (canonical_json v) "TypeError"; ok ("sha256:" +++ sha256_hex text)

-- the first condition of the validation, up to the digest
unfoldable pub is_framed : Catalog → Bool
unfolding is_identifier is_sha256 read_version
is_framed c =
    c.api_version == "chimpmaera.dev/poc-setup-compatibility-catalog/v1"
    && c.kind == "PocSetupCompatibilityCatalog"
    && is_identifier c.catalog_id
    && is_semver c.catalog_version
    && is_sha256 c.provenance.digest

-- the same condition, from the digest on
unfoldable pub is_sealed : Catalog → String → Bool
is_sealed c d =
    c.provenance.digest == d
    && not (is_empty c.provenance.label)
    && not (is_empty c.provenance.rights)
    && not (no_entry c.capability_ids)
    && not (no_entry c.components)
    && not (no_entry c.use_cases)
    && not (no_entry c.base_templates)

abbrev pub component_ids : Catalog → List String
component_ids c = map (λ (x : Component). x.component_id) c.components

abbrev pub use_case_ids : Catalog → List String
use_case_ids c = map (λ (u : UseCase). u.use_case_id) c.use_cases

unfoldable pub is_distinct : Catalog → Bool
is_distinct c =
    is_unique c.capability_ids
    && is_unique (component_ids c)
    && is_unique (use_case_ids c)
    && is_unique (map (λ (t : BaseTemplate). t.template_id) c.base_templates)
    && eqb (length (keep (λ (t : BaseTemplate). t.recommended) c.base_templates)) 1

unfoldable pub is_component_valid : Catalog → Component → Bool
unfolding is_identifier read_version
is_component_valid c x =
    is_identifier x.component_id
    && is_semver x.version
    && is_unique x.capability_ids
    && all (includes c.capability_ids) x.capability_ids
    && all (λ (r : Requirement). includes (component_ids c) r.component_id) x.required_dependencies
    && all (includes (component_ids c)) x.incompatible_with
    && not (is_negative x.download_bytes)
    && not (is_negative x.disk_bytes)
    && not (is_empty x.rights)
    && not (is_empty x.label)

-- the loop over the dependencies of a component
unfoldable pub check_dependencies : List Component → List Requirement → Result (Unit {0})
unfolding component_of satisfies
check_dependencies components [] = ok tt
check_dependencies components (r ∷ rs) = do
  target ← or_throw (component_of components r.component_id) "TypeError"
  satisfied ← satisfies target.version r.version_constraint
  require satisfied "COMPONENT_VERSION_CONSTRAINT_UNSATISFIED"
  check_dependencies components rs

unfoldable pub check_components : Catalog → List Component → Result (Unit {0})
unfolding is_component_valid check_dependencies
check_components c [] = ok tt
check_components c (x ∷ xs) = do
  require (is_component_valid c x) "COMPONENT_SCHEMA_OR_CAPABILITY_INVALID"
  check_dependencies c.components x.required_dependencies
  check_components c xs

-- the ids of an optional text that counts as true
abbrev simulator_ids : Option String → List String
simulator_ids none = []
simulator_ids (some id) = if id == "" then [] else id ∷ []

-- `references`
abbrev references : UseCase → List String
references u =
    map (λ (r : Requirement). r.component_id) u.required_components
    ++ flat_map (λ (g : ProviderGroup). g.one_of) u.provider_alternatives
    ++ u.recommended_component_ids
    ++ u.optional_component_ids
    ++ u.incompatible_with
    ++ simulator_ids u.simulator_id

abbrev is_known : List Component → String → Bool
is_known components id = is_some (component_of components id)

abbrev offers : String → Option Component → Bool
offers capability none = false
offers capability (some c) = includes c.capability_ids capability

-- a group whose ids are components: the negated condition of its `some(…)`
abbrev is_group_valid : List Component → ProviderGroup → Bool
is_group_valid components g =
    not (no_entry g.one_of)
    && is_unique g.one_of
    && all (λ id. offers g.capability_id (component_of components id)) g.one_of

-- the conditions in front of the test of the simulator
unfoldable pub is_use_case_valid : Catalog → UseCase → Bool
unfolding is_identifier component_of
is_use_case_valid c u =
    is_identifier u.use_case_id
    && all (includes c.capability_ids) u.required_capabilities
    && all (λ (g : ProviderGroup). includes c.capability_ids g.capability_id)
        u.provider_alternatives
    && all (is_known c.components) (references u)
    && is_unique (map (λ (g : ProviderGroup). g.group_id) u.provider_alternatives)
    && all (is_group_valid c.components) u.provider_alternatives

abbrev is_simulator : ComponentKind → Bool
is_simulator simulator = true
is_simulator _ = false

-- Reading the kind of a component that is not there throws.
abbrev check_simulator : List Component → Option String → Result (Unit {0})
check_simulator components none = ok tt
check_simulator components (some id) = do
  found ← or_throw (component_of components id) "TypeError"
  require (is_simulator found.kind) "USE_CASE_SCHEMA_OR_REFERENCE_INVALID"

unfoldable pub check_use_cases : Catalog → List UseCase → Result (Unit {0})
unfolding is_use_case_valid component_of
check_use_cases c [] = ok tt
check_use_cases c (u ∷ us) = do
  require (is_use_case_valid c u) "USE_CASE_SCHEMA_OR_REFERENCE_INVALID"
  check_simulator c.components u.simulator_id
  check_use_cases c us

unfoldable pub is_template_valid : Catalog → BaseTemplate → Bool
unfolding is_identifier
is_template_valid c t =
    is_identifier t.template_id
    && all (includes (use_case_ids c)) t.selected_use_case_ids
    && all (includes (component_ids c)) (t.default_component_ids ++ t.recommended_component_ids)

module _ (sha256_hex : String → String) where
  -- `validatePocSetupCompatibilityCatalogV1`
  unfoldable pub validate_catalog : Catalog → Result Catalog
  unfolding digest is_framed is_sealed is_safe_path is_distinct check_components check_use_cases
      is_template_valid
  validate_catalog c = do
    require (is_framed c) "CATALOG_SCHEMA_OR_DIGEST_INVALID"
    d ← digest sha256_hex (catalog_core c)
    require (is_sealed c d) "CATALOG_SCHEMA_OR_DIGEST_INVALID"
    require (is_safe_path c.provenance.manifest_path) "CATALOG_PATH_TRAVERSAL_DENIED"
    require (is_distinct c) "CATALOG_DUPLICATE_OR_DEFAULT_INVALID"
    check_components c c.components
    check_use_cases c c.use_cases
    require (all (is_template_valid c) c.base_templates) "BASE_TEMPLATE_REFERENCE_INVALID"
    ok c
