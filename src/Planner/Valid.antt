-- ===== src/Planner/Valid.antt =====
-- poc-setup-compatibility-planner.ts: the catalogs that `validate` accepts have every closure.
use chimp_maera.Common.{
  ok_injective, String, ◌≡◌, refl, sym, ◌∙◌, subst, inl, inr, true, some, List, [], ◌∷◌, all,
  includes, is_some, All, arith, Result, ok, err, on_ok, on_require, or_throw, or_throw-eq-ok,
}
use chimp_maera.Common.Members.{In, All-In}
use chimp_maera.Planner.{Catalog, Component, Requirement}
use chimp_maera.Planner.Version.{satisfies}
use chimp_maera.Planner.Closure.{Closing, component_of, dependency_closure, require_target}
use chimp_maera.Planner.Enlist.{HasTarget, component_of-In}
use chimp_maera.Planner.Closed.{
  IsClosure, IsUnmet, Needed, chosen, required, unlisted, unmet, dependency_closure-cases,
}
use chimp_maera.Planner.Validate.{
  check_components, check_dependencies, check_use_cases, digest, is_distinct, is_framed,
  is_safe_path, is_sealed, is_template_valid, validate_catalog,
}
use chimp_maera.Planner.Values.{catalog_core}

-- A requirement with a target that satisfies it.
record IsBacked (components : List Component) (r : Requirement) : Type 0 where
  target : Component
  backed : HasTarget components r target

abbrev AllBacked : List Component → Type 0
AllBacked components =
    All (λ (x : Component). All (IsBacked components) x.required_dependencies) components

check_dependencies-IsBacked :
    (components : List Component) (rs : List Requirement)
    → check_dependencies components rs ≡ ok tt
    → All (IsBacked components) rs
unfolding check_dependencies
check_dependencies-IsBacked components [] h = tt
check_dependencies-IsBacked components (r ∷ rs) h =
    on_ok (or_throw (component_of components r.component_id) _) _ h λ target found h1.
      on_ok (satisfies target.version r.version_constraint) _ h1 λ satisfied p h2.
        on_require satisfied _ _ h2 λ holds h3. (
          record {
            target = target;
            backed = record {
              found = or_throw-eq-ok (component_of components r.component_id) _ found;
              satisfied = subst (λ b. satisfies target.version r.version_constraint ≡ ok b) holds p;
            };
          },
          check_dependencies-IsBacked components rs h3,
        )

check_components-IsBacked :
    (c : Catalog) (xs : List Component)
    → check_components c xs ≡ ok tt
    → All (λ (x : Component). All (IsBacked c.components) x.required_dependencies) xs
unfolding check_components
check_components-IsBacked c [] h = tt
check_components-IsBacked c (x ∷ xs) h = on_require _ _ _ h λ valid h1.
    on_ok (check_dependencies c.components x.required_dependencies) _ h1 λ done p h2. (
      check_dependencies-IsBacked c.components x.required_dependencies p,
      check_components-IsBacked c xs h2,
    )

not_ok : {c : Component} {e : String} → ◌≡◌ {A = Result Component} (ok c) (err e) → ⊥
not_ok h = cc

-- An accepted catalog is the input, and its components passed their checks.
pub validate_catalog-checked :
    (sha256_hex : String → String) (input : Catalog) {c : Catalog}
    → validate_catalog sha256_hex input ≡ ok c
    → check_components c c.components ≡ ok tt
unfolding validate_catalog
validate_catalog-checked sha256_hex input h = on_require (is_framed input) _ _ h λ framed h1.
    on_ok (digest sha256_hex (catalog_core input)) _ h1 λ d computed h2.
      on_require (is_sealed input d) _ _ h2 λ sealed h3.
        on_require (is_safe_path input.provenance.manifest_path) _ _ h3 λ safe h4.
          on_require (is_distinct input) _ _ h4 λ separate h5.
            on_ok (check_components input input.components) _ h5 λ checked p h6.
              on_ok (check_use_cases input input.use_cases) _ h6 λ used q h7.
                on_require (all (is_template_valid input) input.base_templates) _ _ h7 λ t h8.
                  subst (λ (c : Catalog). check_components c c.components ≡ ok tt) (ok_injective h8)
                    p

validate_catalog-IsBacked :
    (sha256_hex : String → String) (input : Catalog) {c : Catalog}
    → validate_catalog sha256_hex input ≡ ok c
    → AllBacked c.components
validate_catalog-IsBacked sha256_hex input {c} h =
    check_components-IsBacked c c.components (validate_catalog-checked sha256_hex input h)

module _ (components : List Component) where
  require_target-IsBacked :
      (r : Requirement) (b : IsBacked components r) → require_target components r ≡ ok b.target
  unfolding require_target
  require_target-IsBacked r b = rw (b.backed.found, b.backed.satisfied, require_target) refl

  known :
      (id : String) {c : Component}
      → component_of components id ≡ some c
      → is_some (component_of components id) ≡ true
  known id h = rw h refl

-- Every id is that of a component.
abbrev pub AreKnown : List Component → List String → Type 0
AreKnown components ids =
    (id : String) → includes ids id ≡ true → is_some (component_of components id) ≡ true

module _ (components : List Component) (backed : AllBacked components) where
  Needed-IsBacked :
      (id : String) {c : Component} {r : Requirement}
      → component_of components id ≡ some c
      → In r c.required_dependencies
      → IsBacked components r
  Needed-IsBacked id {c} {r} found listed =
      let (i, same) = component_of-In components id found in
      All-In (IsBacked components)
        (All-In (λ (x : Component). All (IsBacked components) x.required_dependencies) backed i)
        listed

  Needed-known :
      (initial : List String)
      → AreKnown components initial
      → {id : String} → Needed components initial id
      → is_some (component_of components id) ≡ true
  Needed-known initial starts (chosen h) = starts _ h
  Needed-known initial starts (required {id} {c} {r} n found listed) =
      known components r.component_id (Needed-IsBacked id found listed).backed.found

  IsUnmet-absurd :
      (initial : List String)
      → AreKnown components initial
      → {e : String} → IsUnmet components initial e
      → ⊥
  IsUnmet-absurd initial starts (unlisted id n unknown p) =
      ground (arith, Needed-known initial starts n, unknown)
  IsUnmet-absurd initial starts (unmet id c n found f) = not_ok (
      sym (require_target-IsBacked components f.requirement (Needed-IsBacked id found f.listed))
      ∙ f.refused)

  backed-IsClosure :
      (initial : List String)
      → AreKnown components initial
      → (t : Closing) × (dependency_closure components initial ≡ ok t)
        × IsClosure components initial t
  backed-IsClosure initial starts = elim (dependency_closure-cases components initial) [
    | inl closed ↦ closed
    | inr (e, p, f) ↦ absurd (IsUnmet-absurd initial starts f)
  ]

-- A catalog that the validation accepts gives every list of its components a closure: the loop ends
-- without an error.
pub validate_catalog-IsClosure :
    (sha256_hex : String → String) (input : Catalog) {c : Catalog}
    → validate_catalog sha256_hex input ≡ ok c
    → (initial : List String) → AreKnown c.components initial
    → (t : Closing) × (dependency_closure c.components initial ≡ ok t)
      × IsClosure c.components initial t
validate_catalog-IsClosure sha256_hex input {c} h initial starts =
    backed-IsClosure c.components (validate_catalog-IsBacked sha256_hex input h) initial starts
