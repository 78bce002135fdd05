-- ===== src/Planner/Resources.antt =====
-- poc-setup-compatibility-planner.ts: the sizes of an analysis are not negative.
use chimp_maera.Common.{
  ok_injective, String, ◌≡◌, refl, subst, true, false, List, [], ◌∷◌, arith, All, ok, on_ok,
  on_require, or_throw-eq-ok,
}
use chimp_maera.Common.Integers.{ℤ, pos, negsuc, ◌+ℤ◌, is_negative}
use chimp_maera.Common.Members.{All-In}
use chimp_maera.Common.Order.{sort_texts}
use chimp_maera.Planner.{Analysis, Catalog, Component, PlannerRequest}
use chimp_maera.Planner.Closure.{component_of}
use chimp_maera.Planner.Enlist.{component_of-In}
use chimp_maera.Planner.Choice.{get_component}
use chimp_maera.Planner.Validate.{
  check_components, check_dependencies, digest, is_component_valid, validate_catalog,
}
use chimp_maera.Planner.Valid.{validate_catalog-checked}
use chimp_maera.Planner.Values.{analysis_core}
use chimp_maera.Planner.Analyze.{analyze, analyze_core, components_of, sum_from}
use chimp_maera.Planner.Assembled.{analyze_core-IsAssembled}

-- A component whose sizes are not negative.
record IsSized (x : Component) : Type 0 where
  download : is_negative x.download_bytes ≡ false
  disk : is_negative x.disk_bytes ≡ false

is_component_valid-IsSized :
    (c : Catalog) (x : Component) → is_component_valid c x ≡ true → IsSized x
unfolding is_component_valid
is_component_valid-IsSized c x h = record { download = ground (arith, h); disk = ground (arith, h) }

check_components-IsSized :
    (c : Catalog) (xs : List Component) → check_components c xs ≡ ok tt → All IsSized xs
unfolding check_components
check_components-IsSized c [] h = tt
check_components-IsSized c (x ∷ xs) h = on_require (is_component_valid c x) _ _ h λ valid h1.
    on_ok (check_dependencies c.components x.required_dependencies) _ h1
      λ done p h2. (is_component_valid-IsSized c x valid, check_components-IsSized c xs h2)

components_of-IsSized :
    (components : List Component) (ids : List String) {cs : List Component}
    → All IsSized components
    → components_of components ids ≡ ok cs
    → All IsSized cs
unfolding components_of
components_of-IsSized components [] k h = subst (All IsSized) (ok_injective h) tt
components_of-IsSized components (id ∷ ids) k h = on_ok (get_component components id) _ h λ c p h1.
    on_ok (components_of components ids) _ h1 λ rest q h2.
      let (i, same) =
        component_of-In components id (or_throw-eq-ok (component_of components id) _ p) in
      subst (All IsSized) (ok_injective h2)
        (All-In IsSized k i, components_of-IsSized components ids k q)

add_not_negative :
    (a b : ℤ) → is_negative a ≡ false → is_negative b ≡ false → is_negative (a +ℤ b) ≡ false
unfolding ◌+ℤ◌
add_not_negative (pos a) (pos b) h k = refl
add_not_negative (pos a) (negsuc b) h k = cc
add_not_negative (negsuc a) b h k = cc

sum_from_not_negative :
    (f : Component → ℤ) (total : ℤ) (cs : List Component)
    → is_negative total ≡ false
    → All (λ x. is_negative (f x) ≡ false) cs
    → is_negative (sum_from f total cs) ≡ false
sum_from_not_negative f total [] h k = h
sum_from_not_negative f total (c ∷ cs) h k =
    sum_from_not_negative f (total +ℤ f c) cs (add_not_negative total (f c) h k.0) k.1

All-IsSized :
    (P : Component → Type 0) (cs : List Component)
    → ((x : Component) → IsSized x → P x)
    → All IsSized cs
    → All P cs
All-IsSized P [] f h = tt
All-IsSized P (c ∷ cs) f h = (f c h.0, All-IsSized P cs f h.1)

-- The sizes that an analysis adds up are not negative.
pub record IsSizedAnalysis (a : Analysis) : Type 0 where
  pub download : is_negative a.download_bytes ≡ false
  pub disk : is_negative a.disk_bytes ≡ false

analyze_core-IsSizedAnalysis :
    (c : Catalog) (q : PlannerRequest) {a : Analysis}
    → All IsSized c.components
    → analyze_core c q ≡ ok a
    → IsSizedAnalysis a
analyze_core-IsSizedAnalysis c q sized h =
    let m = analyze_core-IsAssembled c q h in
    let k = components_of-IsSized c.components (sort_texts m.closure.ids) sized m.found in
    subst IsSizedAnalysis m.same (record {
      download =
          sum_from_not_negative (λ (x : Component). x.download_bytes) (pos 0) m.selected refl
            (All-IsSized _ m.selected (λ x s. s.download) k);
      disk =
          sum_from_not_negative (λ (x : Component). x.disk_bytes) (pos 0) m.selected refl
            (All-IsSized _ m.selected (λ x s. s.disk) k);
    })

-- The sizes of an analysis, of whatever catalog and request, are not negative.
pub analyze-IsSizedAnalysis :
    (sha256_hex : String → String) (input : Catalog) (q : PlannerRequest) {a : Analysis}
    → analyze sha256_hex input q ≡ ok a
    → IsSizedAnalysis a
unfolding analyze
analyze-IsSizedAnalysis sha256_hex input q h =
    on_ok (validate_catalog sha256_hex input) _ h λ c valid h1.
      on_ok (analyze_core c q) _ h1 λ core p h2.
        on_ok (digest sha256_hex (analysis_core core)) _ h2 λ d named h3.
          let sized =
            check_components-IsSized c c.components
              (validate_catalog-checked sha256_hex input valid) in
          let s = analyze_core-IsSizedAnalysis c q sized p in
          subst IsSizedAnalysis (ok_injective h3) (record { download = s.download; disk = s.disk })
