-- ===== src/Planner/Assembled.antt =====
-- poc-setup-compatibility-planner.ts: the parts that an analysis is assembled of.
use chimp_maera.Common.{
  ok_injective, ◌≡◌, some, List, ok, on_ok, on_require, or_throw, or_throw-eq-ok, ◌++◌,
}
use chimp_maera.Common.Order.{sort_texts}
use chimp_maera.Planner.{
  Analysis, BaseTemplate, Catalog, Component, PlannerRequest, UseCase, UseCaseCompatibility,
}
use chimp_maera.Planner.Closure.{Closing, dependency_closure}
use chimp_maera.Planner.Analyze.{
  Selecting, analyze_core, assemble, components_of, evaluate_all, is_selection_valid, requested_ids,
  select, starting, template_of, use_cases_of,
}

-- The values between the steps of an analysis.
pub record IsAssembled (c : Catalog) (q : PlannerRequest) (a : Analysis) : Type 0 where
  pub template : BaseTemplate
  pub chosen : List UseCase
  pub initial : Selecting
  pub closure : Closing
  pub evaluated : List UseCaseCompatibility
  pub selected : List Component
  pub named : template_of c.base_templates q.base_template_id ≡ some template
  pub selecting : select q q.mode chosen (starting template q) ≡ ok initial
  pub closing : dependency_closure c.components initial.ids ≡ ok closure
  pub found : components_of c.components (sort_texts closure.ids) ≡ ok selected
  pub same : assemble c q chosen (initial.additions ++ closure.additions) evaluated selected ≡ a

pub analyze_core-IsAssembled :
    (c : Catalog) (q : PlannerRequest) {a : Analysis} → analyze_core c q ≡ ok a → IsAssembled c q a
unfolding analyze_core
analyze_core-IsAssembled c q h =
    on_ok (or_throw (template_of c.base_templates q.base_template_id) _) _ h λ template named h1.
      on_require (is_selection_valid c q) _ _ h1 λ valid h2.
        on_ok (use_cases_of c.use_cases q.selected_use_case_ids) _ h2 λ chosen p h3.
          on_ok (select q q.mode chosen (starting template q)) _ h3 λ initial s h4.
            on_ok (dependency_closure c.components initial.ids) _ h4 λ closure k h5.
              on_ok (use_cases_of c.use_cases (requested_ids q q.mode c)) _ h5 λ requested r h6.
                on_ok (evaluate_all c.components closure.ids q.provider_selections requested) _ h6
                  λ evaluated e h7.
                    on_ok (components_of c.components (sort_texts closure.ids)) _ h7
                      λ selected f h8. record {
                        template = template;
                        chosen = chosen;
                        initial = initial;
                        closure = closure;
                        evaluated = evaluated;
                        selected = selected;
                        named =
                            or_throw-eq-ok (template_of c.base_templates q.base_template_id) _
                              named;
                        selecting = s;
                        closing = k;
                        found = f;
                        same = ok_injective h8;
                      }
