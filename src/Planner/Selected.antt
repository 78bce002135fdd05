-- ===== src/Planner/Selected.antt =====
-- poc-setup-compatibility-planner.ts: where the selected components of an analysis come from.
use chimp_maera.Common.{String, ◌≡◌, true, some, List, ◌++◌, includes}
use chimp_maera.Planner.{Analysis, BaseTemplate, Catalog, PlannerRequest}
use chimp_maera.Planner.Closed.{IsExpanded}
use chimp_maera.Planner.Analyze.{starting, template_of}
use chimp_maera.Planner.Recorded.{added_ids}

-- How the selected components of an analysis come about.
pub record IsAccounted (c : Catalog) (q : PlannerRequest) (a : Analysis) : Type 0 where
  pub template : BaseTemplate
  pub named : template_of c.base_templates q.base_template_id ≡ some template
  pub accounted :
      (id : String)
      → includes a.selected_component_ids id
        ≡ includes ((starting template q).ids ++ added_ids a.automatically_added) id
  pub supported :
      (id : String)
      → includes a.selected_component_ids id ≡ true
      → IsExpanded c.components a.selected_component_ids id
