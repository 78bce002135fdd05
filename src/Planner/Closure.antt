-- ===== src/Planner/Closure.antt =====
-- poc-setup-compatibility-planner.ts: `componentMap` and `dependencyClosure`. The loop runs on fuel.
use Prim.Native.String.{◌++◌ as ◌+++◌}
use chimp_maera.Common.{
  ℕ, zero, suc, ◌+◌, String, Option, none, some, List, [], ◌∷◌, ◌++◌, ◌==◌, length, includes,
  if◌then◌else◌, Result, ok, err, ◌>>=◌, ◌>>◌, require, or_throw,
}
use chimp_maera.Planner.{Requirement, Component, Addition}
use chimp_maera.Planner.Version.{satisfies}

abbrev or_else : Option Component → Option Component → Option Component
or_else (some later) first = some later
or_else none first = first

-- `componentMap(catalog).get(id)`: a later entry of a Map replaces an earlier one
unfoldable pub component_of : List Component → String → Option Component
component_of [] id = none
component_of (c ∷ cs) id =
    or_else (component_of cs id) (if c.component_id == id then some c else none)

-- The variables of the loop. A Set is a list without repetition, in the order of insertion.
pub record Closing : Type 0 where
  pub ids : List String
  pub additions : List Addition
  pub pending : List String

abbrev pub unknown_component : String
unknown_component = "UNKNOWN_COMPONENT"

abbrev pub out_of_fuel : String
out_of_fuel = "OUT_OF_FUEL"

abbrev pub addition : String → Requirement → Component → Addition
addition parent r target = record {
  component_id = target.component_id;
  reason = "required by " +++ parent +++ " (" +++ r.version_constraint +++ ")";
}

-- the target of a dependency is added when it is new
abbrev pub enlist : String → Requirement → Component → Closing → Closing
enlist parent r target s = if includes s.ids target.component_id then s else record {
  ids = s.ids ++ target.component_id ∷ [];
  additions = s.additions ++ addition parent r target ∷ [];
  pending = s.pending ++ target.component_id ∷ [];
}

module _ (components : List Component) where
  -- a round of the loop over the dependencies of a component
  unfoldable pub require_target : Requirement → Result Component
  unfolding component_of satisfies
  require_target r = do
    target ← or_throw (component_of components r.component_id) unknown_component
    satisfied ← satisfies target.version r.version_constraint
    require satisfied "COMPONENT_VERSION_CONSTRAINT_UNSATISFIED"
    ok target

  unfoldable pub enlist_all : String → List Requirement → Closing → Result Closing
  unfolding require_target
  enlist_all parent [] s = ok s
  enlist_all parent (r ∷ rs) s = do
    target ← require_target r
    enlist_all parent rs (enlist parent r target s)

  -- a round of the `while` loop, after `id` left the head of the queue
  unfoldable pub expand : String → Closing → Result Closing
  unfolding component_of enlist_all
  expand id s = do
    component ← or_throw (component_of components id) unknown_component
    enlist_all id component.required_dependencies s

  unfoldable pub close : ℕ → List String → Closing → Result Closing
  unfolding expand
  close fuel [] s = ok s
  close zero (id ∷ rest) s = err out_of_fuel
  close (suc fuel) (id ∷ rest) s = do
    t ← expand id (record s { pending = rest })
    close fuel t.pending t

  abbrev pub begin : List String → Closing
  begin initial = record { ids = initial; additions = []; pending = initial }

  -- `dependencyClosure`
  unfoldable pub dependency_closure : List String → Result Closing
  unfolding close
  dependency_closure initial = close (length components + length initial) initial (begin initial)
