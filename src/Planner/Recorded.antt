-- ===== src/Planner/Recorded.antt =====
-- poc-setup-compatibility-planner.ts: every component that is added to the selection is recorded.
use chimp_maera.Common.{
  ok_injective, String, ◌≡◌, sym, ap, ◌∙◌, subst, inl, inr, Option, none, some, List, [], ◌∷◌, ◌++◌,
  includes, map, Bool-cases, ok, on_ok, on_require,
}
use mathlib.Core.List.{append_assoc}
use chimp_maera.Common.Members.{map-snoc}
use chimp_maera.Planner.{
  Addition, PlannerMode, PlannerRequest, ProviderGroup, Requirement, UseCase, use_case_first,
  system_first,
}
use chimp_maera.Planner.Choice.{selection_of, completion_for}
use chimp_maera.Planner.Analyze.{
  Selecting, admit, admit_all, admit_execution, admit_provider, admit_providers, admit_use_case,
  admit_use_cases, complete_bundle, included_provider, provider_of, select,
}

abbrev pub added_ids : List Addition → List String
added_ids additions = map (λ (a : Addition). a.component_id) additions

-- The ids are those of the start, and then those of the additions.
abbrev pub IsRecorded : List String → Selecting → Type 0
IsRecorded start s = s.ids ≡ start ++ added_ids s.additions

admit-IsRecorded :
    (start : List String) (id reason : String) (s : Selecting)
    → IsRecorded start s
    → IsRecorded start (admit id reason s)
unfolding admit
admit-IsRecorded start id reason s h = elim (Bool-cases (includes s.ids id)) [
  | inl there ↦ rw there h
  | inr new ↦ rw new (
      ap (λ ids. ids ++ id ∷ []) h
      ∙ append_assoc start (added_ids s.additions) (id ∷ [])
      ∙ ap (λ ids. start ++ ids)
          (sym (
            map-snoc (λ (a : Addition). a.component_id) s.additions
              (record { component_id = id; reason = reason }))))
]

admit_all-IsRecorded :
    (start ids : List String) (reason : String) (s : Selecting)
    → IsRecorded start s
    → IsRecorded start (admit_all ids reason s)
unfolding admit_all
admit_all-IsRecorded start [] reason s h = h
admit_all-IsRecorded start (id ∷ ids) reason s h =
    admit_all-IsRecorded start ids reason (admit id reason s) (admit-IsRecorded start id reason s h)

admit_provider-IsRecorded :
    (start : List String) (o : Option String) (reason : String) (s : Selecting)
    → IsRecorded start s
    → IsRecorded start (admit_provider o reason s)
admit_provider-IsRecorded start none reason s h = h
admit_provider-IsRecorded start (some id) reason s h = admit-IsRecorded start id reason s h

admit_providers-IsRecorded :
    (start : List String) (name : String) (selections : List (String × String))
    (gs : List ProviderGroup) (s : Selecting) {t : Selecting}
    → IsRecorded start s
    → admit_providers name selections gs s ≡ ok t
    → IsRecorded start t
unfolding admit_providers
admit_providers-IsRecorded start name selections [] s r h =
    subst (IsRecorded start) (ok_injective h) r
admit_providers-IsRecorded start name selections (g ∷ gs) s r h =
    on_require
      (included_provider g.one_of (provider_of (selection_of selections g.group_id) g.one_of)) _ _ h
      λ allowed h1.
        admit_providers-IsRecorded start name selections gs _
          (admit_provider-IsRecorded start
            (provider_of (selection_of selections g.group_id) g.one_of) _ s r)
          h1

admit_execution-IsRecorded :
    (start : List String) (o : Option String) (u : UseCase) (selections : List (String × String))
    (s : Selecting) {t : Selecting}
    → IsRecorded start s
    → admit_execution o u selections s ≡ ok t
    → IsRecorded start t
admit_execution-IsRecorded start (some id) u selections s r h =
    subst (IsRecorded start) (ok_injective h) (admit-IsRecorded start id _ s r)
admit_execution-IsRecorded start none u selections s r h =
    admit_providers-IsRecorded start u.use_case_id selections u.provider_alternatives s r h

admit_use_cases-IsRecorded :
    (start : List String) (q : PlannerRequest) (us : List UseCase) (s : Selecting) {t : Selecting}
    → IsRecorded start s
    → admit_use_cases q us s ≡ ok t
    → IsRecorded start t
unfolding admit_use_cases admit_use_case
admit_use_cases-IsRecorded start q [] s r h = subst (IsRecorded start) (ok_injective h) r
admit_use_cases-IsRecorded start q (u ∷ us) s r h = on_ok (admit_use_case q u s) _ h λ t p h1.
    admit_use_cases-IsRecorded start q us t
      (admit_execution-IsRecorded start _ u q.provider_selections _
        (admit_all-IsRecorded start
          (map (λ (r : Requirement). r.component_id) u.required_components) _ s r)
        p)
      h1

complete_bundle-IsRecorded :
    (start : List String) (q : PlannerRequest) (us : List UseCase) (s : Selecting)
    → IsRecorded start s
    → IsRecorded start (complete_bundle q us s)
unfolding complete_bundle
complete_bundle-IsRecorded start q [] s r = r
complete_bundle-IsRecorded start q (u ∷ us) s r =
    complete_bundle-IsRecorded start q us _
      (admit_all-IsRecorded start (completion_for u s.ids q.provider_selections) _ s r)

pub select-IsRecorded :
    (start : List String) (q : PlannerRequest) (m : PlannerMode) (us : List UseCase) (s : Selecting)
    {t : Selecting}
    → IsRecorded start s
    → select q m us s ≡ ok t
    → IsRecorded start t
unfolding select
select-IsRecorded start q use_case_first us s r h = admit_use_cases-IsRecorded start q us s r h
select-IsRecorded start q system_first us s r h = elim (Bool-cases q.complete_bundle) [
  | inl whole ↦
      subst (IsRecorded start) (ok_injective (rw whole at h))
        (complete_bundle-IsRecorded start q us s r)
  | inr parts ↦ subst (IsRecorded start) (ok_injective (rw parts at h)) r
]
