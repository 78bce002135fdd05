-- ===== src/Planner/Ready.antt =====
-- poc-setup-compatibility-planner.ts: what the status READY_REAL of `evaluateUseCase` stands for.
use chimp_maera.Common.{
  ok_injective, some_injective, String, ◌≡◌, refl, sym, ap, ◌∙◌, subst, ◌⊎◌, inl, inr, Bool, true,
  false, not, ◌&&◌, ◌||◌, Option, none, some, List, [], ◌∷◌, ◌++◌, ◌==◌, arith, all, find, includes,
  keep, map, All, Bool-cases, Option-cases, eq_iff, if◌then◌else◌, Result, ok, err, ◌>>=◌, ◌>>◌,
  on_ok, on_require, require, or_throw, or_throw-eq-ok,
}
use chimp_maera.Planner.{
  Component, Requirement, Status, UseCase, UseCaseCompatibility, ready_real, ready_simulated,
}
use chimp_maera.Planner.Closure.{component_of}
use chimp_maera.Planner.Enlist.{IsMet}
use chimp_maera.Planner.Texts.{sorted_set}
use chimp_maera.Planner.Choice.{
  any_synthetic, blocked_by, conflicts, conflicts_of, dependencies_ready, simulated_when,
  evaluate_use_case, fallback_status, get_component, is_met, is_synthetic, judge_groups,
  missing_components, ready_status, simulator_selected, status_of, version_met,
}
use chimp_maera.Planner.Provided.{HasProvider, cons_absurd, judge_groups-HasProvider}

append_empty {ℓ} : {A : Type ℓ} (xs ys : List A) → xs ++ ys ≡ [] → (xs ≡ []) × (ys ≡ [])
append_empty [] ys h = (refl, h)
append_empty (x ∷ xs) ys h = cc

-- nothing of the list is kept
keep_empty :
    (p : String → Bool) (f : String → String) (xs : List String) (v : String)
    → map f (keep p xs) ≡ []
    → includes xs v ≡ true
    → p v ≡ false
keep_empty p f [] v h i = cc
keep_empty p f (x ∷ xs) v h i = elim (Bool-cases (p x)) [
  | inl kept ↦ cons_absurd (rw kept at h)
  | inr dropped ↦ elim (Bool-cases (x == v)) [
    | inl same ↦ subst (λ y. p y ≡ false) ((eq_iff x v).0 same) dropped
    | inr other ↦ keep_empty p f xs v (rw dropped at h) (rw other at i)
  ]
]

-- the choice between the two ready states
real_choice :
    (a b : Bool)
    → (if a || b then ready_simulated else ready_real) ≡ ready_real
    → (a ≡ false) × (b ≡ false)
real_choice true b h = cc
real_choice false true h = cc
real_choice false false h = (refl, refl)

or_false : (a b : Bool) → a || b ≡ false → (a ≡ false) × (b ≡ false)
or_false a b h = ground arith

module _ (components : List Component) where
  is_met-IsMet :
      (selected : List String) (r : Requirement)
      → is_met components selected r ≡ ok true
      → IsMet components selected r
  unfolding is_met version_met
  is_met-IsMet selected r h = elim (Bool-cases (includes selected r.component_id)) [
    | inl chosen ↦
        on_ok (get_component components r.component_id) _ (rw (chosen, version_met, is_met) at h)
          λ target found holds. record {
            target = target;
            found = or_throw-eq-ok (component_of components r.component_id) _ found;
            satisfied = holds;
            chosen = chosen;
          }
    | inr out ↦ absurd (ground (arith, h, out))
  ]

  missing_components-IsMet :
      (selected : List String) (rs : List Requirement)
      → missing_components components selected rs ≡ ok []
      → All (IsMet components selected) rs
  unfolding missing_components
  missing_components-IsMet selected [] h = tt
  missing_components-IsMet selected (r ∷ rs) h =
      on_ok (is_met components selected r) _ h λ met p h1.
        on_ok (missing_components components selected rs) _ h1 λ rest q h2. elim (Bool-cases met) [
          | inl holds ↦ (
            is_met-IsMet selected r (subst (λ b. is_met components selected r ≡ ok b) holds p),
            missing_components-IsMet selected rs (q ∙ (rw holds at h2)),
          )
          | inr fails ↦ cons_absurd (ok_injective (rw fails at h2))
        ]

  get_component_unique :
      (x id : String) (c d : Component)
      → x == id ≡ true
      → get_component components x ≡ ok d
      → component_of components id ≡ some c
      → c ≡ d
  get_component_unique x id c d same p found = some_injective (
      sym found
      ∙ subst (λ y. component_of components y ≡ some d) ((eq_iff x id).0 same)
          (or_throw-eq-ok (component_of components x) _ p))

  conflicts-none :
      (selected ids : List String)
      → conflicts components selected ids ≡ ok []
      → (id : String) (c : Component) (other : String) → includes ids id ≡ true
      → component_of components id ≡ some c
      → includes c.incompatible_with other ≡ true
      → includes selected other ≡ false
  unfolding conflicts
  conflicts-none selected [] h id c other i found b = cc
  conflicts-none selected (x ∷ ids) h id c other i found b =
      on_ok (get_component components x) _ h λ d p h1.
        on_ok (conflicts components selected ids) _ h1 λ rest q h2.
          let (here, later) = append_empty (conflicts_of selected x d) rest (ok_injective h2) in
          elim (Bool-cases (x == id)) [
            | inl same ↦ keep_empty (includes selected) _ d.incompatible_with other here (
                subst (λ (y : Component). includes y.incompatible_with other ≡ true)
                  (get_component_unique x id c d same p found) b)
            | inr apart ↦
                conflicts-none selected ids (q ∙ ap ok later) id c other (rw apart at i) found b
          ]

  any_synthetic-none :
      (ids : List String)
      → any_synthetic components ids ≡ ok false
      → (id : String) (c : Component) → includes ids id ≡ true
      → component_of components id ≡ some c
      → is_synthetic c.execution_mode ≡ false
  unfolding any_synthetic
  any_synthetic-none [] h id c i found = cc
  any_synthetic-none (x ∷ ids) h id c i found = on_ok (get_component components x) _ h λ d p h1.
      on_ok (any_synthetic components ids) _ h1 λ rest q h2.
        let (real, others) = or_false (is_synthetic d.execution_mode) rest (ok_injective h2) in
        elim (Bool-cases (x == id)) [
          | inl same ↦
              subst (λ (y : Component). is_synthetic y.execution_mode ≡ false)
                (sym (get_component_unique x id c d same p found)) real
          | inr apart ↦ any_synthetic-none ids (q ∙ ap ok others) id c (rw apart at i) found
        ]

  -- What the status READY_REAL stands for.
  pub record IsReadyReal (u : UseCase) (selected : List String) (r : UseCaseCompatibility)
      : Type 0 where
    pub met : All (IsMet components selected) u.required_components
    pub provided : All (HasProvider selected r.selected_provider_ids) u.provider_alternatives
    pub real :
        (id : String) (c : Component)
        → includes r.selected_provider_ids id ≡ true
        → component_of components id ≡ some c
        → is_synthetic c.execution_mode ≡ false
    pub compatible :
        (id : String) (c : Component) (other : String)
        → includes selected id ≡ true
        → component_of components id ≡ some c
        → includes c.incompatible_with other ≡ true
        → includes selected other ≡ false
    pub unblocked :
        (id : String) → includes u.incompatible_with id ≡ true → includes selected id ≡ false
    pub unsimulated : simulator_selected selected u.simulator_id ≡ false
    pub nothing_missing : r.missing_requirements ≡ []
    pub no_reason : r.incompatible_reasons ≡ []

  simulated_when-ne :
      (b : Bool) → ◌≡◌ {A = Result Status} (ok (simulated_when b)) (ok ready_real) → ⊥
  simulated_when-ne true h = cc
  simulated_when-ne false h = cc

  fallback_status-ne :
      (selected : List String) (simulator_id : Option String)
      → fallback_status components selected simulator_id ≡ ok ready_real
      → ⊥
  unfolding fallback_status
  fallback_status-ne selected none h = cc
  fallback_status-ne selected (some id) h = elim (Bool-cases (includes selected id)) [
    | inl here ↦ on_ok (get_component components id) _ (rw here at h) λ c found h1.
        on_ok (dependencies_ready components selected c.required_dependencies) _ h1
          λ b p h2. simulated_when-ne b h2
    | inr out ↦ cc (rw out at h)
  ]

  status_of-ready_real :
      (selected : List String) (simulator_id : Option String)
      (providers missing reasons : List String)
      → status_of components selected simulator_id providers missing reasons ≡ ok ready_real
      → (missing ≡ [])
        × (reasons ≡ [])
        × (simulator_selected selected simulator_id ≡ false)
        × (any_synthetic components providers ≡ ok false)
  unfolding status_of ready_status
  status_of-ready_real selected simulator_id providers missing (r ∷ rs) h = cc
  status_of-ready_real selected simulator_id providers [] [] h =
      on_ok (any_synthetic components providers) _ h λ b p h1.
        let (apart, real) =
          real_choice (simulator_selected selected simulator_id) b (ok_injective h1) in
        (refl, refl, apart, subst (λ x. any_synthetic components providers ≡ ok x) real p)
  status_of-ready_real selected simulator_id providers (m ∷ ms) [] h =
      absurd (fallback_status-ne selected simulator_id h)

  -- A use case that is judged READY_REAL has what it needs among the selected components.
  pub evaluate_use_case-IsReadyReal :
      (u : UseCase) (selected : List String) (selections : List (String × String))
      {r : UseCaseCompatibility}
      → evaluate_use_case components u selected selections ≡ ok r
      → r.status ≡ ready_real
      → IsReadyReal u selected r
  unfolding evaluate_use_case chimp_maera.Common.Order.sort_texts
  evaluate_use_case-IsReadyReal u selected selections {r} h ready =
      on_ok (missing_components components selected u.required_components) _ h λ missing p h1.
        on_ok (judge_groups selected selections u.provider_alternatives) _ h1
          λ (providers, missing_groups) q h2.
            on_ok (conflicts components selected selected) _ h2 λ conflicting k h3.
              on_ok
                (status_of components selected u.simulator_id providers (missing ++ missing_groups)
                  (blocked_by selected u ++ conflicting))
                _ h3
                λ status j h4.
                  let same = ok_injective h4 in
                  let (complete, quiet, apart, real) =
                    status_of-ready_real selected u.simulator_id providers
                      (missing ++ missing_groups) (blocked_by selected u ++ conflicting)
                      (j ∙ ap ok (ap (λ (x : UseCaseCompatibility). x.status) same ∙ ready)) in
                  let (all_there, all_provided) = append_empty missing missing_groups complete in
                  let (unblocked, fitting) =
                    append_empty (blocked_by selected u) conflicting quiet in
                  subst (IsReadyReal u selected) same (record {
                    met =
                        missing_components-IsMet selected u.required_components
                          (p ∙ ap ok all_there);
                    provided =
                        judge_groups-HasProvider selected selections u.provider_alternatives
                          (q ∙ ap (λ xs. ok (providers, xs)) all_provided);
                    real = any_synthetic-none providers real;
                    compatible = conflicts-none selected selected (k ∙ ap ok fitting);
                    unblocked =
                        λ id b. keep_empty (includes selected) _ u.incompatible_with id unblocked b;
                    unsimulated = apart;
                    nothing_missing = complete;
                    no_reason = ap sorted_set quiet;
                  })
