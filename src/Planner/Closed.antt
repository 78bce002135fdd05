-- ===== src/Planner/Closed.antt =====
-- poc-setup-compatibility-planner.ts: `dependencyClosure` finds what is needed, and nothing else.
use chimp_maera.Common.{
  some_injective, ℕ, zero, suc, ◌+◌, ◌≤◌, String, ◌≡◌, refl, sym, ◌∙◌, subst, ◌⊎◌, ◌↔◌, inl, inr,
  true, none, some, List, [], ◌∷◌, ◌++◌, ◌==◌, arith, length, includes, map, All, Bool-cases,
  Option-cases, eq_iff, ok, err, Result-cases,
}
use mathlib.Core.List.{append-nil}
use chimp_maera.Common.Members.{In, first, later, All-In, All-map, includes_self}
use chimp_maera.Planner.{Requirement, Component, Addition}
use chimp_maera.Planner.Closure.{
  Closing, begin, close, component_of, dependency_closure, enlist, enlist_all, expand,
  require_target, unknown_component,
}
use chimp_maera.Planner.Enlist.{
  Grows, Grows-refl, Grows-trans, HasTarget, IsEnlisted, IsMet, IsMet-kept, IsRefused,
  component_of-In, enlist-Grows, enlist-included, enlist-origin, missing, missing-le,
  require_target-HasTarget,
}

module _ (components : List Component) where
  enlist_all-IsEnlisted :
      (parent : String) (r : Requirement) (rs : List Requirement) (s t : Closing)
      (target : Component)
      → HasTarget components r target
      → IsEnlisted components rs (enlist parent r target s) t
      → IsEnlisted components (r ∷ rs) s t
  enlist_all-IsEnlisted parent r rs s t target h n =
      let (i, same) = component_of-In components r.component_id h.found in
      record {
        grows = Grows-trans components (enlist-Grows components parent r target s i) n.grows;
        met = (
          record {
            target = target;
            found = h.found;
            satisfied = h.satisfied;
            chosen = n.grows.kept r.component_id (
                subst (λ x. includes (enlist parent r target s).ids x ≡ true) same
                  (enlist-included components parent r target s));
          },
          n.met,
        );
        origin = λ x member. elim (n.origin x member) [
          | inl before ↦ elim (enlist-origin components parent r target s x before) [
            | inl start ↦ inl start
            | inr added ↦ inr (r, first, sym same ∙ added)
          ]
          | inr (q, listed, p) ↦ inr (q, later listed, p)
        ];
      }

  enlist_all-cases :
      (parent : String) (rs : List Requirement) (s : Closing)
      → ((t : Closing) × (enlist_all components parent rs s ≡ ok t) × IsEnlisted components rs s t)
        ⊎ ((e : String) × (enlist_all components parent rs s ≡ err e) × IsRefused components rs e)
  unfolding enlist_all
  enlist_all-cases parent [] s =
      inl (s, refl, record { grows = Grows-refl components s; met = tt; origin = λ x h. inl h })
  enlist_all-cases parent (r ∷ rs) s = elim (Result-cases (require_target components r)) [
    | inl (target, p) ↦ elim (enlist_all-cases parent rs (enlist parent r target s)) [
      | inl (t, q, n) ↦ inl (
        t,
        rw (p, enlist_all) q,
        enlist_all-IsEnlisted parent r rs s t target (require_target-HasTarget components r p) n,
      )
      | inr (e, q, f) ↦ inr (
        e,
        rw (p, enlist_all) q,
        record { requirement = f.requirement; listed = later f.listed; refused = f.refused },
      )
    ]
    | inr (e, p) ↦
        inr (e, rw (p, enlist_all) refl, record { requirement = r; listed = first; refused = p })
  ]

  -- What is needed: the initial ids, and what a needed component depends on.
  pub data Needed (initial : List String) : String → Type 0 where
    chosen : {id : String} → includes initial id ≡ true → Needed initial id
    required :
        {id : String} {c : Component} {r : Requirement}
        → Needed initial id
        → component_of components id ≡ some c
        → In r c.required_dependencies
        → Needed initial r.component_id

  -- A component whose dependencies are met among the ids.
  pub record IsExpanded (ids : List String) (id : String) : Type 0 where
    pub component : Component
    pub found : component_of components id ≡ some component
    pub met : All (IsMet components ids) component.required_dependencies

  -- Why there is no closure: a needed component is not in the catalog, or a dependency of one cannot be
  -- met.
  pub data IsUnmet (initial : List String) (e : String) : Type 0 where
    unlisted :
        (id : String)
        → Needed initial id
        → component_of components id ≡ none
        → e ≡ unknown_component
        → IsUnmet initial e
    unmet :
        (id : String) (c : Component)
        → Needed initial id
        → component_of components id ≡ some c
        → IsRefused components c.required_dependencies e
        → IsUnmet initial e

  -- the invariant of the loop
  record Explores (initial : List String) (s : Closing) : Type 0 where
    starts : (x : String) → includes initial x ≡ true → includes s.ids x ≡ true
    sound : (x : String) → includes s.ids x ≡ true → Needed initial x
    queue : (x : String) → includes s.pending x ≡ true → includes s.ids x ≡ true
    settled :
        (x : String) → includes s.ids x ≡ true → (includes s.pending x ≡ true) ⊎ IsExpanded s.ids x
    recorded : s.ids ≡ initial ++ map (λ (a : Addition). a.component_id) s.additions

  begin-Explores : (initial : List String) → Explores initial (begin components initial)
  begin-Explores initial = record {
    starts = λ x h. h;
    sound = λ x h. chosen h;
    queue = λ x h. h;
    settled = λ x h. inl h;
    recorded = sym (append-nil initial);
  }

  IsExpanded-kept :
      {s t : Closing}
      → Grows components s t
      → (x : String) → IsExpanded s.ids x
      → IsExpanded t.ids x
  IsExpanded-kept {s} {t} g x e = record {
    component = e.component;
    found = e.found;
    met =
        All-map (IsMet components s.ids) (IsMet components t.ids) (IsMet-kept components g)
          e.component.required_dependencies e.met;
  }

  -- what was at the head of the queue is expanded, the rest is still queued
  expand-settled :
      (id : String) (rest : List String) (s t : Closing) (c : Component) (x : String)
      → component_of components id ≡ some c
      → IsEnlisted components c.required_dependencies (record s { pending = rest }) t
      → (includes (id ∷ rest) x ≡ true) ⊎ IsExpanded s.ids x
      → (includes t.pending x ≡ true) ⊎ IsExpanded t.ids x
  expand-settled id rest s t c x found n (inr done) =
      inr (IsExpanded-kept {s = record s { pending = rest }} n.grows x done)
  expand-settled id rest s t c x found n (inl queued) = elim (Bool-cases (id == x)) [
    | inl same ↦ inr (
        subst (IsExpanded t.ids) ((eq_iff id x).0 same)
          (record { component = c; found = found; met = n.met }))
    | inr other ↦ inl (n.grows.queued x (ground (arith, queued, other)))
  ]

  module _ {initial : List String} where
    expand-Explores :
        (id : String) (rest : List String) (s t : Closing) (c : Component)
        → Explores initial (record s { pending = id ∷ rest })
        → component_of components id ≡ some c
        → IsEnlisted components c.required_dependencies (record s { pending = rest }) t
        → Explores initial t
    expand-Explores id rest s t c k found n =
        let needed = k.sound id (k.queue id (includes_self id rest)) in
        record {
          starts = λ x h. n.grows.kept x (k.starts x h);
          sound = λ x h. elim (n.origin x h) [
            | inl before ↦ k.sound x before
            | inr (q, listed, p) ↦ subst (Needed initial) p (required needed found listed)
          ];
          queue = λ x h. elim (n.grows.enqueued x h) [
            | inl before ↦ n.grows.kept x (k.queue x (ground (arith, before, Bool-cases (id == x))))
            | inr member ↦ member
          ];
          settled = λ x h. elim (n.grows.fresh x h) [
            | inl before ↦ expand-settled id rest s t c x found n (k.settled x before)
            | inr queued ↦ inl queued
          ];
          recorded = n.grows.recorded initial k.recorded;
        }

    close-cases :
        (fuel : ℕ) (pending : List String) (s : Closing)
        → length pending + missing components s.ids ≤ fuel
        → Explores initial (record s { pending = pending })
        → ((t : Closing) × (close components fuel pending s ≡ ok t)
            × Explores initial (record t { pending = [] }))
          ⊎ ((e : String) × (close components fuel pending s ≡ err e) × IsUnmet initial e)
    unfolding close expand
    close-cases fuel [] s w k = inl (s, refl, k)
    close-cases zero (id ∷ rest) s w k = absurd (omega (arith, w))
    close-cases (suc fuel) (id ∷ rest) s w k = elim (Option-cases (component_of components id)) [
      | inl unknown ↦ inr (
        unknown_component,
        rw (unknown, expand, close) refl,
        unlisted id (k.sound id (k.queue id (includes_self id rest))) unknown refl,
      )
      | inr (c, found) ↦
          elim (enlist_all-cases id c.required_dependencies (record s { pending = rest })) [
            | inl (t, p, n) ↦
                elim (close-cases fuel t.pending t (omega (arith, w, n.grows.work))
                  (expand-Explores id rest s t c k found n)) [
                    | inl (u, q, l) ↦ inl (u, rw (found, p, expand, close) q, l)
                    | inr (e, q, f) ↦ inr (e, rw (found, p, expand, close) q, f)
                  ]
            | inr (e, p, f) ↦ inr (
              e,
              rw (found, p, expand, close) refl,
              unmet id c (k.sound id (k.queue id (includes_self id rest))) found f,
            )
          ]
    ]

  all-IsExpanded :
      {initial : List String} (t : Closing)
      → Explores initial (record t { pending = [] })
      → (id : String) → includes t.ids id ≡ true
      → IsExpanded t.ids id
  all-IsExpanded t k id member = elim (k.settled id member) [
    | inl queued ↦ absurd (ground (arith, queued))
    | inr done ↦ done
  ]

  -- What the closure of the initial ids is.
  pub record IsClosure (initial : List String) (t : Closing) : Type 0 where
    pub needed : (id : String) → (includes t.ids id ≡ true) ↔ Needed initial id
    pub expanded : (id : String) → includes t.ids id ≡ true → IsExpanded t.ids id
    pub recorded : t.ids ≡ initial ++ map (λ (a : Addition). a.component_id) t.additions

  Needed-included :
      (initial : List String) (t : Closing)
      → ((id : String) → includes initial id ≡ true → includes t.ids id ≡ true)
      → ((id : String) → includes t.ids id ≡ true → IsExpanded t.ids id)
      → {id : String} → Needed initial id
      → includes t.ids id ≡ true
  Needed-included initial t starts expanded (chosen h) = starts _ h
  Needed-included initial t starts expanded (required {id} {c} {r} n found listed) =
      let e = expanded id (Needed-included initial t starts expanded n) in
      (All-In (IsMet components t.ids) e.met (
        subst (λ (b : Component). In r b.required_dependencies)
          (some_injective (sym found ∙ e.found)) listed)).chosen

  -- The closure ends. It is the set of what the initial ids need, each with its dependencies met in it,
  -- the initial ids first and then the additions; or it throws, and then a needed component is not
  -- in the catalog or has a dependency that cannot be met.
  pub dependency_closure-cases :
      (initial : List String)
      → ((t : Closing) × (dependency_closure components initial ≡ ok t) × IsClosure initial t)
        ⊎ ((e : String) × (dependency_closure components initial ≡ err e) × IsUnmet initial e)
  unfolding dependency_closure
  dependency_closure-cases initial =
      elim (close-cases (length components + length initial) initial (begin components initial)
        (omega (arith, missing-le components initial)) (begin-Explores initial)) [
          | inl (t, h, k) ↦ inl (
            t,
            h,
            record {
              needed = λ id. (k.sound id, Needed-included initial t k.starts (all-IsExpanded t k));
              expanded = all-IsExpanded t k;
              recorded = k.recorded;
            },
          )
          | inr failed ↦ inr failed
        ]
