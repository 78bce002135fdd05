-- ===== src/Planner/Enlist.antt =====
-- poc-setup-compatibility-planner.ts: a round of `dependencyClosure`.
use chimp_maera.Common.{
  ok_injective, some_injective, ℕ, suc, ◌+◌, ◌≤◌, String, ◌≡◌, sym, ap, ◌∙◌, subst, ◌⊎◌, inl, inr,
  true, false, not, some, List, [], ◌∷◌, ◌++◌, ◌==◌, arith, length, length-append, includes, keep,
  map, All, Bool-cases, Option-cases, eq_iff, ok, err, or_throw, or_throw-eq-ok, on_ok, on_require,
}
use chimp_maera.Common.Members.{
  In, first, later, includes-append, includes-append-left, includes-append-right, includes_one,
  includes_self, map-snoc,
}
use mathlib.Core.List.{append_assoc}
use chimp_maera.Planner.{Requirement, Component, Addition}
use chimp_maera.Planner.Version.{satisfies}
use chimp_maera.Planner.Closure.{Closing, addition, component_of, enlist, require_target}

-- the components that are not yet chosen
abbrev pub missing : List Component → List String → ℕ
missing components ids = length (keep (λ c. not (includes ids c.component_id)) components)

missing-append :
    (cs : List Component) (ids : List String) (id : String)
    → missing cs (ids ++ id ∷ []) ≤ missing cs ids
missing-append [] ids id = omega arith
missing-append (c ∷ cs) ids id = elim (Bool-cases (includes ids c.component_id)) [
  | inl there ↦
      let still = includes-append-left ids (id ∷ []) c.component_id there in
      ground (arith, missing-append cs ids id, there, still)
  | inr new ↦ elim (Bool-cases (includes (ids ++ id ∷ []) c.component_id)) [
    | inl added ↦ ground (arith, missing-append cs ids id, new, added)
    | inr out ↦ ground (arith, missing-append cs ids id, new, out)
  ]
]

missing-new :
    {c : Component} {cs : List Component} (ids : List String)
    → In c cs
    → includes ids c.component_id ≡ false
    → suc (missing cs (ids ++ c.component_id ∷ [])) ≤ missing cs ids
missing-new {c} ids (first {xs}) new =
    let added =
      includes-append-right ids (c.component_id ∷ []) c.component_id
        (includes_self c.component_id []) in
    ground (arith, missing-append xs ids c.component_id, new, added)
missing-new {c} ids (later {y = b} {xs} i) new =
    let rest = missing-new ids i new in
    elim (Bool-cases (includes ids b.component_id)) [
      | inl there ↦
          let still = includes-append-left ids (c.component_id ∷ []) b.component_id there in
          ground (arith, rest, there, still)
      | inr out ↦ elim (Bool-cases (includes (ids ++ c.component_id ∷ []) b.component_id)) [
        | inl added ↦ ground (arith, rest, out, added)
        | inr still ↦ ground (arith, rest, out, still)
      ]
    ]

pub component_of-In :
    (cs : List Component) (id : String) {c : Component}
    → component_of cs id ≡ some c
    → In c cs × (c.component_id ≡ id)
unfolding component_of
component_of-In [] id h = cc
component_of-In (b ∷ cs) id h = elim (Option-cases (component_of cs id)) [
  | inl none_later ↦ elim (Bool-cases (b.component_id == id)) [
    | inl same ↦
        subst (λ (x : Component). In x (b ∷ cs) × (x.component_id ≡ id))
          (some_injective (rw (none_later, same, component_of) at h))
          (first, (eq_iff b.component_id id).0 same)
    | inr other ↦ absurd (ground (arith, h, none_later, other))
  ]
  | inr (d, found) ↦
      let (i, same) = component_of-In cs id (found ∙ (rw (found, component_of) at h)) in
      (later i, same)
]

module _ (components : List Component) where
  -- What a round of the loop does to its variables.
  pub record Grows (s t : Closing) : Type 0 where
    pub kept : (x : String) → includes s.ids x ≡ true → includes t.ids x ≡ true
    pub queued : (x : String) → includes s.pending x ≡ true → includes t.pending x ≡ true
    pub fresh :
        (x : String)
        → includes t.ids x ≡ true
        → (includes s.ids x ≡ true) ⊎ (includes t.pending x ≡ true)
    pub enqueued :
        (x : String)
        → includes t.pending x ≡ true
        → (includes s.pending x ≡ true) ⊎ (includes t.ids x ≡ true)
    pub recorded :
        (initial : List String)
        → s.ids ≡ initial ++ map (λ (a : Addition). a.component_id) s.additions
        → t.ids ≡ initial ++ map (λ (a : Addition). a.component_id) t.additions
    pub work :
        length t.pending + missing components t.ids ≤ length s.pending + missing components s.ids

  pub Grows-refl : (s : Closing) → Grows s s
  Grows-refl s = record {
    kept = λ x h. h;
    queued = λ x h. h;
    fresh = λ x h. inl h;
    enqueued = λ x h. inl h;
    recorded = λ initial h. h;
    work = omega arith;
  }

  pub Grows-trans : {s t u : Closing} → Grows s t → Grows t u → Grows s u
  Grows-trans g k = record {
    kept = λ x h. k.kept x (g.kept x h);
    queued = λ x h. k.queued x (g.queued x h);
    fresh = λ x h. elim (k.fresh x h) [
      | inl before ↦ elim (g.fresh x before) [
        | inl start ↦ inl start
        | inr pending ↦ inr (k.queued x pending)
      ]
      | inr pending ↦ inr pending
    ];
    enqueued = λ x h. elim (k.enqueued x h) [
      | inl before ↦ elim (g.enqueued x before) [
        | inl start ↦ inl start
        | inr member ↦ inr (k.kept x member)
      ]
      | inr member ↦ inr member
    ];
    recorded = λ initial h. k.recorded initial (g.recorded initial h);
    work = omega (arith, g.work, k.work);
  }

  -- the new state of `enlist`, when the target is new
  pub enlist-Grows :
      (parent : String) (r : Requirement) (target : Component) (s : Closing)
      → In target components
      → Grows s (enlist parent r target s)
  enlist-Grows parent r target s i = elim (Bool-cases (includes s.ids target.component_id)) [
    | inl there ↦ rw there (Grows-refl s)
    | inr new ↦ rw new (record {
      kept = λ x h. includes-append-left s.ids (target.component_id ∷ []) x h;
      queued = λ x h. includes-append-left s.pending (target.component_id ∷ []) x h;
      fresh = λ x h. elim (includes-append s.ids (target.component_id ∷ []) x h) [
        | inl before ↦ inl before
        | inr added ↦ inr (includes-append-right s.pending (target.component_id ∷ []) x added)
      ];
      enqueued = λ x h. elim (includes-append s.pending (target.component_id ∷ []) x h) [
        | inl before ↦ inl before
        | inr added ↦ inr (includes-append-right s.ids (target.component_id ∷ []) x added)
      ];
      recorded = λ initial h.
          ap (λ ids. ids ++ target.component_id ∷ []) h
          ∙ append_assoc initial (map (λ (a : Addition). a.component_id) s.additions)
              (target.component_id ∷ [])
          ∙ ap (λ ids. initial ++ ids)
              (sym (
                map-snoc (λ (a : Addition). a.component_id) s.additions
                  (addition parent r target)));
      work =
          omega
            (arith, missing-new s.ids i new, length-append s.pending (target.component_id ∷ []));
    })
  ]

  pub enlist-included :
      (parent : String) (r : Requirement) (target : Component) (s : Closing)
      → includes (enlist parent r target s).ids target.component_id ≡ true
  enlist-included parent r target s = elim (Bool-cases (includes s.ids target.component_id)) [
    | inl there ↦ rw there there
    | inr new ↦ rw new (
        includes-append-right s.ids (target.component_id ∷ []) target.component_id
          (includes_self target.component_id []))
  ]

  -- A dependency that is met among the ids.
  pub record IsMet (ids : List String) (r : Requirement) : Type 0 where
    pub target : Component
    pub found : component_of components r.component_id ≡ some target
    pub satisfied : satisfies target.version r.version_constraint ≡ ok true
    pub chosen : includes ids r.component_id ≡ true

  pub IsMet-kept : {s t : Closing} → Grows s t → (r : Requirement) → IsMet s.ids r → IsMet t.ids r
  IsMet-kept g r m = record {
    target = m.target;
    found = m.found;
    satisfied = m.satisfied;
    chosen = g.kept r.component_id m.chosen;
  }

  pub record HasTarget (r : Requirement) (target : Component) : Type 0 where
    pub found : component_of components r.component_id ≡ some target
    pub satisfied : satisfies target.version r.version_constraint ≡ ok true

  pub require_target-HasTarget :
      (r : Requirement) {target : Component}
      → require_target components r ≡ ok target
      → HasTarget r target
  unfolding require_target
  require_target-HasTarget r h =
      on_ok (or_throw (component_of components r.component_id) _) _ h λ target found h1.
        on_ok (satisfies target.version r.version_constraint) _ h1 λ satisfied p h2.
          on_require satisfied _ _ h2 λ holds h3. subst (HasTarget r) (ok_injective h3) (record {
            found = or_throw-eq-ok (component_of components r.component_id) _ found;
            satisfied = subst (λ b. satisfies target.version r.version_constraint ≡ ok b) holds p;
          })

  -- A round: the dependencies are met in the new state, or one of them cannot be.
  pub record IsEnlisted (rs : List Requirement) (s t : Closing) : Type 0 where
    pub grows : Grows s t
    pub met : All (IsMet t.ids) rs
    pub origin :
        (x : String)
        → includes t.ids x ≡ true
        → (includes s.ids x ≡ true) ⊎ ((r : Requirement) × In r rs × (r.component_id ≡ x))

  pub record IsRefused (rs : List Requirement) (e : String) : Type 0 where
    pub requirement : Requirement
    pub listed : In requirement rs
    pub refused : require_target components requirement ≡ err e

  pub enlist-origin :
      (parent : String) (r : Requirement) (target : Component) (s : Closing) (x : String)
      → includes (enlist parent r target s).ids x ≡ true
      → (includes s.ids x ≡ true) ⊎ (target.component_id ≡ x)
  enlist-origin parent r target s x h = elim (Bool-cases (includes s.ids target.component_id)) [
    | inl there ↦ inl (rw there at h)
    | inr new ↦ elim (includes-append s.ids (target.component_id ∷ []) x (rw new at h)) [
      | inl before ↦ inl before
      | inr added ↦ inr (includes_one target.component_id x added)
    ]
  ]

pub missing-le : (cs : List Component) (ids : List String) → missing cs ids ≤ length cs
missing-le [] ids = omega arith
missing-le (c ∷ cs) ids =
    ground (arith, missing-le cs ids, Bool-cases (includes ids c.component_id))
