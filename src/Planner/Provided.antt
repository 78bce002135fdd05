-- ===== src/Planner/Provided.antt =====
-- poc-setup-compatibility-planner.ts: every group has a provider when nothing is missing.
use chimp_maera.Common.{
  ok_injective, some_injective, String, ◌≡◌, refl, sym, ap, ◌∙◌, subst, inl, inr, Bool, true,
  Option, none, some, List, [], ◌∷◌, ◌==◌, arith, find, includes, All, Bool-cases, ok, on_ok,
  on_require,
}
use chimp_maera.Common.Members.{All-map, includes_self}
use chimp_maera.Planner.{ProviderGroup}
use chimp_maera.Planner.Choice.{
  allowed_provider, chosen_provider, judge_group, judge_groups, selection_of, truthy,
}

pub cons_absurd {ℓ μ} : {A : Type ℓ} {P : Type μ} {x : A} {xs : List A} → x ∷ xs ≡ [] → P
cons_absurd h = cc

-- a group that adds nothing to what is missing
judge_group_complete :
    (g : ProviderGroup) (o : Option String) (ps ms : List String) {providers : List String}
    → judge_group g o (ps, ms) ≡ (providers, [])
    → (id : String) × (o ≡ some id) × (providers ≡ id ∷ ps) × (ms ≡ [])
judge_group_complete g none ps ms h = cons_absurd (ap (λ x. x.1) h)
judge_group_complete g (some id) ps ms h = (id, refl, sym (ap (λ x. x.0) h), ap (λ x. x.1) h)

find-eq-some :
    (p : String → Bool) (xs : List String) {v : String}
    → find p xs ≡ some v
    → (p v ≡ true) × (includes xs v ≡ true)
find-eq-some p [] h = cc
find-eq-some p (x ∷ xs) {v} h = elim (Bool-cases (p x)) [
  | inl here ↦
      subst (λ y. (p y ≡ true) × (includes (x ∷ xs) y ≡ true)) (some_injective (rw here at h))
        (here, includes_self x xs)
  | inr other ↦
      let (holds, member) = find-eq-some p xs (rw other at h) in (holds, ground (arith, member))
]

truthy-eq-some : (o : Option String) {id : String} → truthy o ≡ some id → o ≡ some id
truthy-eq-some none h = cc
truthy-eq-some (some x) h = elim (Bool-cases (x == "")) [
  | inl empty ↦ cc (rw empty at h)
  | inr named ↦ rw named at h
]

chosen_provider-eq-some :
    (selected ids : List String) (o : Option String) {id : String}
    → allowed_provider ids o ≡ true
    → chosen_provider selected ids o ≡ some id
    → (includes selected id ≡ true) × (includes ids id ≡ true)
chosen_provider-eq-some selected ids none a h = find-eq-some (includes selected) ids h
chosen_provider-eq-some selected ids (some x) a h = elim (Bool-cases (includes selected x)) [
  | inl here ↦
      subst (λ y. (includes selected y ≡ true) × (includes ids y ≡ true))
        (some_injective (rw here at h)) (here, a)
  | inr other ↦ find-eq-some (includes selected) ids (rw other at h)
]

-- A group with a provider that is selected and is one of the group.
pub record HasProvider (selected providers : List String) (g : ProviderGroup) : Type 0 where
  pub provider : String
  pub allowed : includes g.one_of provider ≡ true
  pub chosen : includes selected provider ≡ true
  pub listed : includes providers provider ≡ true

HasProvider-later :
    (selected providers : List String) (id : String) (g : ProviderGroup)
    → HasProvider selected providers g
    → HasProvider selected (id ∷ providers) g
HasProvider-later selected providers id g h = record {
  provider = h.provider;
  allowed = h.allowed;
  chosen = h.chosen;
  listed = ground (arith, h.listed);
}

pub judge_groups-HasProvider :
    (selected : List String) (selections : List (String × String)) (gs : List ProviderGroup)
    {providers : List String}
    → judge_groups selected selections gs ≡ ok (providers, [])
    → All (HasProvider selected providers) gs
unfolding judge_groups
judge_groups-HasProvider selected selections [] h = tt
judge_groups-HasProvider selected selections (g ∷ gs) {providers} h =
    on_require (allowed_provider g.one_of (truthy (selection_of selections g.group_id))) _ _ h
      λ allowed h1. on_ok (judge_groups selected selections gs) _ h1 λ (ps, ms) p h2.
        let (id, named, ends, nothing) =
          judge_group_complete g (truthy (chosen_provider selected g.one_of _)) ps ms
            (ok_injective h2) in
        let (member, listed) =
          chosen_provider-eq-some selected g.one_of (truthy (selection_of selections g.group_id))
            allowed (truthy-eq-some _ named) in
        subst (λ xs. All (HasProvider selected xs) (g ∷ gs)) (sym ends)
          (
            record {
              provider = id;
              allowed = listed;
              chosen = member;
              listed = includes_self id ps;
            },
            All-map (HasProvider selected ps) (HasProvider selected (id ∷ ps))
                (HasProvider-later selected ps id) gs
                (judge_groups-HasProvider selected selections gs
                  (p ∙ ap (λ xs. ok (ps, xs)) nothing)),
          )
