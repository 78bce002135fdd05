-- ===== src/Boundary/Read.antt =====
-- injection-trust-boundary.ts: what the parser of a context reads, and that it gives an issue for
-- everything that it does not.
use chimp_maera.Common.{
  String, ◌≡◌, refl, sym, ap, ◌∙◌, subst, ◌⊎◌, inl, inr, Bool, true, false, not, none, some, List,
  [], ◌∷◌, ◌++◌, ◌==◌, eqb, eqb_refl, length, includes, Bool-cases, Option-cases, eq_iff,
}
use mathlib.Core.List.{append-nil, append_assoc}
use chimp_maera.Common.Members.{Each, Each-length, no_more, one_more}
use chimp_maera.Common.Order.{sort}
use chimp_maera.Json.{Value, Fields, field_of}
use chimp_maera.Json.Guards.{is_text}
use chimp_maera.Rights.Parse.{add, add_if}
use chimp_maera.Boundary.{ContentEnvelope, ReconstructionContext, expected_trust, trust_name}
use chimp_maera.Boundary.Parse.{
  catalog_version, envelope_lt, add_all, envelope_denied, label_issues, ids_of, parse_envelope,
  read_content_envelope, read_envelopes, trusts, unless_issues, context_denied, context_when,
  parse_context, read_context,
}

pub add-eq-nil : (issue : String) (is : List String) → add issue is ≡ [] → ⊥
add-eq-nil issue [] h = cc
add-eq-nil issue (i ∷ is) h = elim (Bool-cases (includes (i ∷ is) issue)) [
  | inl there ↦ cc (rw there at h)
  | inr new ↦ cc (rw new at h)
]

pub add_if-eq-nil :
    (test : Bool) (issue : String) (is : List String)
    → add_if test issue is ≡ []
    → (test ≡ false) × (is ≡ [])
add_if-eq-nil true issue is h = absurd (add-eq-nil issue is h)
add_if-eq-nil false issue is h = (refl, h)

add_all-eq-nil : (found is : List String) → add_all found is ≡ [] → (found ≡ []) × (is ≡ [])
add_all-eq-nil [] is h = (refl, h)
add_all-eq-nil (i ∷ found) is h = absurd (add-eq-nil i is (add_all-eq-nil found (add i is) h).1)

-- An envelope that was read of a value without an issue: its content is data only, it belongs to the
-- tenant and its trust label is that of its origin.
pub record IsEnvelope (tenant : String) (v : Value) (e : ContentEnvelope) : Type 0 where
  pub read : read_content_envelope v ≡ some (true, e)
  pub bound : e.tenant ≡ tenant
  pub trusted : trust_name (expected_trust e.origin) ≡ trust_name e.trust

pub not-false : (b : Bool) → not b ≡ false → b ≡ true
not-false true h = refl
not-false false h = cc

unless_issues-cases :
    (is : List String) (e : ContentEnvelope)
    → ((is ≡ []) × (unless_issues is e ≡ ([], some e)))
      ⊎ ((i : String) × (rest : List String) × (unless_issues is e ≡ (i ∷ rest, none)))
unless_issues-cases [] e = inl (refl, refl)
unless_issues-cases (i ∷ is) e = inr (i, is, refl)

label_issues-IsEnvelope :
    (tenant : String) (v : Value) (data_only : Bool) (e : ContentEnvelope)
    → read_content_envelope v ≡ some (data_only, e)
    → label_issues tenant data_only e ≡ []
    → IsEnvelope tenant v e
label_issues-IsEnvelope tenant v data_only e found quiet =
    let (trusted, quiet_tenant) = add_if-eq-nil (not (trusts e.origin e.trust)) _ _ quiet in
    let (bound, quiet_data) = add_if-eq-nil (not (e.tenant == tenant)) _ _ quiet_tenant in
    let (eligible, nothing) = add_if-eq-nil (not data_only) _ [] quiet_data in
    record {
      read =
          subst (λ b. read_content_envelope v ≡ some (b, e)) (not-false data_only eligible) found;
      bound = (eq_iff e.tenant tenant).0 (not-false _ bound);
      trusted = (eq_iff _ _).0 (not-false _ trusted);
    }

-- An envelope is read without an issue, or there is one.
pub parse_envelope-cases :
    (tenant : String) (v : Value)
    → ((e : ContentEnvelope) × (parse_envelope tenant v ≡ ([], some e)) × IsEnvelope tenant v e)
      ⊎ ((i : String) × (is : List String) × (parse_envelope tenant v ≡ (i ∷ is, none)))
unfolding parse_envelope
parse_envelope-cases tenant v = elim (Option-cases (read_content_envelope v)) [
  | inl nothing ↦ inr (envelope_denied, [], rw nothing refl)
  | inr ((data_only, e), found) ↦ elim (unless_issues-cases (label_issues tenant data_only e) e) [
    | inl (quiet, p) ↦ inl (e, rw found p, label_issues-IsEnvelope tenant v data_only e found quiet)
    | inr (i, is, p) ↦ inr (i, is, rw found p)
  ]
]

-- The loop without an issue reads one envelope of each value.
pub read_envelopes-Each :
    (tenant : String) (vs : List Value) (es : List ContentEnvelope) (issues : List String)
    {all : List ContentEnvelope}
    → read_envelopes tenant vs es issues ≡ ([], all)
    → (issues ≡ [])
      × (added : List ContentEnvelope) × (all ≡ es ++ added)
      × Each (IsEnvelope tenant) vs added
unfolding read_envelopes
read_envelopes-Each tenant [] es issues h =
    (ap (λ x. x.0) h, [], sym (ap (λ x. x.1) h) ∙ sym (append-nil es), no_more)
read_envelopes-Each tenant (v ∷ vs) es issues h = elim (parse_envelope-cases tenant v) [
  | inl (e, p, k) ↦ elim (Bool-cases (includes (ids_of es) e.envelope_id)) [
    | inl known ↦ absurd (
        add-eq-nil _ issues
          (read_envelopes-Each tenant vs es _ (rw (p, known, read_envelopes) at h)).0)
    | inr new ↦
        let (quiet, added, recorded, each) =
          read_envelopes-Each tenant vs (es ++ e ∷ []) issues (rw (p, new, read_envelopes) at h) in
        (quiet, e ∷ added, recorded ∙ append_assoc es (e ∷ []) added, one_more k each)
  ]
  | inr (i, is, p) ↦ absurd (
      add-eq-nil i issues
        (add_all-eq-nil is (add i issues)
          (read_envelopes-Each tenant vs es _ (rw (p, read_envelopes) at h)).0).1)
]

module _ (locale_lt : String → String → Bool) where
  -- A context that was read without an issue, from one envelope for each value.
  pub record IsContext (v : Value) (c : ReconstructionContext) : Type 0 where
    pub fields : Fields
    pub values : List Value
    pub envelopes : List ContentEnvelope
    pub read : read_context v ≡ some (fields, c.actor, c.tenant, c.replay_key, values)
    pub version : is_text (field_of "catalogVersion" fields) catalog_version ≡ true
    pub each : Each (IsEnvelope c.tenant) values envelopes
    pub ordered : c.envelopes ≡ sort (envelope_lt locale_lt) envelopes

  abbrev context_of : String → String → String → List ContentEnvelope → ReconstructionContext
  context_of actor tenant replay_key es = record {
    actor = actor;
    tenant = tenant;
    replay_key = replay_key;
    envelopes = sort (envelope_lt locale_lt) es;
  }

  read_context-judged :
      (v : Value) (fs : Fields) (actor tenant replay_key : String) (values : List Value)
      (loop : List String × List ContentEnvelope)
      → read_context v ≡ some (fs, actor, tenant, replay_key, values)
      → read_envelopes tenant values [] (
          add_if
            (not (is_text (field_of "catalogVersion" fs) catalog_version))
            "TRUST_BOUNDARY_CATALOG_VERSION_DENIED"
            [])
        ≡ loop
      → ((c : ReconstructionContext) × (context_when loop.0
              (eqb (length loop.1) (length values))
              (context_of actor tenant replay_key loop.1)
            ≡ ([], some c))
          × IsContext v c)
        ⊎ ((i : String) × (is : List String) × (context_when loop.0
                (eqb (length loop.1) (length values))
                (context_of actor tenant replay_key loop.1)
              ≡ (i ∷ is, none)))
  read_context-judged v fs actor tenant replay_key values (i ∷ is, es) found h = inr (i, is, refl)
  read_context-judged v fs actor tenant replay_key values ([], es) found h =
      let (quiet, added, recorded, each) = read_envelopes-Each tenant values [] _ h in
      let (version, nothing) =
        add_if-eq-nil (not (is_text (field_of "catalogVersion" fs) catalog_version)) _ [] quiet in
      let complete : eqb (length es) (length values) ≡ true =
        ap (λ n. eqb n (length values))
          (ap length recorded ∙ sym (Each-length (IsEnvelope tenant) each))
        ∙ eqb_refl (length values) in
      inl (
        context_of actor tenant replay_key es,
        rw complete refl,
        record {
          fields = fs;
          values = values;
          envelopes = es;
          read = found;
          version = not-false _ version;
          each = subst (Each (IsEnvelope tenant) values) (sym recorded) each;
          ordered = refl;
        },
      )

  -- A context is read without an issue, or there is one.
  pub parse_context-cases :
      (v : Value)
      → ((c : ReconstructionContext) × (parse_context locale_lt v ≡ ([], some c)) × IsContext v c)
        ⊎ ((i : String) × (is : List String) × (parse_context locale_lt v ≡ (i ∷ is, none)))
  unfolding parse_context
  parse_context-cases v = elim (Option-cases (read_context v)) [
    | inl nothing ↦ inr (context_denied, [], rw nothing refl)
    | inr ((fs, actor, tenant, replay_key, values), found) ↦
        elim (read_context-judged v fs actor tenant replay_key values _ found refl) [
          | inl (c, p, k) ↦ inl (c, rw found p, k)
          | inr (i, is, p) ↦ inr (i, is, rw found p)
        ]
  ]
