-- ===== src/Intake/Decided.antt =====
-- signal-release-intake.ts: what a decision says of the gates.
use chimp_maera.Common.{
  ok_injective, all, ◌==◌, eq_iff, String, ◌≡◌, refl, sym, ap, ◌∙◌, ◌↔◌, true, false, not, some,
  List, [], ◌∷◌, keep, map, All, inl, inr, subst, ok, on_ok, or_throw, or_throw-eq-ok, bind-total,
}
use chimp_maera.Json.{Value, bool, str, Fields, field_of}
use chimp_maera.Json.Canonical.{canonical_json}
use chimp_maera.Json.Total.{
  HasText, HasText-str, HasText-obj, HasText-arr, HasTexts-end, HasTexts-field, HasItems-array,
}
use chimp_maera.Intake.{
  IntakeDecision, pre_candidate, closed_gates, disposition_of, evaluate, unsigned_value,
}
use chimp_maera.Intake.Formed.{IsIntake, IsBoolean, and_true, gate_table, read_intake-IsIntake}
use chimp_maera.Intake.Shape.{Intake, read_intake, gate_names, is_true, reason_of}

-- a reason in front of others, for a gate that is false
abbrev pub if_false : Value → String → List String → List String
if_false (bool false) reason reasons = reason ∷ reasons
if_false _ reason reasons = reasons

-- The reasons of the gates that are false, in the order of a table of gates and reasons.
abbrev pub reasons_for : List (String × String) → Fields → List String
reasons_for [] gates = []
reasons_for (row ∷ rows) gates = if_false (field_of row.0 gates) row.1 (reasons_for rows gates)

-- What a decision stands for.
pub record IsDecided (v : Value) (d : IntakeDecision) : Type 0 where
  pub signal_digest : String
  pub gates : Fields
  pub formed : IsIntake v signal_digest gates
  pub candidate :
      (d.disposition ≡ pre_candidate)
      ↔ All (λ (row : String × String). field_of row.0 gates ≡ bool true) gate_table
  pub reasons : d.rejection_reasons ≡ reasons_for gate_table gates

-- the reasons that the evaluation gives for the gates of a table
abbrev given : List (String × String) → Fields → List String
given rows gates = map reason_of (
    keep (λ gate. not (is_true (field_of gate gates)))
      (map (λ (row : String × String). row.0) rows))

given-reasons_for :
    (rows : List (String × String)) (gates : Fields)
    → all (λ (row : String × String). reason_of row.0 == row.1) rows ≡ true
    → All (λ (row : String × String). IsBoolean (field_of row.0 gates)) rows
    → given rows gates ≡ reasons_for rows gates
given-reasons_for [] gates named boolean = refl
given-reasons_for (row ∷ rows) gates named boolean =
    let (name, names) = and_true (reason_of row.0 == row.1) _ named in
    let rest = given-reasons_for rows gates names boolean.1 in
    elim boolean.0 [
      | inl opened ↦ rw opened rest
      | inr closed ↦
          rw closed
            (ap (λ r. r ∷ given rows gates) ((eq_iff _ _).0 name) ∙ ap (λ rs. row.1 ∷ rs) rest)
    ]

if_false-open :
    (v : Value) (reason : String) (reasons : List String)
    → IsBoolean v
    → (disposition_of (if_false v reason reasons) ≡ pre_candidate)
      ↔ ((v ≡ bool true) × (disposition_of reasons ≡ pre_candidate))
if_false-open v reason reasons (inl opened) = (
  λ p. (opened, subst (λ x. disposition_of (if_false x reason reasons) ≡ pre_candidate) opened p),
  λ q. rw (opened, disposition_of) (q.1),
)
if_false-open v reason reasons (inr closed) = (
  λ p. cc (subst (λ x. disposition_of (if_false x reason reasons) ≡ pre_candidate) closed p),
  λ q. cc (sym closed ∙ q.0),
)

pre_candidate-open :
    (rows : List (String × String)) (gates : Fields)
    → All (λ (row : String × String). IsBoolean (field_of row.0 gates)) rows
    → (disposition_of (reasons_for rows gates) ≡ pre_candidate)
      ↔ All (λ (row : String × String). field_of row.0 gates ≡ bool true) rows
pre_candidate-open [] gates boolean = (λ h. tt, λ h. refl)
pre_candidate-open (row ∷ rows) gates boolean =
    let (to, back) = pre_candidate-open rows gates boolean.1 in
    let (opened, closed) =
      if_false-open (field_of row.0 gates) row.1 (reasons_for rows gates) boolean.0 in
    (λ h. ((opened h).0, to (opened h).1), λ h. closed (h.0, back h.1))

-- A decision is made of a well-formed intake alone: an object with the three keys, the version, a
-- digest of 64 hexadecimal digits and nine gates, each true or false. It is a pre-candidate exactly
-- when THREAD_LIVE, NOT_DUPLICATE, CHIMPMAERA_FIT, PROBLEM_EVIDENCED, ACTIONABLE, PUBLIC_ONLY,
-- CONTENT_SAFE, IP_CLEAR and LOCAL_DECISION_ONLY are all true, and its reasons are those that the
-- gates that are false have in a table of gates and reasons, in this order.
pub evaluate-IsDecided :
    (sha256_hex : String → String) (v : Value) (d : IntakeDecision)
    → evaluate sha256_hex v ≡ ok d
    → IsDecided v d
unfolding evaluate closed_gates
evaluate-IsDecided sha256_hex v d h =
    on_ok (or_throw (read_intake v) "SIGNAL_RELEASE_INTAKE_SCHEMA_DENIED") _ h λ intake read h1.
      on_ok (or_throw (canonical_json _) "TypeError") _ h1 λ text _ h2.
        let formed = read_intake-IsIntake v intake (or_throw-eq-ok (read_intake v) _ read) in
        let reasons = given-reasons_for gate_table intake.gates refl formed.boolean in
        subst (IsDecided v) (ok_injective h2) (record {
          signal_digest = intake.signal_digest;
          gates = intake.gates;
          formed = formed;
          candidate =
              subst
                (λ rs.
                  (disposition_of rs ≡ pre_candidate)
                  ↔ All (λ (row : String × String). field_of row.0 intake.gates ≡ bool true)
                      gate_table)
                (sym reasons) (pre_candidate-open gate_table intake.gates formed.boolean);
          reasons = reasons;
        })

HasText-unsigned_value : (s : String) (reasons : List String) → HasText (unsigned_value s reasons)
HasText-unsigned_value s reasons = HasText-obj (
    HasTexts-field (HasText-str s) (
      HasTexts-field (HasText-str _) (
        HasTexts-field (HasText-arr (HasItems-array str HasText-str reasons)) (
          HasTexts-field (HasText-arr (HasItems-array str HasText-str gate_names))
            (HasTexts-field (HasText-str _) HasTexts-end)))))

pub evaluate_total :
    (sha256_hex : String → String) (v : Value) (intake : Intake)
    → read_intake v ≡ some intake
    → (d : IntakeDecision) × (evaluate sha256_hex v ≡ ok d)
unfolding evaluate
evaluate_total sha256_hex v intake h =
    bind-total (intake, ap (λ o. or_throw o "SIGNAL_RELEASE_INTAKE_SCHEMA_DENIED") h)
      λ read.
        let t =
          HasText-unsigned_value read.signal_digest (map reason_of (closed_gates read.gates)) in
        bind-total (t.text, ap (λ o. or_throw o "TypeError") t.canonical) λ text. (_, refl)
