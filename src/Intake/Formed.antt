-- ===== src/Intake/Formed.antt =====
-- signal-release-intake.ts: what a well-formed intake is, and its nine gates, written out.
use chimp_maera.Common.{
  ℕ, ◌≤◌, String, ◌≡◌, refl, sym, ap, ◌∙◌, Bool, true, false, ◌&&◌, some, List, [], ◌∷◌, ◌==◌,
  arith, eq_iff, length, includes, all, All, ◌⊎◌, inl, inr, Bool-cases, if◌then◌else◌,
  texts_eq_sound, subst, when, some_injective, ◌||◌,
}
use chimp_maera.Common.Maybe.{on_some, on_check}
use chimp_maera.Common.Order.{codes, sort_texts}
use chimp_maera.Common.Order.Kept.{includes-sort_texts}
use chimp_maera.Common.Pattern.{run, is_hex}
use chimp_maera.Json.{Value, Fields, end, field, obj, str, bool, keys, field_of}
use chimp_maera.Json.Guards.{has_keys, exact_keys, is_text, as_text}
use chimp_maera.Intake.Shape.{Intake, read_intake, intake_keys, gate_names, all_boolean, is_boolean}

-- The nine gates, each with the reason that it gives when it is false.
abbrev pub gate_table : List (String × String)
gate_table =
    ("THREAD_LIVE", "THREAD_LIVE_DENIED")
    ∷ ("NOT_DUPLICATE", "NOT_DUPLICATE_DENIED")
    ∷ ("CHIMPMAERA_FIT", "CHIMPMAERA_FIT_DENIED")
    ∷ ("PROBLEM_EVIDENCED", "PROBLEM_EVIDENCED_DENIED")
    ∷ ("ACTIONABLE", "ACTIONABLE_DENIED")
    ∷ ("PUBLIC_ONLY", "PUBLIC_ONLY_DENIED")
    ∷ ("CONTENT_SAFE", "CONTENT_SAFE_DENIED")
    ∷ ("IP_CLEAR", "IP_CLEAR_DENIED")
    ∷ ("LOCAL_DECISION_ONLY", "LOCAL_DECISION_ONLY_DENIED")
    ∷ []

-- 64 characters of 0-9 and a-f
abbrev pub IsHexDigest : String → Type 0
IsHexDigest s =
    (length (codes s) ≡ 64)
    × All (λ c. ((b'0' ≤ c) × (c ≤ b'9')) ⊎ ((b'a' ≤ c) × (c ≤ b'f'))) (codes s)

abbrev pub IsBoolean : Value → Type 0
IsBoolean v = (v ≡ bool true) ⊎ (v ≡ bool false)

-- An intake: an object with three keys, of its version, a digest, and nine gates that are true or
-- false.
pub record IsIntake (v : Value) (signal_digest : String) (gates : Fields) : Type 0 where
  pub fields : Fields
  pub is_object : v ≡ obj fields
  pub keyed : sort_texts (keys fields) ≡ "gates" ∷ "schemaVersion" ∷ "signalDigest" ∷ []
  pub version : field_of "schemaVersion" fields ≡ str "chimpmaera.dev/signal-release-intake/v1"
  pub signal : field_of "signalDigest" fields ≡ str signal_digest
  pub digested : IsHexDigest signal_digest
  pub gated : field_of "gates" fields ≡ obj gates
  pub nine :
      sort_texts (keys gates)
      ≡ "ACTIONABLE" ∷ "CHIMPMAERA_FIT" ∷ "CONTENT_SAFE" ∷ "IP_CLEAR" ∷ "LOCAL_DECISION_ONLY"
        ∷ "NOT_DUPLICATE" ∷ "PROBLEM_EVIDENCED" ∷ "PUBLIC_ONLY" ∷ "THREAD_LIVE" ∷ []
  pub boolean : All (λ (row : String × String). IsBoolean (field_of row.0 gates)) gate_table

when-eq-some : (b : Bool) {x y : Fields} → when b x ≡ some y → (b ≡ true) × (x ≡ y)
when-eq-some true h = (refl, some_injective h)
when-eq-some false h = cc

has_keys-eq-sorted :
    (fs : Fields) (sorted : List String) → has_keys fs sorted ≡ true → sort_texts (keys fs) ≡ sorted
unfolding has_keys
has_keys-eq-sorted fs sorted h = texts_eq_sound _ _ h

exact_keys-eq-some :
    (v : Value) (expected : List String) {fs : Fields}
    → exact_keys v expected ≡ some fs
    → (v ≡ obj fs) × (sort_texts (keys fs) ≡ sort_texts expected)
exact_keys-eq-some (obj fs) expected h =
    let (keyed, same) = when-eq-some (has_keys fs (sort_texts expected)) h in
    (
      ap obj same,
      ap (λ gs. sort_texts (keys gs)) (sym same)
          ∙ has_keys-eq-sorted fs (sort_texts expected) keyed,
    )
exact_keys-eq-some v expected h = cc

as_text-eq-some : (v : Value) {s : String} → as_text v ≡ some s → v ≡ str s
as_text-eq-some (str s) h = cc
as_text-eq-some v h = cc

is_text-eq-str : (v : Value) (t : String) → is_text v t ≡ true → v ≡ str t
is_text-eq-str (str s) t h = ap str ((eq_iff s t).0 h)
is_text-eq-str v t h = cc

all-is_hex :
    (cs : List ℕ)
    → all is_hex cs ≡ true
    → All (λ c. ((b'0' ≤ c) × (c ≤ b'9')) ⊎ ((b'a' ≤ c) × (c ≤ b'f'))) cs
all-is_hex [] h = tt
all-is_hex (c ∷ cs) h = (ground (arith, h), all-is_hex cs (ground (arith, h)))

run-IsHexDigest : (s : String) → run is_hex 64 64 (codes s) ≡ true → IsHexDigest s
unfolding run
run-IsHexDigest s h = (ground (arith, h), all-is_hex (codes s) (ground (arith, h)))

is_boolean-IsBoolean : (v : Value) → is_boolean v ≡ true → IsBoolean v
is_boolean-IsBoolean (bool true) h = inl refl
is_boolean-IsBoolean (bool false) h = inr refl
is_boolean-IsBoolean v h = cc

pub and_true : (a b : Bool) → (a && b) ≡ true → (a ≡ true) × (b ≡ true)
and_true a b h = (ground (arith, h), ground (arith, h))

all_boolean-IsBoolean :
    (fs : Fields) (key : String)
    → all_boolean fs ≡ true
    → includes (keys fs) key ≡ true
    → IsBoolean (field_of key fs)
all_boolean-IsBoolean end key h k = cc
all_boolean-IsBoolean (field name v fs) key h k = elim (Bool-cases (name == key)) [
  | inl here ↦
      subst IsBoolean (sym (ap (λ b. if b then v else field_of key fs) here))
        (is_boolean-IsBoolean v (and_true (is_boolean v) (all_boolean fs) h).0)
  | inr there ↦ subst IsBoolean (sym (ap (λ b. if b then v else field_of key fs) there)) (
      all_boolean-IsBoolean fs key (and_true (is_boolean v) (all_boolean fs) h).1
        (ap (λ b. b || includes (keys fs) key) (sym there) ∙ k))
]

has_gate :
    (gates : Fields) (gate : String)
    → sort_texts (keys gates) ≡ sort_texts gate_names
    → includes gate_names gate ≡ true
    → includes (keys gates) gate ≡ true
has_gate gates gate h k =
    sym (includes-sort_texts (keys gates) gate)
    ∙ ap (λ names. includes names gate) h
    ∙ includes-sort_texts gate_names gate
    ∙ k

-- the gates of a table of known names are true or false
booleans :
    (gates : Fields) (table : List (String × String))
    → all_boolean gates ≡ true
    → sort_texts (keys gates) ≡ sort_texts gate_names
    → all (λ (row : String × String). includes gate_names row.0) table ≡ true
    → All (λ (row : String × String). IsBoolean (field_of row.0 gates)) table
booleans gates [] h keyed known = tt
booleans gates (row ∷ rows) h keyed known =
    let (here, rest) = and_true (includes gate_names row.0) _ known in
    (
      all_boolean-IsBoolean gates row.0 h (has_gate gates row.0 keyed here),
      booleans gates rows h keyed rest,
    )

-- What is read is a well-formed intake.
pub read_intake-IsIntake :
    (v : Value) (intake : Intake)
    → read_intake v ≡ some intake
    → IsIntake v intake.signal_digest intake.gates
unfolding read_intake sort_texts
read_intake-IsIntake v intake h = on_some (exact_keys v intake_keys) _ h λ fs shaped h1.
    on_check _ _ h1 λ version h2.
      on_some (as_text (field_of "signalDigest" fs)) _ h2 λ signal is_signal h3.
        on_check _ _ h3 λ hex h4.
          on_some (exact_keys (field_of "gates" fs) gate_names) _ h4 λ gates gated h5.
            on_check (all_boolean gates) _ h5 λ boolean h6.
              let (is_object, keyed) = exact_keys-eq-some v intake_keys shaped in
              let (is_gates, nine) = exact_keys-eq-some (field_of "gates" fs) gate_names gated in
              subst (λ (x : Intake). IsIntake v x.signal_digest x.gates) (some_injective h6)
                (record {
                  fields = fs;
                  is_object = is_object;
                  keyed = keyed;
                  version = is_text-eq-str _ _ version;
                  signal = as_text-eq-some _ is_signal;
                  digested = run-IsHexDigest signal hex;
                  gated = is_gates;
                  nine = nine;
                  boolean = booleans gates gate_table boolean nine refl;
                })
