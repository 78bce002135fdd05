-- ===== src/Boundary/Parse.antt =====
-- injection-trust-boundary.ts: `isBoundText`, `parseEnvelope` and `parseContext`. They add to a set of
-- issues, which is a list without repetition, and answer null or what they read.
use chimp_maera.Common.{
  ℕ, String, Bool, true, false, not, ◌&&◌, ◌||◌, Option, none, some, List, [], ◌∷◌, ◌++◌, ◌==◌, any,
  eqb, leb, ltb, length, includes, map, if◌then◌else◌,
}
use chimp_maera.Common.Order.{codes, sort}
use chimp_maera.Common.Pattern.{after_prefix, is_alnum, one_of, run, ◌or◌}
use chimp_maera.Common.Maybe.{◌>>=◌, ◌>>◌, check}
use chimp_maera.Json.{Value, Fields, field_of}
use chimp_maera.Json.Guards.{as_array, as_text, exact_keys, is_text, utf16_length}
use chimp_maera.Rights.Parse.{Checked, add, add_if, bound_identifier, bound_identifier_ok}
use chimp_maera.Boundary.{
  ContentEnvelope, ContentOrigin, ContentTrust, ReconstructionContext, class_of, expected_trust,
  origin_of, trust_name, trust_of,
}

-- `[\u0000-\u0008\u000b\u000c\u000e-\u001f\u007f]`
abbrev is_control : ℕ → Bool
is_control c = leb c 8 || eqb c 11 || eqb c 12 || (leb 14 c && leb c 31) || eqb c 127

-- the condition of `isBoundText` on a text
unfoldable pub bound_text_ok : ℕ → String → Bool
bound_text_ok maximum s =
    ltb 0 (utf16_length s) && leb (utf16_length s) maximum && not (any is_control (codes s))

-- `isBoundText`
abbrev pub bound_text : ℕ → Value → Option String
bound_text maximum v = do s ← as_text v; check (bound_text_ok maximum s); some s

abbrev pub envelope_denied : String
envelope_denied = "TRUST_BOUNDARY_ENVELOPE_SCHEMA_DENIED"

abbrev pub context_denied : String
context_denied = "TRUST_BOUNDARY_CONTEXT_SCHEMA_DENIED"

abbrev pub envelope_version : String
envelope_version = "chimpmaera.security/content-envelope/v1"

abbrev pub context_version : String
context_version = "chimpmaera.security/trusted-reconstruction-context/v1"

abbrev pub catalog_version : String
catalog_version = "chimpmaera.security/trusted-action-catalog/v1"

abbrev pub envelope_keys : List String
envelope_keys =
    "content" ∷ "dataClass" ∷ "envelopeId" ∷ "instructionEligibility" ∷ "origin" ∷ "schemaVersion"
    ∷ "tenant" ∷ "trust" ∷ []

abbrev pub context_keys : List String
context_keys =
    "actor" ∷ "catalogVersion" ∷ "envelopes" ∷ "replayKey" ∷ "schemaVersion" ∷ "tenant" ∷ []

-- The fields of an envelope that has the right shape.
unfoldable pub read_fields : Fields → Option ContentEnvelope
unfolding bound_identifier_ok bound_text_ok origin_of trust_of class_of
read_fields fs = do
  check (is_text (field_of "schemaVersion" fs) envelope_version)
  envelope_id ← bound_identifier (field_of "envelopeId" fs)
  origin_text ← as_text (field_of "origin" fs)
  origin ← origin_of origin_text
  trust_text ← as_text (field_of "trust" fs)
  trust ← trust_of trust_text
  class_text ← as_text (field_of "dataClass" fs)
  data_class ← class_of class_text
  content ← bound_text 16384 (field_of "content" fs)
  tenant ← bound_identifier (field_of "tenant" fs)
  some (record {
    envelope_id = envelope_id;
    origin = origin;
    trust = trust;
    tenant = tenant;
    data_class = data_class;
    content = content;
  })

-- an envelope of the right shape, with its instruction eligibility
unfoldable pub read_content_envelope : Value → Option (Bool × ContentEnvelope)
unfolding read_fields
read_content_envelope v = do
  fs ← exact_keys v envelope_keys
  e ← read_fields fs
  some (is_text (field_of "instructionEligibility" fs) "DATA_ONLY", e)

abbrev pub trusts : ContentOrigin → ContentTrust → Bool
trusts origin trust = trust_name (expected_trust origin) == trust_name trust

abbrev pub label_issues : String → Bool → ContentEnvelope → List String
label_issues tenant data_only e =
    add_if (not (trusts e.origin e.trust)) "TRUST_BOUNDARY_ORIGIN_TRUST_MISMATCH_DENIED" (
      add_if (not (e.tenant == tenant)) "TRUST_BOUNDARY_TENANT_BINDING_DENIED"
        (add_if (not data_only) "TRUST_BOUNDARY_INSTRUCTION_ELIGIBILITY_DENIED" []))

-- `if (issues.size > 0) return null`
abbrev pub unless_issues {ℓ} : {A : Type ℓ} → List String → A → Checked A
unless_issues [] a = ([], some a)
unless_issues (i ∷ is) a = (i ∷ is, none)

abbrev pub judge_envelope : String → Option (Bool × ContentEnvelope) → Checked ContentEnvelope
judge_envelope tenant none = (envelope_denied ∷ [], none)
judge_envelope tenant (some (data_only, e)) = unless_issues (label_issues tenant data_only e) e

-- `parseEnvelope`, which is called with an empty set of issues
unfoldable pub parse_envelope : String → Value → Checked ContentEnvelope
unfolding read_content_envelope
parse_envelope tenant v = judge_envelope tenant (read_content_envelope v)

-- `for (const issue of envelopeIssues) issues.add(issue)`
abbrev pub add_all : List String → List String → List String
add_all [] issues = issues
add_all (i ∷ is) issues = add_all is (add i issues)

abbrev pub ids_of : List ContentEnvelope → List String
ids_of es = map (λ (e : ContentEnvelope). e.envelope_id) es

-- the end of a round, with the envelope that was read
abbrev pub take_envelope :
    Checked ContentEnvelope
    → List ContentEnvelope
    → List String
    → List String × List ContentEnvelope
take_envelope (found, none) es issues = (add_all found issues, es)
take_envelope (found, some e) es issues =
    if includes (ids_of es) e.envelope_id
    then (add "TRUST_BOUNDARY_ENVELOPE_DUPLICATE_DENIED" (add_all found issues), es)
    else (add_all found issues, es ++ e ∷ [])

-- the loop over the envelopes; the set of ids is that of the envelopes so far
unfoldable pub read_envelopes :
    String → List Value → List ContentEnvelope → List String → List String × List ContentEnvelope
unfolding parse_envelope
read_envelopes tenant [] es issues = (issues, es)
read_envelopes tenant (v ∷ vs) es issues =
    let (issues_here, es_here) = take_envelope (parse_envelope tenant v) es issues in
    read_envelopes tenant vs es_here issues_here

-- `/^admin-ai:poc:[A-Za-z0-9:._-]{8,140}$/`
unfoldable pub replay_key_ok : String → Bool
unfolding after_prefix run
replay_key_ok s =
    after_prefix (codes "admin-ai:poc:") (run (is_alnum or one_of (codes ":._-")) 8 140) (codes s)

-- The actor, tenant, replay key and envelopes of a context of the right shape.
unfoldable pub read_context : Value → Option (Fields × String × String × String × List Value)
unfolding bound_identifier_ok replay_key_ok
read_context v = do
  fs ← exact_keys v context_keys
  check (is_text (field_of "schemaVersion" fs) context_version)
  actor ← bound_identifier (field_of "actor" fs)
  tenant ← bound_identifier (field_of "tenant" fs)
  replay_key ← as_text (field_of "replayKey" fs)
  check (replay_key_ok replay_key)
  envelopes ← as_array (field_of "envelopes" fs)
  check (not (ltb (length envelopes) 1) && not (ltb 32 (length envelopes)))
  some (fs, actor, tenant, replay_key, envelopes)

-- the issues and the context, once the envelopes were read
abbrev pub context_when : List String → Bool → ReconstructionContext → Checked ReconstructionContext
context_when (i ∷ is) complete c = (i ∷ is, none)
context_when [] false c = ([], none)
context_when [] true c = ([], some c)

-- `localeCompare`, as an order
module _ (locale_lt : String → String → Bool) where
  abbrev pub envelope_lt : ContentEnvelope → ContentEnvelope → Bool
  envelope_lt a b = locale_lt a.envelope_id b.envelope_id

  abbrev pub judge_context :
      Option (Fields × String × String × String × List Value) → Checked ReconstructionContext
  judge_context none = (context_denied ∷ [], none)
  judge_context (some (fs, actor, tenant, replay_key, values)) =
      let version_issues =
        add_if (not (is_text (field_of "catalogVersion" fs) catalog_version))
          "TRUST_BOUNDARY_CATALOG_VERSION_DENIED" [] in
      let (issues, es) = read_envelopes tenant values [] version_issues in
      context_when issues (eqb (length es) (length values)) (record {
        actor = actor;
        tenant = tenant;
        replay_key = replay_key;
        envelopes = sort envelope_lt es;
      })

  -- `parseContext`, which is called with an empty set of issues
  unfoldable pub parse_context : Value → Checked ReconstructionContext
  unfolding read_context read_envelopes
  parse_context v = judge_context (read_context v)
