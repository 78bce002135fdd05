-- ===== src/Boundary/Candidate.antt =====
-- injection-trust-boundary.ts: `parseContactArguments`, `parseOrderArguments`, `parseCandidate` and
-- `reconstructAction`.
use chimp_maera.Common.{
  ℕ, String, Bool, not, ◌&&◌, Option, none, some, List, [], ◌∷◌, eqb, leb, ltb, length,
  if◌then◌else◌, texts_eq,
}
use chimp_maera.Common.Order.{codes, sort_texts}
use chimp_maera.Common.Pattern.{
  after_prefix, around, is_alnum, is_digit, is_upper, one_of, run, ◌or◌,
}
use chimp_maera.Common.Maybe.{◌>>=◌, ◌>>◌, check}
use chimp_maera.Json.{Value, Fields, str, num, nat, end, field, field_of}
use chimp_maera.Json.Guards.{
  as_array, as_record, as_text, exact_keys, is_text, safe_integer, texts_where,
}
use chimp_maera.Rights.Parse.{Checked, add, add_if, bound_identifier_ok, distinct, sorted_distinct}
use chimp_maera.Boundary.{
  ActionArguments, ParsedCandidate, ReconstructedAction, ReconstructionContext, contact_arguments,
  order_arguments,
}
use chimp_maera.Boundary.Parse.{bound_text, bound_text_ok, catalog_version, ids_of}

abbrev pub argument_denied : String
argument_denied = "TRUST_BOUNDARY_ARGUMENT_SCHEMA_DENIED"

abbrev pub candidate_denied : String
candidate_denied = "TRUST_BOUNDARY_CANDIDATE_SCHEMA_DENIED"

abbrev pub candidate_version : String
candidate_version = "chimpmaera.security/typed-action-candidate/v1"

abbrev pub candidate_keys : List String
candidate_keys =
    "actionId" ∷ "arguments" ∷ "catalogVersion" ∷ "evidenceEnvelopeIds" ∷ "schemaVersion" ∷ []

abbrev local_class : ℕ → Bool
local_class = is_alnum or one_of (codes ".!#$%&'*+/=?^_`{|}~-")

abbrev domain_class : ℕ → Bool
domain_class = is_alnum or one_of (codes ".-")

-- the regular expression of an address; no class before the @ holds it
unfoldable pub address_ok : String → Bool
unfolding around run
address_ok s = around b'@' (run local_class 1 64) (run domain_class 1 190) [] (codes s)

-- `parseContactArguments`, without its issue
unfoldable pub read_contact : Value → Option ActionArguments
unfolding bound_text_ok address_ok
read_contact v = do
  fs ← exact_keys v ("emailAddress" ∷ "firstName" ∷ "lastName" ∷ [])
  first_name ← bound_text 80 (field_of "firstName" fs)
  last_name ← bound_text 80 (field_of "lastName" fs)
  email_address ← as_text (field_of "emailAddress" fs)
  check (address_ok email_address)
  some (contact_arguments email_address first_name last_name)

abbrev reference_class : ℕ → Bool
reference_class = is_upper or is_digit or one_of (codes "-")

-- `/^CM-[A-Z0-9-]{1,61}$/`
unfoldable pub reference_ok : String → Bool
unfolding after_prefix run
reference_ok s = after_prefix (codes "CM-") (run reference_class 1 61) (codes s)

-- `parseOrderArguments`, without its issue
unfoldable pub read_order : Value → Option ActionArguments
unfolding reference_ok
read_order v = do
  fs ← exact_keys v ("customerId" ∷ "customerReference" ∷ "orderDateEpoch" ∷ [])
  customer_id ← safe_integer 1 (field_of "customerId" fs)
  check (leb customer_id 1000000)
  order_date_epoch ← safe_integer 1735689600 (field_of "orderDateEpoch" fs)
  check (leb order_date_epoch 1893456000)
  customer_reference ← as_text (field_of "customerReference" fs)
  check (reference_ok customer_reference)
  some (order_arguments customer_id customer_reference order_date_epoch)

-- the issue of arguments that could not be read
abbrev pub argument_issue : Option ActionArguments → List String → Checked ActionArguments
argument_issue none issues = (add argument_denied issues, none)
argument_issue (some a) issues = (issues, some a)

-- the arguments by the action
unfoldable pub read_arguments : Value → Value → List String → Checked ActionArguments
unfolding read_contact read_order
read_arguments action_id v issues =
    if is_text action_id "crm.contact.create"
    then argument_issue (read_contact v) issues
    else if is_text action_id "erp.order.create"
    then argument_issue (read_order v) issues
    else (add "TRUST_BOUNDARY_ACTION_UNKNOWN_DENIED" issues, none)

-- The ids of the candidate are each given once, and are those of the context. The source compares the
-- canonical JSON of the two sorted lists, which is equal when the lists are.
unfoldable pub is_bound : List String → ReconstructionContext → Bool
unfolding sort_texts
is_bound ids c =
    eqb (length (distinct ids)) (length ids)
    && texts_eq (sorted_distinct ids) (sort_texts (ids_of c.envelopes))

abbrev pub candidate_when :
    List String → Option ActionArguments → List String → Checked ParsedCandidate
candidate_when (i ∷ is) arguments ids = (i ∷ is, none)
candidate_when [] none ids = ([], none)
candidate_when [] (some a) ids =
    ([], some (record { arguments = a; evidence_ids = sorted_distinct ids }))

-- behind the reading of the arguments
abbrev pub judge_evidence :
    List String → ReconstructionContext → Checked ActionArguments → Checked ParsedCandidate
judge_evidence ids c (issues, arguments) =
    candidate_when (add_if (not (is_bound ids c)) "TRUST_BOUNDARY_EVIDENCE_BINDING_DENIED" issues)
      arguments ids

-- The fields and the ids of a candidate of the right shape.
unfoldable pub read_candidate : Value → Option (Fields × List String)
unfolding bound_identifier_ok
read_candidate v = do
  fs ← exact_keys v candidate_keys
  check (is_text (field_of "schemaVersion" fs) candidate_version)
  entries ← as_array (field_of "evidenceEnvelopeIds" fs)
  check (not (ltb (length entries) 1))
  ids ← texts_where bound_identifier_ok entries
  some (fs, ids)

-- behind the test of the catalog version
abbrev pub judge_record :
    Option Fields
    → Fields
    → List String
    → ReconstructionContext
    → List String
    → Checked ParsedCandidate
judge_record none fs ids c issues = (add argument_denied issues, none)
judge_record (some arguments) fs ids c issues =
    judge_evidence ids c (read_arguments (field_of "actionId" fs) (field_of "arguments" fs) issues)

abbrev pub judge_candidate :
    Option (Fields × List String) → ReconstructionContext → List String → Checked ParsedCandidate
judge_candidate none c issues = (add candidate_denied issues, none)
judge_candidate (some (fs, ids)) c issues =
    judge_record (as_record (field_of "arguments" fs)) fs ids c (
      add_if (not (is_text (field_of "catalogVersion" fs) catalog_version))
        "TRUST_BOUNDARY_CATALOG_VERSION_DENIED" issues)

-- `parseCandidate`
unfoldable pub parse_candidate :
    Value → ReconstructionContext → List String → Checked ParsedCandidate
unfolding read_candidate read_arguments is_bound
parse_candidate v c issues = judge_candidate (read_candidate v) c issues

-- `reconstructAction`
unfoldable pub reconstruct_action : ActionArguments → ReconstructionContext → ReconstructedAction
reconstruct_action (contact_arguments email_address first_name last_name) c = record {
  actor = c.actor;
  tenant = c.tenant;
  replay_key = c.replay_key;
  credential_handle = "secret-handle:espocrm-local-v1";
  path = "/Contact";
  body = field "description" (str "PanSphaira trust-boundary synthetic contact") (
      field "emailAddress" (str email_address)
        (field "firstName" (str first_name) (field "lastName" (str last_name) end)));
  provider = "espocrm";
  entity = "Contact";
}
reconstruct_action (order_arguments customer_id customer_reference order_date_epoch) c = record {
  actor = c.actor;
  tenant = c.tenant;
  replay_key = c.replay_key;
  credential_handle = "secret-handle:dolibarr-local-v1";
  path = "/orders";
  body =
      field "date" (num (nat order_date_epoch))
        (field "ref_client" (str customer_reference) (field "socid" (num (nat customer_id)) end));
  provider = "dolibarr";
  entity = "Order";
}
