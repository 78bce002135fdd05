-- ===== src/Rights/Verify.antt =====
-- effective-rights.ts: `verifyEffectiveRightsResultV1`, `renderPermissionXrayV1` and
-- `verifyPermissionXrayParityV1`.
use chimp_maera.Common.{
  String, Bool, true, false, not, ◌&&◌, Option, none, some, List, [], ◌∷◌, ◌++◌, all, includes,
  is_some, map, if◌then◌else◌, Result, ok, ◌>>=◌, ◌>>◌, require, or_throw,
}
use chimp_maera.Common.Order.{codes}
use chimp_maera.Common.Pattern.{is_hex, run}
use chimp_maera.Json.{
  Value, Items, Fields, nil, cons, str, arr, obj, bool, end, field, field_of, items, omit,
}
use chimp_maera.Json.Guards.{as_array, exact_keys, is_text}
use chimp_maera.Rights.{kind_name, operand_kinds}
use chimp_maera.Rights.Parse.{
  bound_identifier, bound_identifier_ok, positive_generation, scope_keys,
}
use chimp_maera.Rights.Values.{result_schema}
use chimp_maera.Rights.Compile.{digest}

abbrev pub invalid_rights : String
invalid_rights = "EFFECTIVE_RIGHTS_RESULT_INVALID_DENIED"

-- `EFFECTIVE_RIGHTS_ISSUE_CODES_V1`
abbrev pub known_issues : List String
known_issues =
    "EFFECTIVE_RIGHTS_BINDING_MISMATCH_DENIED" ∷ "EFFECTIVE_RIGHTS_EMPTY_INTERSECTION_DENIED"
    ∷ "EFFECTIVE_RIGHTS_EXPLICIT_DENY" ∷ "EFFECTIVE_RIGHTS_INPUT_SCHEMA_DENIED"
    ∷ "EFFECTIVE_RIGHTS_OPERAND_CONFLICT_DENIED" ∷ "EFFECTIVE_RIGHTS_OPERAND_DUPLICATE_DENIED"
    ∷ "EFFECTIVE_RIGHTS_OPERAND_GENERATION_STALE_DENIED"
    ∷ "EFFECTIVE_RIGHTS_OPERAND_KIND_UNKNOWN_DENIED" ∷ "EFFECTIVE_RIGHTS_OPERAND_MISSING_DENIED"
    ∷ "EFFECTIVE_RIGHTS_OPERAND_SCHEMA_DENIED" ∷ "EFFECTIVE_RIGHTS_SCOPE_UNKNOWN_DENIED" ∷ []

abbrev pub rights_keys : List String
rights_keys =
    "actor" ∷ "ceilings" ∷ "effectiveScope" ∷ "informationalOnly" ∷ "inputDigest" ∷ "issues"
    ∷ "outcome" ∷ "profileBinding" ∷ "reasonFacts" ∷ "resultDigest" ∷ "schemaVersion" ∷ "tenant"
    ∷ []

abbrev pub ceiling_keys : List String
ceiling_keys =
    "decisionCeiling" ∷ "generation" ∷ "kind" ∷ "operandDigest" ∷ "operandId" ∷ "scope" ∷ []

abbrev pub outcomes : List String
outcomes = "ALLOW" ∷ "ESCALATE" ∷ "DENY" ∷ []

abbrev pub kind_names : List String
kind_names = map kind_name operand_kinds

-- `/^[a-f0-9]{64}$/` on a text
unfoldable pub digest_text_ok : String → Bool
unfolding run
digest_text_ok s = run is_hex 64 64 (codes s)

-- The same expression on a value, which `test` turns into a text first: an array of one member has the
-- text of the member.
abbrev mutual
  pub is_digest : Value → Bool
  is_digest (str s) = digest_text_ok s
  is_digest (arr vs) = is_one_digest vs
  is_digest _ = false

  pub is_one_digest : Items → Bool
  is_one_digest (cons v nil) = is_digest v
  is_one_digest _ = false

-- `list.includes(value)`
abbrev pub is_member : List String → Value → Bool
is_member texts (str s) = includes texts s
is_member texts _ = false

abbrev is_true : Value → Bool
is_true (bool true) = true
is_true _ = false

abbrev pub is_string : Value → Bool
is_string (str s) = true
is_string _ = false

abbrev pub is_text_array : Value → Bool
is_text_array (arr vs) = all is_string (items vs)
is_text_array _ = false

-- `Object.values`
abbrev pub values_of : Fields → List Value
values_of end = []
values_of (field k v fs) = v ∷ values_of fs

abbrev shape_of : Option Fields → Bool
shape_of none = false
shape_of (some fs) = all is_text_array (values_of fs)

-- `validScopeShape`
unfoldable pub valid_scope_shape : Value → Bool
valid_scope_shape v = shape_of (exact_keys v scope_keys)

-- the tests of a ceiling but that of its kind
abbrev pub is_ceiling : Fields → Bool
is_ceiling fs =
    is_some (bound_identifier (field_of "operandId" fs))
    && is_some (positive_generation (field_of "generation" fs))
    && is_member outcomes (field_of "decisionCeiling" fs)
    && valid_scope_shape (field_of "scope" fs)
    && is_digest (field_of "operandDigest" fs)

-- a kind that is known and was not seen
abbrev pub new_kind : List String → Value → Option String
new_kind seen (str kind) =
    if includes kind_names kind && not (includes seen kind) then some kind else none
new_kind seen _ = none

-- The kind of a ceiling that passes.
abbrev pub ceiling_kind : List String → Option Fields → Option String
ceiling_kind seen none = none
ceiling_kind seen (some fs) = if is_ceiling fs then new_kind seen (field_of "kind" fs) else none

abbrev pub continue_with : Option String → (String → Bool) → Bool
continue_with none rest = false
continue_with (some kind) rest = rest kind

-- the loop over the ceilings, with the kinds so far
unfoldable pub check_ceilings : List Value → List String → Bool
unfolding valid_scope_shape bound_identifier_ok digest_text_ok
check_ceilings [] seen = true
check_ceilings (v ∷ vs) seen =
    continue_with (ceiling_kind seen (exact_keys v ceiling_keys))
      λ kind. check_ceilings vs (seen ++ kind ∷ [])

abbrev pub fact_of : Option Fields → Bool
fact_of none = false
fact_of (some fs) =
    is_string (field_of "code" fs)
    && is_string (field_of "detail" fs)
    && is_member (kind_names ++ "COMPILER" ∷ []) (field_of "source" fs)

-- a round of the loop over the facts
unfoldable pub is_fact : Value → Bool
is_fact v = fact_of (exact_keys v ("code" ∷ "detail" ∷ "source" ∷ []))

abbrev members : Option (List Value) → List Value
members none = []
members (some vs) = vs

abbrev pub values_in : String → Fields → List Value
values_in key fs = members (as_array (field_of key fs))

-- the tests in front of the digest of the result
unfoldable pub is_framed_result : Fields → Bool
unfolding digest_text_ok valid_scope_shape
is_framed_result fs =
    is_text (field_of "schemaVersion" fs) result_schema
    && is_digest (field_of "inputDigest" fs)
    && is_digest (field_of "resultDigest" fs)
    && is_member outcomes (field_of "outcome" fs)
    && is_true (field_of "informationalOnly" fs)
    && valid_scope_shape (field_of "effectiveScope" fs)
    && is_some (exact_keys (field_of "profileBinding" fs) ("profileGeneration" ∷ "profileId" ∷ []))
    && is_some (as_array (field_of "ceilings" fs))
    && is_some (as_array (field_of "reasonFacts" fs))
    && is_some (as_array (field_of "issues" fs))

module _ (sha256_hex : String → String) where
  -- `verifyEffectiveRightsResultV1`; a clone of a value is the value
  unfoldable pub verify_rights : Value → Result Value
  unfolding is_framed_result check_ceilings is_fact digest
  verify_rights v = do
    fs ← or_throw (exact_keys v rights_keys) invalid_rights
    require (is_framed_result fs) invalid_rights
    d ← digest sha256_hex (obj (omit "resultDigest" fs))
    require (is_text (field_of "resultDigest" fs) d) invalid_rights
    require (check_ceilings (values_in "ceilings" fs) []) invalid_rights
    require (all is_fact (values_in "reasonFacts" fs)) invalid_rights
    require (all (is_member known_issues) (values_in "issues" fs)) invalid_rights
    ok v
