-- ===== src/Boundary/Verify.antt =====
-- injection-trust-boundary.ts: `verifyTrustBoundaryResultV1`.
use chimp_maera.Common.{
  String, Bool, false, not, ◌&&◌, Option, none, some, List, [], ◌∷◌, ◌==◌, eqb, ltb, length,
  if◌then◌else◌, Result, ok, ◌>>=◌, ◌>>◌, require, or_throw, is_some,
}
use chimp_maera.Json.{Value, Fields, obj, field_of, omit}
use chimp_maera.Json.Guards.{as_array, as_record, as_text, exact_keys, is_null, is_text}
use chimp_maera.Rights.Compile.{digest}
use chimp_maera.Boundary.Values.{no_authority, result_version}

abbrev pub invalid_result : String
invalid_result = "TRUST_BOUNDARY_RESULT_INVALID_DENIED"

abbrev pub verified_keys : List String
verified_keys =
    "action" ∷ "actionDigest" ∷ "candidateDigest" ∷ "claim" ∷ "evidence" ∷ "evidenceDigest"
    ∷ "inputDigest" ∷ "issues" ∷ "outcome" ∷ "resultDigest" ∷ "schemaVersion" ∷ []

-- an array whose length passes a test
abbrev array_where : (List Value → Bool) → Option (List Value) → Bool
array_where test none = false
array_where test (some vs) = test vs

abbrev is_none_of : List Value → Bool
is_none_of vs = eqb (length vs) 0

abbrev is_denial : Fields → Bool
is_denial fs =
    is_text (field_of "outcome" fs) "DENY"
    && is_null (field_of "action" fs)
    && is_null (field_of "actionDigest" fs)
    && is_null (field_of "candidateDigest" fs)
    && is_null (field_of "evidenceDigest" fs)
    && array_where is_none_of (as_array (field_of "evidence" fs))
    && array_where (λ vs. not (ltb (length vs) 1)) (as_array (field_of "issues" fs))

module _ (sha256_hex : String → String) where
  -- `typeof claimed === "string" && digest(value) === claimed`, or it throws
  unfoldable pub require_digest : Value → Value → Result (Unit {0})
  unfolding digest
  require_digest v claimed = do
    text ← or_throw (as_text claimed) invalid_result
    d ← digest sha256_hex v
    require (d == text) invalid_result

  -- the tests of a reconstructed candidate
  unfoldable pub require_candidate : Fields → Result (Unit {0})
  unfolding require_digest
  require_candidate fs = do
    require (is_some (as_record (field_of "action" fs))) invalid_result
    require_digest (field_of "action" fs) (field_of "actionDigest" fs)
    require (is_some (as_array (field_of "evidence" fs))) invalid_result
    require_digest (field_of "evidence" fs) (field_of "evidenceDigest" fs)
    require (array_where is_none_of (as_array (field_of "issues" fs))) invalid_result

  -- the tests by the outcome
  unfoldable pub require_outcome : Fields → Result (Unit {0})
  unfolding require_candidate
  require_outcome fs =
      if is_text (field_of "outcome" fs) "RECONSTRUCTED_CANDIDATE"
      then require_candidate fs
      else require (is_denial fs) invalid_result

  -- `verifyTrustBoundaryResultV1`
  unfoldable pub verify_result : Value → Result Value
  unfolding require_outcome
  verify_result v = do
    fs ← or_throw (exact_keys v verified_keys) invalid_result
    require
        (is_text (field_of "schemaVersion" fs) result_version
          && is_text (field_of "claim" fs) no_authority)
        invalid_result
    require_digest (obj (omit "resultDigest" fs)) (field_of "resultDigest" fs)
    require_outcome fs
    ok v
