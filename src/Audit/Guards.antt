-- ===== src/Audit/Guards.antt =====
-- protected-audit-timeline.ts: the patterns of ids, digests and reason codes, and the key lists.
use chimp_maera.Common.{ℕ, String, Bool, true, ◌&&◌, Option, List, [], ◌∷◌, and_then, when}
use chimp_maera.Common.Order.{codes, sort_texts, text_lt}
use chimp_maera.Common.Pattern.{
  is_lower, is_upper, is_digit, is_hex, one_of, ◌or◌, run, headed, around,
}
use chimp_maera.Json.{Value}
use chimp_maera.Json.Guards.{as_text, safe_integer}

abbrev pub event_schema : String
event_schema = "chimpmaera.audit/protected-event/v1"

abbrev pub event_keys : List String
event_keys = sort_texts (
    "actorId" ∷ "correlationId" ∷ "eventId" ∷ "eventKind" ∷ "facts" ∷ "observedAtMs"
    ∷ "occurredAtMs" ∷ "operationId" ∷ "references" ∷ "schemaVersion" ∷ "sequence" ∷ "tenant"
    ∷ "timelineId" ∷ [])

abbrev pub fact_keys : List String
fact_keys = sort_texts ("evidenceDigests" ∷ "outcome" ∷ "reasonCodes" ∷ [])

abbrev pub signer_keys : List String
signer_keys = sort_texts ("algorithm" ∷ "generation" ∷ "keyId" ∷ [])

-- `/^[a-f0-9]{64}$/`
unfoldable pub digest_ok : String → Bool
unfolding run
digest_ok s = run is_hex 64 64 (codes s)

-- `/^[a-z][a-z0-9_-]{1,31}:[a-z0-9][a-z0-9._-]{2,95}$/`
unfoldable pub id_ok : String → Bool
unfolding headed around
id_ok s =
    around b':' (headed is_lower (is_lower or is_digit or one_of (codes "_-")) 1 31)
      (headed (is_lower or is_digit) (is_lower or is_digit or one_of (codes "._-")) 2 95) []
      (codes s)

-- `/^[A-Z][A-Z0-9_]{2,95}$/`
unfoldable pub reason_ok : String → Bool
unfolding headed
reason_ok s = headed is_upper (is_upper or is_digit or one_of (codes "_")) 2 95 (codes s)

unfoldable pub valid_digest : Value → Option String
unfolding digest_ok
valid_digest v = and_then (as_text v) λ s. when (digest_ok s) s

unfoldable pub valid_id : Value → Option String
unfolding id_ok
valid_id v = and_then (as_text v) λ s. when (id_ok s) s

abbrev pub valid_time : Value → Option ℕ
valid_time = safe_integer 0

-- each text is before the next one
unfoldable pub sorted_unique : List String → Bool
unfolding text_lt
sorted_unique [] = true
sorted_unique (s ∷ []) = true
sorted_unique (s ∷ t ∷ rest) = text_lt s t && sorted_unique (t ∷ rest)
