-- ===== src/Json/Tests.antt =====
-- packages/contracts/src/canonical-json.ts: runs of the model, and its theorem at a concrete value.
use chimp_maera.Common.{◌≡◌, refl, some}
use chimp_maera.Json.{Value, str, num, nat, obj, end, field}
use chimp_maera.Json.Canonical.{canonical_json}
use chimp_maera.Json.Independence.{canonical_json-Same, in_object, swap}

abbrev one_order : Value
one_order = obj (field "tenant" (str "zoo") (field "count" (num (nat 12)) end))

abbrev other_order : Value
other_order = obj (field "count" (num (nat 12)) (field "tenant" (str "zoo") end))

canonical_text : canonical_json one_order ≡ some "{\"count\":12,\"tenant\":\"zoo\"}"
unfolding canonical_json
canonical_text = refl

canonical_json-Same_example : canonical_json one_order ≡ canonical_json other_order
canonical_json-Same_example = canonical_json-Same (in_object (swap λ h. cc))
