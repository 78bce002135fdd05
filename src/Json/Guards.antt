-- ===== src/Json/Guards.antt =====
-- The type guards that every contract repeats: `isRecord`, `exactKeys`, `isSafeInteger` and the
-- narrowing of texts and arrays. A guard that narrows returns the narrowed value.
use Prim.Native.Char.{code}
use chimp_maera.Common.{
  ℕ, ◌+◌, ◌-◌, ◌^◌, String, Bool, true, false, ◌&&◌, Option, none, some, List, [], ◌∷◌, ◌==◌, leb,
  texts_eq, and_then, if◌then◌else◌, when,
}
use chimp_maera.Common.Order.{sort_texts}
use chimp_maera.Json.{nat, Value, null, str, num, arr, obj, Fields, items, keys}

-- `isRecord`: the fields of a plain object
abbrev pub as_record : Value → Option Fields
as_record (obj fs) = some fs
as_record v = none

-- `exactObject`: a plain object whose sorted keys are the given sorted keys. The source compares the
-- canonical JSON of the two lists of keys, which is equal when the lists are.
unfoldable pub has_keys : Fields → List String → Bool
unfolding sort_texts
has_keys fs sorted = texts_eq (sort_texts (keys fs)) sorted

abbrev pub exact_object : Value → List String → Option Fields
exact_object (obj fs) sorted = when (has_keys fs sorted) fs
exact_object v sorted = none

-- `exactKeys`, which sorts the expected keys too
abbrev pub exact_keys : Value → List String → Option Fields
exact_keys v expected = exact_object v (sort_texts expected)

-- `typeof value === "string"`
abbrev pub as_text : Value → Option String
as_text (str s) = some s
as_text v = none

-- `value === text`
abbrev pub is_text : Value → String → Bool
is_text (str s) t = s == t
is_text v t = false

-- `value === null`
abbrev pub is_null : Value → Bool
is_null null = true
is_null v = false

-- `Array.isArray(value)`
abbrev pub as_array : Value → Option (List Value)
as_array (arr vs) = some (items vs)
as_array v = none

abbrev pub max_safe_integer : ℕ
max_safe_integer = 2 ^ 53 - 1

-- `Number.isSafeInteger(value) && value >= least`, for the bounds that the program uses
abbrev pub safe_integer : ℕ → Value → Option ℕ
safe_integer least (num (nat n)) = when (leb n max_safe_integer && leb least n) n
safe_integer least v = none

-- an array of texts that all pass a test
abbrev pub texts_where : (String → Bool) → List Value → Option (List String)
texts_where p [] = some []
texts_where p (v ∷ vs) =
    and_then (as_text v) λ s. and_then (texts_where p vs) λ rest. when (p s) (s ∷ rest)

-- `value.length` of a text counts UTF-16 units: two for a code point from U+10000 up.
abbrev pub utf16_length : String → ℕ
utf16_length String.[] = 0
utf16_length (String.◌∷◌ c s) = (if leb 65536 (code c) then 2 else 1) + utf16_length s
