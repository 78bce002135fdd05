-- ===== src/Json/Canonical.antt =====
-- packages/contracts/src/canonical-json.ts
use Prim.Native.Char.{Char, code}
use Prim.Native.String.{◌++◌}
use chimp_maera.Common.{
  ℕ, zero, suc, ◌+◌, ◌/◌, ◌%◌, String, ◌≡◌, refl, Bool, true, false, Option, none, some, List, [],
  ◌∷◌, ltb, eqb, if◌then◌else◌, and_then,
}
use chimp_maera.Common.Order.{text_lt, sort}
use chimp_maera.Json.{
  Number, nat, neg, float, nonfinite, Value, undefined, null, bool, num, str, arr, obj, other,
  Items, nil, cons, Fields, end, field,
}

-- a digit below 16, in lower case
abbrev hex_digit : ℕ → String
hex_digit n =
    if ltb n 8
    then (if ltb n 4
        then (if ltb n 2 then (if eqb n 0 then "0" else "1") else if eqb n 2 then "2" else "3")
        else if ltb n 6
        then (if eqb n 4 then "4" else "5")
        else if eqb n 6
        then "6"
        else "7")
    else if ltb n 12
    then (if ltb n 10 then (if eqb n 8 then "8" else "9") else if eqb n 10 then "a" else "b")
    else if ltb n 14
    then (if eqb n 12 then "c" else "d")
    else if eqb n 14
    then "e"
    else "f"

-- The digits of `n` before `rest`; the fuel bounds the digits.
digits : ℕ → ℕ → String → String
digits zero n rest = rest
digits (suc fuel) n rest =
    let here = hex_digit (n % 10) ++ rest in
    let more = digits fuel (n / 10) here in if ltb n 10 then here else more

-- an integer below 10 ^ 21 has at most 21 digits
nat_text : ℕ → String
unfolding digits
nat_text n = digits 21 n ""

-- `JSON.stringify` of a number; the program rejects the non-finite ones
number_text : Number → Option String
unfolding nat_text
number_text (nat n) = some (nat_text n)
number_text (neg n) = some ("-" ++ nat_text (n + 1))
number_text (float text) = some text
number_text nonfinite = none

-- one character of a JSON string: the short escapes, and \u00XX for the other controls
abbrev escape : Char → String
escape c =
    if eqb (code c) 34
    then "\\\""
    else if eqb (code c) 92
    then "\\\\"
    else if eqb (code c) 8
    then "\\b"
    else if eqb (code c) 9
    then "\\t"
    else if eqb (code c) 10
    then "\\n"
    else if eqb (code c) 12
    then "\\f"
    else if eqb (code c) 13
    then "\\r"
    else if ltb (code c) 32
    then "\\u00" ++ hex_digit (code c / 16) ++ hex_digit (code c % 16)
    else String.◌∷◌ c String.[]

escaped : String → String
escaped String.[] = "\""
escaped (String.◌∷◌ c s) = escape c ++ escaped s

-- `JSON.stringify` of a text
pub quote : String → String
unfolding escaped
quote s = "\"" ++ escaped s

-- `join(",")`
abbrev pub joined : List String → String
joined [] = ""
joined (s ∷ []) = s
joined (s ∷ t ∷ rest) = s ++ "," ++ joined (t ∷ rest)

abbrev Entry : Type 0
Entry = String × String

abbrev pub key_lt : Entry → Entry → Bool
key_lt a b = text_lt a.0 b.0

abbrev pub entry_text : Entry → String
entry_text (k, t) = quote k ++ ":" ++ t

abbrev pub entries_text : List Entry → List String
entries_text [] = []
entries_text (e ∷ es) = entry_text e ∷ entries_text es

unfoldable pub object_text : List Entry → String
unfolding sort text_lt quote
object_text es = "{" ++ joined (entries_text (sort key_lt es)) ++ "}"

abbrev pub array_text : List String → String
array_text texts = "[" ++ joined texts ++ "]"

-- `none` is the TypeError: `undefined`, a non-finite number or a value that is no plain JSON.
unfoldable mutual
  unfolding object_text number_text quote

  pub canonical_json : Value → Option String
  canonical_json null = some "null"
  canonical_json (bool true) = some "true"
  canonical_json (bool false) = some "false"
  canonical_json (num n) = number_text n
  canonical_json (str s) = some (quote s)
  canonical_json (arr vs) = and_then (canonical_items vs) λ texts. some (array_text texts)
  canonical_json (obj fs) = and_then (canonical_fields fs) λ es. some (object_text es)
  canonical_json undefined = none
  canonical_json (other n) = none

  pub canonical_items : Items → Option (List String)
  canonical_items nil = some []
  canonical_items (cons v vs) =
      and_then (canonical_json v) λ t. and_then (canonical_items vs) λ rest. some (t ∷ rest)

  pub canonical_fields : Fields → Option (List Entry)
  canonical_fields end = some []
  canonical_fields (field k v fs) =
      and_then (canonical_json v) λ t. and_then (canonical_fields fs) λ rest. some ((k, t) ∷ rest)

canonical_json_tests :
    (canonical_json (
        obj (
          field "b"
            (arr (cons (num (nat 120)) (cons null nil)))
            (field "a" (str "x\"\ny") (field "ab" (bool false) end))))
      ≡ some "{\"a\":\"x\\\"\\ny\",\"ab\":false,\"b\":[120,null]}")
    × (canonical_json (arr (cons undefined nil)) ≡ none)
    × (canonical_json (num (neg 6)) ≡ some "-7")
unfolding canonical_json
canonical_json_tests = (refl, refl, refl)
