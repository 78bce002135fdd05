-- ===== src/Json/Total.antt =====
-- packages/contracts/src/canonical-json.ts: which values have a canonical text.
use chimp_maera.Common.{
  ℕ, String, ◌≡◌, refl, ap, ◌∙◌, Bool, true, false, some, List, [], ◌∷◌, and_then, map,
}
use chimp_maera.Json.{Value, null, bool, str, num, nat, arr, obj, Items, Fields, end, field, array}
use chimp_maera.Json.Canonical.{
  canonical_json, canonical_fields, canonical_items, object_text, array_text,
}

pub record HasText (v : Value) : Type 0 where
  pub text : String
  pub canonical : canonical_json v ≡ some text

pub record HasTexts (fs : Fields) : Type 0 where
  pub entries : List (String × String)
  pub canonical : canonical_fields fs ≡ some entries

pub HasText-null : HasText null
unfolding canonical_json
HasText-null = record { text = _; canonical = refl }

pub HasText-str : (s : String) → HasText (str s)
unfolding canonical_json
HasText-str s = record { text = _; canonical = refl }

pub HasText-nat : (n : ℕ) → HasText (num (nat n))
unfolding canonical_json
HasText-nat n = record { text = _; canonical = refl }

pub HasText-obj : {fs : Fields} → HasTexts fs → HasText (obj fs)
unfolding canonical_json
HasText-obj h = record {
  text = _;
  canonical = ap (λ o. and_then o λ es. some (object_text es)) h.canonical;
}

pub HasTexts-end : HasTexts end
unfolding canonical_json
HasTexts-end = record { entries = _; canonical = refl }

pub HasTexts-field :
    {k : String} {v : Value} {fs : Fields} → HasText v → HasTexts fs → HasTexts (field k v fs)
unfolding canonical_json
HasTexts-field {k} {fs} h hs = record {
  entries = _;
  canonical =
      ap (λ o. and_then o λ t. and_then (canonical_fields fs) λ rest. some ((k, t) ∷ rest))
        h.canonical
      ∙ ap (λ o. and_then o λ rest. some ((k, h.text) ∷ rest)) hs.canonical;
}

pub record HasItems (vs : Items) : Type 0 where
  pub texts : List String
  pub canonical : canonical_items vs ≡ some texts

pub HasText-bool : (b : Bool) → HasText (bool b)
unfolding canonical_json
HasText-bool true = record { text = _; canonical = refl }
HasText-bool false = record { text = _; canonical = refl }

pub HasText-arr : {vs : Items} → HasItems vs → HasText (arr vs)
unfolding canonical_json
HasText-arr h = record {
  text = _;
  canonical = ap (λ o. and_then o λ texts. some (array_text texts)) h.canonical;
}

-- the values that a function with canonical texts makes of a list
pub HasItems-array {ℓ} :
    {A : Type ℓ} (f : A → Value)
    → ((a : A) → HasText (f a))
    → (xs : List A) → HasItems (array (map f xs))
unfolding canonical_json
HasItems-array f h [] = record { texts = _; canonical = refl }
HasItems-array f h (x ∷ xs) = record {
  texts = _;
  canonical =
      ap
        (λ o. and_then o λ t. and_then (canonical_items (array (map f xs))) λ rest. some (t ∷ rest))
        (h x).canonical
      ∙ ap (λ o. and_then o λ rest. some ((h x).text ∷ rest)) (HasItems-array f h xs).canonical;
}

pub ruleset text_rules =
    (HasText-null, HasText-str, HasText-nat, HasText-obj, HasTexts-end, HasTexts-field)
