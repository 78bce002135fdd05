-- ===== src/Json/Independence.antt =====
-- packages/contracts/src/canonical-json.ts: the canonical text forgets the order of keys.
use chimp_maera.Common.{
  String, ◌≡◌, refl, ◌≢◌, Option, none, some, List, ◌∷◌, arith, and_then, ap, ◌∙◌,
}
use chimp_maera.Common.Order.{sort}
use chimp_maera.Common.Order.Laws.{insert_comm, text_lt_cotrans, text_lt_flip}
use chimp_maera.Json.{Value, arr, obj, Items, nil, cons, Fields, end, field}
use chimp_maera.Json.Canonical.{
  key_lt, canonical_json, canonical_items, canonical_fields, object_text,
}

-- Two values that differ in the order of the keys of their objects alone, at any depth.
mutual
  pub data Same : Value → Value → Type 0 where
    itself : (v : Value) → Same v v
    in_array : {vs ws : Items} → SameItems vs ws → Same (arr vs) (arr ws)
    in_object : {fs gs : Fields} → SameFields fs gs → Same (obj fs) (obj gs)

  pub data SameItems : Items → Items → Type 0 where
    none_left : SameItems nil nil
    both :
        {v w : Value} {vs ws : Items}
        → Same v w
        → SameItems vs ws
        → SameItems (cons v vs) (cons w ws)

  pub data SameFields : Fields → Fields → Type 0 where
    done : SameFields end end
    keep :
        {k : String} {v w : Value} {fs gs : Fields}
        → Same v w
        → SameFields fs gs
        → SameFields (field k v fs) (field k w gs)
    swap :
        {k j : String} {v w : Value} {fs : Fields}
        → k ≢ j
        → SameFields (field k v (field j w fs)) (field j w (field k v fs))
    after : {fs gs hs : Fields} → SameFields fs gs → SameFields gs hs → SameFields fs hs

abbrev Entry : Type 0
Entry = String × String

abbrev sorted : Option (List Entry) → Option (List Entry)
sorted none = none
sorted (some es) = some (sort key_lt es)

object_text-sorted :
    (o p : Option (List Entry))
    → sorted o ≡ sorted p
    → and_then o (λ es. some (object_text es)) ≡ and_then p (λ es. some (object_text es))
unfolding object_text
object_text-sorted none none h = refl
object_text-sorted none (some ds) h = cc
object_text-sorted (some es) none h = cc
object_text-sorted (some es) (some ds) h = ground arith

sorted_cons :
    (e : Entry) (o p : Option (List Entry))
    → sorted o ≡ sorted p
    → sorted (and_then o λ rest. some (e ∷ rest)) ≡ sorted (and_then p λ rest. some (e ∷ rest))
unfolding sort
sorted_cons e none none h = refl
sorted_cons e none (some ds) h = cc
sorted_cons e (some es) none h = cc
sorted_cons e (some es) (some ds) h = ground arith

sorted_keep :
    (k : String) (a : Option String) (o p : Option (List Entry))
    → sorted o ≡ sorted p
    → sorted (and_then a λ t. and_then o λ rest. some ((k, t) ∷ rest))
      ≡ sorted (and_then a λ t. and_then p λ rest. some ((k, t) ∷ rest))
sorted_keep k none o p h = refl
sorted_keep k (some t) o p h = sorted_cons (k, t) o p h

sorted_swap :
    (k j : String) (a b : Option String) (o : Option (List Entry))
    → k ≢ j
    → sorted (
        and_then a λ t.
          and_then
            (and_then b λ u. and_then o λ rest. some ((j, u) ∷ rest))
            λ es. some ((k, t) ∷ es))
      ≡ sorted (
          and_then b λ u.
            and_then
              (and_then a λ t. and_then o λ rest. some ((k, t) ∷ rest))
              λ es. some ((j, u) ∷ es))
unfolding sort
sorted_swap k j none none o h = refl
sorted_swap k j none (some u) none h = refl
sorted_swap k j none (some u) (some es) h = refl
sorted_swap k j (some t) none none h = refl
sorted_swap k j (some t) none (some es) h = refl
sorted_swap k j (some t) (some u) none h = refl
sorted_swap k j (some t) (some u) (some es) h = ap some (
    insert_comm key_lt (λ a b c p. text_lt_cotrans a.0 b.0 c.0 p) (k, t) (j, u) (sort key_lt es)
      (text_lt_flip k j h))

mutual
  unfolding canonical_json

  canonical_json-Same_mutual : {v w : Value} → Same v w → canonical_json v ≡ canonical_json w
  canonical_json-Same_mutual (itself v) = refl
  canonical_json-Same_mutual (in_array s) = rw (canonical_items-Same_mutual s)
  canonical_json-Same_mutual (in_object s) = object_text-sorted _ _ (canonical_fields-Same_mutual s)

  canonical_items-Same_mutual :
      {vs ws : Items} → SameItems vs ws → canonical_items vs ≡ canonical_items ws
  canonical_items-Same_mutual none_left = refl
  canonical_items-Same_mutual (both s r) =
      rw (canonical_json-Same_mutual s, canonical_items-Same_mutual r)

  canonical_fields-Same_mutual :
      {fs gs : Fields}
      → SameFields fs gs
      → sorted (canonical_fields fs) ≡ sorted (canonical_fields gs)
  canonical_fields-Same_mutual done = refl
  canonical_fields-Same_mutual (keep {k} {v} {w} {fs} {gs} s r) =
      rw (canonical_json-Same_mutual s) (
        sorted_keep k (canonical_json w) (canonical_fields fs) (canonical_fields gs)
          (canonical_fields-Same_mutual r))
  canonical_fields-Same_mutual (swap {k} {j} {v} {w} {fs} h) =
      sorted_swap k j (canonical_json v) (canonical_json w) (canonical_fields fs) h
  canonical_fields-Same_mutual (after s r) =
      canonical_fields-Same_mutual s ∙ canonical_fields-Same_mutual r

-- Values that differ in the order of keys alone, at any depth, have the same canonical JSON, or
-- are both rejected.
pub canonical_json-Same : {v w : Value} → Same v w → canonical_json v ≡ canonical_json w
canonical_json-Same s = canonical_json-Same_mutual s
