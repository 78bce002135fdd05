-- ===== src/Json.antt =====
-- Values that arrive untyped (`unknown` in packages/contracts/src): what `typeof`,
-- `Array.isArray` and the prototype test tell apart. `other` is everything that is none of these: a
-- function, a class instance, a bigint. The field lists hold no key twice where a value comes from
-- JavaScript; a lookup takes the first.
pub mod Canonical
pub mod Guards
pub mod Independence
mod Tests
pub mod Total
use chimp_maera.Common.{String, Bool, List, [], ◌∷◌, ℕ, ◌==◌, if◌then◌else◌}

-- `neg n` is -(n + 1). `nat` and `neg` are integers below 10 ^ 21 in absolute value, `float` is any
-- other finite number with its JSON text, `nonfinite` is NaN or an infinity.
pub data Number : Type 0 where
  nat neg : ℕ → Number
  float : String → Number
  nonfinite : Number

mutual
  pub data Value : Type 0 where
    undefined null : Value
    bool : Bool → Value
    num : Number → Value
    str : String → Value
    arr : Items → Value
    obj : Fields → Value
    other : ℕ → Value

  pub data Items : Type 0 where
    nil : Items
    cons : Value → Items → Items

  pub data Fields : Type 0 where
    end : Fields
    field : String → Value → Fields → Fields

abbrev pub items : Items → List Value
items nil = []
items (cons v vs) = v ∷ items vs

abbrev pub array : List Value → Items
array [] = nil
array (v ∷ vs) = cons v (array vs)

-- `Object.keys`
abbrev pub keys : Fields → List String
keys end = []
keys (field k v fs) = k ∷ keys fs

-- `value[key]` on the fields of an object
abbrev pub field_of : String → Fields → Value
field_of key end = undefined
field_of key (field k v fs) = if k == key then v else field_of key fs

-- The fields without one, as `{ key: _, ...rest } = value` leaves them.
abbrev pub omit : String → Fields → Fields
omit key end = end
omit key (field k v fs) = if k == key then omit key fs else field k v (omit key fs)
