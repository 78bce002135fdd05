-- ===== src/Planner/Version.antt =====
-- poc-setup-compatibility-planner.ts: `parseVersion`, `compareVersions` and `satisfies`. The parts of a
-- version are exact here; JavaScript rounds parts from 2 ^ 53 up.
use Prim.Native.Nat.{compare, Ordering}
use chimp_maera.Common.{
  ℕ, ◌+◌, ◌-◌, ◌*◌, String, ◌≡◌, refl, Bool, true, false, not, ◌&&◌, Option, none, some, List, [],
  ◌∷◌, eqb, length, all, keep, is_some, if◌then◌else◌, Result, ok, err, ◌>>=◌, or_throw,
}
use chimp_maera.Common.Order.{codes}
use chimp_maera.Common.Pattern.{is_digit}

pub record Version : Type 0 where
  pub major : ℕ
  pub minor : ℕ
  pub patch : ℕ

abbrev push_head : ℕ → List (List ℕ) → List (List ℕ)
push_head c [] = (c ∷ []) ∷ []
push_head c (part ∷ parts) = (c ∷ part) ∷ parts

-- `value.split(mark)` for a mark of one character
unfoldable pub split : ℕ → List ℕ → List (List ℕ)
split mark [] = [] ∷ []
split mark (c ∷ s) = let rest = split mark s in if eqb c mark then [] ∷ rest else push_head c rest

abbrev is_number : List ℕ → Bool
is_number s = not (eqb (length s) 0) && all is_digit s

-- `Number` of a run of digits, behind the digits read before
unfoldable pub digits_from : ℕ → List ℕ → ℕ
digits_from n [] = n
digits_from n (c ∷ s) = digits_from (n * 10 + (c - b'0')) s

abbrev version_of : List (List ℕ) → Option Version
version_of (a ∷ b ∷ c ∷ []) =
    if is_number a && is_number b && is_number c
    then some (record { major = digits_from 0 a; minor = digits_from 0 b; patch = digits_from 0 c })
    else none
version_of _ = none

-- `/^[0-9]+\.[0-9]+\.[0-9]+$/` with the three numbers
unfoldable pub read_version : List ℕ → Option Version
unfolding split digits_from
read_version s = version_of (split b'.' s)

-- `semver.test(value)`
abbrev pub is_semver : String → Bool
is_semver s = is_some (read_version (codes s))

-- the first difference decides
abbrev then_by : Ordering → Ordering → Ordering
then_by Ordering.eq next = next
then_by o next = o

-- `compareVersions` of two versions that were read; the sign of the difference
unfoldable pub compare_versions : Version → Version → Ordering
compare_versions v w =
    then_by (compare v.major w.major) (then_by (compare v.minor w.minor) (compare v.patch w.patch))

pub data Comparator : Type 0 where
  at_least at_most above below : Comparator

abbrev pub accepts : Comparator → Ordering → Bool
accepts at_least Ordering.lt = false
accepts at_least _ = true
accepts at_most Ordering.gt = false
accepts at_most _ = true
accepts above Ordering.gt = true
accepts above _ = false
accepts below Ordering.lt = true
accepts below _ = false

abbrev bounded : Comparator → Option Version → Option (Comparator × Version)
bounded op none = none
bounded op (some v) = some (op, v)

-- after `<` or `>`: an equals sign belongs to the comparator
abbrev comparator_tail : Comparator → Comparator → List ℕ → Option (Comparator × Version)
comparator_tail with_equal strict [] = none
comparator_tail with_equal strict (c ∷ s) =
    if eqb c b'='
    then bounded with_equal (read_version s)
    else bounded strict (read_version (c ∷ s))

-- `/^(>=|<=|>|<)([0-9]+\.[0-9]+\.[0-9]+)$/` with its two groups
unfoldable pub read_clause : List ℕ → Option (Comparator × Version)
unfolding read_version
read_clause [] = none
read_clause (c ∷ s) =
    if eqb c b'>'
    then comparator_tail at_least above s
    else if eqb c b'<'
    then comparator_tail at_most below s
    else none

abbrev invalid_version : String
invalid_version = "INVALID_COMPONENT_VERSION"

-- A clause on a version, which is read when the clause is well-formed.
abbrev clause_holds : String → Option (Comparator × Version) → Result Bool
clause_holds version none = ok false
clause_holds version (some (op, bound)) = do
  v ← or_throw (read_version (codes version)) invalid_version
  ok (accepts op (compare_versions v bound))

abbrev both : Bool → Result Bool → Result Bool
both true rest = rest
both false rest = ok false

-- `clauses.every(…)`
unfoldable pub all_hold : String → List (List ℕ) → Result Bool
unfolding read_clause compare_versions
all_hold version [] = ok true
all_hold version (s ∷ rest) = do
  let later = all_hold version rest
  here ← clause_holds version (read_clause s)
  both here later

abbrev is_equal : Ordering → Bool
is_equal Ordering.eq = true
is_equal _ = false

abbrev exact_holds : String → Version → Result Bool
exact_holds version w = do
  v ← or_throw (read_version (codes version)) invalid_version
  ok (is_equal (compare_versions v w))

-- a constraint that is no version: clauses between spaces
abbrev clauses_of : List ℕ → List (List ℕ)
clauses_of s = keep (λ part. not (eqb (length part) 0)) (split b' ' s)

abbrev some_hold : String → List (List ℕ) → Result Bool
some_hold version [] = ok false
some_hold version (clause ∷ rest) = all_hold version (clause ∷ rest)

abbrev judge_constraint : String → List ℕ → Option Version → Result Bool
judge_constraint version constraint (some w) = exact_holds version w
judge_constraint version constraint none = some_hold version (clauses_of constraint)

-- `satisfies`
unfoldable pub satisfies : String → String → Result Bool
unfolding read_version all_hold compare_versions
satisfies version constraint =
    judge_constraint version (codes constraint) (read_version (codes constraint))

satisfies_tests :
    (satisfies "1.2.3" "1.2.3" ≡ ok true)
    × (satisfies "1.2.3" ">=1.0.0 <2.0.0" ≡ ok true)
    × (satisfies "2.0.0" ">=1.0.0 <2.0.0" ≡ ok false)
    × (satisfies "1.2.3" "  " ≡ ok false)
    × (satisfies "1.2" ">=1.0.0" ≡ err "INVALID_COMPONENT_VERSION")
    × (satisfies "1.2" "~1.0.0" ≡ ok false)
unfolding satisfies
satisfies_tests = (refl, refl, refl, refl, refl, refl)
