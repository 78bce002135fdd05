-- ===== src/Rights.antt =====
-- packages/contracts/src/effective-rights.ts: the data of the effective rights of an actor, which are
-- the intersection of four operands. `Parse` reads an operand, `Compile` builds the result.
pub mod Parse
pub mod Values
pub mod Compile
pub mod Total
pub mod Ceilings
pub mod Bounded
pub mod Verify
pub mod Checked
pub mod Known
pub mod Listed
pub mod RoundTrip
pub mod Xray
mod Tests
use chimp_maera.Common.{
  ℕ, String, Bool, Option, none, some, List, [], ◌∷◌, ◌==◌, eqb, ltb, if◌then◌else◌,
}

-- `EffectiveRightsOperandKindV1`
pub data OperandKind : Type 0 where
  profile assignment capability constraint : OperandKind

-- `EffectiveRightsOutcomeV1`
pub data RightsOutcome : Type 0 where
  allow escalate deny : RightsOutcome

-- The place of a kind in the alphabet, by which `localeCompare` orders their names.
abbrev pub kind_rank : OperandKind → ℕ
kind_rank assignment = 0
kind_rank capability = 1
kind_rank constraint = 2
kind_rank profile = 3

abbrev pub kind_eq : OperandKind → OperandKind → Bool
kind_eq a b = eqb (kind_rank a) (kind_rank b)

abbrev pub kind_name : OperandKind → String
kind_name profile = "PROFILE"
kind_name assignment = "ASSIGNMENT"
kind_name capability = "CAPABILITY"
kind_name constraint = "CONSTRAINT"

abbrev pub outcome_name : RightsOutcome → String
outcome_name allow = "ALLOW"
outcome_name escalate = "ESCALATE"
outcome_name deny = "DENY"

-- `EFFECTIVE_RIGHTS_OPERAND_KINDS_V1`
abbrev pub operand_kinds : List OperandKind
operand_kinds = profile ∷ assignment ∷ capability ∷ constraint ∷ []

-- A member of the kinds, by its text.
unfoldable pub operand_kind_of : String → Option OperandKind
operand_kind_of s =
    if s == "PROFILE"
    then some profile
    else if s == "ASSIGNMENT"
    then some assignment
    else if s == "CAPABILITY"
    then some capability
    else if s == "CONSTRAINT"
    then some constraint
    else none

-- A member of the outcomes, by its text.
unfoldable pub rights_outcome_of : String → Option RightsOutcome
rights_outcome_of s =
    if s == "ALLOW"
    then some allow
    else if s == "ESCALATE"
    then some escalate
    else if s == "DENY"
    then some deny
    else none

-- `EffectiveRightsScopeV1`
pub record Scope : Type 0 where
  pub actions : List String
  pub resources : List String
  pub fields : List String
  pub purposes : List String
  pub effects : List String

-- `EffectiveRightsOperandV1`
pub record Operand : Type 0 where
  pub kind : OperandKind
  pub operand_id : String
  pub tenant : String
  pub actor : String
  pub generation : ℕ
  pub profile_id : String
  pub profile_generation : ℕ
  pub decision_ceiling : RightsOutcome
  pub scope : Scope

-- an entry of `ceilings`
pub record Ceiling : Type 0 where
  pub kind : OperandKind
  pub operand_id : String
  pub generation : ℕ
  pub decision_ceiling : RightsOutcome
  pub scope : Scope
  pub operand_digest : String

-- an entry of `reasonFacts`
pub record ReasonFact : Type 0 where
  pub code : String
  pub source : String
  pub detail : String

-- `EffectiveRightsResultV1`, without the constant fields `schemaVersion` and `informationalOnly`
pub record EffectiveRights : Type 0 where
  pub input_digest : String
  pub actor : Option String
  pub tenant : Option String
  pub profile_id : Option String
  pub profile_generation : Option ℕ
  pub outcome : RightsOutcome
  pub effective_scope : Scope
  pub ceilings : List Ceiling
  pub reason_facts : List ReasonFact
  pub issues : List String
  pub result_digest : String
