-- ===== src/Audit.antt =====
-- packages/contracts/src/protected-audit-timeline.ts: the data of a protected audit timeline.
-- `Event` validates and digests events, `Envelope` makes and reads signed envelopes and checkpoints,
-- `Verify` is the verifier, `Explain` the explanation, `Writer` is the class that appends.
pub mod Guards
pub mod Read
pub mod Event
pub mod Envelope
pub mod Shape
pub mod Causal
pub mod Verify
pub mod Explain
pub mod Writer
pub mod Laws
pub mod Made
pub mod Signed
pub mod Admitted
pub mod Priors
pub mod Appended
pub mod Silent
pub mod Agrees
pub mod Reached
pub mod Stamped
pub mod Complete
pub mod Quiet
pub mod Chain
pub mod Tracks
pub mod Sound
pub mod Linked
pub mod Verified
pub mod Replays
pub mod Explained
mod Sample
mod Tests
use chimp_maera.Common.{
  ℕ, String, Bool, Option, none, some, List, [], ◌∷◌, ◌==◌, eqb, if◌then◌else◌,
}
use chimp_maera.Json.{Value, Fields}

pub data EventKind : Type 0 where
  identity intent plan policy approval budget effect readback reconcile stop rollback : EventKind

pub data Outcome : Type 0 where
  observed allow deny owner_escalation throttle quarantine : Outcome
  committed failed uncertain reconciled stopped rolled_back : Outcome

pub data ReferenceKey : Type 0 where
  identity intent plan policy approval budget effect readback reconcile stop : ReferenceKey

abbrev pub kind_rank : EventKind → ℕ
kind_rank EventKind.identity = 0
kind_rank EventKind.intent = 1
kind_rank EventKind.plan = 2
kind_rank EventKind.policy = 3
kind_rank EventKind.approval = 4
kind_rank EventKind.budget = 5
kind_rank EventKind.effect = 6
kind_rank EventKind.readback = 7
kind_rank EventKind.reconcile = 8
kind_rank EventKind.stop = 9
kind_rank EventKind.rollback = 10

-- equality of two kinds
abbrev pub kind_eq : EventKind → EventKind → Bool
kind_eq a b = eqb (kind_rank a) (kind_rank b)

-- A member of `EVENT_KINDS`, by its text.
unfoldable pub kind_of : String → Option EventKind
kind_of s =
    if s == "IDENTITY"
    then some EventKind.identity
    else if s == "INTENT"
    then some EventKind.intent
    else if s == "PLAN"
    then some EventKind.plan
    else if s == "POLICY"
    then some EventKind.policy
    else if s == "APPROVAL"
    then some EventKind.approval
    else if s == "BUDGET"
    then some EventKind.budget
    else if s == "EFFECT"
    then some EventKind.effect
    else if s == "READBACK"
    then some EventKind.readback
    else if s == "RECONCILE"
    then some EventKind.reconcile
    else if s == "STOP"
    then some EventKind.stop
    else if s == "ROLLBACK"
    then some EventKind.rollback
    else none

-- A member of `OUTCOMES`, by its text.
unfoldable pub outcome_of : String → Option Outcome
outcome_of s =
    if s == "OBSERVED"
    then some observed
    else if s == "ALLOW"
    then some allow
    else if s == "DENY"
    then some deny
    else if s == "OWNER_ESCALATION"
    then some owner_escalation
    else if s == "THROTTLE"
    then some throttle
    else if s == "QUARANTINE"
    then some quarantine
    else if s == "COMMITTED"
    then some committed
    else if s == "FAILED"
    then some failed
    else if s == "UNCERTAIN"
    then some uncertain
    else if s == "RECONCILED"
    then some reconciled
    else if s == "STOPPED"
    then some stopped
    else if s == "ROLLED_BACK"
    then some rolled_back
    else none

abbrev pub reference_keys : List ReferenceKey
reference_keys =
    ReferenceKey.identity ∷ ReferenceKey.intent ∷ ReferenceKey.plan ∷ ReferenceKey.policy
    ∷ ReferenceKey.approval ∷ ReferenceKey.budget ∷ ReferenceKey.effect ∷ ReferenceKey.readback
    ∷ ReferenceKey.reconcile ∷ ReferenceKey.stop ∷ []

abbrev pub reference_name : ReferenceKey → String
reference_name ReferenceKey.identity = "identity"
reference_name ReferenceKey.intent = "intent"
reference_name ReferenceKey.plan = "plan"
reference_name ReferenceKey.policy = "policy"
reference_name ReferenceKey.approval = "approval"
reference_name ReferenceKey.budget = "budget"
reference_name ReferenceKey.effect = "effect"
reference_name ReferenceKey.readback = "readback"
reference_name ReferenceKey.reconcile = "reconcile"
reference_name ReferenceKey.stop = "stop"

-- `KIND_BY_REFERENCE`
abbrev pub kind_by_reference : ReferenceKey → EventKind
kind_by_reference ReferenceKey.identity = EventKind.identity
kind_by_reference ReferenceKey.intent = EventKind.intent
kind_by_reference ReferenceKey.plan = EventKind.plan
kind_by_reference ReferenceKey.policy = EventKind.policy
kind_by_reference ReferenceKey.approval = EventKind.approval
kind_by_reference ReferenceKey.budget = EventKind.budget
kind_by_reference ReferenceKey.effect = EventKind.effect
kind_by_reference ReferenceKey.readback = EventKind.readback
kind_by_reference ReferenceKey.reconcile = EventKind.reconcile
kind_by_reference ReferenceKey.stop = EventKind.stop

abbrev up_to_plan : List ReferenceKey
up_to_plan = ReferenceKey.identity ∷ ReferenceKey.intent ∷ ReferenceKey.plan ∷ []

abbrev up_to_budget : List ReferenceKey
up_to_budget =
    ReferenceKey.identity ∷ ReferenceKey.intent ∷ ReferenceKey.plan ∷ ReferenceKey.policy
    ∷ ReferenceKey.approval ∷ ReferenceKey.budget ∷ []

abbrev up_to_effect : List ReferenceKey
up_to_effect =
    ReferenceKey.identity ∷ ReferenceKey.intent ∷ ReferenceKey.plan ∷ ReferenceKey.policy
    ∷ ReferenceKey.approval ∷ ReferenceKey.budget ∷ ReferenceKey.effect ∷ []

-- `REQUIRED_REFERENCES`
unfoldable pub required_references : EventKind → List ReferenceKey
required_references EventKind.identity = []
required_references EventKind.intent = ReferenceKey.identity ∷ []
required_references EventKind.plan = ReferenceKey.identity ∷ ReferenceKey.intent ∷ []
required_references EventKind.policy = up_to_plan
required_references EventKind.approval =
    ReferenceKey.identity ∷ ReferenceKey.intent ∷ ReferenceKey.plan ∷ ReferenceKey.policy ∷ []
required_references EventKind.budget =
    ReferenceKey.identity ∷ ReferenceKey.intent ∷ ReferenceKey.plan ∷ ReferenceKey.policy
    ∷ ReferenceKey.approval ∷ []
required_references EventKind.effect = up_to_budget
required_references EventKind.readback = up_to_effect
required_references EventKind.reconcile = up_to_effect
required_references EventKind.stop = ReferenceKey.identity ∷ ReferenceKey.policy ∷ []
required_references EventKind.rollback =
    ReferenceKey.identity ∷ ReferenceKey.intent ∷ ReferenceKey.plan ∷ ReferenceKey.policy
    ∷ ReferenceKey.approval ∷ ReferenceKey.effect ∷ []

-- A validated event: the value itself, which is what is digested, and what the code reads from it.
pub record AuditEvent : Type 0 where
  pub value : Value
  pub timeline_id : String
  pub tenant : String
  pub sequence : ℕ
  pub event_id : String
  pub kind : EventKind
  pub actor_id : String
  pub operation_id : String
  pub correlation_id : String
  pub occurred_at_ms : ℕ
  pub observed_at_ms : ℕ
  pub references : ReferenceKey → Option String
  pub outcome : Outcome
  pub reason_codes : List String
  pub evidence_digests : List String

pub record SignerReference : Type 0 where
  pub algorithm : String
  pub key_id : String
  pub generation : ℕ

-- An envelope that the writer makes.
pub record AuditEnvelope : Type 0 where
  pub event : AuditEvent
  pub event_digest : String
  pub previous_envelope_digest : Option String
  pub signed_at_ms : ℕ
  pub signer : SignerReference
  pub signature_base64 : String

-- An envelope that the verifier has read: the object itself, with its event not yet validated.
pub record Candidate : Type 0 where
  pub fields : Fields
  pub event : Value
  pub event_digest : String
  pub previous_envelope_digest : Option String
  pub signed_at_ms : ℕ
  pub signer : SignerReference
  pub signature_base64 : String

pub record Checkpoint : Type 0 where
  pub fields : Fields
  pub timeline_id : String
  pub tenant : String
  pub event_count : ℕ
  pub head_envelope_digest : String
  pub issued_at_ms : ℕ
  pub signer : SignerReference
  pub signature_base64 : String

pub data KeyStatus : Type 0 where
  active retired : KeyStatus

pub record TrustKey : Type 0 where
  pub key_id : String
  pub generation : ℕ
  pub algorithm : String
  pub public_key_pem : String
  pub valid_from_ms : ℕ
  pub valid_until_ms : ℕ
  pub status : KeyStatus

pub record TrustPolicy : Type 0 where
  pub tenant : String
  pub timeline_id : String
  pub minimum_generation : ℕ
  pub keys : List TrustKey

pub record Signer : Type 0 where
  pub key_id : String
  pub generation : ℕ
  pub algorithm : String
  pub private_key_pem : String
  pub public_key_pem : String
  pub valid_from_ms : ℕ
  pub valid_until_ms : ℕ

pub record VerifiedFact : Type 0 where
  pub sequence : ℕ
  pub event_id : String
  pub kind : EventKind
  pub event_digest : String
  pub outcome : Outcome
  pub reason_codes : List String
  pub references : ReferenceKey → Option String

pub data Verification : Type 0 where
  verified : (timeline_id tenant checkpoint_digest : String) → List VerifiedFact → Verification
  unverifiable : List String → Verification

-- What the code takes from node:crypto and Buffer. `none` of `sign` and `verify` is an exception, as
-- on a key that cannot be read; texts stand for their UTF-8 bytes.
pub record Crypto : Type 0 where
  pub sha256_hex : String → String
  pub sign : (message private_key_pem : String) → Option (List ℕ)
  pub verify : (message public_key_pem : String) → List ℕ → Option Bool
  pub to_base64 : List ℕ → String
  pub from_base64 : String → List ℕ
