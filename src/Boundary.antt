-- ===== src/Boundary.antt =====
-- packages/contracts/src/injection-trust-boundary.ts: the data of the boundary that turns untrusted
-- content into evidence. `Parse` reads a context, `Candidate` a typed candidate, `Values` holds what is
-- digested, `Reconstruct` makes the result, `Verify` checks one.
pub mod Parse
pub mod Candidate
pub mod Values
pub mod Reconstruct
pub mod Verify
pub mod Total
pub mod Read
pub mod Bound
pub mod Decided
pub mod RoundTrip
pub mod Evidenced
mod Tests
use chimp_maera.Common.{ℕ, String, Option, none, some, List, ◌==◌, if◌then◌else◌}
use chimp_maera.Json.{Fields}

-- `ContentOriginV1`
pub data ContentOrigin : Type 0 where
  from_provider from_tool from_document from_memory : ContentOrigin

-- `ContentTrustLabelV1`
pub data ContentTrust : Type 0 where
  untrusted_provider_content untrusted_tool_output untrusted_retrieved_document
        untrusted_recalled_memory :
      ContentTrust

-- `ContentDataClassV1`
pub data DataClass : Type 0 where
  public_data internal_synthetic confidential_synthetic : DataClass

abbrev pub origin_name : ContentOrigin → String
origin_name from_provider = "PROVIDER"
origin_name from_tool = "TOOL"
origin_name from_document = "DOCUMENT"
origin_name from_memory = "MEMORY"

abbrev pub trust_name : ContentTrust → String
trust_name untrusted_provider_content = "UNTRUSTED_PROVIDER_CONTENT"
trust_name untrusted_tool_output = "UNTRUSTED_TOOL_OUTPUT"
trust_name untrusted_retrieved_document = "UNTRUSTED_RETRIEVED_DOCUMENT"
trust_name untrusted_recalled_memory = "UNTRUSTED_RECALLED_MEMORY"

abbrev pub class_name : DataClass → String
class_name public_data = "PUBLIC"
class_name internal_synthetic = "INTERNAL_SYNTHETIC"
class_name confidential_synthetic = "CONFIDENTIAL_SYNTHETIC"

-- A member of the origins, by its text.
unfoldable pub origin_of : String → Option ContentOrigin
origin_of s =
    if s == "PROVIDER"
    then some from_provider
    else if s == "TOOL"
    then some from_tool
    else if s == "DOCUMENT"
    then some from_document
    else if s == "MEMORY"
    then some from_memory
    else none

-- A member of the trust labels, by its text.
unfoldable pub trust_of : String → Option ContentTrust
trust_of s =
    if s == "UNTRUSTED_PROVIDER_CONTENT"
    then some untrusted_provider_content
    else if s == "UNTRUSTED_TOOL_OUTPUT"
    then some untrusted_tool_output
    else if s == "UNTRUSTED_RETRIEVED_DOCUMENT"
    then some untrusted_retrieved_document
    else if s == "UNTRUSTED_RECALLED_MEMORY"
    then some untrusted_recalled_memory
    else none

-- A member of the data classes, by its text.
unfoldable pub class_of : String → Option DataClass
class_of s =
    if s == "PUBLIC"
    then some public_data
    else if s == "INTERNAL_SYNTHETIC"
    then some internal_synthetic
    else if s == "CONFIDENTIAL_SYNTHETIC"
    then some confidential_synthetic
    else none

-- `EXPECTED_TRUST`
abbrev pub expected_trust : ContentOrigin → ContentTrust
expected_trust from_provider = untrusted_provider_content
expected_trust from_tool = untrusted_tool_output
expected_trust from_document = untrusted_retrieved_document
expected_trust from_memory = untrusted_recalled_memory

-- `ContentEnvelopeV1`, without its constant fields
pub record ContentEnvelope : Type 0 where
  pub envelope_id : String
  pub origin : ContentOrigin
  pub trust : ContentTrust
  pub tenant : String
  pub data_class : DataClass
  pub content : String

-- `TrustedReconstructionContextV1`, without its constant fields
pub record ReconstructionContext : Type 0 where
  pub actor : String
  pub tenant : String
  pub replay_key : String
  pub envelopes : List ContentEnvelope

-- The arguments of an action, which tell its id.
pub data ActionArguments : Type 0 where
  contact_arguments : (email_address first_name last_name : String) → ActionArguments
  order_arguments :
      (customer_id : ℕ) (customer_reference : String) (order_date_epoch : ℕ) → ActionArguments

-- `ParsedCandidate`, without its constant fields
pub record ParsedCandidate : Type 0 where
  pub arguments : ActionArguments
  pub evidence_ids : List String

-- `ReconstructedActionCandidateV1`, without its constant fields
pub record ReconstructedAction : Type 0 where
  pub actor : String
  pub tenant : String
  pub replay_key : String
  pub credential_handle : String
  pub path : String
  pub body : Fields
  pub provider : String
  pub entity : String

-- an entry of `evidence`
pub record Evidence : Type 0 where
  pub envelope_id : String
  pub origin : ContentOrigin
  pub trust : ContentTrust
  pub tenant : String
  pub data_class : DataClass
  pub content_digest : String

pub data BoundaryOutcome : Type 0 where
  reconstructed_candidate denied : BoundaryOutcome

-- `TrustBoundaryResultV1`, without its constant fields
pub record BoundaryResult : Type 0 where
  pub outcome : BoundaryOutcome
  pub input_digest : Option String
  pub candidate_digest : Option String
  pub evidence_digest : Option String
  pub action_digest : Option String
  pub action : Option ReconstructedAction
  pub evidence : List Evidence
  pub issues : List String
  pub result_digest : String
