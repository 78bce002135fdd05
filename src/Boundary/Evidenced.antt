-- ===== src/Boundary/Evidenced.antt =====
-- injection-trust-boundary.ts: what a reconstructed candidate stands on.
use chimp_maera.Common.{String, ◌≡◌, Bool, some, List, [], includes, map, All, ok}
use chimp_maera.Common.Members.{Each, In}
use chimp_maera.Json.{Value, str}
use chimp_maera.Rights.Compile.{digest}
use chimp_maera.Boundary.{
  BoundaryResult, ContentEnvelope, Evidence, ParsedCandidate, ReconstructionContext,
}
use chimp_maera.Boundary.Candidate.{reconstruct_action}
use chimp_maera.Boundary.Reconstruct.{evidence_of}
use chimp_maera.Boundary.Read.{IsContext, IsEnvelope}
use chimp_maera.Boundary.Bound.{IsCandidate}

-- every envelope of the list was read of a value of the context
abbrev IsFrom : String → List Value → ContentEnvelope → Type 0
IsFrom tenant values e = (v : Value) × In v values × IsEnvelope tenant v e

module _ (sha256_hex : String → String) where
  -- Evidence of an envelope: its labels, and the digest of its content.
  pub record IsEvidence (e : ContentEnvelope) (x : Evidence) : Type 0 where
    pub labelled : x ≡ evidence_of e x.content_digest
    pub digested : digest sha256_hex (str e.content) ≡ ok x.content_digest

  -- What a reconstructed candidate stands on.
  pub record IsEvidenced (locale_lt : String → String → Bool) (candidate context : Value)
      (r : BoundaryResult) : Type 0 where
    pub c : ReconstructionContext
    pub k : ParsedCandidate
    pub context_read : IsContext locale_lt context c
    pub candidate_read : IsCandidate candidate c k
    pub from : All (IsFrom c.tenant context_read.values) c.envelopes
    pub evidence : Each IsEvidence c.envelopes r.evidence
    pub named :
        (id : String)
        → includes (map (λ (x : Evidence). x.envelope_id) r.evidence) id
          ≡ includes candidate_read.ids id
    pub action : r.action ≡ some (reconstruct_action k.arguments c)
    pub no_issue : r.issues ≡ []
