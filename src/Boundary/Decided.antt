-- ===== src/Boundary/Decided.antt =====
-- injection-trust-boundary.ts: what a result of the boundary was made of.
use chimp_maera.Common.{
  ok_injective, String, ◌≡◌, sym, ◌⊎◌, inl, inr, Bool, Option, List, ◌∷◌, ok, on_ok,
}
use chimp_maera.Json.{Value, obj}
use chimp_maera.Rights.Compile.{digest}
use chimp_maera.Boundary.{BoundaryResult, Evidence, ParsedCandidate, ReconstructionContext}
use chimp_maera.Boundary.Candidate.{reconstruct_action}
use chimp_maera.Boundary.Values.{
  action_fields, candidate_value, context_value, evidence_list, result_core,
}
use chimp_maera.Boundary.Reconstruct.{
  collect_evidence, denial, deny, input_value, make_result, digest_or_none, reconstruct,
  reconstruct_parsed, reconstruction,
}
use chimp_maera.Boundary.Read.{IsContext, parse_context-cases}
use chimp_maera.Boundary.Bound.{IsCandidate, parse_candidate-cases}

module _ (sha256_hex : String → String) where
  -- A denial, with an issue at least.
  pub record IsDenied (r : BoundaryResult) : Type 0 where
    pub input_digest : Option String
    pub issue : String
    pub issues : List String
    pub made : make_result sha256_hex (denial input_digest (issue ∷ issues)) ≡ ok r

  deny-IsDenied :
      (candidate context : Value) (i : String) (is : List String) {r : BoundaryResult}
      → deny sha256_hex candidate context (i ∷ is) ≡ ok r
      → IsDenied r
  unfolding deny
  deny-IsDenied candidate context i is h = record {
    input_digest = digest_or_none (digest sha256_hex (input_value candidate context));
    issue = i;
    issues = is;
    made = h;
  }

  -- What a reconstruction was made of, with its digests.
  pub record IsMade (k : ParsedCandidate) (c : ReconstructionContext) (r : BoundaryResult)
      : Type 0 where
    pub evidence : List Evidence
    pub input_digest : String
    pub candidate_digest : String
    pub evidence_digest : String
    pub action_digest : String
    pub collected : collect_evidence sha256_hex c.envelopes ≡ ok evidence
    pub evidence_bound : digest sha256_hex (evidence_list evidence) ≡ ok evidence_digest
    pub action_bound :
        digest sha256_hex (obj (action_fields (reconstruct_action k.arguments c)))
        ≡ ok action_digest
    pub made :
        make_result sha256_hex (
          reconstruction input_digest candidate_digest evidence_digest action_digest
            (reconstruct_action k.arguments c)
            evidence)
        ≡ ok r

  pub reconstruct_parsed-IsMade :
      (k : ParsedCandidate) (c : ReconstructionContext) {r : BoundaryResult}
      → reconstruct_parsed sha256_hex k c ≡ ok r
      → IsMade k c r
  unfolding reconstruct_parsed
  reconstruct_parsed-IsMade k c h =
      on_ok (collect_evidence sha256_hex c.envelopes) _ h λ evidence collected h1.
        on_ok (digest sha256_hex (input_value (candidate_value k) (context_value c))) _ h1 λ a p h2.
          on_ok (digest sha256_hex (candidate_value k)) _ h2 λ b q h3.
            on_ok (digest sha256_hex (evidence_list evidence)) _ h3 λ d bound h4.
              on_ok (digest sha256_hex (obj (action_fields (reconstruct_action k.arguments c)))) _
                h4
                λ e named h5. record {
                  evidence = evidence;
                  input_digest = a;
                  candidate_digest = b;
                  evidence_digest = d;
                  action_digest = e;
                  collected = collected;
                  evidence_bound = bound;
                  action_bound = named;
                  made = h5;
                }

  -- A result is its draft with the digest of the draft.
  pub record IsSealed (draft r : BoundaryResult) : Type 0 where
    pub result_digest : String
    pub digested : digest sha256_hex (result_core draft) ≡ ok result_digest
    pub same : r ≡ record draft { result_digest = result_digest }

  pub make_result-IsSealed :
      (draft : BoundaryResult) {r : BoundaryResult}
      → make_result sha256_hex draft ≡ ok r
      → IsSealed draft r
  unfolding make_result
  make_result-IsSealed draft h =
      on_ok (digest sha256_hex (result_core draft)) _ h
        λ d p h1. record { result_digest = d; digested = p; same = sym (ok_injective h1) }

module _ (sha256_hex : String → String) (locale_lt : String → String → Bool) where
  -- A candidate and a context that were read without an issue, and the result of the two.
  pub record IsParsed (candidate context : Value) (r : BoundaryResult) : Type 0 where
    pub c : ReconstructionContext
    pub k : ParsedCandidate
    pub context_read : IsContext locale_lt context c
    pub candidate_read : IsCandidate candidate c k
    pub made : reconstruct_parsed sha256_hex k c ≡ ok r

  pub reconstruct-cases :
      (candidate context : Value) {r : BoundaryResult}
      → reconstruct sha256_hex locale_lt candidate context ≡ ok r
      → IsParsed candidate context r ⊎ IsDenied sha256_hex r
  unfolding reconstruct
  reconstruct-cases candidate context h = elim (parse_context-cases locale_lt context) [
    | inr (i, is, p) ↦
        inr (deny-IsDenied sha256_hex candidate context i is (rw (p, reconstruct) at h))
    | inl (c, p, context_read) ↦ elim (parse_candidate-cases candidate c) [
      | inr (i, is, q) ↦
          inr (deny-IsDenied sha256_hex candidate context i is (rw (p, q, reconstruct) at h))
      | inl (k, q, candidate_read) ↦ inl (record {
        c = c;
        k = k;
        context_read = context_read;
        candidate_read = candidate_read;
        made = rw (p, q, reconstruct) at h;
      })
    ]
  ]
