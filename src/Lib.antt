-- ===== src/Lib.antt =====
-- A model of the contracts of ChimpMaera (packages/contracts/src), which decide over untyped JSON
-- values and bind what they decide by digests of a canonical text.
--
-- Parts and files:
--   Common is shared: results for code that throws, tests on texts, sorting, and the regular
--     expressions of the program as runs of character classes.
--   Json is the data that arrives as `unknown`, with the guards that every contract repeats (exact
--     keys, safe integers); Json/Canonical is packages/contracts/src/canonical-json.ts.
--   Audit is packages/contracts/src/protected-audit-timeline.ts. Audit.antt holds its types, Guards
--     and Read the checks of fields, Event validateProtectedAuditEventV1 and the digests, Envelope
--     createProtectedAuditEnvelopeV1 and createCheckpoint, Shape the shapes that the verifier reads with
--     keyFor and verifySignature, Causal causalIssues, Verify verifyProtectedAuditTimelineV1,
--     Explain explainProtectedAuditTimelineV1, Writer the class ProtectedAuditWriterV1. Chain says what a
--     verified timeline is without the verifier's loop, and Admitted what an append admits without the
--     writer's tests. The source keeps the caller's event object by reference; here it is a value, and a
--     caller that changes the object after append is not modelled.
--   Rights is packages/contracts/src/effective-rights.ts: Parse reads an operand with validateScope and
--     parseOperand, Values holds the values that are digested, Compile is buildResult and
--     compileEffectiveRightsV1, Verify verifyEffectiveRightsResultV1, Xray the permission X-ray. A
--     set of issues is a list without repetition.
--   Intake is packages/contracts/src/signal-release-intake.ts: Shape reads an intake, Intake.antt is
--     evaluateSignalReleaseIntakeV1. Formed writes out what an intake is and its nine gates.
--   Planner is packages/contracts/src/poc-setup-compatibility-planner.ts: Version is satisfies, Validate
--     validatePocSetupCompatibilityCatalogV1, Closure dependencyClosure, Choice evaluateUseCase, Analyze
--     analyzePocSetupCompatibilityV1, Seal sealPocSetupCompatibilityCatalogV1. Enlist and Closed say
--     what a closure is without the loop.
--   Boundary is packages/contracts/src/injection-trust-boundary.ts: Parse is parseEnvelope and
--     parseContext, Candidate parseCandidate and reconstructAction, Reconstruct
--     reconstructTrustedActionCandidateV1, Verify verifyTrustBoundaryResultV1. Sets of issues and the
--     test of identifiers, which both files have, are those of Rights/Parse.
--   Policy.antt is packages/contracts/src/policy-evaluator.ts, where a decision may be an object of any
--     prototype; its input and context are plain objects. Policy/Accepted says what a verified decision is without the verifier's tests.
--
-- Correspondence: an object is a list of fields in the order of Object.keys. A function that narrows
-- `unknown` returns the narrowed data, `none` where the guard is false. A function that throws returns
-- a Result with the error's text; a TypeError of canonicalJson is TypeError, an exception of node:crypto
-- in signing ERR_CRYPTO. The writer's private fields are a record that append takes and returns; an append
-- that throws leaves it as it was.
-- A validated event keeps the value it was read from, since that is what is digested and signed.
-- Numbers are unbounded naturals; Number.isSafeInteger is the test against 2 ^ 53 - 1, and the other
-- numbers of JSON are constructors of their own. Texts are compared by code points, which is the order
-- of JavaScript on texts without code points from U+E000 up.
--
-- node:crypto and Buffer are a parameter, the record Audit.Crypto; Rights, Intake, Planner,
-- Boundary and Policy take a hash of texts, and Boundary the order of localeCompare. What the theorems rely on is
-- Audit.Laws.CryptoLaws: a hash is 64 hexadecimal digits, base64 of some bytes is base64 text and decodes
-- to them, a signature is bytes, is not empty and verifies under the signer's public key. Audit.Sample has a
-- stand-in with these laws. Loops are structural recursions; the digits of a number are printed on fuel
-- of 21, which is enough for every number that JSON.stringify prints without an exponent; the queue of
-- dependencyClosure runs on fuel of the numbers of components and of ids, which is enough since a component
-- is queued once.
--
-- Not modelled: the summary text of an explanation, the synthetic signer and timeline for demonstrations,
-- key generation, the plan that the planner makes of an analysis, and the other contracts and packages.
pub mod Common
pub mod Json
pub mod Audit
pub mod Rights
pub mod Intake
pub mod Planner
pub mod Boundary
pub mod Policy
