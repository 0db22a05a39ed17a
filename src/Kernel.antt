-- ===== src/Kernel.antt =====
-- The manual vertical slice (packages/python/atlas/kernel.py): anchors, proposals, verification and
-- the operator's decision. It is the kernel without an engine: `_persist` then does nothing. Random
-- identifiers are arguments; hashes and schemas are those of `Host`.
mod Tests
mod Types
pub mod Acceptance
pub use Types.*
use exposure_atlas.Base.{
  ℕ, String, Bool, true, false, Option, none, some, List, [], ◌∷◌, not, ◌&&◌, any, find, Result, ok,
  err, Exec, ◌==◌, text_eq_instance, if◌then◌else◌,
}
use exposure_atlas.Base.Dict.{Dict, get, put, values}
use exposure_atlas.Audit
use exposure_atlas.Anchors.{Bytes, Anchor, Artifact, AnchorError, create_anchor}
use exposure_atlas.Verify.{
  Proposal, SourceDocument, SourceVersion, Edge, Transform, NormalizedValue, Report, Evidence,
  VerifyError, verify_proposal,
}
use exposure_atlas.Policy.{PolicyDecision, PolicyError, evaluate}

-- Actions of the kernel.
abbrev K : Type 0 → Type 0
K A = Exec Kernel KernelError A

infixl 5 ◌>>=◌ ◌>>◌
abbrev ◌>>=◌ : {A B : Type 0} → K A → (A → K B) → K B
◌>>=◌ m f k = let (r, k') = m k in elim r [ ok a ↦ f a k' | err e ↦ (err e, k') ]

abbrev ◌>>◌ : {B : Type 0} → K (Unit {0}) → K B → K B
m >> n = m >>= λ _. n

abbrev pure : {A : Type 0} → A → K A
pure a k = (ok a, k)

abbrev raise_if : Bool → KernelError → K (Unit {0})
raise_if b e k = (if b then err e else ok tt, k)

-- `d[key]`, which raises on a missing key
abbrev lookup_or : {A : Type 0} → (Kernel → Option A) → KernelError → K A
lookup_or f e k = (elim (f k) [ none ↦ err e | some a ↦ ok a ], k)

abbrev modify : (Kernel → Kernel) → K (Unit {0})
modify f k = (ok tt, f k)

audited :
    Result Audit.AuditError Audit.Event × List Audit.Event
    → Kernel
    → Result KernelError (Unit {0}) × Kernel
audited (ok ev, log) k = (ok tt, record k { audit_log = log })
audited (err e, log) k = (err (KernelError.audit_error e), record k { audit_log = log })

-- `_audit`
audit : Host → String → String → String → K (Unit {0})
unfolding audited
audit host action at detail k =
    audited
      (Audit.append_event host.event_hash host.event_ok "builder-kernel" action at detail
        k.audit_log)
      k

anchored : Result AnchorError Anchor → Result KernelError Anchor
anchored (ok a) = ok a
anchored (err e) = err (KernelError.anchor_error e)

pub add_anchor : Host → String → String → String → Option ℕ → K Anchor
unfolding anchored
add_anchor host oid text_artifact_id quote occurrence = do
  text ← lookup_or (λ k. get k.canonical_texts text_artifact_id) KernelError.missing_key
  anc ← λ k. (
    anchored (
        create_anchor host.sha256_hex text quote oid text_artifact_id occurrence none
          "native_text"),
    k,
  )
  raise_if (not (host.anchor_ok anc)) KernelError.schema_error
  modify (λ k. record k { anchors = put k.anchors oid anc })
  pure anc

-- `propose`: the proposal carries its own identifier and the fixed `value_status`.
pub propose : Host → Proposal → K Proposal
unfolding audit
propose host p = do
  let prop = record p { value_status = "stated" }
  raise_if (not (host.proposal_ok prop)) KernelError.schema_error
  modify (λ k. record k { proposals = put k.proposals prop.proposal_id prop })
  audit host "propose" p.observed_at prop.proposal_id
  pure prop

reported : Result VerifyError Report → Result KernelError Report
reported (ok r) = ok r
reported (err e) = err KernelError.schema_error

pub verify : Host → String → String → K Report
unfolding reported
verify host report_id proposal_id = do
  prop ← lookup_or (λ k. get k.proposals proposal_id) KernelError.missing_key
  sver ← lookup_or (λ k. get k.source_versions prop.source_version_id) KernelError.missing_key
  sdoc ← lookup_or (λ k. get k.source_documents sver.source_document_id) KernelError.missing_key
  artifact ←
      lookup_or
        (λ k. find (λ a. a.source_version_id == sver.source_version_id) (values k.text_artifacts))
        KernelError.missing_key
  text ← lookup_or (λ k. get k.canonical_texts artifact.text_artifact_id) KernelError.missing_key
  report ← λ k. (
    reported (
        verify_proposal host.proposal_ok host.report_ok
          (record {
            sha256_hex = host.sha256_hex;
            text_artifact = artifact;
            canonical_text = text;
            text_sha256 = host.sha256_hex text;
            anchors_by_id = k.anchors;
          })
          sdoc sver report_id prop),
    k,
  )
  modify (λ k. record k { reports = put k.reports proposal_id report })
  pure report

-- `any(a["proposal_id"] == proposal_id for a in self.assertions.values())`
pub is_accepted : Kernel → String → Bool
is_accepted k proposal_id = any (λ a. a.proposal_id == proposal_id) (values k.assertions)

accepted_assertion : String → Proposal → String → String → AcceptedAssertion
accepted_assertion oid prop proposal_id decision_id = record {
  assertion_id = oid;
  proposal_id = proposal_id;
  acceptance_decision_id = decision_id;
  source_version_id = prop.source_version_id;
  subject_ref = prop.subject_ref;
  predicate = prop.predicate;
  raw_value = prop.raw_value;
  value_status = prop.value_status;
  procedural_modality = prop.procedural_modality;
  value_origin = prop.value_origin;
  support = prop.support;
  normalized_value = prop.normalized_value;
  transform = prop.transform;
  mechanical_verification_state = "passed";
  semantic_review_state = "human_approved";
  observed_at = prop.observed_at;
}

pub decision_of : Host → String → String → String → String → String → Report → AcceptanceDecision
decision_of host dec_id proposal_id reason decided_at decision report = record {
  decision_id = dec_id;
  proposal_id = proposal_id;
  decided_by = "Alexios";
  role = "operator_reviewer";
  decision = decision;
  reason = reason;
  decided_at = decided_at;
  validation_report_sha256 = host.report_sha256 report;
}

logged :
    AcceptanceDecision
    → Result KernelError (Unit {0}) × Kernel
    → Result KernelError AcceptanceDecision × Kernel
logged dec (ok _, k) = (ok dec, k)
logged dec (err e, k) = (err e, k)

-- The decision that `approve` writes once the guards have passed.
decide : Host → AcceptanceDecision → K AcceptanceDecision
unfolding audit logged
decide host dec k =
    if host.decision_ok dec
    then logged dec (
        audit host "acceptance_decision" dec.decided_at dec.decision_id
          (record k { decisions = put k.decisions dec.decision_id dec }))
    else (err KernelError.schema_error, k)

-- The assertion that it writes for an acceptance.
accept : Host → String → String → AcceptanceDecision → Option Proposal → K Approval
unfolding accepted_assertion
accept host ast_id proposal_id dec none k = (err KernelError.missing_key, k)
accept host ast_id proposal_id dec (some prop) k =
    let a = accepted_assertion ast_id prop proposal_id dec.decision_id in
    if host.assertion_ok a
    then (ok (Approval.accepted a), record k { assertions = put k.assertions ast_id a })
    else (err KernelError.schema_error, k)

guarded : Option Report → Bool → String → Result KernelError Report
guarded none taken decision = err KernelError.not_verified
guarded (some report) taken decision =
    if taken
    then err KernelError.already_accepted
    else if not (report.overall == "pass") && decision == "accept"
    then err KernelError.mechanical_checks_fail
    else ok report

-- The guards of `approve`, which write nothing.
guards : Kernel → String → String → Result KernelError Report
unfolding guarded is_accepted
guards k proposal_id decision =
    guarded (get k.reports proposal_id) (is_accepted k proposal_id) decision

after_decision :
    Host
    → String
    → String
    → Result KernelError AcceptanceDecision × Kernel
    → Result KernelError Approval × Kernel
unfolding accept
after_decision host ast_id proposal_id (err e, k) = (err e, k)
after_decision host ast_id proposal_id (ok dec, k) =
    if not (dec.decision == "accept")
    then (ok (Approval.recorded dec), k)
    else accept host ast_id proposal_id dec (get k.proposals proposal_id) k

approve_with :
    Host
    → String
    → String
    → String
    → String
    → String
    → String
    → Result KernelError Report
    → K Approval
unfolding decision_of decide after_decision
approve_with host dec_id ast_id proposal_id reason decided_at decision (err e) k = (err e, k)
approve_with host dec_id ast_id proposal_id reason decided_at decision (ok report) k =
    after_decision host ast_id proposal_id
      (decide host (decision_of host dec_id proposal_id reason decided_at decision report) k)

pub approve : Host → String → String → String → String → String → String → K Approval
unfolding guards approve_with
approve host dec_id ast_id proposal_id reason decided_at decision k =
    approve_with host dec_id ast_id proposal_id reason decided_at decision
      (guards k proposal_id decision) k

-- `policy_check`
pub policy_check :
    (PolicyDecision → Bool)
    → String
    → String
    → String
    → Bool
    → String
    → K (Result PolicyError PolicyDecision)
policy_check schema_ok assertion_id at distribution suppression_denied boundary_version = do
  a ← lookup_or (λ k. get k.assertions assertion_id) KernelError.missing_key
  report ← lookup_or (λ k. get k.reports a.proposal_id) KernelError.missing_key
  pure (
      evaluate schema_ok (some report.overall) (some a.semantic_review_state) (some distribution)
        suppression_denied "publish_public" at (some boundary_version))
