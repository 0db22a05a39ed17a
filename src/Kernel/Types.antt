-- ===== src/Kernel/Types.antt =====
-- The state of the kernel, what it writes, and what it takes from outside.
use exposure_atlas.Base.{String, Bool, Option, List}
use exposure_atlas.Base.Dict.{Dict}
use exposure_atlas.Audit
use exposure_atlas.Anchors.{Bytes, Anchor, Artifact, AnchorError}
use exposure_atlas.Verify.{
  Proposal, SourceDocument, SourceVersion, Edge, Transform, NormalizedValue, Report,
}

pub record AcceptanceDecision : Type 0 where
  pub decision_id : String
  pub proposal_id : String
  pub decided_by : String
  pub role : String
  pub decision : String
  pub reason : String
  pub decided_at : String
  pub validation_report_sha256 : String

pub record AcceptedAssertion : Type 0 where
  pub assertion_id : String
  pub proposal_id : String
  pub acceptance_decision_id : String
  pub source_version_id : String
  pub subject_ref : String
  pub predicate : String
  pub raw_value : String
  pub value_status : String
  pub procedural_modality : String
  pub value_origin : String
  pub support : List Edge
  pub normalized_value : Option NormalizedValue
  pub transform : Option Transform
  pub mechanical_verification_state : String
  pub semantic_review_state : String
  pub observed_at : String

-- `approve` returns the decision, or the assertion of an acceptance.
pub data Approval : Type 0 where
  recorded : AcceptanceDecision → Approval
  accepted : AcceptedAssertion → Approval

pub data KernelError : Type 0 where
  missing_key not_verified already_accepted mechanical_checks_fail schema_error : KernelError
  anchor_error : AnchorError → KernelError
  audit_error : Audit.AuditError → KernelError

pub record Kernel : Type 0 where
  pub source_documents : Dict String SourceDocument
  pub source_versions : Dict String SourceVersion
  pub text_artifacts : Dict String Artifact
  pub canonical_texts : Dict String Bytes
  pub anchors : Dict String Anchor
  pub proposals : Dict String Proposal
  pub reports : Dict String Report
  pub decisions : Dict String AcceptanceDecision
  pub assertions : Dict String AcceptedAssertion
  pub audit_log : List Audit.Event

pub record Host : Type 0 where
  pub sha256_hex : Bytes → String
  pub report_sha256 : Report → String
  pub event_hash : Audit.Event → String
  pub event_ok : Audit.Event → Bool
  pub anchor_ok : Anchor → Bool
  pub proposal_ok : Proposal → Bool
  pub report_ok : Report → Bool
  pub decision_ok : AcceptanceDecision → Bool
  pub assertion_ok : AcceptedAssertion → Bool
