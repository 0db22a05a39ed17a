-- ===== src/Kernel/Tests.antt =====
-- A kernel with one verified proposal, which is accepted.
use exposure_atlas.Base.{true, none, [], ◌∷◌, ok, err, ◌≡◌, refl, text_eq_instance}
use exposure_atlas.Base.Dict.{get}
use exposure_atlas.Base.Text.{show_nat}
use exposure_atlas.Verify.{Proposal}
use exposure_atlas.Audit.{append_event}
use exposure_atlas.Kernel.{
  Kernel, Host, KernelError, Approval, AcceptedAssertion, accepted_assertion, is_accepted, audited,
  logged, audit, decide, accept, guarded, guards, after_decision, decision_of, approve_with,
  approve,
}
use exposure_atlas.Kernel.Acceptance.{IsBacked, approve-IsBacked, accepted_once}

abbrev host : Host
host = record {
  sha256_hex = λ b. "h";
  report_sha256 = λ r. r.report_id;
  event_hash = λ e. show_nat e.seq;
  event_ok = λ e. true;
  anchor_ok = λ a. true;
  proposal_ok = λ p. true;
  report_ok = λ r. true;
  decision_ok = λ d. true;
  assertion_ok = λ a. true;
}

abbrev proposal : Proposal
proposal = record {
  proposal_id = "prp_1";
  source_version_id = "ver_1";
  subject_ref = "rec_1";
  predicate = "finding";
  raw_value = "a";
  value_status = "stated";
  procedural_modality = "finding";
  value_origin = "source_quote";
  support = [];
  observed_at = "2026-07-11";
  normalized_value = none;
  transform = none;
}

abbrev kernel : Kernel
kernel = record {
  source_documents = [];
  source_versions = [];
  text_artifacts = [];
  canonical_texts = [];
  anchors = [];
  proposals = ("prp_1", proposal) ∷ [];
  reports =
      ("prp_1", record { report_id = "rep_1"; target_id = "prp_1"; checks = []; overall = "pass" })
      ∷ [];
  decisions = [];
  assertions = [];
  audit_log = [];
}

abbrev assertion : AcceptedAssertion
assertion = accepted_assertion "ast_1" proposal "prp_1" "dec_1"

abbrev after : Kernel
after = (approve host "dec_1" "ast_1" "prp_1" "ok" "2026-07-11" "accept" kernel).1

proposal-accepted :
    (approve host "dec_1" "ast_1" "prp_1" "ok" "2026-07-11" "accept" kernel).0
    ≡ ok (Approval.accepted assertion)
unfolding approve approve_with guards guarded get is_accepted decision_of decide logged audit
    audited append_event after_decision accept
proposal-accepted = refl

approve-IsBacked_example : IsBacked host "dec_1" "ast_1" "prp_1" "accept" assertion kernel after
approve-IsBacked_example =
    approve-IsBacked host "dec_1" "ast_1" "prp_1" "ok" "2026-07-11" "accept" kernel
      proposal-accepted

accepted_once_example :
    approve host "dec_2" "ast_2" "prp_1" "no" "2026-07-12" "reject" after
    ≡ (err KernelError.already_accepted, after)
accepted_once_example =
    accepted_once host "dec_1" "ast_1" "prp_1" "ok" "2026-07-11" "accept" kernel "dec_2" "ast_2"
      "no" "2026-07-12" "reject" proposal-accepted
