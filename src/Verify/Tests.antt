-- ===== src/Verify/Tests.antt =====
-- A finding of a judgment, quoted once.
use exposure_atlas.Base.{true, none, some, [], ◌∷◌, ok, ◌≡◌, refl, text_eq_instance}
use exposure_atlas.Base.Dict.{get, put}
use exposure_atlas.Base.Text.{codes}
use exposure_atlas.Anchors.{Anchor, verify_anchor, encode}
use exposure_atlas.Verify.{
  Proposal, SourceDocument, SourceVersion, Report, CheckResult, Evidence, all_checks, results,
  is_fail, origin_checks, edges_resolve, edge_resolves, allowed_modalities, money, verify_proposal,
}
use exposure_atlas.Verify.Soundness.{IsVerified, verify_proposal_sound}

abbrev anchor : Anchor
anchor = record {
  anchor_id = "anc_1";
  text_artifact_id = "txt_1";
  quote = "a";
  quote_sha256 = "h";
  start_byte = 0;
  end_byte = 1;
  prefix = [];
  suffix = [];
  page_label = none;
  anchor_basis = "native_text";
}

abbrev evidence : Evidence
evidence = record {
  sha256_hex = λ b. "h";
  text_artifact = record {
    text_artifact_id = "txt_1";
    source_version_id = "ver_1";
    canonical_sha256 = "h";
  };
  canonical_text = 97 ∷ [];
  text_sha256 = "h";
  anchors_by_id = ("anc_1", anchor) ∷ [];
}

abbrev document : SourceDocument
document = record {
  source_document_id = "doc_1";
  issuer = "court";
  document_role = "judgment_or_order";
  title = "t";
  source_id = "src_1";
  docket = none;
}

abbrev source_version : SourceVersion
source_version = record {
  source_version_id = "ver_1";
  source_document_id = "doc_1";
  content_sha256 = "h";
  mime_type = "text/html";
  copy_provenance_state = "issuer_direct";
}

abbrev proposal : Proposal
proposal = record {
  proposal_id = "prp_1";
  source_version_id = "ver_1";
  subject_ref = "rec_1";
  predicate = "finding";
  raw_value = "a";
  value_status = "stated";
  procedural_modality = "finding";
  value_origin = "source_quote";
  support = record { anchor_id = "anc_1"; role = "supports" } ∷ [];
  observed_at = "2026-07-11";
  normalized_value = none;
  transform = none;
}

abbrev report : Report
report = record {
  report_id = "rep_1";
  target_id = "prp_1";
  checks = all_checks (λ p. true) evidence document source_version proposal;
  overall = "pass";
}

proposal-passes :
    verify_proposal (λ p. true) (λ r. true) evidence document source_version "rep_1" proposal
    ≡ ok report
unfolding verify_proposal get put verify_anchor encode codes is_fail results origin_checks
    edges_resolve edge_resolves allowed_modalities money
proposal-passes = refl

verify_proposal_sound_example :
    IsVerified evidence document source_version proposal
    × (get (results [] report.checks) "semantic_support" ≡ some CheckResult.indeterminate)
verify_proposal_sound_example =
    verify_proposal_sound (λ p. true) (λ r. true) evidence document source_version "rep_1" proposal
      proposal-passes refl
