-- ===== src/Release/Tests.antt =====
-- A release of one record, read back with an overlay that denies another one.
use exposure_atlas.Base.{String, true, none, [], ◌∷◌, ok, ◌≡◌, refl, text_eq_instance}
use exposure_atlas.Base.Dict.{get, put}
use exposure_atlas.Base.Text.{codes}
use exposure_atlas.Base.Sort.{sort_by}
use exposure_atlas.Anchors.{is_prefix}
use exposure_atlas.Release.{
  Bytes, Files, Overlay, Manifest, contains, has_canary, write_records, build_release,
  check_artifacts, verify_release, verify_overlay, is_denied, Served, serve_record,
}
use exposure_atlas.Release.Files.{verify_release-build_release}
use exposure_atlas.Release.Reading.{IsPublic, serve_record-IsPublic}
use exposure_atlas.Release.Projection.{
  Assertion, SourceVersion, SourceDocument, fact_of, Summary, project_fact, project_facts,
  project_record_summary, AreApproved, project_record_summary-AreApproved,
}

-- one kind of record, whose JSON is one byte
data Doc : Type 0 where
  first : Doc

abbrev id_of : Doc → String
id_of first = "r1"

abbrev doc_bytes : Doc → Bytes
doc_bytes first = 49 ∷ []

abbrev load_doc : Bytes → Doc
load_doc b = first

load-doc_bytes : (d : Doc) → load_doc (doc_bytes d) ≡ d
load-doc_bytes first = refl

abbrev manifest : Manifest
manifest = record {
  release_id = "rel_1";
  snapshot_id = "snp_1";
  prior_release_id = none;
  created_from_commit = "abc";
  artifact_hashes = ("records/r1.json", "h") ∷ [];
  root_hash = "root";
  policy_versions = [];
  build_timestamp = "2026-07-11T00:00:00Z";
  signed_sha256 = "root";
}

abbrev files : Files
files = ("records/r1.json", 49 ∷ []) ∷ ("release-manifest.json", 50 ∷ []) ∷ []

build-ok :
    build_release id_of doc_bytes
      (λ b. "h")
      (λ m. 50 ∷ [])
      (λ m. true)
      (λ hashes. "root")
      "rel_1"
      "snp_1"
      []
      (first ∷ [])
      "2026-07-11T00:00:00Z"
      "abc"
      none
      []
    ≡ (ok manifest, files)
unfolding build_release write_records sort_by has_canary contains is_prefix codes get put
build-ok = refl

verify_release-build_release_example :
    verify_release (λ b. "h") (λ b. manifest) (λ m. true) (λ hashes. "root") files ≡ ok manifest
verify_release-build_release_example =
    verify_release-build_release id_of doc_bytes (λ b. "h") (λ m. 50 ∷ []) (λ b. manifest)
      (λ m. true) (λ hashes. "root") "rel_1" "snp_1" [] (first ∷ []) "2026-07-11T00:00:00Z" "abc"
      none [] build-ok refl

abbrev overlay : Overlay
overlay = record {
  overlay_id = "ovl_1";
  as_of = "2026-07-11T00:00:00Z";
  denied_record_ids = "r2" ∷ [];
  denial_reasons = ("r2", "court order") ∷ [];
  payload_sha256 = "p";
}

serve-ok :
    serve_record
      (λ b. "h")
      (λ b. manifest)
      (λ m. true)
      (λ hashes. "root")
      load_doc
      (λ i t ids reasons. "p")
      (λ o. true)
      files
      "r1"
      overlay
    ≡ ok (Served.served "rel_1" "ovl_1" first)
unfolding serve_record verify_release check_artifacts is_denied verify_overlay get
serve-ok = refl

serve_record-IsPublic_example : IsPublic id_of doc_bytes (first ∷ []) overlay "r1" first
serve_record-IsPublic_example =
    serve_record-IsPublic id_of doc_bytes load_doc load-doc_bytes (λ b. "h") (λ m. 50 ∷ [])
      (λ b. manifest) (λ m. true) (λ hashes. "root") (λ i t ids reasons. "p") (λ o. true) "rel_1"
      "snp_1" [] (first ∷ []) "2026-07-11T00:00:00Z" "abc" none [] build-ok refl "r1" overlay
      serve-ok

abbrev assertion : Assertion
assertion = record {
  semantic_review_state = "human_approved";
  source_version_id = "srcv_1";
  predicate = "fined";
  raw_value = "10";
  normalized_value = none;
  procedural_modality = "final_order";
}

abbrev version : SourceVersion
version = record { source_document_id = "src_1"; content_sha256 = "h" }

abbrev document : SourceDocument
document = record { issuer = "court"; title = "order"; docket = none }

abbrev summary : Summary
summary = record {
  release_id = "rel_1";
  record_id = "r1";
  record_revision_id = "rev_1";
  boundary_version = "1";
  facts = fact_of assertion version document ∷ [];
}

project-ok :
    project_record_summary
      (λ s. true)
      "rel_1"
      "r1"
      "rev_1"
      (assertion ∷ [])
      (("src_1", document) ∷ [])
      (("srcv_1", version) ∷ [])
      "1"
    ≡ ok summary
unfolding project_record_summary project_facts project_fact get
project-ok = refl

project_record_summary-AreApproved_example :
    (summary.release_id ≡ "rel_1")
    × (summary.record_id ≡ "r1")
    × (summary.record_revision_id ≡ "rev_1")
    × (summary.boundary_version ≡ "1")
    × AreApproved
        (("srcv_1", version) ∷ [])
        (("src_1", document) ∷ [])
        (assertion ∷ [])
        summary.facts
project_record_summary-AreApproved_example =
    project_record_summary-AreApproved (λ s. true) "rel_1" "r1" "rev_1" (assertion ∷ [])
      (("src_1", document) ∷ []) (("srcv_1", version) ∷ []) "1" project-ok
