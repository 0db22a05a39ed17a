-- ===== src/Verify.antt =====
-- The mechanical verifier (packages/python/atlas/verify.py). A check keeps its name and its result;
-- the text of its detail is left out. The schemas are tests of the proposal and of the report.
mod Tests
pub mod Soundness
use exposure_atlas.Base.{
  String, Bool, true, false, Option, none, some, List, [], ◌∷◌, ◌++◌, not, ◌&&◌, ◌||◌, elem, any,
  is_empty, Result, ok, err, ◌>>=◌, ◌>>◌, raise_if, ◌==◌, text_eq_instance, if◌then◌else◌,
}
use exposure_atlas.Base.Dict.{Dict, get, put}
use exposure_atlas.Anchors.{Bytes, Anchor, Artifact, verify_anchor}

abbrev pub role_modalities : Dict String (List String)
role_modalities =
    ("complaint_or_pleading", "allegation" ∷ "party_position" ∷ [])
    ∷ ("judgment_or_order", "finding" ∷ "holding" ∷ "order" ∷ "procedural_event" ∷ [])
    ∷ ("official_docket_entry", "procedural_event" ∷ [])
    ∷ ("regulator_decision", "finding" ∷ "order" ∷ "procedural_event" ∷ [])
    ∷ ("official_press_release", "announcement" ∷ [])
    ∷ ("settlement_instrument", "party_position" ∷ "admission" ∷ "order" ∷ [])
    ∷ ("mirror_copy", [])
    ∷ ("tracker_or_news", [])
    ∷ []

abbrev pub publishable_provenance : List String
publishable_provenance =
    "issuer_direct" ∷ "official_docket" ∷ "signature_verified" ∷ "digest_crossmatched"
    ∷ "human_corroborated" ∷ []

pub record Edge : Type 0 where
  pub anchor_id : String
  pub role : String

pub record Transform : Type 0 where
  pub rule : String
  pub parent_assertion_ids : List String

-- A normalized value: a dict with a `decimal` that is a text, or that is none, or anything else.
pub data NormalizedValue : Type 0 where
  decimal_text decimal_other plain : String → NormalizedValue

pub record Proposal : Type 0 where
  pub proposal_id : String
  pub source_version_id : String
  pub subject_ref : String
  pub predicate : String
  pub raw_value : String
  pub value_status : String
  pub procedural_modality : String
  pub value_origin : String
  pub support : List Edge
  pub observed_at : String
  pub normalized_value : Option NormalizedValue
  pub transform : Option Transform

pub record SourceDocument : Type 0 where
  pub source_document_id : String
  pub issuer : String
  pub document_role : String
  pub title : String
  pub source_id : String
  pub docket : Option String

pub record SourceVersion : Type 0 where
  pub source_version_id : String
  pub source_document_id : String
  pub content_sha256 : String
  pub mime_type : String
  pub copy_provenance_state : String

pub data CheckResult : Type 0 where
  pass fail indeterminate not_applicable : CheckResult

pub record Check : Type 0 where
  pub check : String
  pub result : CheckResult

pub record Report : Type 0 where
  pub report_id : String
  pub target_id : String
  pub checks : List Check
  pub overall : String

pub data VerifyError : Type 0 where
  report_schema_error : VerifyError

abbrev pub add : String → CheckResult → Check
add name r = record { check = name; result = r }

abbrev pub pass_if : Bool → CheckResult
pass_if true = CheckResult.pass
pass_if false = CheckResult.fail

-- What the verifier reads of the canonical text.
pub record Evidence : Type 0 where
  pub sha256_hex : Bytes → String
  pub text_artifact : Artifact
  pub canonical_text : Bytes
  pub text_sha256 : String
  pub anchors_by_id : Dict String Anchor

-- One support edge adds no failure.
edge_resolves : Evidence → String → Edge → Option Anchor → Bool
edge_resolves ev raw edge none = false
edge_resolves ev raw edge (some anc) =
    is_empty (verify_anchor ev.sha256_hex ev.canonical_text ev.text_sha256 ev.text_artifact anc)
    && not (edge.role == "supports" && not (anc.quote == raw))

edges_resolve : Evidence → String → List Edge → Bool
edges_resolve ev raw [] = true
edges_resolve ev raw (edge ∷ edges) =
    edge_resolves ev raw edge (get ev.anchors_by_id edge.anchor_id) && edges_resolve ev raw edges

-- `t and t.get("parent_assertion_ids")`
has_parents : Option Transform → Bool
has_parents none = false
has_parents (some t) = not (is_empty t.parent_assertion_ids)

origin_checks : Evidence → Proposal → List Check
origin_checks ev p =
    if p.value_origin == "source_quote"
    then add "anchor_resolution"
        (pass_if (not (is_empty p.support) && edges_resolve ev p.raw_value p.support))
      ∷ []
    else if p.value_origin == "normalized" || p.value_origin == "derived"
    then add "transform_provenance" (pass_if (has_parents p.transform))
      ∷ add "anchor_resolution" CheckResult.not_applicable
      ∷ []
    else add "anchor_resolution" CheckResult.indeterminate ∷ []

-- `ROLE_MODALITIES.get(role, set())`
allowed_modalities : Option (List String) → List String
allowed_modalities none = []
allowed_modalities (some ms) = ms

money : Option NormalizedValue → CheckResult
money none = CheckResult.not_applicable
money (some (NormalizedValue.decimal_text _)) = CheckResult.pass
money (some (NormalizedValue.decimal_other _)) = CheckResult.fail
money (some (NormalizedValue.plain _)) = CheckResult.not_applicable

all_checks : (Proposal → Bool) → Evidence → SourceDocument → SourceVersion → Proposal → List Check
all_checks proposal_ok ev sdoc sver p =
    add "schema_valid" (pass_if (proposal_ok p))
      ∷ add "source_version_binding" (pass_if (p.source_version_id == sver.source_version_id))
      ∷ origin_checks ev p
    ++ add "source_role_permits_modality" (
        pass_if (
          elem p.procedural_modality (allowed_modalities (get role_modalities sdoc.document_role))))
      ∷ add "copy_provenance" (pass_if (elem sver.copy_provenance_state publishable_provenance))
      ∷ add "money_decimal" (money p.normalized_value)
      ∷ add "semantic_support" CheckResult.indeterminate
      ∷ []

abbrev pub blocking : List String
blocking =
    "schema_valid" ∷ "source_version_binding" ∷ "anchor_resolution" ∷ "source_role_permits_modality"
    ∷ "copy_provenance" ∷ "money_decimal" ∷ "transform_provenance" ∷ []

-- `{c["check"]: c["result"] for c in checks}`
pub results : Dict String CheckResult → List Check → Dict String CheckResult
results d [] = d
results d (c ∷ cs) = results (put d c.check c.result) cs

is_fail : Option CheckResult → Bool
is_fail (some CheckResult.fail) = true
is_fail _ = false

overall_of : List Check → String
overall_of checks =
    if any (λ b. is_fail (get (results [] checks) b)) blocking then "fail" else "pass"

pub verify_proposal :
    (Proposal → Bool)
    → (Report → Bool)
    → Evidence
    → SourceDocument
    → SourceVersion
    → String
    → Proposal
    → Result VerifyError Report
unfolding all_checks overall_of
verify_proposal proposal_ok report_ok ev sdoc sver report_id p = do
  let checks = all_checks proposal_ok ev sdoc sver p
  let report : Report = record {
    report_id = report_id;
    target_id = p.proposal_id;
    checks = checks;
    overall = overall_of checks;
  }
  raise_if (not (report_ok report)) VerifyError.report_schema_error
  ok report
