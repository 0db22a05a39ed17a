-- ===== src/ReviewCard.antt =====
-- Decision cards (packages/python/atlas/review_card.py). A JSON value that the code only passes
-- on is kept as its text; an optional field is an `Option`, and a list that may be absent is empty.
mod Tests
pub mod Laws
use Prim.Native.String.{count}
use exposure_atlas.Base.{
  ℕ, String, Bool, true, false, Option, none, some, List, [], ◌∷◌, ◌++◌, map, not, ◌&&◌, ◌||◌, ltb,
  Result, ok, err, ◌>>=◌, ◌>>◌, raise_if, is_empty, ◌==◌, text_eq_instance, if◌then◌else◌, ◌^^◌,
}
use exposure_atlas.Base.Sort.{sorted, distinct}

abbrev pub Json : Type 0
Json = String

pub data CardError : Type 0 where
  no_anchor_support no_parents_or_transform unknown_kind : CardError
  edit_without_rationale classification_with_anchors : CardError
  chain_of_thought rationale_too_long schema_error : CardError

pub record Derivation : Type 0 where
  pub parent_assertion_ids : List String
  pub transform_version : Option String

pub record Assertion : Type 0 where
  pub assertion_ref : Option String
  pub kind : Option String
  pub support : List Json
  pub derivation : Option Derivation

pub record Classification : Type 0 where
  pub is_edit : Bool
  pub taxonomy_rationale : Option String
  pub support : Option Json
  pub anchor_ids : Option Json

pub record Vote : Type 0 where
  pub rationale : String
  pub chain_of_thought : Option Json
  pub reasoning_trace : Option Json

pub record Warning : Type 0 where
  pub kind : String
  pub detail : String

pub record CardOption : Type 0 where
  pub option : String
  pub rest : Json

pub record Card : Type 0 where
  pub card_id : String
  pub task_id : String
  pub question : String
  pub requested_decision : String
  pub proposed_answer : String
  pub issuer : Json
  pub source_version_id : String
  pub rights_state : String
  pub security_state : String
  pub restricted : Bool
  pub assertions : List Assertion
  pub options : List CardOption
  pub warnings : List Warning
  pub restrictive_default : String
  pub expiry : String
  pub alternatives : List String
  pub canonical : Option Json
  pub classifications : List Classification
  pub model_votes : List Vote
  pub verifier_results : List Json
  pub duplicates : List String
  pub boundary_ref : Option Json
  pub diff_summary : Option String

-- Python's truth of an optional text
abbrev pub truthy : Option String → Bool
truthy none = false
truthy (some s) = not (s == "")

abbrev pub present : {A : Type 0} → Option A → Bool
present none = false
present (some _) = true

derived_ok : Option Derivation → Bool
derived_ok none = false
derived_ok (some d) = not (is_empty d.parent_assertion_ids) && truthy d.transform_version

kind_ok : Option String → Assertion → Result CardError (Unit {0})
kind_ok none a = err CardError.unknown_kind
kind_ok (some kind) a =
    if kind == "source_derived"
    then raise_if (is_empty a.support) CardError.no_anchor_support
    else if kind == "derived"
    then raise_if (not (derived_ok a.derivation)) CardError.no_parents_or_transform
    else err CardError.unknown_kind

unfoldable pub assertion_ok : Assertion → Result CardError (Unit {0})
unfolding derived_ok kind_ok
assertion_ok a = kind_ok a.kind a

unfoldable pub classification_ok : Classification → Result CardError (Unit {0})
classification_ok c = do
  raise_if (c.is_edit && not (truthy c.taxonomy_rationale)) CardError.edit_without_rationale
  raise_if (present c.support || present c.anchor_ids) CardError.classification_with_anchors

vote_ok : Vote → Result CardError (Unit {0})
vote_ok v = do
  raise_if (present v.chain_of_thought || present v.reasoning_trace) CardError.chain_of_thought
  raise_if (ltb 600 (count v.rationale)) CardError.rationale_too_long

-- `for x in xs: check(x)`
each : {A : Type 0} → (A → Result CardError (Unit {0})) → List A → Result CardError (Unit {0})
each check [] = ok tt
each check (x ∷ xs) = check x >> each check xs

votes_ok : List Vote → Result CardError (Unit {0})
unfolding vote_ok each
votes_ok votes = each vote_ok votes

abbrev pub ocr_warning : Warning
ocr_warning = record {
  kind = "ocr";
  detail = "OCR-derived text; verify against the source render.";
}

abbrev pub superseded_warning : Warning
superseded_warning = record {
  kind = "superseded_source";
  detail = "A newer source version exists; this card is built on a superseded version.";
}

card_warnings : List Warning → Bool → Bool → List Warning
card_warnings extra ocr_detected superseded_source =
    extra
    ++ (if ocr_detected then ocr_warning ∷ [] else [])
    ++ (if superseded_source then superseded_warning ∷ [] else [])

-- The arguments of `build_card` are a card whose identifier and warnings are still to be filled
-- in: its `warnings` are the `extra_warnings`. `digest` is the first twelve digits of SHA-256.
pub build_card : (String → String) → (Card → Bool) → Card → Bool → Bool → Result CardError Card
unfolding assertion_ok classification_ok votes_ok card_warnings each
build_card digest schema_ok c ocr_detected superseded_source = do
  each assertion_ok c.assertions
  each classification_ok c.classifications
  votes_ok c.model_votes
  let card = record c {
    card_id = "rvc_" ^^ digest (c.task_id ^^ "\n" ^^ c.question ^^ "\n" ^^ c.source_version_id);
    warnings = card_warnings c.warnings ocr_detected superseded_source;
  }
  raise_if (not (schema_ok card)) CardError.schema_error
  ok card

pub record Summary : Type 0 where
  pub card_id : String
  pub task_id : String
  pub question : String
  pub requested_decision : String
  pub rights_state : String
  pub security_state : String
  pub restrictive_default : String
  pub expiry : String
  pub authenticated_view_required : Bool
  pub warning_kinds : List String
  pub proposed_answer : Option String
  pub option_labels : Option (List String)

unfoldable pub channel_safe_summary : Card → Summary
unfolding sorted distinct
channel_safe_summary card = record {
  card_id = card.card_id;
  task_id = card.task_id;
  question = card.question;
  requested_decision = card.requested_decision;
  rights_state = card.rights_state;
  security_state = card.security_state;
  restrictive_default = card.restrictive_default;
  expiry = card.expiry;
  authenticated_view_required = true;
  warning_kinds = sorted (distinct (map (λ w. w.kind) card.warnings));
  proposed_answer = if card.restricted then none else some card.proposed_answer;
  option_labels = if card.restricted then none else some (map (λ o. o.option) card.options);
}
