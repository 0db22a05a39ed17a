-- ===== src/ReviewCard/Tests.antt =====
-- A restricted card with one quoted assertion, read from a scan.
use exposure_atlas.Base.{
  String, true, false, none, some, List, [], ◌∷◌, ok, ◌≡◌, refl, elem, All, text_eq_instance,
}
use exposure_atlas.ReviewCard.{
  Card, Assertion, Warning, build_card, channel_safe_summary, ocr_warning,
}
use exposure_atlas.ReviewCard.Laws.{IsSupported, kinds, restricted_content_hidden, build_card_sound}

abbrev assertion : Assertion
assertion = record {
  assertion_ref = some "ast_1";
  kind = some "source_derived";
  support = "{}" ∷ [];
  derivation = none;
}

abbrev card : String → List Warning → String → Card
card id warnings answer = record {
  card_id = id;
  task_id = "rvt_1";
  question = "q";
  requested_decision = "accept";
  proposed_answer = answer;
  issuer = "{}";
  source_version_id = "ver_1";
  rights_state = "unknown";
  security_state = "internal";
  restricted = true;
  assertions = assertion ∷ [];
  options = [];
  warnings = warnings;
  restrictive_default = "hold";
  expiry = "2026-07-12T00:00:00Z";
  alternatives = [];
  canonical = none;
  classifications = [];
  model_votes = [];
  verifier_results = [];
  duplicates = [];
  boundary_ref = none;
  diff_summary = none;
}

-- Two cards with other details and other answers.
abbrev scanned : Card
scanned = card "rvc_1" (ocr_warning ∷ []) "yes"

abbrev rescanned : Card
rescanned = card "rvc_1" (record { kind = "ocr"; detail = "page 3" } ∷ []) "no"

restricted_content_hidden_example :
    (channel_safe_summary scanned ≡ channel_safe_summary rescanned)
    × ((channel_safe_summary scanned).proposed_answer ≡ none)
    × ((channel_safe_summary scanned).option_labels ≡ none)
    × ((channel_safe_summary scanned).authenticated_view_required ≡ true)
restricted_content_hidden_example = restricted_content_hidden scanned rescanned refl refl refl refl

card-built :
    build_card (λ s. "1") (λ c. true) (card "" [] "yes") true false
    ≡ ok (card "rvc_1" (ocr_warning ∷ []) "yes")
unfolding build_card
card-built = refl

build_card_sound_example :
    All IsSupported (assertion ∷ [])
    × (assertion ∷ [] ≡ assertion ∷ [])
    × (true ≡ true → elem "ocr" (kinds (ocr_warning ∷ [])) ≡ true)
    × (false ≡ true → elem "superseded_source" (kinds (ocr_warning ∷ [])) ≡ true)
    × (true ≡ true)
build_card_sound_example =
    build_card_sound (λ s. "1") (λ c. true) (card "" [] "yes") true false card-built
