-- ===== src/ReviewCard/Laws.antt =====
-- What a built card guarantees, and that a restricted card's summary carries no content.
use exposure_atlas.Base.{
  ap, ap₂, sym, ◌∙◌, map, ==_iff, text_eq_instance, ◌==◌, is_empty, ◌≢◌, ◌⊎◌, Option, none, some,
  String, Bool, true, false, List, [], ◌∷◌, Result, ok, >>-eq-ok, ok_inj, raise_if, raise_if-eq-ok,
  subst, not, elem, All, ◌≡◌, refl, arith, Bool-cases, inl, inr,
}
use exposure_atlas.Base.Sort.{sorted, distinct}
use exposure_atlas.ReviewCard.{
  Derivation, truthy, derived_ok, kind_ok, Card, CardError, Assertion, Warning, assertion_ok,
  Summary, classification_ok, votes_ok, each, card_warnings, build_card, channel_safe_summary,
}

abbrev pub kinds : List Warning → List String
kinds ws = map (λ w. w.kind) ws

-- The fields of a card that route it to its reviewer.
pub record Routing : Type 0 where
  card_id : String
  task_id : String
  question : String
  requested_decision : String
  rights_state : String
  security_state : String
  restrictive_default : String
  expiry : String

abbrev pub routing_of : Card → Routing
routing_of c = record {
  card_id = c.card_id;
  task_id = c.task_id;
  question = c.question;
  requested_decision = c.requested_decision;
  rights_state = c.rights_state;
  security_state = c.security_state;
  restrictive_default = c.restrictive_default;
  expiry = c.expiry;
}

-- What a restricted card may tell the channel, from its routing fields and the kinds of its warnings.
abbrev restricted_summary : Routing → List String → Summary
restricted_summary r ks = record {
  card_id = r.card_id;
  task_id = r.task_id;
  question = r.question;
  requested_decision = r.requested_decision;
  rights_state = r.rights_state;
  security_state = r.security_state;
  restrictive_default = r.restrictive_default;
  expiry = r.expiry;
  authenticated_view_required = true;
  warning_kinds = sorted (distinct ks);
  proposed_answer = none;
  option_labels = none;
}

restricted_summary_lem :
    (c : Card)
    → c.restricted ≡ true
    → channel_safe_summary c ≡ restricted_summary (routing_of c) (kinds c.warnings)
unfolding channel_safe_summary sorted distinct
restricted_summary_lem c h = rw h

-- Two restricted cards with the same routing fields and the same kinds of warnings have the same summary,
-- whatever else they hold, their warnings' details, issuer and source version included: only the
-- routing fields and the kinds reach the channel. The summary has no answer and no options, and asks
-- for the authenticated view.
pub restricted_content_hidden :
    (c d : Card)
    → c.restricted ≡ true
    → d.restricted ≡ true
    → routing_of c ≡ routing_of d
    → kinds c.warnings ≡ kinds d.warnings
    → (channel_safe_summary c ≡ channel_safe_summary d)
      × ((channel_safe_summary c).proposed_answer ≡ none)
      × ((channel_safe_summary c).option_labels ≡ none)
      × ((channel_safe_summary c).authenticated_view_required ≡ true)
restricted_content_hidden c d h k same warned =
    let e = restricted_summary_lem c h in
    (
      e ∙ ap₂ restricted_summary same warned ∙ sym (restricted_summary_lem d k),
      ap (λ s. s.proposed_answer) e,
      ap (λ s. s.option_labels) e,
      ap (λ s. s.authenticated_view_required) e,
    )

each-ok :
    {A : Type 0} (check : A → Result CardError (Unit {0})) (xs : List A)
    → each check xs ≡ ok tt
    → All (λ x. check x ≡ ok tt) xs
unfolding each
each-ok check [] h = tt
each-ok check (x ∷ xs) h = ground (arith, each-ok check xs)

-- An assertion that carries its evidence: anchors, or at least one parent and a transform's version.
abbrev pub IsSupported : Assertion → Type 0
IsSupported a =
    ((a.kind ≡ some "source_derived") × (a.support ≢ []))
    ⊎ ((a.kind ≡ some "derived")
        × ((d : Derivation) × (a.derivation ≡ some d)
            × (d.parent_assertion_ids ≢ [])
            × ((v : String) × (d.transform_version ≡ some v) × (v ≢ ""))))

ne-nil_of_is_empty : {A : Type 0} (xs : List A) → is_empty xs ≡ false → xs ≢ []
ne-nil_of_is_empty [] h = cc
ne-nil_of_is_empty (x ∷ xs) h = λ e. cc

truthy-some : (o : Option String) → truthy o ≡ true → (v : String) × (o ≡ some v) × (v ≢ "")
truthy-some none h = cc
truthy-some (some v) h = (v, refl, λ e. ground (arith, ==_iff v ""))

derived_ok-some :
    (o : Option Derivation)
    → derived_ok o ≡ true
    → (d : Derivation) × (o ≡ some d)
      × (d.parent_assertion_ids ≢ [])
      × ((v : String) × (d.transform_version ≡ some v) × (v ≢ ""))
unfolding derived_ok
derived_ok-some none h = cc
derived_ok-some (some d) h = (
  d,
  refl,
  ne-nil_of_is_empty d.parent_assertion_ids (ground arith),
  truthy-some d.transform_version (ground arith),
)

kind_ok-IsSupported :
    (k : Option String) (a : Assertion) → a.kind ≡ k → kind_ok k a ≡ ok tt → IsSupported a
unfolding kind_ok
kind_ok-IsSupported none a e h = cc
kind_ok-IsSupported (some k) a e h = elim (Bool-cases (k == "source_derived")) [
  | inl quoted ↦ inl (
    e ∙ ap some ((==_iff k "source_derived").0 quoted),
    ne-nil_of_is_empty a.support (ground arith),
  )
  | inr other ↦ elim (Bool-cases (k == "derived")) [
    | inr unknown ↦ ground arith
    | inl derived ↦
        inr (
          e ∙ ap some ((==_iff k "derived").0 derived),
          derived_ok-some a.derivation (ground arith),
        )
  ]
]

pub assertion_ok-IsSupported : (a : Assertion) → assertion_ok a ≡ ok tt → IsSupported a
unfolding assertion_ok
assertion_ok-IsSupported a h = kind_ok-IsSupported a.kind a refl h

each-assertion_ok : (xs : List Assertion) → each assertion_ok xs ≡ ok tt → All IsSupported xs
unfolding each
each-assertion_ok [] h = tt
each-assertion_ok (a ∷ xs) h =
    (assertion_ok-IsSupported a (ground arith), each-assertion_ok xs (ground arith))

warned :
    (extra : List Warning) (ocr superseded : Bool)
    → (ocr ≡ true → elem "ocr" (kinds (card_warnings extra ocr superseded)) ≡ true)
      × (superseded ≡ true
          → elem "superseded_source" (kinds (card_warnings extra ocr superseded)) ≡ true)
unfolding card_warnings
warned [] ocr superseded = ground arith
warned (w ∷ extra) ocr superseded = ground (arith, warned extra ocr superseded)

true_of_not : {b : Bool} → not b ≡ false → b ≡ true
true_of_not {b} h = ground arith

-- A card that is built carries the evidence of every assertion, keeps the assertions that it was
-- given, and warns of OCR and of a superseded source whatever the caller's own warnings are.
pub build_card_sound :
    (digest : String → String) (schema_ok : Card → Bool) (c : Card) (ocr superseded : Bool)
    {card : Card}
    → build_card digest schema_ok c ocr superseded ≡ ok card
    → All IsSupported card.assertions
      × (card.assertions ≡ c.assertions)
      × (ocr ≡ true → elem "ocr" (kinds card.warnings) ≡ true)
      × (superseded ≡ true → elem "superseded_source" (kinds card.warnings) ≡ true)
      × (schema_ok card ≡ true)
unfolding build_card
build_card_sound digest schema_ok c ocr superseded h =
    let (supported, h1) = >>-eq-ok (each assertion_ok c.assertions) _ h in
    let (_, h2) = >>-eq-ok (each classification_ok c.classifications) _ h1 in
    let (_, h3) = >>-eq-ok (votes_ok c.model_votes) _ h2 in
    let (valid, h4) = >>-eq-ok (raise_if _ CardError.schema_error) _ h3 in
    subst
      (λ d.
        All IsSupported d.assertions
        × (d.assertions ≡ c.assertions)
        × (ocr ≡ true → elem "ocr" (kinds d.warnings) ≡ true)
        × (superseded ≡ true → elem "superseded_source" (kinds d.warnings) ≡ true)
        × (schema_ok d ≡ true))
      (ok_inj h4)
      (
        each-assertion_ok c.assertions supported,
        refl,
        (warned c.warnings ocr superseded).0,
        (warned c.warnings ocr superseded).1,
        true_of_not (raise_if-eq-ok _ CardError.schema_error valid),
      )
