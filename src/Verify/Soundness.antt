-- ===== src/Verify/Soundness.antt =====
-- What a passing report proves of the proposal.
use exposure_atlas.Base.{
  String, Bool, true, false, Option, none, some, List, [], ◌∷◌, not, ◌&&◌, ◌||◌, elem, is_empty, ok,
  >>-eq-ok, ok_inj, raise_if, ◌==◌, ==_iff, text_eq_instance, ◌≡◌, ◌≢◌, ◌⊎◌, refl, arith, sym, ap,
  ◌∙◌, subst, All, Bool-cases, inl, inr, if◌then◌else◌,
}
use mathlib.Core.Bool.{false≢true}
use exposure_atlas.Base.Dict.{get, put}
use exposure_atlas.Anchors.{Anchor, verify_anchor}
use exposure_atlas.Verify.{
  Proposal, SourceDocument, SourceVersion, Evidence, Edge, Transform, Report, VerifyError,
  CheckResult, role_modalities, publishable_provenance, pass_if, edge_resolves, edges_resolve,
  has_parents, origin_checks, allowed_modalities, money, all_checks, add, results, is_fail,
  overall_of, verify_proposal,
}

-- The support or the parents that the value's origin asks for.
origin_pass : Evidence → Proposal → Bool
origin_pass ev p =
    if p.value_origin == "source_quote"
    then not (is_empty p.support) && edges_resolve ev p.raw_value p.support
    else if p.value_origin == "normalized" || p.value_origin == "derived"
    then has_parents p.transform
    else true

-- The checks that can fail, as one test.
all_pass : (Proposal → Bool) → Evidence → SourceDocument → SourceVersion → Proposal → Bool
all_pass proposal_ok ev sdoc sver p =
    proposal_ok p
    && p.source_version_id == sver.source_version_id
    && origin_pass ev p
    && elem p.procedural_modality (allowed_modalities (get role_modalities sdoc.document_role))
    && elem sver.copy_provenance_state publishable_provenance
    && not (is_fail (some (money p.normalized_value)))

overall_quoted :
    (a b c d e : Bool) (m : CheckResult)
    → overall_of (
        add "schema_valid" (pass_if a)
        ∷ add "source_version_binding" (pass_if b)
        ∷ add "anchor_resolution" (pass_if c)
        ∷ add "source_role_permits_modality" (pass_if d)
        ∷ add "copy_provenance" (pass_if e)
        ∷ add "money_decimal" m
        ∷ add "semantic_support" CheckResult.indeterminate
        ∷ [])
      ≡ (if a && b && c && d && e && not (is_fail (some m)) then "pass" else "fail")
unfolding overall_of results is_fail get put
overall_quoted false b c d e m = refl
overall_quoted true false c d e m = refl
overall_quoted true true false d e m = refl
overall_quoted true true true false e m = refl
overall_quoted true true true true false m = refl
overall_quoted true true true true true CheckResult.pass = refl
overall_quoted true true true true true CheckResult.fail = refl
overall_quoted true true true true true CheckResult.indeterminate = refl
overall_quoted true true true true true CheckResult.not_applicable = refl

overall_derived :
    (a b c d e : Bool) (m : CheckResult)
    → overall_of (
        add "schema_valid" (pass_if a)
        ∷ add "source_version_binding" (pass_if b)
        ∷ add "transform_provenance" (pass_if c)
        ∷ add "anchor_resolution" CheckResult.not_applicable
        ∷ add "source_role_permits_modality" (pass_if d)
        ∷ add "copy_provenance" (pass_if e)
        ∷ add "money_decimal" m
        ∷ add "semantic_support" CheckResult.indeterminate
        ∷ [])
      ≡ (if a && b && c && d && e && not (is_fail (some m)) then "pass" else "fail")
unfolding overall_of results is_fail get put
overall_derived false b c d e m = ground arith
overall_derived true false c d e m = ground arith
overall_derived true true false d e m = ground arith
overall_derived true true true false e m = ground arith
overall_derived true true true true false m = ground arith
overall_derived true true true true true CheckResult.pass = refl
overall_derived true true true true true CheckResult.fail = refl
overall_derived true true true true true CheckResult.indeterminate = refl
overall_derived true true true true true CheckResult.not_applicable = refl

overall_other :
    (a b d e : Bool) (m : CheckResult)
    → overall_of (
        add "schema_valid" (pass_if a)
        ∷ add "source_version_binding" (pass_if b)
        ∷ add "anchor_resolution" CheckResult.indeterminate
        ∷ add "source_role_permits_modality" (pass_if d)
        ∷ add "copy_provenance" (pass_if e)
        ∷ add "money_decimal" m
        ∷ add "semantic_support" CheckResult.indeterminate
        ∷ [])
      ≡ (if a && b && true && d && e && not (is_fail (some m)) then "pass" else "fail")
unfolding overall_of results is_fail get put
overall_other false b d e m = refl
overall_other true false d e m = refl
overall_other true true false e m = refl
overall_other true true true false m = refl
overall_other true true true true CheckResult.pass = refl
overall_other true true true true CheckResult.fail = refl
overall_other true true true true CheckResult.indeterminate = refl
overall_other true true true true CheckResult.not_applicable = refl

overall-all_pass :
    (proposal_ok : Proposal → Bool) (ev : Evidence) (sdoc : SourceDocument) (sver : SourceVersion)
    (p : Proposal)
    → overall_of (all_checks proposal_ok ev sdoc sver p)
      ≡ (if all_pass proposal_ok ev sdoc sver p then "pass" else "fail")
unfolding all_checks origin_checks all_pass origin_pass
overall-all_pass proposal_ok ev sdoc sver p = elim (Bool-cases (p.value_origin == "source_quote")) [
  | inl quoted ↦ rw quoted (overall_quoted _ _ _ _ _ _)
  | inr other ↦
      rw other (elim (Bool-cases (p.value_origin == "normalized" || p.value_origin == "derived")) [
        | inl derived ↦ rw derived (overall_derived _ _ _ _ _ _)
        | inr paraphrase ↦ rw paraphrase (overall_other _ _ _ _ _)
      ])
]

-- An edge whose anchor is known and resolves in the text; a supporting one quotes the value.
abbrev pub EdgeHolds : Evidence → String → Edge → Type 0
EdgeHolds ev raw edge =
    (anc : Anchor) × (get ev.anchors_by_id edge.anchor_id ≡ some anc)
    × (verify_anchor ev.sha256_hex ev.canonical_text ev.text_sha256 ev.text_artifact anc ≡ [])
    × (edge.role ≡ "supports" → anc.quote ≡ raw)

nil_of_is_empty : {A : Type 0} (xs : List A) → is_empty xs ≡ true → xs ≡ []
nil_of_is_empty [] h = refl
nil_of_is_empty (x ∷ xs) h = cc

edge_resolves-EdgeHolds :
    (ev : Evidence) (raw : String) (edge : Edge) (o : Option Anchor)
    → get ev.anchors_by_id edge.anchor_id ≡ o
    → edge_resolves ev raw edge o ≡ true
    → EdgeHolds ev raw edge
unfolding edge_resolves
edge_resolves-EdgeHolds ev raw edge none e h = cc
edge_resolves-EdgeHolds ev raw edge (some anc) e h = (
  anc,
  e,
  nil_of_is_empty
      (verify_anchor ev.sha256_hex ev.canonical_text ev.text_sha256 ev.text_artifact anc)
      (ground arith),
  λ s. (==_iff anc.quote raw).0 (ground (arith, ==_iff edge.role "supports")),
)

edges_resolve-All :
    (ev : Evidence) (raw : String) (edges : List Edge)
    → edges_resolve ev raw edges ≡ true
    → All (EdgeHolds ev raw) edges
unfolding edges_resolve
edges_resolve-All ev raw [] h = tt
edges_resolve-All ev raw (edge ∷ edges) h = (
  edge_resolves-EdgeHolds ev raw edge (get ev.anchors_by_id edge.anchor_id) refl (ground arith),
  edges_resolve-All ev raw edges (ground arith),
)

has_parents-some :
    (o : Option Transform)
    → has_parents o ≡ true
    → (t : Transform) × (o ≡ some t) × (t.parent_assertion_ids ≢ [])
unfolding has_parents
has_parents-some none h = cc
has_parents-some (some t) h = (t, refl, full t.parent_assertion_ids h)
  where
    full : (xs : List String) → not (is_empty xs) ≡ true → xs ≢ []
    full [] h = cc
    full (x ∷ xs) h = λ e. cc

-- What a proposal has when its mechanical checks pass.
pub record IsVerified (ev : Evidence) (sdoc : SourceDocument) (sver : SourceVersion) (p : Proposal)
    : Type 0 where
  pub bound : p.source_version_id ≡ sver.source_version_id
  pub quoted :
      p.value_origin ≡ "source_quote" → (p.support ≢ []) × All (EdgeHolds ev p.raw_value) p.support
  pub derived :
      (p.value_origin ≡ "normalized") ⊎ (p.value_origin ≡ "derived")
      → (t : Transform) × (p.transform ≡ some t) × (t.parent_assertion_ids ≢ [])
  pub role :
      (ms : List String) × (get role_modalities sdoc.document_role ≡ some ms)
      × (elem p.procedural_modality ms ≡ true)
  pub provenance : elem sver.copy_provenance_state publishable_provenance ≡ true

quoted_support :
    (ev : Evidence) (p : Proposal)
    → origin_pass ev p ≡ true
    → p.value_origin ≡ "source_quote"
    → (p.support ≢ []) × All (EdgeHolds ev p.raw_value) p.support
unfolding origin_pass
quoted_support ev p h e =
    let q : (p.value_origin == "source_quote") ≡ true =
      (==_iff p.value_origin "source_quote").1 e in
    let k : (not (is_empty p.support) && edges_resolve ev p.raw_value p.support) ≡ true =
      rw q at h in
    (full p.support (ground arith), edges_resolve-All ev p.raw_value p.support (ground arith))
  where
    full : (xs : List Edge) → is_empty xs ≡ false → xs ≢ []
    full [] h = cc
    full (x ∷ xs) h = λ e. cc

derived_parents :
    (ev : Evidence) (p : Proposal) (origin : String)
    → origin_pass ev p ≡ true
    → p.value_origin ≡ origin
    → (origin == "source_quote") ≡ false
    → (origin == "normalized" || origin == "derived") ≡ true
    → (t : Transform) × (p.transform ≡ some t) × (t.parent_assertion_ids ≢ [])
unfolding origin_pass
derived_parents ev p origin h e a b = has_parents-some p.transform (ground arith)

role_listed :
    (m : String) (o : Option (List String))
    → elem m (allowed_modalities o) ≡ true
    → (ms : List String) × (o ≡ some ms) × (elem m ms ≡ true)
unfolding allowed_modalities
role_listed m none h = cc
role_listed m (some ms) h = (ms, refl, h)

all_pass-IsVerified :
    (proposal_ok : Proposal → Bool) (ev : Evidence) (sdoc : SourceDocument) (sver : SourceVersion)
    (p : Proposal)
    → all_pass proposal_ok ev sdoc sver p ≡ true
    → IsVerified ev sdoc sver p
unfolding all_pass
all_pass-IsVerified proposal_ok ev sdoc sver p h =
    let o : origin_pass ev p ≡ true = ground arith in
    record {
      bound = (==_iff p.source_version_id sver.source_version_id).0 (ground arith);
      quoted = quoted_support ev p o;
      derived = λ d. elim d [
        | inl e ↦ derived_parents ev p "normalized" o e refl refl
        | inr e ↦ derived_parents ev p "derived" o e refl refl
      ];
      role =
          role_listed p.procedural_modality (get role_modalities sdoc.document_role) (ground arith);
      provenance = ground arith;
    }

pass_of_if : (b : Bool) → ◌≡◌ {A = String} (if b then "pass" else "fail") "pass" → b ≡ true
pass_of_if true h = refl
pass_of_if false h = absurd (false≢true ((==_iff "fail" "pass").1 h))

semantic_undecided :
    (proposal_ok : Proposal → Bool) (ev : Evidence) (sdoc : SourceDocument) (sver : SourceVersion)
    (p : Proposal)
    → get (results [] (all_checks proposal_ok ev sdoc sver p)) "semantic_support"
      ≡ some CheckResult.indeterminate
unfolding all_checks origin_checks results get put
semantic_undecided proposal_ok ev sdoc sver p =
    elim (Bool-cases (p.value_origin == "source_quote")) [
      | inl quoted ↦ rw quoted
      | inr other ↦
          rw other
            (elim (Bool-cases (p.value_origin == "normalized" || p.value_origin == "derived")) [
              | inl derived ↦ rw derived
              | inr paraphrase ↦ rw paraphrase
            ])
    ]

-- A report whose overall result is `pass` proves that the proposal is bound to its source version,
-- that a quote has support and every anchor of it resolves, those of its supporting edges with the
-- value as their quote, that a normalized or derived value names at least one parent, that the
-- document's role permits the modality and that the copy is publishable; and the report leaves
-- semantic support undecided. Whether a parent is accepted, and the rule and its version, are not
-- looked at.
pub verify_proposal_sound :
    (proposal_ok : Proposal → Bool) (report_ok : Report → Bool) (ev : Evidence)
    (sdoc : SourceDocument) (sver : SourceVersion) (id : String) (p : Proposal) {report : Report}
    → verify_proposal proposal_ok report_ok ev sdoc sver id p ≡ ok report
    → report.overall ≡ "pass"
    → IsVerified ev sdoc sver p
      × (get (results [] report.checks) "semantic_support" ≡ some CheckResult.indeterminate)
unfolding verify_proposal
verify_proposal_sound proposal_ok report_ok ev sdoc sver id p {report} h pass =
    let (_, made) = >>-eq-ok (raise_if _ VerifyError.report_schema_error) _ h in
    let e = ok_inj made in
    (
      all_pass-IsVerified proposal_ok ev sdoc sver p (
          pass_of_if (all_pass proposal_ok ev sdoc sver p)
            (sym (overall-all_pass proposal_ok ev sdoc sver p) ∙ ap (λ r. r.overall) e ∙ pass)),
      subst (λ r. get (results [] r.checks) "semantic_support" ≡ some CheckResult.indeterminate) e
          (semantic_undecided proposal_ok ev sdoc sver p),
    )
