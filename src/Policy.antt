-- ===== src/Policy.antt =====
-- The publication-policy evaluator (packages/python/atlas/policy.py). A reason is a constructor; the
-- schema is a test of the result.
mod Tests
pub mod Gate
use exposure_atlas.Base.{
  String, Bool, true, false, Option, none, some, List, [], ◌∷◌, ◌++◌, not, elem, Result, ok, err,
  ◌>>=◌, ◌>>◌, raise_if, ◌==◌, text_eq_instance, if◌then◌else◌,
}

abbrev pub cleared : List String
cleared = "cleared_public" ∷ "cleared_metadata_only" ∷ "cleared_licensee" ∷ []

pub data Verdict : Type 0 where
  allow deny human_review : Verdict

pub data Reason : Type 0 where
  suppression_overlay_denies : Reason
  mechanical_verification_missing mechanical_verification_failed : Reason
  mechanical_verification_indeterminate : Reason
  semantic_review_state_missing semantic_review_not_human_approved : Reason
  rights_state_missing_fails_closed boundary_version_missing : Reason
  rights_not_cleared : String → Reason
  all_checks_satisfied : Reason

pub data PolicyError : Type 0 where
  schema_error : PolicyError

pub record PolicyDecision : Type 0 where
  pub decision : Verdict
  pub reasons : List Reason
  pub evaluated_at : String

-- The two variables that the inner functions write.
abbrev pub Tally : Type 0
Tally = Verdict × List Reason

deny_with : Reason → Tally → Tally
deny_with r (v, rs) = (Verdict.deny, rs ++ r ∷ [])

softened : Verdict → Verdict
softened Verdict.deny = Verdict.deny
softened _ = Verdict.human_review

review_with : Reason → Tally → Tally
review_with r (v, rs) = (softened v, rs ++ r ∷ [])

when : Bool → (Tally → Tally) → Tally → Tally
when true f t = f t
when false f t = t

mechanical : Option String → Tally → Tally
mechanical none t = deny_with Reason.mechanical_verification_missing t
mechanical (some overall) t =
    if overall == "fail"
    then deny_with Reason.mechanical_verification_failed t
    else when (not (overall == "pass")) (review_with Reason.mechanical_verification_indeterminate) t

semantic : Option String → Tally → Tally
semantic none t = deny_with Reason.semantic_review_state_missing t
semantic (some state) t =
    when (not (state == "human_approved")) (review_with Reason.semantic_review_not_human_approved) t

rights : Option String → Tally → Tally
rights none t = deny_with Reason.rights_state_missing_fails_closed t
rights (some d) t = when (not (elem d cleared)) (deny_with (Reason.rights_not_cleared d)) t

boundary : Option String → Tally → Tally
boundary none t = deny_with Reason.boundary_version_missing t
boundary (some v) t = t

publish_checks : Option String → Option String → Option String → Tally → Tally
publish_checks state distribution version t =
    boundary version (rights distribution (semantic state t))

-- `reasons or ["all_checks_satisfied"]`
reasons_or : List Reason → List Reason
reasons_or [] = Reason.all_checks_satisfied ∷ []
reasons_or (r ∷ rs) = r ∷ rs

tally : Option String → Option String → Option String → Bool → String → Option String → Tally
tally overall state distribution suppression_denied operation version =
    when (operation == "publish_public") (publish_checks state distribution version) (
      mechanical overall
        (when suppression_denied (deny_with Reason.suppression_overlay_denies) (Verdict.allow, [])))

-- The report is given by its `overall`, which is `none` where there is no report.
pub evaluate :
    (PolicyDecision → Bool)
    → Option String
    → Option String
    → Option String
    → Bool
    → String
    → String
    → Option String
    → Result PolicyError PolicyDecision
unfolding deny_with softened review_with when mechanical semantic rights boundary publish_checks
    reasons_or tally
evaluate schema_ok overall state distribution suppression_denied operation evaluated_at version = do
  let (verdict, reasons) = tally overall state distribution suppression_denied operation version
  let decision : PolicyDecision = record {
    decision = verdict;
    reasons = reasons_or reasons;
    evaluated_at = evaluated_at;
  }
  raise_if (not (schema_ok decision)) PolicyError.schema_error
  ok decision
