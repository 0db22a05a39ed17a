-- ===== src/Policy/Tests.antt =====
-- A publication whose gates are all open.
use exposure_atlas.Base.{true, false, some, [], ◌∷◌, ok, ◌≡◌, ◌↔◌, refl}
use exposure_atlas.Policy.{Verdict, Reason, PolicyDecision, evaluate}
use exposure_atlas.Policy.Gate.{IsOpen, evaluate_publish}

abbrev allowed : PolicyDecision
allowed = record {
  decision = Verdict.allow;
  reasons = Reason.all_checks_satisfied ∷ [];
  evaluated_at = "2026-07-11T12:00:00Z";
}

gates-allow :
    evaluate
      (λ d. true)
      (some "pass")
      (some "human_approved")
      (some "cleared_public")
      false
      "publish_public"
      "2026-07-11T12:00:00Z"
      (some "b1")
    ≡ ok allowed
unfolding evaluate
gates-allow = refl

evaluate_publish_example :
    (allowed.decision ≡ Verdict.allow)
    ↔ IsOpen (some "pass") (some "human_approved") (some "cleared_public") false (some "b1")
evaluate_publish_example =
    evaluate_publish (λ d. true) (some "pass") (some "human_approved") (some "cleared_public") false
      "2026-07-11T12:00:00Z" (some "b1") gates-allow
