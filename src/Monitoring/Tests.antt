-- ===== src/Monitoring/Tests.antt =====
-- A target whose check fails, and a record with one target that was never checked.
use exposure_atlas.Base.{
  ℕ, String, true, Option, none, some, List, [], ◌∷◌, ok, ◌≡◌, refl, text_eq_instance,
}
use exposure_atlas.Base.Dict.{get}
use exposure_atlas.Monitoring.{Target, checked_target, apply_check, aggregate_record_freshness}
use exposure_atlas.Monitoring.Freshness.{IsShown, aggregate-worst}

abbrev target : Option String → ℕ → Target
target attempted failures = record {
  target_id = "tgt_1";
  last_attempted_check_at = attempted;
  last_successful_check_at = none;
  next_check_due_at = "2026-07-12T00:00:00Z";
  retry_due_at = none;
  consecutive_failures = failures;
  degraded_after_failures = none;
}

check-fails :
    apply_check
      (λ t. true)
      (target none 1)
      "failure"
      "2026-07-11T00:00:00Z"
      "2026-07-13T00:00:00Z"
      none
    ≡ ok (target (some "2026-07-11T00:00:00Z") 2)
unfolding apply_check checked_target
check-fails = refl

-- Two targets of one identifier: the later one, which was never checked, is the one that counts.
abbrev twins : List Target
twins =
    record (target none 0) { last_successful_check_at = some "2026-07-10T00:00:00Z" }
    ∷ target none 1
    ∷ []

aggregate-worst_example :
    IsShown
      (target none 1)
      "2026-07-11T00:00:00Z"
      (get {K = String} [] "tgt_1")
      (aggregate_record_freshness twins "2026-07-11T00:00:00Z" []).state
aggregate-worst_example =
    aggregate-worst twins "2026-07-11T00:00:00Z" [] "tgt_1" (target none 1) refl
