-- ===== src/Monitoring/Checks.antt =====
-- What a check of a target writes, whatever its outcome (`apply_check`).
use exposure_atlas.Base.{
  ◌+◌, String, Bool, Option, some, [], ◌∷◌, not, elem, ok, ok_inj, >>-eq-ok, raise_if, ◌==◌, ==_iff,
  text_eq_instance, ◌≡◌, ◌≢◌, refl, sym, ◌∙◌, subst, Bool-cases, inl, inr,
}
use mathlib.Core.Bool.{false≢true}
use exposure_atlas.Monitoring.{Target, MonitoringError, checked_target, apply_check}

-- What a check must have left of the target.
abbrev pub IsChecked : Target → String → String → String → Target → Type 0
IsChecked target outcome attempted_at next_due new =
    (new.last_attempted_check_at ≡ some attempted_at)
    × (new.target_id ≡ target.target_id)
    × (outcome ≡ "failure"
        → (new.last_successful_check_at ≡ target.last_successful_check_at)
          × (new.next_check_due_at ≡ target.next_check_due_at)
          × (new.consecutive_failures ≡ target.consecutive_failures + 1))
    × (outcome ≢ "failure"
        → (new.last_successful_check_at ≡ some attempted_at)
          × (new.next_check_due_at ≡ next_due)
          × (new.consecutive_failures ≡ 0))

checked_target-IsChecked :
    (target : Target) (outcome attempted_at next_due : String) (retry_due : Option String)
    → IsChecked target outcome attempted_at next_due
        (checked_target target outcome attempted_at next_due retry_due)
unfolding checked_target
checked_target-IsChecked target outcome attempted_at next_due retry_due =
    elim (Bool-cases (outcome == "failure")) [
      | inl failed ↦ rw failed (
        refl,
        refl,
        (λ e. (refl, refl, refl)),
        (λ other. absurd (other ((==_iff outcome "failure").0 failed))),
      )
      | inr passed ↦ rw passed (
        refl,
        refl,
        (λ e. absurd (false≢true (sym passed ∙ (==_iff outcome "failure").1 e))),
        (λ other. (refl, refl, refl)),
      )
    ]

-- A check that fails leaves the last success and the due time of the target as they were and counts
-- one failure more; any other outcome that is accepted starts the count again and is the new
-- success. In both cases the attempt is recorded.
pub apply_check-IsChecked :
    (schema_ok : Target → Bool) (target : Target) (outcome attempted_at next_due : String)
    (retry_due : Option String) {new : Target}
    → apply_check schema_ok target outcome attempted_at next_due retry_due ≡ ok new
    → IsChecked target outcome attempted_at next_due new
unfolding apply_check
apply_check-IsChecked schema_ok target outcome attempted_at next_due retry_due h =
    let made = checked_target target outcome attempted_at next_due retry_due in
    let known = elem outcome ("success_unchanged" ∷ "success_changed" ∷ "failure" ∷ []) in
    let (_, h1) = >>-eq-ok (raise_if (not (schema_ok target)) MonitoringError.schema_error) _ h in
    let (_, h2) = >>-eq-ok (raise_if (not known) MonitoringError.unknown_outcome) _ h1 in
    let (_, h3) = >>-eq-ok (raise_if (not (schema_ok made)) MonitoringError.schema_error) _ h2 in
    subst (IsChecked target outcome attempted_at next_due) (ok_inj h3)
      (checked_target-IsChecked target outcome attempted_at next_due retry_due)
