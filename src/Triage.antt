-- ===== src/Triage.antt =====
-- Boundary triage (packages/python/atlas/triage.py: evaluate). The rubric is its criteria; a reason
-- is a constructor, and the versions that a result repeats are the rubric's.
mod Tests
pub mod Inclusion
use exposure_atlas.Base.{
  String, Bool, true, false, Option, none, some, List, [], ◌∷◌, map, not, ◌&&◌, ◌||◌, any, elem,
  select, Result, ok, err, ◌==◌, text_eq_instance, if◌then◌else◌,
}
use exposure_atlas.Base.Dict.{Dict, get, has}

abbrev pub result_values : List String
result_values = "met" ∷ "not_met" ∷ "uncertain" ∷ "not_applicable" ∷ []

pub record Criterion : Type 0 where
  pub id : String
  pub kind : String

abbrev pub Results : Type 0
Results = Dict String String

pub data RubricError : Type 0 where
  invalid_result unknown_criterion rubric_incomplete : RubricError

pub data TriageReason : Type 0 where
  missing_criteria exclusions_met core_not_met core_unresolved announced_investigation :
      TriageReason
  no_instrument inaccessible_primary all_met : TriageReason

pub record Triaged : Type 0 where
  pub outcome : String
  pub route : String
  pub reason : TriageReason

abbrev pub res : String → String → TriageReason → Result RubricError Triaged
res outcome route reason = ok (record { outcome = outcome; route = route; reason = reason })

abbrev pub crit_ids : List Criterion → List String
crit_ids criteria = map (λ c. c.id) criteria

-- `_by_kind`
abbrev pub by_kind : List Criterion → String → List String
by_kind criteria kind = crit_ids (select (λ c. c.kind == kind) criteria)

-- `_one`
abbrev pub head : List String → Option String
head [] = none
head (x ∷ xs) = some x

abbrev pub one_of_kind : List Criterion → String → Option String
one_of_kind criteria kind = head (by_kind criteria kind)

-- `results[id] == value`
value_is : Option String → String → Bool
value_is none value = false
value_is (some v) value = v == value

pub is : Results → String → String → Bool
unfolding value_is
is results value id = value_is (get results id) value

signal_met : Results → Option String → Bool
signal_met results none = false
signal_met results (some signal) = not (signal == "") && is results "met" signal

gating : Results → Option String → Option String → Option String → Result RubricError Triaged
unfolding signal_met
gating results none accessibility signal = err RubricError.rubric_incomplete
gating results (some i) none signal = err RubricError.rubric_incomplete
gating results (some i) (some a) signal =
    if not (is results "met" i)
    then (if signal_met results signal
        then res "uncertain" "awaiting_primary" TriageReason.announced_investigation
        else res "uncertain" "review" TriageReason.no_instrument)
    else if not (is results "met" a)
    then res "uncertain" "awaiting_primary" TriageReason.inaccessible_primary
    else res "include" "include" TriageReason.all_met

pub evaluate : Results → List Criterion → Result RubricError Triaged
unfolding gating
evaluate results criteria =
    if any (λ e. not (elem e.1 result_values)) results
    then err RubricError.invalid_result
    else if any (λ e. not (elem e.0 (crit_ids criteria))) results
    then err RubricError.unknown_criterion
    else if any (λ id. not (has results id)) (crit_ids criteria)
    then res "uncertain" "review" TriageReason.missing_criteria
    else if any (is results "met") (by_kind criteria "exclusion")
    then res "exclude" "exclude" TriageReason.exclusions_met
    else if any (is results "not_met") (by_kind criteria "core_inclusion")
    then res "exclude" "exclude" TriageReason.core_not_met
    else if any (λ id. is results "uncertain" id || is results "not_applicable" id)
        (by_kind criteria "core_inclusion")
    then res "uncertain" "review" TriageReason.core_unresolved
    else gating results (one_of_kind criteria "instrument") (one_of_kind criteria "accessibility")
        (one_of_kind criteria "investigation_signal")
