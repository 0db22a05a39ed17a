-- ===== src/Monitoring.antt =====
-- Monitoring targets and the freshness of a record (packages/python/atlas/monitoring.py). Times are
-- texts that are compared as texts, as in the code; the schema is a test of the target. Of a
-- target's fields those are kept that the code reads or writes; a missing number of failures is 0.
mod Tests
pub mod Checks
pub mod Freshness
use exposure_atlas.Base.{
  ℕ, ◌+◌, String, Bool, true, false, Option, none, some, List, [], ◌∷◌, map, not, ◌&&◌, ◌||◌, leb,
  ltb, text_ltb, text_leb, elem, select, Result, ok, err, ◌>>=◌, ◌>>◌, raise_if, ◌==◌,
  text_eq_instance, if◌then◌else◌,
}
use exposure_atlas.Base.Dict.{Dict, get, put, values}
use exposure_atlas.Base.Sort.{sorted}

pub record Target : Type 0 where
  pub target_id : String
  pub last_attempted_check_at : Option String
  pub last_successful_check_at : Option String
  pub next_check_due_at : String
  pub retry_due_at : Option String
  pub consecutive_failures : ℕ
  pub degraded_after_failures : Option ℕ

pub data MonitoringError : Type 0 where
  schema_error unknown_outcome : MonitoringError

-- `new`: what the outcome writes
pub checked_target : Target → String → String → String → Option String → Target
checked_target target outcome attempted_at next_due retry_due =
    if outcome == "failure"
    then record target {
      last_attempted_check_at = some attempted_at;
      consecutive_failures = target.consecutive_failures + 1;
      retry_due_at = retry_due;
    }
    else record target {
      last_attempted_check_at = some attempted_at;
      consecutive_failures = 0;
      last_successful_check_at = some attempted_at;
      next_check_due_at = next_due;
      retry_due_at = none;
    }

pub apply_check :
    (Target → Bool)
    → Target
    → String
    → String
    → String
    → Option String
    → Result MonitoringError Target
unfolding checked_target
apply_check schema_ok target outcome attempted_at next_due retry_due = do
  raise_if (not (schema_ok target)) MonitoringError.schema_error
  raise_if (not (elem outcome ("success_unchanged" ∷ "success_changed" ∷ "failure" ∷ [])))
      MonitoringError.unknown_outcome
  let new = checked_target target outcome attempted_at next_due retry_due
  raise_if (not (schema_ok new)) MonitoringError.schema_error
  ok new

pub data State : Type 0 where
  current due overdue stale monitoring_degraded unmonitored : State

-- `_SEVERITY`
pub severity : State → ℕ
severity State.current = 0
severity State.due = 1
severity State.overdue = 2
severity State.stale = 3
severity State.monitoring_degraded = 3
severity State.unmonitored = 2

-- `target.get("degraded_after_failures", 3)`
failures_allowed : Option ℕ → ℕ
failures_allowed none = 3
failures_allowed (some n) = n

freshness_of : Option String → Target → String → String → State
unfolding failures_allowed
freshness_of none target as_of grace = State.unmonitored
freshness_of (some last_ok) target as_of grace =
    if leb (failures_allowed target.degraded_after_failures) target.consecutive_failures
    then State.monitoring_degraded
    else if text_leb as_of target.next_check_due_at
    then State.current
    else if text_ltb grace as_of
    then State.stale
    else State.overdue

pub target_freshness : Target → String → String → State
unfolding freshness_of
target_freshness target as_of grace =
    freshness_of target.last_successful_check_at target as_of grace

-- `grace_by_target.get(id, as_of)`
grace_or : Option String → String → String
grace_or none as_of = as_of
grace_or (some grace) as_of = grace

-- `states`, the later target with the same identifier last
pub states_of : List Target → String → Dict String String → Dict String State → Dict String State
unfolding grace_or
states_of [] as_of graces states = states
states_of (t ∷ targets) as_of graces states =
    states_of targets as_of graces
      (put states t.target_id (target_freshness t as_of (grace_or (get graces t.target_id) as_of)))

-- `max(states.values(), key=severity)`: the first of the worst
pub worst_from : State → List State → State
worst_from w [] = w
worst_from w (s ∷ states) = worst_from (if ltb (severity w) (severity s) then s else w) states

same_state : State → State → Bool
same_state State.current State.current = true
same_state State.due State.due = true
same_state State.overdue State.overdue = true
same_state State.stale State.stale = true
same_state State.monitoring_degraded State.monitoring_degraded = true
same_state State.unmonitored State.unmonitored = true
same_state _ _ = false

pub record RecordFreshness : Type 0 where
  pub state : State
  pub worst_targets : List String

summarized : Dict String State → RecordFreshness
unfolding same_state
summarized [] = record { state = State.unmonitored; worst_targets = [] }
summarized ((id, s) ∷ states) =
    let worst = worst_from s (values states) in
    record {
      state = worst;
      worst_targets =
          sorted (map (λ e. e.0) (select (λ e. same_state e.1 worst) ((id, s) ∷ states)));
    }

pub aggregate_record_freshness : List Target → String → Dict String String → RecordFreshness
unfolding summarized states_of
aggregate_record_freshness targets as_of graces = summarized (states_of targets as_of graces [])
