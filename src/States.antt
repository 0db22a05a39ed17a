-- ===== src/States.antt =====
-- The state machines (packages/python/atlas/states.py): each is a table from a state to the
-- states that may follow it, and `transition` refuses every step that its table does not list.
pub mod Runs
use exposure_atlas.Base.{
  String, Bool, Option, none, some, List, [], ◌∷◌, Result, ok, err, elem, if◌then◌else◌,
}
use exposure_atlas.Base.Dict.{Dict, get}
use exposure_atlas.Base.{text_eq_instance}

pub data TransitionError : Type 0 where
  unknown_machine unknown_state illegal_transition : TransitionError

abbrev pub Table : Type 0
Table = Dict String (List String)

abbrev pub candidate_work : Table
candidate_work =
    ("open", "fetch_pending" ∷ "blocked" ∷ "resolved" ∷ [])
    ∷ ("fetch_pending", "triage_pending" ∷ "blocked" ∷ "resolved" ∷ [])
    ∷ ("triage_pending", "extraction_pending" ∷ "blocked" ∷ "resolved" ∷ [])
    ∷ ("extraction_pending", "verification_pending" ∷ "blocked" ∷ "resolved" ∷ [])
    ∷ ("verification_pending", "classification_pending" ∷ "blocked" ∷ "resolved" ∷ [])
    ∷ ("classification_pending", "review_pending" ∷ "blocked" ∷ "resolved" ∷ [])
    ∷ ("review_pending", "blocked" ∷ "resolved" ∷ [])
    ∷ (
      "blocked",
      "open" ∷ "fetch_pending" ∷ "triage_pending" ∷ "extraction_pending" ∷ "verification_pending"
          ∷ "classification_pending" ∷ "review_pending" ∷ "resolved" ∷ [],
    )
    ∷ ("resolved", [])
    ∷ []

abbrev pub candidate_disposition : Table
candidate_disposition =
    (
      "unresolved",
      "awaiting_primary" ∷ "excluded" ∷ "duplicate" ∷ "linked_existing" ∷ "record_created"
          ∷ "rejected" ∷ "quarantined" ∷ "escalated" ∷ [],
    )
    ∷ (
      "awaiting_primary",
      "excluded" ∷ "duplicate" ∷ "linked_existing" ∷ "record_created" ∷ "rejected" ∷ "quarantined"
          ∷ "escalated" ∷ [],
    )
    ∷ (
      "escalated",
      "awaiting_primary" ∷ "excluded" ∷ "duplicate" ∷ "linked_existing" ∷ "record_created"
          ∷ "rejected" ∷ "quarantined" ∷ [],
    )
    ∷ ("quarantined", "excluded" ∷ "rejected" ∷ "escalated" ∷ [])
    ∷ ("excluded", "unresolved" ∷ [])
    ∷ ("duplicate", [])
    ∷ ("linked_existing", [])
    ∷ ("record_created", [])
    ∷ ("rejected", [])
    ∷ []

abbrev pub revision : Table
revision =
    ("draft", "in_review" ∷ [])
    ∷ ("in_review", "approved" ∷ "rejected" ∷ "draft" ∷ [])
    ∷ ("approved", "published" ∷ [])
    ∷ ("published", "superseded" ∷ [])
    ∷ ("rejected", [])
    ∷ ("superseded", [])
    ∷ []

abbrev pub verification : Table
verification =
    ("not_run", "running" ∷ [])
    ∷ ("running", "passed" ∷ "failed" ∷ [])
    ∷ ("passed", [])
    ∷ ("failed", [])
    ∷ []

abbrev pub job : Table
job =
    ("ready", "leased" ∷ "cancelled" ∷ [])
    ∷ ("leased", "completed" ∷ "retry_scheduled" ∷ "dead_lettered" ∷ "cancelled" ∷ [])
    ∷ ("retry_scheduled", "ready" ∷ "cancelled" ∷ [])
    ∷ ("completed", [])
    ∷ ("dead_lettered", [])
    ∷ ("cancelled", [])
    ∷ []

abbrev pub monitoring : Table
monitoring =
    ("idle", "checking" ∷ [])
    ∷ ("checking", "idle" ∷ "change_pending" ∷ "degraded" ∷ [])
    ∷ ("degraded", "checking" ∷ [])
    ∷ ("change_pending", "idle" ∷ [])
    ∷ []

abbrev pub machines : Dict String Table
machines =
    ("candidate_work", candidate_work)
    ∷ ("candidate_disposition", candidate_disposition)
    ∷ ("revision", revision)
    ∷ ("verification", verification)
    ∷ ("job", job)
    ∷ ("monitoring", monitoring)
    ∷ []

unfoldable pub step : Option (List String) → String → Result TransitionError String
step none target = err TransitionError.unknown_state
step (some targets) target =
    if elem target targets then ok target else err TransitionError.illegal_transition

unfoldable pub in_table : Option Table → String → String → Result TransitionError String
in_table none current target = err TransitionError.unknown_machine
in_table (some table) current target = step (get table current) target

unfoldable pub transition : String → String → String → Result TransitionError String
unfolding get step in_table
transition machine current target = in_table (get machines machine) current target
