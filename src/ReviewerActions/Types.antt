-- ===== src/ReviewerActions/Types.antt =====
-- The constants, the exceptions and the data of reviewer_actions.py. A set is a list of which only
-- membership is used, and a date is its day number, which orders as the ISO text does.
use exposure_atlas.Base.{ℕ, String, Bool, Option, List, [], ◌∷◌}
use exposure_atlas.Base.Dict.{Dict}
use exposure_atlas.ReviewCard.{Assertion, CardError}

abbrev pub human_roles : List String
human_roles = "operator_reviewer" ∷ "policy_rights_adjudicator" ∷ "release_approver" ∷ []

abbrev pub operator : String
operator = "Alexios"

abbrev pub actions : List String
actions =
    "approve" ∷ "reject" ∷ "edit" ∷ "request_source" ∷ "merge" ∷ "link" ∷ "split" ∷ "escalate"
    ∷ "correct" ∷ "withdraw" ∷ "suppress" ∷ "retract" ∷ "defer" ∷ []

abbrev pub class_required_role : Dict String String
class_required_role =
    ("ordinary_review", "operator_reviewer")
    ∷ ("identity_merge_split", "operator_reviewer")
    ∷ ("conflict", "operator_reviewer")
    ∷ ("material_correction", "operator_reviewer")
    ∷ ("rights_personal_data", "policy_rights_adjudicator")
    ∷ ("policy_override", "policy_rights_adjudicator")
    ∷ ("suppression_retraction", "policy_rights_adjudicator")
    ∷ ("release_approval", "release_approver")
    ∷ ("automation_qualification", "release_approver")
    ∷ []

abbrev pub sensitive_no_bulk : List String
sensitive_no_bulk =
    "rights_personal_data" ∷ "conflict" ∷ "identity_merge_split" ∷ "policy_override"
    ∷ "material_correction" ∷ "suppression_retraction" ∷ "release_approval"
    ∷ "automation_qualification" ∷ []

abbrev pub cooling_period_classes : List String
cooling_period_classes =
    "material_correction" ∷ "boundary_change" ∷ "rubric_change" ∷ "source_policy_change"
    ∷ "rights_policy_change" ∷ []

pub data ActionError : Type 0 where
  not_authenticated not_operator session_expired bad_csrf : ActionError
  role_cannot_decide session_lacks_role unknown_decision_class wrong_role : ActionError
  unknown_action replay stale_write : ActionError
  unsupported : CardError → ActionError
  not_staged same_day different_diff : ActionError
  bulk_forbidden schema_error bad_timestamp bad_version : ActionError

pub record Session : Type 0 where
  pub actor : String
  pub roles : List String
  pub authenticated : Bool
  pub expires_at : String
  pub csrf_token : String

pub record ActionRequest : Type 0 where
  pub task_id : String
  pub action : String
  pub role : String
  pub decision_class : String
  pub target_ref : String
  pub expected_version : String
  pub reason : String
  pub nonce : String
  pub idempotency_key : String
  pub csrf : String
  pub input_hashes : Dict String String
  pub edited_assertion : Option Assertion
  pub fresh_diff_hash : Option String

pub record Decision : Type 0 where
  pub decision_id : String
  pub task_id : String
  pub action : String
  pub decided_by : String
  pub role : String
  pub decided_at : String
  pub reason : String
  pub input_hashes : Dict String String

pub record Outcome : Type 0 where
  pub decision : Decision
  pub input_version : String
  pub output_version : String
  pub target_ref : String

pub record Staged : Type 0 where
  pub date : ℕ
  pub diff : String

-- `ActionProcessor`
pub record Processor : Type 0 where
  pub versions : Dict String String
  pub nonces : List String
  pub idem : Dict String Outcome
  pub staged : Dict (String × String) Staged

abbrev pub new_processor : Processor
new_processor = record { versions = []; nonces = []; idem = []; staged = [] }
