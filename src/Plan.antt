-- ===== src/Plan.antt =====
-- The plan tools (tools/atlas_plan.py) on the tasks, the receipts and the decisions that the files
-- hold: `task_verify`, `gate_verify` and `plan_next`. Tasks and receipts have the keys that their
-- schemas require; the schemas themselves are parameters. What the tool prints is the value returned.
pub mod Gates
pub mod Graph
pub mod Validate
pub mod Ready
mod Tests
use exposure_atlas.Base.{
  ◌++◌, ℕ, suc, String, Bool, true, false, Option, none, some, List, [], ◌∷◌, not, ◌&&◌, ◌||◌, leb,
  ltb, length, select, find, any, all, elem, is_empty, map, Result, ok, err, ◌>>=◌, ◌>>◌, raise_if,
  if◌then◌else◌, ◌==◌, text_eq_instance, nat_eq,
}
use exposure_atlas.Base.Text.{codes}
use exposure_atlas.Anchors.{is_prefix}
use exposure_atlas.Base.Dict.{Dict, get, put}

-- One task of plan/tasks.yaml.
pub record Task : Type 0 where
  pub id : String
  pub gate : String
  pub status : String
  pub depends_on : List String
  pub authorization_min : String
  pub requires_operator_decision : Bool
  pub operator_decision_ids : List String

-- One receipt of plan/evidence.jsonl; `criteria` are the results of its criteria.
pub record Receipt : Type 0 where
  pub receipt_id : String
  pub task_id : String
  pub result_commit : String
  pub self_asserted : Bool
  pub criteria : List String

-- `text.startswith(front)`
abbrev pub starts_with : String → String → Bool
starts_with text front = is_prefix (codes front) (codes text)

abbrev pub is_passed : String → Bool
is_passed result = result == "pass" || result == "not_applicable"

-- one commit is written as a prefix of the other
abbrev pub same_commit : String → String → Bool
same_commit commit result = starts_with commit result || starts_with result commit

abbrev pub bound_to : Option String → String → Bool
bound_to none result = true
bound_to (some commit) result = commit == "" || same_commit commit result

unfoldable pub receipt_ok : Receipt → String → Option String → Bool
unfolding codes is_prefix
receipt_ok r task_id commit =
    r.task_id == task_id && bound_to commit r.result_commit && all is_passed r.criteria

-- What `task_verify` prints: its failures, or the receipts at the commit and whether all of them are
-- self-asserted.
pub data TaskReport : Type 0 where
  unknown_task no_receipt not_at_head : TaskReport
  invalid_receipt : String → TaskReport
  verified_task : ℕ → Bool → TaskReport

-- The exit code 0.
abbrev pub is_verified : TaskReport → Bool
is_verified (TaskReport.verified_task _ _) = true
is_verified _ = false

abbrev pub of_task : String → Receipt → Bool
of_task task_id r = r.task_id == task_id

abbrev pub settle_task : List Receipt → TaskReport
settle_task [] = TaskReport.not_at_head
settle_task (g ∷ good) =
    TaskReport.verified_task (length (g ∷ good)) (all (λ (r : Receipt). r.self_asserted) (g ∷ good))

unfoldable pub task_verify :
    (receipt_valid : Receipt → Bool) (tasks : List Task) (receipts : List Receipt)
    (head task_id : String)
    → TaskReport
task_verify receipt_valid tasks receipts head task_id =
    let candidates = select (of_task task_id) receipts in
    if not (any (λ (t : Task). t.id == task_id) tasks)
    then TaskReport.unknown_task
    else if is_empty candidates
    then TaskReport.no_receipt
    else elim (find (λ r. not (receipt_valid r)) candidates) [
      | some r ↦ TaskReport.invalid_receipt r.receipt_id
      | none ↦ settle_task (select (λ r. receipt_ok r task_id (some head)) candidates)
    ]
