-- ===== src/Builder/Tests.antt =====
-- A role with one tool, a ledger with one reservation, and a task with evidence.
use exposure_atlas.Base.{
  arith, ◌≤◌, String, true, false, some, List, [], ◌∷◌, ok, ◌≡◌, refl, text_eq_instance,
}
use exposure_atlas.Base.Text.{codes}
use exposure_atlas.Anchors.{is_prefix}
use exposure_atlas.Plan.{Task, Receipt, receipt_ok, task_verify}
use exposure_atlas.Builder.{ToolPolicy, Ceilings, committed, reserve, reconcile, settle, close_task}
use exposure_atlas.Builder.Policy.{HasEvidence, close_task-HasEvidence}
use exposure_atlas.Builder.Budget.{Call, call, run, within_reserved, all_honest, run-le_ceiling}

abbrev policy : ToolPolicy
policy = record {
  version = "1";
  roles = ("planner", record { tools = some ("Read" ∷ []); disallowed_tools = "Bash" ∷ [] }) ∷ [];
  hash = "h";
}

abbrev ceilings : Ceilings
ceilings = record { session_ceiling = some 25; day_ceiling = some 75 }

abbrev calls : List Call
calls =
    Call.reserve_call "r1" 20
    ∷ Call.reserve_call "r2" 10
    ∷ Call.reconcile_call "r1" 12
    ∷ Call.reserve_call "r2" 10
    ∷ []

calls-honest : all_honest ceilings calls [] ≡ true
unfolding all_honest call within_reserved reserve reconcile settle committed
calls-honest = refl

committed-calls : committed (run ceilings calls []) ≡ 22
unfolding run call reserve reconcile settle committed
committed-calls = refl

nothing_committed : committed [] ≤ 25
unfolding committed
nothing_committed = omega arith

run-le_ceiling_example : committed (run ceilings calls []) ≤ 25
run-le_ceiling_example = run-le_ceiling ceilings 25 calls [] refl nothing_committed calls-honest

abbrev done_task : Task
done_task = record {
  id = "T1";
  gate = "G0";
  status = "in_progress";
  depends_on = [];
  authorization_min = "A0";
  requires_operator_decision = false;
  operator_decision_ids = [];
}

abbrev receipt : Receipt
receipt = record {
  receipt_id = "R-1";
  task_id = "T1";
  result_commit = "abc";
  self_asserted = true;
  criteria = "pass" ∷ [];
}

close-ok :
    close_task (λ r. true) (done_task ∷ []) (receipt ∷ []) "abcdef" "T1" "complete" true ≡ ok "done"
unfolding close_task task_verify receipt_ok is_prefix codes
close-ok = refl

close_task-HasEvidence_example :
    (◌≡◌ {A = String} "done" "done")
    × (◌≡◌ {A = String} "complete" "complete")
    × (true ≡ true)
    × HasEvidence (λ r. true) (done_task ∷ []) (receipt ∷ []) "abcdef" "T1"
close_task-HasEvidence_example =
    close_task-HasEvidence (λ r. true) (done_task ∷ []) (receipt ∷ []) "abcdef" "T1" "complete" true
      close-ok
