-- ===== src/Plan/Tests.antt =====
-- A small plan: one task with verified evidence, one that waits for it.
use exposure_atlas.Base.{
  String, Bool, true, false, ◌&&◌, some, List, [], ◌∷◌, ok, select, all, elem, is_empty, All, ◌≡◌,
  refl, text_eq_instance,
}
use exposure_atlas.Base.Dict.{get, put}
use exposure_atlas.Plan.{Task, Receipt, receipt_ok}
use exposure_atlas.Plan.Graph.{
  edges, visited, zero_degrees, count_edges, roots, dependents_from, drain, relax, total,
}
use exposure_atlas.Plan.Graph.Ends.{visited_ends}
use exposure_atlas.Plan.Validate.{
  Fault, validate, task_faults, dependency_faults, done_faults, IsPlan, validate-IsPlan,
}
use exposure_atlas.Plan.Gates.{
  Manifest, of_gate, is_backed, required_decisions, gate_rows, make_manifest, gate_verify,
  gate_verify_pass,
}
use exposure_atlas.Plan.Ready.{
  Budgets, HasReady, is_null, level, authorized, ready_task, ready_from, plan_next,
  plan_next-IsReady,
}

abbrev pub task : String → String → List String → Task
task id status depends_on = record {
  id = id;
  gate = "G1";
  status = status;
  depends_on = depends_on;
  authorization_min = "A1";
  requires_operator_decision = true;
  operator_decision_ids = "D-009" ∷ [];
}

abbrev pub tasks : List Task
tasks = task "T1" "done" [] ∷ task "T2" "pending" ("T1" ∷ []) ∷ []

abbrev pub receipt : String → Bool → Receipt
receipt task_id self_asserted = record {
  receipt_id = "R-1";
  task_id = task_id;
  result_commit = "abc";
  self_asserted = self_asserted;
  criteria = "pass" ∷ "not_applicable" ∷ [];
}

abbrev receipts : List Receipt
receipts = receipt "T1" false ∷ receipt "T2" true ∷ []

-- two tasks that wait for each other, and one for a task that does not exist
abbrev cyclic : List Task
cyclic =
    task "T1" "pending" ("T2" ∷ [])
    ∷ task "T2" "pending" ("T1" ∷ [])
    ∷ task "T3" "pending" ("T9" ∷ [])
    ∷ []

abbrev manifest : Manifest
manifest = make_manifest "G1" "2026-07-11" "abcdef" receipts [] tasks

gate-fails : manifest.pass ≡ false
unfolding make_manifest gate_rows receipt_ok get
gate-fails = refl

gate-ok : gate_verify (λ m. true) tasks receipts [] "abcdef" "2026-07-11" "G1" ≡ ok manifest
unfolding gate_verify
gate-ok = refl

gate_verify_pass_example :
    (manifest.gate ≡ "G1")
    × (manifest.commit ≡ "abcdef")
    × (is_empty (select (of_gate "G1") tasks) ≡ false)
    × (manifest.pass ≡ (
        all (is_backed "G1" receipts) (select (of_gate "G1") tasks)
        && all (λ d. elem d []) (required_decisions "G1")))
gate_verify_pass_example =
    gate_verify_pass (λ m. true) tasks receipts [] "abcdef" "2026-07-11" "G1" gate-ok

abbrev budgets : Budgets
budgets = record { session_ceiling = some 25; day_ceiling = some 75 }

next-ok : plan_next tasks ("D-009" ∷ []) budgets "A2" ≡ ok (some ("T2" ∷ []))
unfolding plan_next ready_from ready_task authorized level
next-ok = refl

plan_next-IsReady_example :
    (is_null budgets.session_ceiling ≡ false)
    × (is_null budgets.day_ceiling ≡ false)
    × All (HasReady tasks ("D-009" ∷ []) "A2" tasks) ("T2" ∷ [])
plan_next-IsReady_example = plan_next-IsReady tasks ("D-009" ∷ []) budgets "A2" next-ok

visited_ends_example : (order : List String) × (visited cyclic ≡ some order)
visited_ends_example = visited_ends cyclic

validate-cyclic :
    validate (λ t. []) cyclic [] ≡ some (Fault.unknown_dependency "T3" "T9" ∷ Fault.has_cycle ∷ [])
unfolding validate task_faults dependency_faults done_faults edges visited zero_degrees count_edges
    roots dependents_from drain relax total get put
validate-cyclic = refl

validate-ok : validate (λ t. []) tasks receipts ≡ some []
unfolding validate task_faults dependency_faults done_faults edges visited zero_degrees count_edges
    roots dependents_from drain relax total get put
validate-ok = refl

validate-IsPlan_example : IsPlan tasks receipts
validate-IsPlan_example = validate-IsPlan (λ t. []) tasks receipts validate-ok
