-- ===== src/ReviewQueue/Tests.antt =====
-- Two tasks: the emergency one expires, the ordinary one stays.
use exposure_atlas.Base.{String, List, [], ◌∷◌, text_eq_instance}
use exposure_atlas.ReviewQueue.{Task, ReviewQueue, Applied}

abbrev task : String → String → String → Task
task id priority expiry = record {
  task_id = id;
  queue = "corrections";
  priority = priority;
  question = "q";
  restrictive_default = "hold";
  created_at = "2026-07-11T00:00:00Z";
  expiry = expiry;
  input_hashes = [];
}

abbrev urgent : Task
urgent = task "rvt_1" "P0" "2026-07-11T04:00:00Z"

abbrev ordinary : Task
ordinary = task "rvt_2" "P2" "2026-07-18T00:00:00Z"

abbrev queue : ReviewQueue
queue = record {
  open_tasks = ("rvt_1", urgent) ∷ ("rvt_2", ordinary) ∷ [];
  arrived = ("rvt_1", "2026-07-11T00:00:00Z") ∷ ("rvt_2", "2026-07-11T00:00:00Z") ∷ [];
  exits = [];
  threshold = 5;
}

abbrev now : String
now = "2026-07-11T12:00:00Z"

abbrev applied : List Applied
applied = record { task_id = "rvt_1"; queue = "corrections"; disposition = "hold" } ∷ []
