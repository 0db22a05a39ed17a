-- ===== src/ReviewQueue/Expiry.antt =====
-- Expiry resolves what is due, nothing else, and records the restrictive default of each task.
use exposure_atlas.Base.{
  ◌++◌, All, String, Bool, true, none, List, ◌&&◌, any, ◌==◌, text_eq_instance, ◌≡◌, if◌then◌else◌,
}
use exposure_atlas.Base.Dict.{Dict, get}
use exposure_atlas.ReviewQueue.Exits.{due, AreExits}
use exposure_atlas.ReviewQueue.Making.{is_restrictive}
use exposure_atlas.ReviewQueue.{Exit, Task, ReviewQueue, Applied}

pub due_in : String → String → List (String × Task) → Bool
due_in now id entries = any (λ e. e.0 == id && due now e.1) entries

-- What a run of the loop over `entries` leaves: the due tasks of `entries` are gone, every other
-- task stands, and what was applied is what was recorded.
pub record IsExpired (now : String) (entries : List (String × Task)) (q q' : ReviewQueue)
    (applied : List Applied) : Type 0 where
  pub rest :
      (id : String)
      → get q'.open_tasks id ≡ (if due_in now id entries then none else get q.open_tasks id)
  pub recorded :
      (exits : List Exit) × (q'.exits ≡ q.exits ++ exits) × AreExits now entries applied exits

module _ (now id : String) (task : Task) (entries : List (String × Task)) (q : ReviewQueue) where
  abbrev here : Applied
  here = record { task_id = id; queue = task.queue; disposition = task.restrictive_default }

-- A recorded resolution is restrictive.
abbrev pub AreRestrictive : List Exit → Type 0
AreRestrictive exits = All (λ e. is_restrictive e.resolution ≡ true) exits
