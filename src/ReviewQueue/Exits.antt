-- ===== src/ReviewQueue/Exits.antt =====
-- What an expiry is and records: the due time of a task, and the exit that `resolve` writes.
use exposure_atlas.Base.{
  leb, ◌>>=◌, ◌++◌, ◌⊎◌, String, Bool, true, false, Option, none, some, List, [], ◌∷◌, ok, ok_inj,
  text_eq_instance, ◌≡◌, refl, inr, or_raise,
}
use exposure_atlas.Base.Dict.{get, remove}
use exposure_atlas.Timestamp.{Moment, parse}
use exposure_atlas.ReviewQueue.{
  Exit, Task, ReviewQueue, ReviewQueueError, Applied, is_due, exit, resolve_task, resolve,
}

-- Both texts parse, and the expiry is not later than now.
abbrev pub due_at : Option Moment → Option Moment → Bool
due_at (some at) (some expiry) = leb expiry.instant at.instant
due_at _ _ = false

abbrev pub due : String → Task → Bool
due now task = due_at (parse now) (parse task.expiry)

due_at_ok :
    (a e : Option Moment) (b : Bool)
    → (or_raise a ReviewQueueError.bad_timestamp >>= λ at.
        or_raise e ReviewQueueError.bad_timestamp >>= λ expiry. ok (leb expiry.instant at.instant))
      ≡ ok b
    → due_at a e ≡ b
due_at_ok none e b h = cc
due_at_ok (some at) none b h = cc
due_at_ok (some at) (some expiry) b h = ok_inj h

pub due_ok : (now : String) (task : Task) (b : Bool) → is_due now task ≡ ok b → due now task ≡ b
unfolding is_due
due_ok now task b h = due_at_ok (parse now) (parse task.expiry) b h

-- What `resolve` leaves where it goes through: the task is no longer open, and one exit is recorded.
pub record IsResolved (id at reason resolution : String) (q p : ReviewQueue) : Type 0 where
  pub open_left : p.open_tasks ≡ remove q.open_tasks id
  pub last : Exit
  pub appended : p.exits ≡ q.exits ++ last ∷ []
  pub about : (last.task_id ≡ id) × (last.exited_at ≡ at)
  pub outcome : (last.reason ≡ reason) × (last.resolution ≡ resolution)

pub resolve-IsResolved :
    (id at reason resolution : String) (q : ReviewQueue)
    → (resolve id at reason resolution q).0 ≡ ok tt
    → IsResolved id at reason resolution q (resolve id at reason resolution q).1
unfolding resolve
resolve-IsResolved id at reason resolution q h = taken (get q.open_tasks id) h
  where
    written :
        (task : Task) (o : Option String)
        → let p = record q { open_tasks = remove q.open_tasks id } in
          (exit task id at reason resolution o p).0 ≡ ok tt
          → IsResolved id at reason resolution q (exit task id at reason resolution o p).1
    written task none e = cc
    written task (some arrived) e = record {
      open_left = refl;
      last = record {
        task_id = id;
        queue = task.queue;
        priority = task.priority;
        arrived_at = arrived;
        exited_at = at;
        reason = reason;
        resolution = resolution;
      };
      appended = refl;
      about = (refl, refl);
      outcome = (refl, refl);
    }

    taken :
        (o : Option Task)
        → (resolve_task o id at reason resolution q).0 ≡ ok tt
        → IsResolved id at reason resolution q (resolve_task o id at reason resolution q).1
    taken none e = cc
    taken (some task) e = written task (get q.arrived id) e

-- The task is listed under the identifier.
abbrev pub Lists : String → Task → List (String × Task) → Type 0
Lists id task [] = ⊥
Lists id task (e ∷ entries) = ((e.0 ≡ id) × (e.1 ≡ task)) ⊎ Lists id task entries

-- A disposition that was applied and the exit that was recorded with it: both are about a listed task
-- that was due, and both take the default of that task.
pub record IsExit (now : String) (entries : List (String × Task)) (a : Applied) (e : Exit)
    : Type 0 where
  pub task : Task
  pub among : Lists a.task_id task entries
  pub was_due : due now task ≡ true
  pub applied : (a.queue ≡ task.queue) × (a.disposition ≡ task.restrictive_default)
  pub about : (e.task_id ≡ a.task_id) × (e.exited_at ≡ now)
  pub outcome : (e.reason ≡ "expired_unanswered") × (e.resolution ≡ task.restrictive_default)

-- One exit for each disposition, in order.
abbrev pub AreExits : String → List (String × Task) → List Applied → List Exit → Type 0
AreExits now entries [] [] = Unit
AreExits now entries (a ∷ applied) (e ∷ exits) =
    IsExit now entries a e × AreExits now entries applied exits
AreExits now entries _ _ = ⊥

pub AreExits-later :
    (now : String) (x : String × Task) (entries : List (String × Task)) (applied : List Applied)
    (exits : List Exit)
    → AreExits now entries applied exits
    → AreExits now (x ∷ entries) applied exits
AreExits-later now x entries [] [] h = tt
AreExits-later now x entries [] (e ∷ exits) h = absurd h
AreExits-later now x entries (a ∷ applied) [] h = absurd h
AreExits-later now x entries (a ∷ applied) (e ∷ exits) (h, rest) = (
  record {
    task = h.task;
    among = inr h.among;
    was_due = h.was_due;
    applied = h.applied;
    about = h.about;
    outcome = h.outcome;
  },
  AreExits-later now x entries applied exits rest,
)
