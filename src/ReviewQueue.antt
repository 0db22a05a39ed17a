-- ===== src/ReviewQueue.antt =====
-- The review queue (packages/python/atlas/review_queue.py): tasks with an expiry and a restrictive
-- default, and the queue that resolves them. `digest` is the first twelve digits of SHA-256, and a
-- time to live is a whole number of hours that is not negative.
mod Tests
pub mod Making
pub mod Exits
pub mod Expiry
use exposure_atlas.Base.{
  ℕ, ◌+◌, ◌*◌, String, ◌^^◌, Bool, true, false, Option, none, some, List, [], ◌∷◌, ◌++◌, not, leb,
  elem, Result, ok, err, Exec, ◌>>=◌, ◌>>◌, raise_if, or_raise, ◌==◌, text_eq_instance,
  if◌then◌else◌,
}
use exposure_atlas.Base.Dict.{Dict, get, put, remove, values}
use exposure_atlas.Timestamp.{Moment, parse, iso}

abbrev pub queues : List String
queues =
    "new_candidates" ∷ "status_updates" ∷ "uncertain" ∷ "duplicates" ∷ "corrections" ∷ "quarantine"
    ∷ "migration" ∷ []

abbrev pub priorities : List String
priorities = "P0" ∷ "P1" ∷ "P2" ∷ "P3" ∷ []

abbrev pub restrictive_defaults : List String
restrictive_defaults = "hold" ∷ "exclude" ∷ "human_review" ∷ "defer" ∷ []

abbrev pub low_priority_queues : List String
low_priority_queues = "new_candidates" ∷ "migration" ∷ []

abbrev pub queue_default_disposition : Dict String String
queue_default_disposition =
    ("new_candidates", "human_review")
    ∷ ("status_updates", "defer")
    ∷ ("uncertain", "human_review")
    ∷ ("duplicates", "human_review")
    ∷ ("corrections", "hold")
    ∷ ("quarantine", "hold")
    ∷ ("migration", "defer")
    ∷ []

abbrev pub priority_ttl_hours : Dict String ℕ
priority_ttl_hours = ("P0", 4) ∷ ("P1", 24) ∷ ("P2", 168) ∷ ("P3", 336) ∷ []

pub data ReviewQueueError : Type 0 where
  unknown_queue unknown_priority default_not_restrictive no_open_task : ReviewQueueError
  schema_error bad_timestamp missing_key : ReviewQueueError

pub record Task : Type 0 where
  pub task_id : String
  pub queue : String
  pub priority : String
  pub question : String
  pub restrictive_default : String
  pub created_at : String
  pub expiry : String
  pub input_hashes : Dict String String

pub record Exit : Type 0 where
  pub task_id : String
  pub queue : String
  pub priority : String
  pub arrived_at : String
  pub exited_at : String
  pub reason : String
  pub resolution : String

pub record ReviewQueue : Type 0 where
  pub open_tasks : Dict String Task
  pub arrived : Dict String String
  pub exits : List Exit
  pub threshold : ℕ

pub handling_path : String → String
handling_path priority =
    if priority == "P0" then "emergency" else if priority == "P1" then "same_day" else "weekly_pack"

-- `given or fallback`
or_else : Option String → Option String → Option String
or_else none fallback = fallback
or_else (some s) fallback = if s == "" then fallback else some s

hours_or : Option ℕ → Option ℕ → Option ℕ
hours_or none fallback = fallback
hours_or (some n) fallback = some n

pub expiry_after : Moment → ℕ → String
expiry_after created hours = iso (created.instant + hours * 3600000000)

pub make_task :
    (String → String)
    → (Task → Bool)
    → String
    → String
    → String
    → String
    → Option String
    → Option ℕ
    → Dict String String
    → Result ReviewQueueError Task
unfolding or_else hours_or
make_task digest schema_ok queue priority question created_at restrictive_default ttl_hours hashes =
    do
      raise_if (not (elem queue queues)) ReviewQueueError.unknown_queue
      raise_if (not (elem priority priorities)) ReviewQueueError.unknown_priority
      default ←
          or_raise (or_else restrictive_default (get queue_default_disposition queue))
            ReviewQueueError.missing_key
      raise_if (not (elem default restrictive_defaults)) ReviewQueueError.default_not_restrictive
      ttl ←
          or_raise (hours_or ttl_hours (get priority_ttl_hours priority))
            ReviewQueueError.missing_key
      created ← or_raise (parse created_at) ReviewQueueError.bad_timestamp
      let task : Task = record {
        task_id = "rvt_" ^^ digest (queue ^^ "\n" ^^ question ^^ "\n" ^^ created_at);
        queue = queue;
        priority = priority;
        question = question;
        restrictive_default = default;
        created_at = created_at;
        expiry = expiry_after created ttl;
        input_hashes = hashes;
      }
      raise_if (not (schema_ok task)) ReviewQueueError.schema_error
      ok task

pub add : (Task → Bool) → Task → String → Exec ReviewQueue ReviewQueueError (Unit {0})
add schema_ok task at q =
    if schema_ok task
    then (
      ok tt,
      record q {
        open_tasks = put q.open_tasks task.task_id task;
        arrived = put q.arrived task.task_id at;
      },
    )
    else (err ReviewQueueError.schema_error, q)

-- The exit record of a task that was taken out of the open ones.
exit :
    Task
    → String
    → String
    → String
    → String
    → Option String
    → Exec ReviewQueue ReviewQueueError (Unit {0})
exit task task_id at reason resolution none q = (err ReviewQueueError.missing_key, q)
exit task task_id at reason resolution (some arrived) q =
    let e : Exit = record {
      task_id = task_id;
      queue = task.queue;
      priority = task.priority;
      arrived_at = arrived;
      exited_at = at;
      reason = reason;
      resolution = resolution;
    } in
    (ok tt, record q { arrived = remove q.arrived task_id; exits = q.exits ++ e ∷ [] })

resolve_task :
    Option Task → String → String → String → String → Exec ReviewQueue ReviewQueueError (Unit {0})
unfolding exit
resolve_task none task_id at reason resolution q = (err ReviewQueueError.no_open_task, q)
resolve_task (some task) task_id at reason resolution q =
    exit task task_id at reason resolution (get q.arrived task_id)
      (record q { open_tasks = remove q.open_tasks task_id })

pub resolve : String → String → String → String → Exec ReviewQueue ReviewQueueError (Unit {0})
unfolding resolve_task
resolve task_id at reason resolution q =
    resolve_task (get q.open_tasks task_id) task_id at reason resolution q

pub record Applied : Type 0 where
  pub task_id : String
  pub queue : String
  pub disposition : String

-- `_parse(now) >= _parse(task["expiry"])`
pub is_due : String → Task → Result ReviewQueueError Bool
is_due now task = do
  at ← or_raise (parse now) ReviewQueueError.bad_timestamp
  expiry ← or_raise (parse task.expiry) ReviewQueueError.bad_timestamp
  ok (leb expiry.instant at.instant)

-- `applied.append(a)`, in front of what the rest of the loop applies
listed :
    Applied
    → Result ReviewQueueError (List Applied) × ReviewQueue
    → Result ReviewQueueError (List Applied) × ReviewQueue
listed a (ok applied, q) = (ok (a ∷ applied), q)
listed a (err e, q) = (err e, q)

after_resolve :
    Applied
    → Exec ReviewQueue ReviewQueueError (List Applied)
    → Result ReviewQueueError (Unit {0}) × ReviewQueue
    → Result ReviewQueueError (List Applied) × ReviewQueue
unfolding listed
after_resolve a rest (err e, q) = (err e, q)
after_resolve a rest (ok _, q) = listed a (rest q)

expire_one :
    Result ReviewQueueError Bool
    → String
    → Task
    → String
    → Exec ReviewQueue ReviewQueueError (List Applied)
    → Exec ReviewQueue ReviewQueueError (List Applied)
unfolding after_resolve
expire_one (err e) task_id task now rest q = (err e, q)
expire_one (ok false) task_id task now rest q = rest q
expire_one (ok true) task_id task now rest q =
    after_resolve
      (record { task_id = task_id; queue = task.queue; disposition = task.restrictive_default })
      rest (resolve task_id now "expired_unanswered" task.restrictive_default q)

-- The loop over `list(self._open.items())`.
expire_each : List (String × Task) → String → Exec ReviewQueue ReviewQueueError (List Applied)
unfolding expire_one
expire_each [] now q = (ok [], q)
expire_each ((task_id, task) ∷ entries) now q =
    expire_one (is_due now task) task_id task now (expire_each entries now) q

pub expire_unanswered : String → Exec ReviewQueue ReviewQueueError (List Applied)
unfolding expire_each
expire_unanswered now q = expire_each q.open_tasks now q

-- `counts[t["priority"]] += 1` over the open tasks
count_priorities : List Task → Dict String ℕ → Result ReviewQueueError (Dict String ℕ)
count_priorities [] counts = ok counts
count_priorities (t ∷ tasks) counts =
    or_raise (get counts t.priority) ReviewQueueError.missing_key >>= λ n.
    count_priorities tasks (put counts t.priority (n + 1))

pub open_by_priority : ReviewQueue → Result ReviewQueueError (Dict String ℕ)
unfolding count_priorities
open_by_priority q =
    count_priorities (values q.open_tasks) (("P0", 0) ∷ ("P1", 0) ∷ ("P2", 0) ∷ ("P3", 0) ∷ [])

pub backpressure_paused_queues : ReviewQueue → Result ReviewQueueError (List String)
backpressure_paused_queues q = do
  load ← open_by_priority q
  p0 ← or_raise (get load "P0") ReviewQueueError.missing_key
  p1 ← or_raise (get load "P1") ReviewQueueError.missing_key
  ok (if leb q.threshold (p0 + p1) then low_priority_queues else [])
