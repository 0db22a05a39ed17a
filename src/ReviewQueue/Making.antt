-- ===== src/ReviewQueue/Making.antt =====
-- The tasks that `make_task` makes are restrictive by default.
use exposure_atlas.Base.{
  ◌||◌, ==_iff, ℕ, String, Bool, true, Option, none, some, not, elem, ok, ok_inj, ◌==◌,
  text_eq_instance, ◌≡◌, refl, arith, >>-eq-ok, >>=-eq-ok, raise_if, or_raise, subst,
}
use exposure_atlas.Base.Dict.{Dict, get}
use exposure_atlas.Timestamp.{Moment, parse}
use exposure_atlas.ReviewQueue.{
  Task, ReviewQueueError, queues, priorities, restrictive_defaults, make_task, expiry_after,
  or_else, hours_or, queue_default_disposition, priority_ttl_hours, listed,
}

true_of_not : {b : Bool} (e : ReviewQueueError) → raise_if (not b) e ≡ ok tt → b ≡ true
true_of_not {b} e h = ground arith

-- A task that is made stands in a known queue with a known priority, and its default is
-- restrictive, whatever the caller asked for.
pub make_task_restrictive :
    (digest : String → String) (schema_ok : Task → Bool)
    (queue priority question created_at : String) (restrictive_default : Option String)
    (ttl : Option ℕ) (hashes : Dict String String) {task : Task}
    → make_task digest schema_ok queue priority question created_at restrictive_default ttl hashes
      ≡ ok task
    → (elem task.restrictive_default restrictive_defaults ≡ true)
      × (elem task.queue queues ≡ true)
      × (elem task.priority priorities ≡ true)
      × ((created : Moment) × (hours : ℕ) × (parse task.created_at ≡ some created)
          × (task.expiry ≡ expiry_after created hours))
unfolding make_task
make_task_restrictive digest schema_ok queue priority question created_at restrictive_default ttl
      hashes h =
    let (a, h1) =
      >>-eq-ok (raise_if (not (elem queue queues)) ReviewQueueError.unknown_queue) _ h in
    let (b, h2) =
      >>-eq-ok (raise_if (not (elem priority priorities)) ReviewQueueError.unknown_priority) _ h1 in
    let (default, _, h3) =
      >>=-eq-ok
        (or_raise (or_else restrictive_default (get queue_default_disposition queue))
          ReviewQueueError.missing_key)
        _ h2 in
    let (c, h4) =
      >>-eq-ok
        (raise_if (not (elem default restrictive_defaults))
          ReviewQueueError.default_not_restrictive)
        _ h3 in
    let (hours, _, h5) =
      >>=-eq-ok
        (or_raise (hours_or ttl (get priority_ttl_hours priority)) ReviewQueueError.missing_key) _
        h4 in
    let (created, d, h6) =
      >>=-eq-ok (or_raise (parse created_at) ReviewQueueError.bad_timestamp) _ h5 in
    let (_, made) = >>-eq-ok (raise_if _ ReviewQueueError.schema_error) _ h6 in
    subst
      (λ t.
        (elem t.restrictive_default restrictive_defaults ≡ true)
        × (elem t.queue queues ≡ true)
        × (elem t.priority priorities ≡ true)
        × ((m : Moment) × (n : ℕ) × (parse t.created_at ≡ some m) × (t.expiry ≡ expiry_after m n)))
      (ok_inj made)
      (
        true_of_not ReviewQueueError.default_not_restrictive c,
        true_of_not ReviewQueueError.unknown_queue a,
        true_of_not ReviewQueueError.unknown_priority b,
        (created, hours, parsed (parse created_at) d, refl),
      )
  where
    parsed :
        (o : Option Moment) {m : Moment}
        → or_raise o ReviewQueueError.bad_timestamp ≡ ok m
        → o ≡ some m
    parsed none e = cc
    parsed (some x) e = cc

-- The four resolutions that accept and publish nothing.
abbrev pub is_restrictive : String → Bool
is_restrictive s = s == "hold" || s == "exclude" || s == "human_review" || s == "defer"

-- A task that `make_task` made from some arguments.
pub record IsMade (task : Task) : Type 0 where
  pub digest : String → String
  pub schema_ok : Task → Bool
  pub queue : String
  pub priority : String
  pub question : String
  pub created_at : String
  pub restrictive_default : Option String
  pub ttl_hours : Option ℕ
  pub hashes : Dict String String
  pub made :
      make_task digest schema_ok queue priority question created_at restrictive_default ttl_hours
        hashes
      ≡ ok task

listed-is_restrictive : (s : String) → elem s restrictive_defaults ≡ true → is_restrictive s ≡ true
listed-is_restrictive s h = ground (
  arith,
  ==_iff "hold" s,
  ==_iff s "hold",
  ==_iff "exclude" s,
  ==_iff s "exclude",
  ==_iff "human_review" s,
  ==_iff s "human_review",
  ==_iff "defer" s,
  ==_iff s "defer",
)

pub IsMade-is_restrictive :
    (task : Task) → IsMade task → is_restrictive task.restrictive_default ≡ true
IsMade-is_restrictive task m =
    let (listed, _, _, _) =
      make_task_restrictive m.digest m.schema_ok m.queue m.priority m.question m.created_at
        m.restrictive_default m.ttl_hours m.hashes m.made in
    listed-is_restrictive task.restrictive_default listed
