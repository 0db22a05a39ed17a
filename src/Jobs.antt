-- ===== src/Jobs.antt =====
-- The job queue (packages/python/atlas/jobs.py) over the rows of its table, in the order of their
-- insertion. The SQL statements are functions on the rows: `find` and `lowest` select, `update`
-- updates the rows that a test holds of; a comparison with NULL holds of no row. A call that
-- raises has written nothing. Payloads are kept as the JSON text that the column holds.
pub mod Table
pub mod Effects
pub mod Steps
pub mod Runs
pub mod Keys
pub mod Leases
mod Tests
use exposure_atlas.Base.{
  ℕ, ◌+◌, String, ◌^^◌, Bool, true, false, Option, none, some, List, [], ◌∷◌, ◌++◌, not, ◌&&◌, ◌||◌,
  leb, text_ltb, text_leb, length, select, find, any, Result, ok, err, ◌>>=◌, ◌>>◌, raise_if,
  or_raise, if◌then◌else◌, ◌==◌, text_eq_instance, nat_eq,
}
use exposure_atlas.States.{TransitionError, transition}

-- One row of `jobs`.
pub record Job : Type 0 where
  pub job_id : String
  pub idempotency_key : String
  pub kind : String
  pub state : String
  pub payload : String
  pub lease_owner : Option String
  pub lease_expires_at : Option String
  pub heartbeat_at : Option String
  pub attempts : ℕ
  pub max_attempts : ℕ
  pub retry_at : Option String

-- `duplicate_id` is the primary key's refusal of an insert, `no_row` the missing row of a SELECT.
pub data JobError : Type 0 where
  duplicate_id no_row not_holder : JobError
  refused : TransitionError → JobError

-- `transition("job", current, target)`, whose result is not used.
unfoldable pub move : String → String → Result JobError (Unit {0})
move current target = elim (transition "job" current target) [
  | ok _ ↦ ok tt
  | err e ↦ err (JobError.refused e)
]

unfoldable pub update : (Job → Bool) → (Job → Job) → List Job → List Job
update p f [] = []
update p f (j ∷ rows) = (if p j then f j else j) ∷ update p f rows

abbrev pub is_job : String → Job → Bool
is_job job_id j = j.job_id == job_id

abbrev pub new_job : String → String → String → String → ℕ → Job
new_job job_id kind payload idempotency_key max_attempts = record {
  job_id = job_id;
  idempotency_key = idempotency_key;
  kind = kind;
  state = "ready";
  payload = payload;
  lease_owner = none;
  lease_expires_at = none;
  heartbeat_at = none;
  attempts = 0;
  max_attempts = max_attempts;
  retry_at = none;
}

abbrev pub insert_job : Job → List Job → Result JobError (String × List Job)
insert_job j rows =
    raise_if (any (is_job j.job_id) rows) JobError.duplicate_id >> ok (j.job_id, rows ++ j ∷ [])

-- The job of the key, or a new one; `token` is the random part of its id.
unfoldable pub enqueue :
    (token kind payload idempotency_key : String) (max_attempts : ℕ)
    → List Job
    → Result JobError (String × List Job)
enqueue token kind payload idempotency_key max_attempts rows =
    elim (find (λ (j : Job). j.idempotency_key == idempotency_key) rows) [
      | some existing ↦ ok (existing.job_id, rows)
      | none ↦ insert_job (new_job ("job_" ^^ token) kind payload idempotency_key max_attempts) rows
    ]

abbrev pub before : Option String → String → Bool
before none now = false
before (some t) now = text_ltb t now

abbrev pub can_lease : String → Job → Bool
can_lease now j = j.state == "ready" || (j.state == "leased" && before j.lease_expires_at now)

abbrev pub lower : Job → Option Job → Option Job
lower j none = some j
lower j (some k) = if text_leb j.job_id k.job_id then some j else some k

-- `ORDER BY job_id LIMIT 1`
unfoldable pub lowest : (Job → Bool) → List Job → Option Job
lowest p [] = none
lowest p (j ∷ rows) = let rest = lowest p rows in if p j then lower j rest else rest

pub record Leased : Type 0 where
  pub job_id : String
  pub kind : String
  pub payload : String
  pub attempts : ℕ

abbrev pub leased_to : Job → String → String → String → Job → Job
leased_to row owner now lease_until j = record j {
  state = "leased";
  lease_owner = some owner;
  lease_expires_at = some lease_until;
  heartbeat_at = some now;
  attempts = row.attempts + 1;
}

abbrev pub take_job :
    (owner now lease_until : String) → List Job → Job → Result JobError (Option Leased × List Job)
take_job owner now lease_until rows row =
    (if row.state == "ready" then move "ready" "leased" else ok tt)
    >> ok (
      some (record {
        job_id = row.job_id;
        kind = row.kind;
        payload = row.payload;
        attempts = row.attempts + 1;
      }),
      update (is_job row.job_id) (leased_to row owner now lease_until) rows,
    )

-- `locked` holds of the rows that another transaction has locked.
unfoldable pub lease :
    (locked : String → Bool) (owner now lease_until : String)
    → List Job
    → Result JobError (Option Leased × List Job)
lease locked owner now lease_until rows =
    elim (lowest (λ j. can_lease now j && not (locked j.job_id)) rows) [
      | none ↦ ok (none, rows)
      | some row ↦ take_job owner now lease_until rows row
    ]

abbrev pub is_owner : Option String → String → Bool
is_owner none owner = false
is_owner (some o) owner = o == owner

abbrev pub held_by : String → String → Job → Bool
held_by job_id owner j = is_job job_id j && is_owner j.lease_owner owner && j.state == "leased"

abbrev pub beaten : String → String → Job → Job
beaten now lease_until j = record j { heartbeat_at = some now; lease_expires_at = some lease_until }

unfoldable pub heartbeat :
    (job_id owner now lease_until : String) → List Job → Result JobError (List Job)
heartbeat job_id owner now lease_until rows =
    raise_if (not (length (select (held_by job_id owner) rows) == 1)) JobError.not_holder
    >> ok (update (held_by job_id owner) (beaten now lease_until) rows)

abbrev pub completed : Job → Job
completed j = record j { state = "completed"; lease_owner = none; lease_expires_at = none }

abbrev pub complete_row : String → List Job → Job → Result JobError (List Job)
complete_row owner rows row =
    if row.state == "completed"
    then ok rows
    else move row.state "completed"
      >> raise_if (not (is_owner row.lease_owner owner)) JobError.not_holder
      >> ok (update (is_job row.job_id) completed rows)

unfoldable pub complete : (job_id owner : String) → List Job → Result JobError (List Job)
complete job_id owner rows =
    or_raise (find (is_job job_id) rows) JobError.no_row >>= complete_row owner rows

abbrev pub dead_lettered : Job → Job
dead_lettered j = record j { state = "dead_lettered"; lease_owner = none; lease_expires_at = none }

abbrev pub retry_scheduled : String → Job → Job
retry_scheduled retry_at j = record j {
  state = "retry_scheduled";
  retry_at = some retry_at;
  lease_owner = none;
  lease_expires_at = none;
}

abbrev pub fail_row : String → String → List Job → Job → Result JobError (String × List Job)
fail_row owner retry_at rows row =
    raise_if (not (is_owner row.lease_owner owner) || not (row.state == "leased"))
      JobError.not_holder
    >> (if leb row.max_attempts row.attempts
        then move "leased" "dead_lettered"
          >> ok ("dead_lettered", update (is_job row.job_id) dead_lettered rows)
        else move "leased" "retry_scheduled"
          >> ok ("retry_scheduled", update (is_job row.job_id) (retry_scheduled retry_at) rows))

unfoldable pub fail :
    (job_id owner retry_at : String) → List Job → Result JobError (String × List Job)
fail job_id owner retry_at rows =
    or_raise (find (is_job job_id) rows) JobError.no_row >>= fail_row owner retry_at rows

abbrev pub is_due : Option String → String → Bool
is_due none now = false
is_due (some t) now = text_leb t now

abbrev pub can_requeue : String → Job → Bool
can_requeue now j = j.state == "retry_scheduled" && is_due j.retry_at now

abbrev pub requeued : Job → Job
requeued j = record j { state = "ready"; retry_at = none }

-- The number of the rows it puts back, and the rows.
unfoldable pub requeue_due : (now : String) → List Job → ℕ × List Job
requeue_due now rows =
    (length (select (can_requeue now) rows), update (can_requeue now) requeued rows)
