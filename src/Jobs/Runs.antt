-- ===== src/Jobs/Runs.antt =====
-- Any sequence of calls of the queue, the refused ones included.
use exposure_atlas.Base.{
  ℕ, String, Bool, true, List, [], ◌∷◌, ◌++◌, all, Result, ok, err, map, text_eq_instance, ◌≡◌,
  refl, sym, ap, arith, subst,
}
use exposure_atlas.Jobs.{Job, JobError, enqueue, lease, heartbeat, complete, fail, requeue_due}
use exposure_atlas.Jobs.Table.{
  IsMoved, IsMoved-refl, IsMoved-append, update-IsMoved, IsUnique, IsUnique-append, ids, map-update,
  all-update,
}
use exposure_atlas.Jobs.Effects.{is_sound, Effect}
use exposure_atlas.Jobs.Steps.{
  enqueue-Effect, lease-Effect, heartbeat-Effect, complete-Effect, fail-Effect, requeue_due-Effect,
}

-- One call of the module, with its arguments.
pub data Call : Type 0 where
  enqueue_call : (token kind payload key : String) → ℕ → Call
  lease_call : (String → Bool) → (owner now lease_until : String) → Call
  heartbeat_call : (job_id owner now lease_until : String) → Call
  complete_call : (job_id owner : String) → Call
  fail_call : (job_id owner retry_at : String) → Call
  requeue_call : String → Call

-- The rows after a call; a refused call writes nothing.
abbrev pub written : {A : Type 0} → List Job → Result JobError (A × List Job) → List Job
written rows (ok (_, new)) = new
written rows (err _) = rows

abbrev pub rewritten : List Job → Result JobError (List Job) → List Job
rewritten rows (ok new) = new
rewritten rows (err _) = rows

unfoldable pub call : Call → List Job → List Job
call (Call.enqueue_call token kind payload key limit) rows =
    written rows (enqueue token kind payload key limit rows)
call (Call.lease_call locked owner now lease_until) rows =
    written rows (lease locked owner now lease_until rows)
call (Call.heartbeat_call job_id owner now lease_until) rows =
    rewritten rows (heartbeat job_id owner now lease_until rows)
call (Call.complete_call job_id owner) rows = rewritten rows (complete job_id owner rows)
call (Call.fail_call job_id owner retry_at) rows = written rows (fail job_id owner retry_at rows)
call (Call.requeue_call now) rows = (requeue_due now rows).1

unfoldable pub run : List Call → List Job → List Job
run [] rows = rows
run (c ∷ calls) rows = run calls (call c rows)

written-Effect :
    {A : Type 0} (rows : List Job) (r : Result JobError (A × List Job))
    → ((a : A) (new : List Job) → r ≡ ok (a, new) → Effect rows new)
    → Effect rows (written rows r)
written-Effect rows (ok (a, new)) h = h a new refl
written-Effect rows (err e) h = Effect.kept

rewritten-Effect :
    (rows : List Job) (r : Result JobError (List Job))
    → ((new : List Job) → r ≡ ok new → Effect rows new)
    → Effect rows (rewritten rows r)
rewritten-Effect rows (ok new) h = h new refl
rewritten-Effect rows (err e) h = Effect.kept

pub call-Effect : (c : Call) (rows : List Job) → IsUnique (ids rows) → Effect rows (call c rows)
unfolding call
call-Effect (Call.enqueue_call token kind payload key limit) rows u =
    written-Effect rows _ (λ a new e. enqueue-Effect rows u token kind payload key limit e)
call-Effect (Call.lease_call locked owner now lease_until) rows u =
    written-Effect rows _ (λ a new e. lease-Effect rows u locked owner now lease_until e)
call-Effect (Call.heartbeat_call job_id owner now lease_until) rows u =
    rewritten-Effect rows _ (λ new e. heartbeat-Effect rows u job_id owner now lease_until e)
call-Effect (Call.complete_call job_id owner) rows u =
    rewritten-Effect rows _ (λ new e. complete-Effect rows u job_id owner e)
call-Effect (Call.fail_call job_id owner retry_at) rows u =
    written-Effect rows _ (λ a new e. fail-Effect rows u job_id owner retry_at e)
call-Effect (Call.requeue_call now) rows u = requeue_due-Effect rows u now

-- What holds of the table between two calls.
pub record IsTable (rows : List Job) : Type 0 where
  pub unique_ids : IsUnique (ids rows)
  pub unique_keys : IsUnique (map (λ (j : Job). j.idempotency_key) rows)
  pub sound : all is_sound rows ≡ true

map-append :
    (g : Job → String) (rows : List Job) (j : Job) → map g (rows ++ j ∷ []) ≡ map g rows ++ g j ∷ []
map-append g [] j = refl
map-append g (k ∷ rows) j = ap (λ (ss : List String). g k ∷ ss) (map-append g rows j)

all-append :
    (q : Job → Bool) (rows : List Job) (j : Job)
    → all q rows ≡ true
    → q j ≡ true
    → all q (rows ++ j ∷ []) ≡ true
all-append q [] j h k = ground arith
all-append q (x ∷ rows) j h k = ground (arith, all-append q rows j)

pub Effect-IsTable : (rows new : List Job) → IsTable rows → Effect rows new → IsTable new
Effect-IsTable rows new t Effect.kept = t
Effect-IsTable rows new t (Effect.inserted j new_id new_key sound) = record {
  unique_ids =
      subst IsUnique (sym (map-append (λ (k : Job). k.job_id) rows j))
        (IsUnique-append (ids rows) j.job_id t.unique_ids new_id);
  unique_keys =
      subst IsUnique (sym (map-append (λ (k : Job). k.idempotency_key) rows j))
        (IsUnique-append _ j.idempotency_key t.unique_keys new_key);
  sound = all-append is_sound rows j t.sound sound;
}
Effect-IsTable rows new t (Effect.changed p f moves sound) = record {
  unique_ids =
      subst IsUnique
        (sym (map-update p f (λ (k : Job). k.job_id) rows (λ j m e. (moves j m e).job_id)))
        t.unique_ids;
  unique_keys =
      subst IsUnique
        (sym (map-update p f (λ (k : Job). k.idempotency_key) rows (λ j m e. (moves j m e).key)))
        t.unique_keys;
  sound = all-update p f is_sound rows sound t.sound;
}

run-IsTable_from : (calls : List Call) (rows : List Job) → IsTable rows → IsTable (run calls rows)
unfolding run
run-IsTable_from [] rows t = t
run-IsTable_from (c ∷ calls) rows t =
    run-IsTable_from calls (call c rows)
      (Effect-IsTable rows (call c rows) t (call-Effect c rows t.unique_ids))

-- Whatever calls are made of an empty queue, with any workers and clocks, job ids and idempotency
-- keys stay unique, a row has an owner and an expiry exactly while it is leased, and a scheduled
-- retry has its time.
pub run-IsTable : (calls : List Call) → IsTable (run calls [])
run-IsTable calls =
    run-IsTable_from calls [] (record { unique_ids = tt; unique_keys = tt; sound = refl })

pub Effect-IsMoved : (rows : List Job) {new : List Job} → Effect rows new → IsMoved rows new
Effect-IsMoved rows Effect.kept = IsMoved-refl rows
Effect-IsMoved rows (Effect.inserted j _ _ _) = IsMoved-append rows (j ∷ [])
Effect-IsMoved rows (Effect.changed p f moves _) = update-IsMoved p f rows moves

-- After any calls of an empty queue, one more call drops no job, changes no id, key, kind, payload or
-- limit, and moves each state only along the table of the job machine.
pub call-IsMoved : (calls : List Call) (c : Call) → IsMoved (run calls []) (call c (run calls []))
call-IsMoved calls c =
    Effect-IsMoved (run calls []) (call-Effect c (run calls []) (run-IsTable calls).unique_ids)
