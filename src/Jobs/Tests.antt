-- ===== src/Jobs/Tests.antt =====
-- One job that is leased, fails, is put back and completed.
use mathlib.Core.Bool.{false≢true}
use exposure_atlas.Base.{==_iff, inl, false, some, List, [], ◌∷◌, ok, ◌≡◌, refl, text_eq_instance}
use exposure_atlas.Jobs.{
  Job, update, completed, enqueue, complete, lease, fail, requeue_due, lowest, new_job, move,
}
use exposure_atlas.Jobs.Table.{IsMoved}
use exposure_atlas.Jobs.Runs.{Call, call, run, IsTable, run-IsTable, call-IsMoved}
use exposure_atlas.Jobs.Keys.{enqueue_idempotent}
use exposure_atlas.Jobs.Leases.{AreIdle, Shift, IsHeld, leases, lease_unbounded}
use exposure_atlas.States.{transition, in_table, step}
use exposure_atlas.Base.Dict.{get}

abbrev life : List Call
life =
    Call.enqueue_call "1" "fetch" "{}" "k1" 3
    ∷ Call.lease_call (λ id. false) "w1" "2026-07-11T00:00:00Z" "2026-07-11T00:05:00Z"
    ∷ Call.fail_call "job_1" "w1" "2026-07-11T00:10:00Z"
    ∷ Call.requeue_call "2026-07-11T00:20:00Z"
    ∷ Call.enqueue_call "2" "fetch" "{}" "k1" 3
    ∷ Call.lease_call (λ id. false) "w2" "2026-07-11T00:21:00Z" "2026-07-11T00:25:00Z"
    ∷ []

abbrev first_row : Job
first_row = new_job "job_1" "fetch" "{}" "k1" 3

abbrev last_row : Job
last_row = record first_row {
  state = "leased";
  lease_owner = some "w2";
  lease_expires_at = some "2026-07-11T00:25:00Z";
  heartbeat_at = some "2026-07-11T00:21:00Z";
  attempts = 2;
}

run-life : run life [] ≡ last_row ∷ []
unfolding run call enqueue lease fail requeue_due lowest update move transition in_table step get
run-life = refl

run-IsTable_example : IsTable (run life [])
run-IsTable_example = run-IsTable life

call-IsMoved_example : IsMoved (run life []) (call (Call.complete_call "job_1" "w2") (run life []))
call-IsMoved_example = call-IsMoved life (Call.complete_call "job_1" "w2")

enqueue-first : enqueue "1" "fetch" "{}" "k1" 3 (run [] []) ≡ ok ("job_1", first_row ∷ [])
unfolding enqueue run
enqueue-first = refl

enqueue_idempotent_example :
    enqueue "9" "fetch" "{}" "k1" 3 (run life (first_row ∷ []))
    ≡ ok ("job_1", run life (first_row ∷ []))
enqueue_idempotent_example =
    enqueue_idempotent [] "k1" "1" "fetch" "{}" 3 enqueue-first life "9" "fetch" "{}" 3

complete-last : complete "job_1" "w2" (last_row ∷ []) ≡ ok (completed last_row ∷ [])
unfolding complete update move transition in_table step get
complete-last = refl

-- Three workers that die, each before the next one comes.
abbrev shifts : List Shift
shifts =
    record { owner = "w1"; now = "2026-07-11T00:00:00Z"; until = "2026-07-11T00:05:00Z" }
    ∷ record { owner = "w2"; now = "2026-07-11T00:06:00Z"; until = "2026-07-11T00:11:00Z" }
    ∷ record { owner = "w3"; now = "2026-07-11T00:12:00Z"; until = "2026-07-11T00:17:00Z" }
    ∷ []

-- A job whose limit is two, behind one that is completed.
abbrev limited : Job
limited = record first_row { max_attempts = 2 }

abbrev settled : Job
settled = record first_row { job_id = "job_0"; state = "completed" }

settled-AreIdle : AreIdle limited (settled ∷ [])
settled-AreIdle = (
  (
    λ e. absurd (false≢true ((==_iff "completed" "ready").1 e)),
    λ e. absurd (false≢true ((==_iff "completed" "leased").1 e)),
    λ e. absurd (false≢true ((==_iff "job_0" "job_1").1 e)),
  ),
  tt,
)

lease_unbounded_example :
    (k : Job) × (run (leases shifts) (settled ∷ limited ∷ []) ≡ settled ∷ k ∷ [])
    × IsHeld shifts k
    × (k.attempts ≡ 3)
    × (k.max_attempts ≡ 2)
    × (k.job_id ≡ "job_1")
lease_unbounded_example =
    lease_unbounded shifts limited (settled ∷ []) [] settled-AreIdle tt (refl, (refl, tt))
      (inl refl)
