-- ===== src/Jobs/Leases.antt =====
-- Who may complete a job, and what becomes of a job whose workers die.
use exposure_atlas.Base.{
  ◌++◌, ◌≢◌, All, length, ◌&&◌, false, none, text_ltb, ◌+◌, not, String, true, false, Option, none,
  some, List, [], ◌∷◌, find, ok, ok_inj, ◌==◌, ==_iff, ==_refl, ◌∙◌, raise_if, or_raise, >>-eq-ok,
  >>=-eq-ok, raise_if-eq-ok, ◌>>◌, text_eq_instance, ◌≡◌, ◌⊎◌, inl, inr, refl, sym, ap, arith,
  Bool-cases,
}
use exposure_atlas.Jobs.{
  can_lease, Job, JobError, update, is_job, lease, complete, is_owner, move, lowest, leased_to,
  completed, before,
}
use exposure_atlas.Jobs.Effects.{move-ok, or_raise-eq-ok}
use exposure_atlas.Jobs.Runs.{Call, call, run}
use exposure_atlas.States.{transition, in_table, step}
use exposure_atlas.Base.Dict.{get}

into_completed : (s : String) → transition "job" s "completed" ≡ ok "completed" → s ≡ "leased"
unfolding transition in_table step get
into_completed s h = ground (
  arith,
  ==_iff "ready" s,
  ==_iff "leased" s,
  ==_iff "retry_scheduled" s,
  ==_iff "completed" s,
  ==_iff "dead_lettered" s,
  ==_iff "cancelled" s,
)

owner_of : (o : Option String) (owner : String) → is_owner o owner ≡ true → o ≡ some owner
owner_of none owner h = ground arith
owner_of (some o) owner h = ap (λ x. some x) ((==_iff o owner).0 h)

-- Only the worker that holds the lease completes a job: a completion that is accepted finds the job
-- completed already, and changes nothing, or leased by this worker, and completes it.
pub complete_owner :
    (rows : List Job) (job_id owner : String) {new : List Job}
    → complete job_id owner rows ≡ ok new
    → (r : Job) × (find (is_job job_id) rows ≡ some r)
      × (((r.state ≡ "completed") × (new ≡ rows))
          ⊎ ((r.state ≡ "leased")
              × (r.lease_owner ≡ some owner)
              × (new ≡ update (is_job r.job_id) completed rows)))
unfolding complete
complete_owner rows job_id owner h =
    let (r, found, h1) = >>=-eq-ok (or_raise (find (is_job job_id) rows) JobError.no_row) _ h in
    (
      r,
      or_raise-eq-ok _ found,
      elim (Bool-cases (r.state == "completed")) [
        | inl e ↦ inl ((==_iff r.state "completed").0 e, sym (ok_inj (rw e at h1)))
        | inr e ↦
            let alone = not (is_owner r.lease_owner owner) in
            let owned = raise_if alone JobError.not_holder in
            let (both, made) = >>-eq-ok (move r.state "completed" >> owned) _ (rw e at h1) in
            let (go, mine) = >>-eq-ok (move r.state "completed") owned both in
            inr (
              into_completed r.state (move-ok r.state "completed" go),
              owner_of r.lease_owner owner
                  (ground (arith, raise_if-eq-ok alone JobError.not_holder mine)),
              sym (ok_inj made),
            )
      ],
    )

-- One worker that takes a lease at `now`, until `until`, and dies with it.
pub record Shift : Type 0 where
  pub owner : String
  pub now : String
  pub until : String

abbrev pub leases : List Shift → List Call
leases [] = []
leases (s ∷ shifts) = Call.lease_call (λ id. false) s.owner s.now s.until ∷ leases shifts

-- Each worker comes after the lease of the one before it has run out.
abbrev pub IsAdvancing : List Shift → Type 0
IsAdvancing [] = Unit
IsAdvancing (s ∷ []) = Unit
IsAdvancing (s ∷ t ∷ shifts) = (text_ltb s.until t.now ≡ true) × IsAdvancing (t ∷ shifts)

-- The first worker finds the job ready, or leased until a time that is past.
abbrev pub IsOpen : Job → List Shift → Type 0
IsOpen j [] = Unit
IsOpen j (s ∷ shifts) =
    (j.state ≡ "ready") ⊎ ((j.state ≡ "leased") × (before j.lease_expires_at s.now ≡ true))

-- What the shifts leave: the last worker holds the job for as long as that one asked.
abbrev pub IsHeld : List Shift → Job → Type 0
IsHeld [] k = Unit
IsHeld (s ∷ []) k =
    (k.state ≡ "leased") × (k.lease_owner ≡ some s.owner) × (k.lease_expires_at ≡ some s.until)
IsHeld (s ∷ t ∷ shifts) k = IsHeld (t ∷ shifts) k

-- The other rows: no worker can take them, and they are other jobs.
abbrev pub AreIdle : Job → List Job → Type 0
AreIdle j rows = All (λ r. (r.state ≢ "ready") × (r.state ≢ "leased") × (r.job_id ≢ j.job_id)) rows

idle_no_lease :
    (r : Job) (now : String)
    → r.state ≢ "ready"
    → r.state ≢ "leased"
    → (can_lease now r && true) ≡ false
idle_no_lease r now a b = ground (arith, ==_iff r.state "ready", ==_iff r.state "leased")

lowest-idle :
    (now : String) (j : Job) (rows : List Job)
    → AreIdle j rows
    → lowest (λ r. can_lease now r && true) rows ≡ none
unfolding lowest
lowest-idle now j [] h = refl
lowest-idle now j (r ∷ rows) ((a, b, c), h) =
    rw (idle_no_lease r now a b) (lowest-idle now j rows h)

lowest-open :
    (now : String) (j : Job) (front back : List Job)
    → AreIdle j front
    → AreIdle j back
    → (can_lease now j && true) ≡ true
    → lowest (λ r. can_lease now r && true) (front ++ j ∷ back) ≡ some j
unfolding lowest
lowest-open now j [] back f b can = rw (can, lowest-idle now j back b) refl
lowest-open now j (r ∷ front) back ((x, y, z), f) b can =
    rw (idle_no_lease r now x y) (lowest-open now j front back f b can)

update-idle :
    (g : Job → Job) (j : Job) (rows : List Job)
    → AreIdle j rows
    → update (is_job j.job_id) g rows ≡ rows
unfolding update
update-idle g j [] h = refl
update-idle g j (r ∷ rows) ((a, b, c), h) =
    let other : (r.job_id == j.job_id) ≡ false = ground (arith, ==_iff r.job_id j.job_id) in
    rw (other, update-idle g j rows h) refl

update-open :
    (g : Job → Job) (j : Job) (front back : List Job)
    → AreIdle j front
    → AreIdle j back
    → update (is_job j.job_id) g (front ++ j ∷ back) ≡ front ++ g j ∷ back
unfolding update
update-open g j [] back f b = rw (==_refl j.job_id, update-idle g j back b) refl
update-open g j (r ∷ front) back ((x, y, z), f) b =
    let other : (r.job_id == j.job_id) ≡ false = ground (arith, ==_iff r.job_id j.job_id) in
    rw (other, update-open g j front back f b) refl

leased_next :
    (s : Shift) (j : Job) (front back : List Job)
    → AreIdle j front
    → AreIdle j back
    → IsOpen j (s ∷ [])
    → call (Call.lease_call (λ id. false) s.owner s.now s.until) (front ++ j ∷ back)
      ≡ front ++ leased_to j s.owner s.now s.until j ∷ back
unfolding call lease move transition in_table step get
leased_next s j front back f b (inl r) =
    let found = lowest-open s.now j front back f b (ground (arith, ==_iff j.state "ready")) in
    let waits : (j.state == "ready") ≡ true = (==_iff j.state "ready").1 r in
    rw (found, lease) (rw waits (update-open (leased_to j s.owner s.now s.until) j front back f b))
leased_next s j front back f b (inr (l, out)) =
    let found = lowest-open s.now j front back f b (ground (arith, ==_iff j.state "leased")) in
    let waits : (j.state == "ready") ≡ false = ap (λ x. x == "ready") l in
    rw (found, lease) (rw waits (update-open (leased_to j s.owner s.now s.until) j front back f b))

-- The limit of attempts does not bound the leases. Take a queue in which no worker can take a job but
-- one, which is ready or whose lease has run out, and any number of workers, each with a name and a
-- clock of its own, each coming after the lease before its own has run out, and each dying with its
-- lease: every one of them gets the job, whatever the limit is. In the end the last of them holds it,
-- the attempts have grown by the number of workers, past the limit where that number is large enough,
-- and the other rows are as they were.
pub lease_unbounded :
    (shifts : List Shift) (j : Job) (front back : List Job)
    → AreIdle j front
    → AreIdle j back
    → IsAdvancing shifts
    → IsOpen j shifts
    → (k : Job) × (run (leases shifts) (front ++ j ∷ back) ≡ front ++ k ∷ back)
      × IsHeld shifts k
      × (k.attempts ≡ j.attempts + length shifts)
      × (k.max_attempts ≡ j.max_attempts)
      × (k.job_id ≡ j.job_id)
unfolding run
lease_unbounded [] j front back f b advancing is_open = (j, refl, tt, omega arith, refl, refl)
lease_unbounded (s ∷ []) j front back f b advancing is_open = (
  leased_to j s.owner s.now s.until j,
  leased_next s j front back f b is_open,
  (refl, refl, refl),
  omega arith,
  refl,
  refl,
)
lease_unbounded (s ∷ t ∷ shifts) j front back f b (late, advancing) is_open =
    let next = leased_to j s.owner s.now s.until j in
    let (k, r, held, e, m, i) =
      lease_unbounded (t ∷ shifts) next front back f b advancing (inr (refl, late)) in
    (
      k,
      ap (run (leases (t ∷ shifts))) (leased_next s j front back f b is_open) ∙ r,
      held,
      omega (arith, e),
      m,
      i,
    )
