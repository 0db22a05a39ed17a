-- ===== src/Jobs/Steps.antt =====
-- Each call of the queue has an effect on the rows.
use exposure_atlas.Base.Dict.{get}
use exposure_atlas.Base.{
  nat_eq, ◌>>◌, ◌^^◌, String, ℕ, Bool, true, false, Option, List, find, any, elem, ok, map, ok_inj,
  >>-eq-ok, >>=-eq-ok, raise_if, or_raise, raise_if-eq-ok, ◌==◌, ==_iff, not, ◌&&◌, ◌||◌, leb, ◌∙◌,
  text_eq_instance, ◌≡◌, ◌⊎◌, inl, inr, refl, sym, ap, arith, subst, Bool-cases, if◌then◌else◌,
  Option-cases,
}
use exposure_atlas.States.{transition, in_table, step}
use exposure_atlas.Jobs.{
  Job, JobError, Leased, move, update, is_job, lowest, new_job, insert_job, enqueue, can_lease,
  leased_to, take_job, lease, is_owner, held_by, beaten, heartbeat, completed, complete_row,
  complete, dead_lettered, retry_scheduled, fail_row, fail, can_requeue, requeued, requeue_due,
}
use exposure_atlas.Jobs.Table.{IsMove, IsUnique, ids, Holds, find-Holds, lowest-Holds}
use exposure_atlas.Jobs.Effects.{
  is_sound, Effect, move-ok, or_raise-eq-ok, one-IsMove, any-is_job, find-none,
}

module _ (rows : List Job) (u : IsUnique (ids rows)) where
  insert_job-Effect :
      (j : Job) {id : String} {new : List Job}
      → elem j.idempotency_key (map (λ (k : Job). k.idempotency_key) rows) ≡ false
      → is_sound j ≡ true
      → insert_job j rows ≡ ok (id, new)
      → Effect rows new
  insert_job-Effect j fresh sound h =
      let (a, made) = >>-eq-ok (raise_if (any (is_job j.job_id) rows) JobError.duplicate_id) _ h in
      subst (Effect rows) (ap (λ x. x.1) (ok_inj made)) (
        Effect.inserted j
          (sym (any-is_job rows j.job_id)
            ∙ raise_if-eq-ok (any (is_job j.job_id) rows) JobError.duplicate_id a)
          fresh sound)

  pub enqueue-Effect :
      (token kind payload key : String) (limit : ℕ) {id : String} {new : List Job}
      → enqueue token kind payload key limit rows ≡ ok (id, new)
      → Effect rows new
  unfolding enqueue
  enqueue-Effect token kind payload key limit h =
      elim (Option-cases (find (λ (j : Job). j.idempotency_key == key) rows)) [
        | inr (j, e) ↦
            subst (Effect rows) (ap (λ x. x.1) (ok_inj (rw (e, enqueue) at h))) Effect.kept
        | inl e ↦
            insert_job-Effect (new_job ("job_" ^^ token) kind payload key limit)
              (find-none rows key e) refl (rw (e, enqueue) at h)
      ]

  one_changed :
      (r : Job) (f : Job → Job)
      → Holds r rows
      → IsMove r (f r)
      → ((j : Job) → is_sound j ≡ true → is_sound (f j) ≡ true)
      → Effect rows (update (is_job r.job_id) f rows)
  one_changed r f m h s =
      Effect.changed (is_job r.job_id) f (one-IsMove rows r f u m h) (λ j sound e. s j sound)

  leased_to-legal :
      (now : String) (r : Job)
      → can_lease now r ≡ true
      → (if r.state == "ready" then move "ready" "leased" else ok tt) ≡ ok tt
      → ("leased" ≡ r.state) ⊎ (transition "job" r.state "leased" ≡ ok "leased")
  leased_to-legal now r can go = elim (Bool-cases (r.state == "ready")) [
    | inl e ↦ inr (
        subst (λ s. transition "job" s "leased" ≡ ok "leased") (sym ((==_iff r.state "ready").0 e))
          (move-ok "ready" "leased" (rw e at go)))
    | inr e ↦ inl (sym ((==_iff r.state "leased").0 (ground arith)))
  ]

  take_job-Effect :
      (owner now lease_until : String) (r : Job) {o : Option Leased} {new : List Job}
      → Holds r rows
      → can_lease now r ≡ true
      → take_job owner now lease_until rows r ≡ ok (o, new)
      → Effect rows new
  take_job-Effect owner now lease_until r m can h =
      let (go, made) = >>-eq-ok (if r.state == "ready" then move "ready" "leased" else ok tt) _ h in
      subst (Effect rows) (ap (λ x. x.1) (ok_inj made)) (
        one_changed r (leased_to r owner now lease_until) m
          (record {
            job_id = refl;
            key = refl;
            kind = refl;
            payload = refl;
            limit = refl;
            legal = leased_to-legal now r can go;
          })
          (λ j s. refl))

  pub lease-Effect :
      (locked : String → Bool) (owner now lease_until : String) {o : Option Leased} {new : List Job}
      → lease locked owner now lease_until rows ≡ ok (o, new)
      → Effect rows new
  unfolding lease
  lease-Effect locked owner now lease_until h =
      elim (Option-cases (lowest (λ j. can_lease now j && not (locked j.job_id)) rows)) [
        | inl e ↦ subst (Effect rows) (ap (λ x. x.1) (ok_inj (rw (e, lease) at h))) Effect.kept
        | inr (r, e) ↦
            let (m, can) = lowest-Holds (λ j. can_lease now j && not (locked j.job_id)) rows e in
            take_job-Effect owner now lease_until r m (ground arith) (rw (e, lease) at h)
      ]

  beaten-is_sound :
      (job_id owner now lease_until : String) (j : Job)
      → is_sound j ≡ true
      → held_by job_id owner j ≡ true
      → is_sound (beaten now lease_until j) ≡ true
  beaten-is_sound job_id owner now lease_until j s e = ground arith

  pub heartbeat-Effect :
      (job_id owner now lease_until : String) {new : List Job}
      → heartbeat job_id owner now lease_until rows ≡ ok new
      → Effect rows new
  unfolding heartbeat
  heartbeat-Effect job_id owner now lease_until h =
      let (_, made) = >>-eq-ok (raise_if _ JobError.not_holder) _ h in
      subst (Effect rows) (ok_inj made) (
        Effect.changed (held_by job_id owner) (beaten now lease_until)
          (λ j m e. record {
            job_id = refl;
            key = refl;
            kind = refl;
            payload = refl;
            limit = refl;
            legal = inl refl;
          })
          (λ j s e. beaten-is_sound job_id owner now lease_until j s e))

  complete_row-Effect :
      (owner : String) (r : Job) {new : List Job}
      → Holds r rows
      → complete_row owner rows r ≡ ok new
      → Effect rows new
  complete_row-Effect owner r m h = elim (Bool-cases (r.state == "completed")) [
    | inl e ↦ subst (Effect rows) (ok_inj (rw e at h)) Effect.kept
    | inr e ↦
        let owned = raise_if (not (is_owner r.lease_owner owner)) JobError.not_holder in
        let (both, made) = >>-eq-ok (move r.state "completed" >> owned) _ (rw e at h) in
        let (go, _) = >>-eq-ok (move r.state "completed") owned both in
        subst (Effect rows) (ok_inj made) (
          one_changed r completed m
            (record {
              job_id = refl;
              key = refl;
              kind = refl;
              payload = refl;
              limit = refl;
              legal = inr (move-ok r.state "completed" go);
            })
            (λ j s. refl))
  ]

  pub complete-Effect :
      (job_id owner : String) {new : List Job}
      → complete job_id owner rows ≡ ok new
      → Effect rows new
  unfolding complete
  complete-Effect job_id owner h =
      let (r, found, h1) = >>=-eq-ok (or_raise (find (is_job job_id) rows) JobError.no_row) _ h in
      complete_row-Effect owner r (find-Holds (is_job job_id) rows (or_raise-eq-ok _ found)).0 h1

  fail_row-Effect :
      (owner retry_at : String) (r : Job) {state : String} {new : List Job}
      → Holds r rows
      → fail_row owner retry_at rows r ≡ ok (state, new)
      → Effect rows new
  fail_row-Effect owner retry_at r m h =
      let bad = not (is_owner r.lease_owner owner) || not (r.state == "leased") in
      let (a, h1) = >>-eq-ok (raise_if bad JobError.not_holder) _ h in
      let held : r.state ≡ "leased" =
        (==_iff r.state "leased").0 (ground (arith, raise_if-eq-ok bad JobError.not_holder a)) in
      elim (Bool-cases (leb r.max_attempts r.attempts)) [
        | inl e ↦
            let (go, made) = >>-eq-ok (move "leased" "dead_lettered") _ (rw e at h1) in
            subst (Effect rows) (ap (λ x. x.1) (ok_inj made)) (
              one_changed r dead_lettered m
                (record {
                  job_id = refl;
                  key = refl;
                  kind = refl;
                  payload = refl;
                  limit = refl;
                  legal = inr (rw held (move-ok "leased" "dead_lettered" go));
                })
                (λ j s. refl))
        | inr e ↦
            let (go, made) = >>-eq-ok (move "leased" "retry_scheduled") _ (rw e at h1) in
            subst (Effect rows) (ap (λ x. x.1) (ok_inj made)) (
              one_changed r (retry_scheduled retry_at) m
                (record {
                  job_id = refl;
                  key = refl;
                  kind = refl;
                  payload = refl;
                  limit = refl;
                  legal = inr (rw held (move-ok "leased" "retry_scheduled" go));
                })
                (λ j s. refl))
      ]

  pub fail-Effect :
      (job_id owner retry_at : String) {state : String} {new : List Job}
      → fail job_id owner retry_at rows ≡ ok (state, new)
      → Effect rows new
  unfolding fail
  fail-Effect job_id owner retry_at h =
      let (r, found, h1) = >>=-eq-ok (or_raise (find (is_job job_id) rows) JobError.no_row) _ h in
      fail_row-Effect owner retry_at r (find-Holds (is_job job_id) rows (or_raise-eq-ok _ found)).0
        h1

  pub requeue_due-Effect : (now : String) → Effect rows (requeue_due now rows).1
  unfolding requeue_due transition
  requeue_due-Effect now =
      Effect.changed (can_requeue now) requeued
        (λ j m e. record {
          job_id = refl;
          key = refl;
          kind = refl;
          payload = refl;
          limit = refl;
          legal = inr (
              subst (λ s. transition "job" s "ready" ≡ ok "ready")
                (sym ((==_iff j.state "retry_scheduled").0 (ground arith)))
                (unfold transition in_table step get in refl));
        })
        (λ j s e.
          let due = (==_iff j.state "retry_scheduled").0 (ground arith) in
          let alone = rw due at s in ground arith)
