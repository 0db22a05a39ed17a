-- ===== src/Jobs/Keys.antt =====
-- The job of an idempotency key over any calls.
use exposure_atlas.Base.{
  ◌^^◌, false, none, Option-cases, ℕ, String, Bool, true, false, none, some, List, [], ◌∷◌, ◌++◌,
  find, any, ok, ok_inj, ◌==◌, ==_refl, ◌∙◌, raise_if, >>-eq-ok, text_eq_instance, ◌≡◌, inl, inr,
  refl, ap, arith, subst, Bool-cases,
}
use exposure_atlas.Jobs.{Job, JobError, is_job, enqueue, new_job}
use exposure_atlas.Jobs.Table.{IsMoved}
use exposure_atlas.Jobs.Steps.{enqueue-Effect}
use exposure_atlas.Jobs.Runs.{
  Call, call, run, IsTable, run-IsTable, call-Effect, Effect-IsTable, Effect-IsMoved,
}

module _ (key : String) where
  abbrev of_key : Job → Bool
  of_key j = j.idempotency_key == key

  -- The key is found, at the id.
  abbrev IsFound : String → List Job → Type 0
  IsFound id rows = (r : Job) × (find of_key rows ≡ some r) × (r.job_id ≡ id)

  IsFound-moved :
      (id : String) (rows new : List Job) → IsMoved rows new → IsFound id rows → IsFound id new
  IsFound-moved id [] new m (r, h, e) = cc
  IsFound-moved id (j ∷ rows) [] m (r, h, e) = absurd m
  IsFound-moved id (j ∷ rows) (k ∷ new) m (r, h, i) = elim (Bool-cases (j.idempotency_key == key)) [
    | inl e ↦
        let same : j ≡ r = cc (rw e at h) in
        let found : of_key k ≡ true = ap (λ s. s == key) m.0.key ∙ e in
        rw found (k, refl, m.0.job_id ∙ ap (λ (x : Job). x.job_id) same ∙ i)
    | inr e ↦
        let other : of_key k ≡ false = ap (λ s. s == key) m.0.key ∙ e in
        rw other (IsFound-moved id rows new m.1 (r, (rw e at h), i))
  ]

  find-append :
      (rows : List Job) (j : Job)
      → find of_key rows ≡ none
      → of_key j ≡ true
      → find of_key (rows ++ j ∷ []) ≡ some j
  find-append [] j h e = rw e refl
  find-append (k ∷ rows) j h e = ground (arith, find-append rows j)

  enqueue-IsFound :
      (rows : List Job) (token kind payload : String) (limit : ℕ) {id : String} {new : List Job}
      → enqueue token kind payload key limit rows ≡ ok (id, new)
      → IsFound id new
  unfolding enqueue
  enqueue-IsFound rows token kind payload limit {id} h = elim (Option-cases (find of_key rows)) [
    | inr (j, e) ↦
        let made = ok_inj (rw (e, enqueue) at h) in
        subst (IsFound id) (ap (λ x. x.1) made) (j, e, ap (λ x. x.0) made)
    | inl e ↦
        let j = new_job ("job_" ^^ token) kind payload key limit in
        let (_, h1) =
          >>-eq-ok (raise_if (any (is_job j.job_id) rows) JobError.duplicate_id) _
            (rw (e, enqueue) at h) in
        let made = ok_inj h1 in
        subst (IsFound id) (ap (λ x. x.1) made)
          (j, find-append rows j e (==_refl key), ap (λ x. x.0) made)
  ]

  found_again :
      (rows : List Job) (token kind payload : String) (limit : ℕ) (id : String)
      → IsFound id rows
      → enqueue token kind payload key limit rows ≡ ok (id, rows)
  unfolding enqueue
  found_again rows token kind payload limit id (r, h, i) = rw (h, enqueue) (rw i refl)

  run-IsFound :
      (calls : List Call) (rows : List Job) (id : String)
      → IsTable rows
      → IsFound id rows
      → IsFound id (run calls rows)
  unfolding run
  run-IsFound [] rows id t f = f
  run-IsFound (c ∷ calls) rows id t f =
      let eff = call-Effect c rows t.unique_ids in
      run-IsFound calls (call c rows) id (Effect-IsTable rows (call c rows) t eff)
        (IsFound-moved id rows (call c rows) (Effect-IsMoved rows eff) f)

-- Enqueueing is idempotent for ever: once a key has got its job, whatever calls follow, failures,
-- retries and dead letters included, enqueueing the key again returns the same job and changes nothing.
pub enqueue_idempotent :
    (calls : List Call) (key token kind payload : String) (limit : ℕ) {id : String}
    {rows : List Job}
    → enqueue token kind payload key limit (run calls []) ≡ ok (id, rows)
    → (later : List Call) (token' kind' payload' : String) (limit' : ℕ)
    → enqueue token' kind' payload' key limit' (run later rows) ≡ ok (id, run later rows)
enqueue_idempotent calls key token kind payload limit {id} {rows} h later token' kind' payload'
      limit' =
    let before = run calls [] in
    let t =
      Effect-IsTable before rows (run-IsTable calls)
        (enqueue-Effect before (run-IsTable calls).unique_ids token kind payload key limit h) in
    found_again key (run later rows) token' kind' payload' limit' id
      (run-IsFound key later rows id t (enqueue-IsFound key before token kind payload limit h))
