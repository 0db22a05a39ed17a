-- ===== src/Jobs/Effects.antt =====
-- What each call of the queue does to the rows.
use exposure_atlas.Base.{
  Result-cases, nat_eq, String, Bool, true, false, Option, none, some, List, [], ◌∷◌, ◌++◌, find,
  any, elem, ok, map, ok_inj, or_raise, ◌==◌, ==_iff, not, ◌&&◌, ◌||◌, ◌∙◌, text_eq_instance, ◌≡◌,
  inl, inr, refl, sym, ap, arith, subst, if◌then◌else◌,
}
use exposure_atlas.States.{transition}
use exposure_atlas.States.Runs.{transition-closed}
use exposure_atlas.Jobs.{Job, JobError, move, update, is_job}
use exposure_atlas.Jobs.Table.{IsMove, IsUnique, ids, Holds, Holds-unique}

abbrev pub is_some : Option String → Bool
is_some none = false
is_some (some _) = true

-- A row is leased exactly while it has an owner and an expiry, a scheduled retry has its time.
abbrev pub is_sound : Job → Bool
is_sound j =
    (if j.state == "leased"
      then is_some j.lease_owner && is_some j.lease_expires_at
      else not (is_some j.lease_owner) && not (is_some j.lease_expires_at))
    && (not (j.state == "retry_scheduled") || is_some j.retry_at)

-- What a call may do to the rows: nothing, a new row behind them, or a change of some rows.
pub data Effect (rows : List Job) : List Job → Type 0 where
  kept : Effect rows rows
  inserted :
      (j : Job)
      → elem j.job_id (map (λ (k : Job). k.job_id) rows) ≡ false
      → elem j.idempotency_key (map (λ (k : Job). k.idempotency_key) rows) ≡ false
      → is_sound j ≡ true
      → Effect rows (rows ++ j ∷ [])
  changed :
      (p : Job → Bool) (f : Job → Job)
      → ((j : Job) → Holds j rows → p j ≡ true → IsMove j (f j))
      → ((j : Job) → is_sound j ≡ true → p j ≡ true → is_sound (f j) ≡ true)
      → Effect rows (update p f rows)

pub move-ok : (s t : String) → move s t ≡ ok tt → transition "job" s t ≡ ok t
unfolding move
move-ok s t h = elim (Result-cases (transition "job" s t)) [
  | inl (v, e) ↦ e ∙ ap (λ x. ok x) (transition-closed "job" s t t e).0
  | inr (x, e) ↦ ground (arith, e)
]

-- The change of the one row of an id.
pub one-IsMove :
    (rows : List Job) (r : Job) (f : Job → Job)
    → IsUnique (ids rows)
    → Holds r rows
    → IsMove r (f r)
    → (j : Job) → Holds j rows
    → is_job r.job_id j ≡ true
    → IsMove j (f j)
one-IsMove rows r f u m h j n e =
    subst (λ x. IsMove x (f x)) (sym (Holds-unique rows j r u n m ((==_iff j.job_id r.job_id).0 e)))
      h

pub any-is_job : (rows : List Job) (id : String) → any (is_job id) rows ≡ elem id (ids rows)
any-is_job [] id = refl
any-is_job (j ∷ rows) id = ground (arith, any-is_job rows id)

pub find-none :
    (rows : List Job) (key : String)
    → find (λ (j : Job). j.idempotency_key == key) rows ≡ none
    → elem key (map (λ (j : Job). j.idempotency_key) rows) ≡ false
find-none [] key h = refl
find-none (j ∷ rows) key h = ground (arith, find-none rows key)

pub or_raise-eq-ok : (o : Option Job) {r : Job} → or_raise o JobError.no_row ≡ ok r → o ≡ some r
or_raise-eq-ok none h = cc
or_raise-eq-ok (some j) h = ap (λ x. some x) (ok_inj h)
