-- ===== src/Plan/Ready.antt =====
-- The next tasks (`plan_next`, tools/atlas_plan.py), and what a task that is ready has met.
use exposure_atlas.Base.{
  sym, ==_iff, false, true, ap, ◌∙◌, Bool-cases, inl, inr, ◌⊎◌, ◌≤◌, >>=-eq-ok, ok_inj, ◌≡◌, refl,
  arith, subst, All, ℕ, suc, String, Bool, true, false, Option, none, some, List, [], ◌∷◌, not,
  ◌&&◌, ◌||◌, ltb, any, all, elem, Result, ok, err, ◌>>=◌, if◌then◌else◌, ◌==◌, text_eq_instance,
  nat_eq,
}
use mathlib.Core.Bool.{false≢true}
use exposure_atlas.Plan.{Task}

abbrev pub auth_order : List String
auth_order = "A0" ∷ "A1" ∷ "A2" ∷ "A3" ∷ "A4" ∷ "A5" ∷ "A6" ∷ []

-- config/budgets.yaml and the level of config/authorization.yaml.
pub record Budgets : Type 0 where
  pub session_ceiling : Option ℕ
  pub day_ceiling : Option ℕ

-- `xs.index(x)` raises ValueError for a level that is not listed.
pub data PlanError : Type 0 where
  unknown_level : PlanError

abbrev pub index_from : ℕ → List String → String → Result PlanError ℕ
index_from i [] x = err PlanError.unknown_level
index_from i (y ∷ ys) x = if y == x then ok i else index_from (suc i) ys x

unfoldable pub level : String → Result PlanError ℕ
level x = index_from 0 auth_order x

abbrev pub status_of : List Task → String → Option String → Option String
status_of [] d found = found
status_of (t ∷ tasks) d found = status_of tasks d (if t.id == d then some t.status else found)

abbrev pub is_done : Option String → Bool
is_done none = false
is_done (some status) = status == "done"

-- `by_id.get(d, {}).get("status") == "done"`: the last task of an id counts.
abbrev pub done_in : List Task → String → Bool
done_in tasks d = is_done (status_of tasks d none)

abbrev pub decided : List String → Task → Bool
decided decisions t =
    not t.requires_operator_decision || all (λ d. elem d decisions) t.operator_decision_ids

-- What the loop does with one task that may start and whose dependencies are done.
unfoldable pub authorized : (current : String) → Task → Result PlanError Bool
authorized current t =
    level t.authorization_min >>= λ needed. level current >>= λ held. ok (not (ltb held needed))

abbrev pub can_start : Task → Bool
can_start t = elem t.status ("pending" ∷ "ready" ∷ [])

unfoldable pub ready_task :
    (tasks : List Task) (decisions : List String) (current : String) → Task → Result PlanError Bool
ready_task tasks decisions current t =
    if not (can_start t)
    then ok false
    else if any (λ d. not (done_in tasks d)) t.depends_on
    then ok false
    else authorized current t >>= λ allowed. ok (allowed && decided decisions t)

unfoldable pub ready_from :
    (tasks : List Task) (decisions : List String) (current : String)
    → List Task
    → Result PlanError (List String)
ready_from tasks decisions current [] = ok []
ready_from tasks decisions current (t ∷ rest) = ready_task tasks decisions current t >>= λ ready.
    ready_from tasks decisions current rest >>= λ ids. ok (if ready then t.id ∷ ids else ids)

abbrev pub is_null : Option ℕ → Bool
is_null none = true
is_null (some _) = false

-- `none` is the message that the ceilings are unset.
unfoldable pub plan_next :
    (tasks : List Task) (decisions : List String) (budgets : Budgets) (current : String)
    → Result PlanError (Option (List String))
plan_next tasks decisions budgets current =
    if is_null budgets.session_ceiling || is_null budgets.day_ceiling
    then ok none
    else ready_from tasks decisions current tasks >>= λ ids. ok (some ids)

-- The plan has a task of this id that is done, and no later task of the id.
abbrev pub HasLater : List Task → String → Type 0
HasLater [] d = ⊥
HasLater (t ∷ tasks) d = (t.id ≡ d) ⊎ HasLater tasks d

abbrev pub IsDone : List Task → String → Type 0
IsDone [] d = ⊥
IsDone (t ∷ tasks) d = ((t.id ≡ d) × (t.status ≡ "done") × (HasLater tasks d → ⊥)) ⊎ IsDone tasks d

-- What a task that is ready has met: it waits to be started, the tasks that it depends on are done,
-- the level of authorization in force reaches the one it asks for, and where it asks for decisions of
-- the operator they are recorded.
pub record IsReady (tasks : List Task) (decisions : List String) (current : String) (t : Task)
    : Type 0 where
  pub waits : elem t.status ("pending" ∷ "ready" ∷ []) ≡ true
  pub dependencies : All (IsDone tasks) t.depends_on
  pub reached :
      (needed : ℕ) × (held : ℕ) × (level t.authorization_min ≡ ok needed)
      × (level current ≡ ok held)
      × (needed ≤ held)
  pub approved :
      t.requires_operator_decision ≡ true
      → All (λ d. elem d decisions ≡ true) t.operator_decision_ids

-- An id that was listed belongs to a task of the plan that is ready.
abbrev pub HasReady : List Task → List String → String → List Task → String → Type 0
HasReady tasks decisions current [] id = ⊥
HasReady tasks decisions current (t ∷ rest) id =
    ((t.id ≡ id) × IsReady tasks decisions current t) ⊎ HasReady tasks decisions current rest id

authorized-true :
    (current : String) (t : Task)
    → authorized current t ≡ ok true
    → (needed : ℕ) × (held : ℕ) × (level t.authorization_min ≡ ok needed)
      × (level current ≡ ok held)
      × (needed ≤ held)
unfolding authorized
authorized-true current t h =
    let (needed, a, h1) = >>=-eq-ok (level t.authorization_min) _ h in
    let (held, b, h2) = >>=-eq-ok (level current) _ h1 in
    let fits : not (ltb held needed) ≡ true = ok_inj h2 in (needed, held, a, b, ground arith)

-- A status that was found is that of the last task of the id, or the one given where there is none.
status_of-cases :
    (tasks : List Task) (d : String) (found : Option String)
    → is_done (status_of tasks d found) ≡ true
    → IsDone tasks d ⊎ ((is_done found ≡ true) × (HasLater tasks d → ⊥))
status_of-cases [] d found h = inr (h, λ later. later)
status_of-cases (t ∷ tasks) d found h = elim (Bool-cases (t.id == d)) [
  | inl e ↦ elim (status_of-cases tasks d (some t.status) (rw e at h)) [
    | inl done ↦ inl (inr done)
    | inr (here, last) ↦ inl (inl ((==_iff t.id d).0 e, (==_iff t.status "done").0 here, last))
  ]
  | inr e ↦ elim (status_of-cases tasks d found (rw e at h)) [
    | inl done ↦ inl (inr done)
    | inr (before, last) ↦ inr (
      before,
      λ later. elim later [
        | inl same ↦ absurd (false≢true (sym e ∙ (==_iff t.id d).1 same))
        | inr more ↦ last more
      ],
    )
  ]
]

done_in-IsDone : (tasks : List Task) (d : String) → done_in tasks d ≡ true → IsDone tasks d
done_in-IsDone tasks d h = elim (status_of-cases tasks d none h) [
  | inl done ↦ done
  | inr (absent, _) ↦ absurd (false≢true absent)
]

none_missing :
    (tasks : List Task) (ds : List String)
    → any (λ d. not (done_in tasks d)) ds ≡ false
    → All (IsDone tasks) ds
none_missing tasks [] h = tt
none_missing tasks (d ∷ ds) h =
    (done_in-IsDone tasks d (ground arith), none_missing tasks ds (ground arith))

all_recorded :
    (decisions ds : List String)
    → all (λ d. elem d decisions) ds ≡ true
    → All (λ d. elem d decisions ≡ true) ds
all_recorded decisions [] h = tt
all_recorded decisions (d ∷ ds) h = (ground arith, all_recorded decisions ds (ground arith))

decided-All :
    (decisions : List String) (t : Task)
    → decided decisions t ≡ true
    → t.requires_operator_decision ≡ true
    → All (λ d. elem d decisions ≡ true) t.operator_decision_ids
decided-All decisions t h asked = all_recorded decisions t.operator_decision_ids (rw asked at h)

ready_task-IsReady :
    (tasks : List Task) (decisions : List String) (current : String) (t : Task)
    → ready_task tasks decisions current t ≡ ok true
    → IsReady tasks decisions current t
unfolding ready_task
ready_task-IsReady tasks decisions current t h = elim (Bool-cases (can_start t)) [
  | inr e ↦ absurd (false≢true (ok_inj (rw (e, ready_task) at h)))
  | inl e ↦ elim (Bool-cases (any (λ d. not (done_in tasks d)) t.depends_on)) [
    | inl f ↦ absurd (false≢true (ok_inj (rw (f, e, ready_task) at h)))
    | inr f ↦
        let (allowed, a, h1) =
          >>=-eq-ok (authorized current t) (λ b. ok (b && decided decisions t))
            (rw (f, e, ready_task) at h) in
        let both : (allowed && decided decisions t) ≡ true = ok_inj h1 in
        let is_allowed : allowed ≡ true = ground arith in
        record {
          waits = e;
          dependencies = none_missing tasks t.depends_on f;
          reached = authorized-true current t (a ∙ ap (λ b. ok b) is_allowed);
          approved = decided-All decisions t (ground arith);
        }
  ]
]

ready_from-All :
    (tasks : List Task) (decisions : List String) (current : String) (rest : List Task)
    {ids : List String}
    → ready_from tasks decisions current rest ≡ ok ids
    → All (HasReady tasks decisions current rest) ids
unfolding ready_from
ready_from-All tasks decisions current [] h = subst (All _) (ok_inj h) tt
ready_from-All tasks decisions current (t ∷ rest) h =
    let (ready, a, h1) = >>=-eq-ok (ready_task tasks decisions current t) _ h in
    let (ids, b, h2) =
      >>=-eq-ok (ready_from tasks decisions current rest)
        (λ ids. ok (if ready then t.id ∷ ids else ids)) h1 in
    let later = later_All ids (ready_from-All tasks decisions current rest b) in
    subst (All (HasReady tasks decisions current (t ∷ rest))) (ok_inj h2) (elim (Bool-cases ready) [
      | inl e ↦
          rw e
            (inl (refl, ready_task-IsReady tasks decisions current t (a ∙ ap (λ x. ok x) e)), later)
      | inr e ↦ rw e later
    ])
  where
    later_All :
        (ids : List String)
        → All (HasReady tasks decisions current rest) ids
        → All (HasReady tasks decisions current (t ∷ rest)) ids
    later_All [] h = tt
    later_All (id ∷ ids) h = (inr h.0, later_All ids h.1)

-- `plan_next` lists tasks only where both cost ceilings are set, and every task that it lists waits to
-- be started, depends on tasks of the plan that are done only, asks for a level of authorization that
-- the level in force reaches, and has every decision of the operator recorded that it asks for.
pub plan_next-IsReady :
    (tasks : List Task) (decisions : List String) (budgets : Budgets) (current : String)
    {ids : List String}
    → plan_next tasks decisions budgets current ≡ ok (some ids)
    → (is_null budgets.session_ceiling ≡ false)
      × (is_null budgets.day_ceiling ≡ false)
      × All (HasReady tasks decisions current tasks) ids
unfolding plan_next
plan_next-IsReady tasks decisions budgets current {ids} h =
    elim (Bool-cases (is_null budgets.session_ceiling || is_null budgets.day_ceiling)) [
      | inl e ↦ absurd (none≢some (ok_inj (rw (e, plan_next) at h)))
      | inr e ↦
          let (listed, a, h1) =
            >>=-eq-ok (ready_from tasks decisions current tasks) (λ x. ok (some x))
              (rw (e, plan_next) at h) in
          let same : listed ≡ ids = cc (ok_inj h1) in
          (
            ground arith,
            ground arith,
            subst (All _) same (ready_from-All tasks decisions current tasks a),
          )
    ]
  where
    none≢some : {xs : List String} → ◌≡◌ {A = Option (List String)} none (some xs) → ⊥
    none≢some e = cc
