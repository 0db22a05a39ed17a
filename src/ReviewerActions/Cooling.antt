-- ===== src/ReviewerActions/Cooling.antt =====
-- The cooling period: a material change is confirmed on a later day than it was staged, against
-- the same diff, and once.
use exposure_atlas.Base.{
  ◌<◌, String, Bool, true, Option, none, some, List, [], ◌∷◌, not, elem, all-elem, leb, ok,
  >>-eq-ok, >>=-eq-ok, raise_if, raise_if-eq-ok, or_raise, ==_iff, ==_refl, text_eq_instance,
  pair_eq, ◌≡◌, ◌≢◌, refl, arith, ◌∙◌, ap,
}
use exposure_atlas.Base.Dict.{get, has, get-put_self, get-remove}
use exposure_atlas.Timestamp.{Moment, parse}
use exposure_atlas.ReviewerActions.Types.{
  class_required_role, cooling_period_classes, ActionError, Session, ActionRequest, Outcome, Staged,
  Processor,
}
use exposure_atlas.ReviewerActions.Checks.{parse_ts, same_diff, confirmed, cooling_ok}
use exposure_atlas.ReviewerActions.Process.{Host, commit, process, stage_at, stage_cooling_period}
use exposure_atlas.ReviewerActions.Authority.{process-IsAuthorized}
use exposure_atlas.ReviewerActions.Locking.{fresh-ok, preconditions-ok, process-applied}

-- What a confirmation must show of the staged intent.
abbrev pub IsConfirmed : Option Staged → ActionRequest → String → Type 0
IsConfirmed staged req now =
    (st : Staged) × (t : Moment) × (staged ≡ some st)
    × (parse now ≡ some t)
    × (st.date < t.day)
    × (req.fresh_diff_hash ≡ some st.diff)

same_diff-eq : (h : Option String) (d : String) → same_diff h d ≡ true → h ≡ some d
unfolding same_diff
same_diff-eq none d e = cc
same_diff-eq (some h) d e = ap some ((==_iff h d).0 (ground arith))

confirmed-IsConfirmed :
    (staged : Option Staged) (req : ActionRequest) (now : String)
    → confirmed staged req now ≡ ok tt
    → IsConfirmed staged req now
unfolding confirmed parse_ts
confirmed-IsConfirmed none req now h = cc
confirmed-IsConfirmed (some st) req now h =
    let (t, a, h1) = >>=-eq-ok (or_raise (parse now) ActionError.bad_timestamp) _ h in
    let (b, c) = >>-eq-ok (raise_if (leb t.day st.date) ActionError.same_day) _ h1 in
    (
      st,
      t,
      refl,
      parsed (parse now) a,
      ground (arith, raise_if-eq-ok (leb t.day st.date) ActionError.same_day b),
      same_diff-eq req.fresh_diff_hash st.diff (differs (same_diff req.fresh_diff_hash st.diff) c),
    )
  where
    parsed :
        (o : Option Moment) {t : Moment} → or_raise o ActionError.bad_timestamp ≡ ok t → o ≡ some t
    parsed none h = cc
    parsed (some x) h = cc

    differs : (b : Bool) → raise_if (not b) ActionError.different_diff ≡ ok tt → b ≡ true
    differs b h = ground arith

used_up :
    (p : Processor) (req : ActionRequest) (o : Outcome)
    → elem req.decision_class cooling_period_classes ≡ true
    → get (commit p req o).staged (req.target_ref, req.decision_class) ≡ none
unfolding commit
used_up p req o cooling =
    let key : String × String = (req.target_ref, req.decision_class) in
    rw cooling (get-remove p.staged key key ∙ rw (==_refl key))

-- A change of a cooling-period class is first applied only as the confirmation of an intent that
-- was staged for the same target and class, on a later calendar day and with the same diff, and
-- the intent is used up by it.
pub cooling_period_kept :
    (host : Host) (s : Session) (req : ActionRequest) (now : String) (p : Processor) {o : Outcome}
    → elem req.decision_class cooling_period_classes ≡ true
    → get p.idem req.idempotency_key ≡ none
    → (process host s req now p).0 ≡ ok o
    → IsConfirmed (get p.staged (req.target_ref, req.decision_class)) req now
      × (get (process host s req now p).1.staged (req.target_ref, req.decision_class) ≡ none)
cooling_period_kept host s req now p {o} cooling first h =
    let (f, after) = process-applied host s req now p first h in
    let checked = (preconditions-ok p req now (fresh-ok host p req now f).0).3 in
    (
      confirmed-IsConfirmed (get p.staged (req.target_ref, req.decision_class)) req now
          (unfold cooling_ok in rw cooling at checked),
      rw after (used_up p req o cooling),
    )

confirmed_complete :
    (st : Staged) (req : ActionRequest) (now : String) {t : Moment}
    → parse now ≡ some t
    → st.date < t.day
    → st.diff ≢ ""
    → req.fresh_diff_hash ≡ some st.diff
    → confirmed (some st) req now ≡ ok tt
unfolding confirmed same_diff parse_ts
confirmed_complete st req now {t} pt later full shown =
    rw (pt, shown) (ground (arith, ==_iff st.diff "", ==_refl st.diff))

-- Staging a change and confirming it on a later day with the same diff passes the check.
pub staged_then_confirmed :
    (req : ActionRequest) (staged_at now diff : String) (p : Processor) {d t : Moment}
    → parse staged_at ≡ some d
    → parse now ≡ some t
    → d.day < t.day
    → diff ≢ ""
    → req.fresh_diff_hash ≡ some diff
    → let (r, p') = stage_cooling_period req.target_ref req.decision_class staged_at diff p in
      (r ≡ ok tt) × (cooling_ok p' req now ≡ ok tt)
unfolding stage_cooling_period stage_at cooling_ok parse_ts
staged_then_confirmed req staged_at now diff p {d} pd pt later full shown = rw pd (
  refl,
  rw
      (get-put_self p.staged (req.target_ref, req.decision_class)
        (record { date = d.day; diff = diff }))
      (ground (
        arith,
        confirmed_complete (record { date = d.day; diff = diff }) req now pt later full shown,
      )),
)

-- The classes that the cooling period names and that have no required role.
abbrev pub unreachable_classes : List String
unreachable_classes =
    "boundary_change" ∷ "rubric_change" ∷ "source_policy_change" ∷ "rights_policy_change" ∷ []

-- No request for a boundary, rubric, source-policy or rights-policy change is ever answered with an
-- outcome, staged or not: these classes need a cooling period, and no role may decide them.
pub policy_changes_never_apply :
    (host : Host) (s : Session) (req : ActionRequest) (now : String) (p : Processor) (o : Outcome)
    → elem req.decision_class unreachable_classes ≡ true
    → (elem req.decision_class cooling_period_classes ≡ true)
      × ((process host s req now p).0 ≢ ok o)
policy_changes_never_apply host s req now p o h = (
  all-elem (λ c. elem c cooling_period_classes) req.decision_class unreachable_classes refl h,
  λ e.
      let known = (process-IsAuthorized host s req now p e).required in
      let unknown =
        all-elem (λ c. not (has class_required_role c)) req.decision_class unreachable_classes
          (unfold get in refl) h in
      cc (unknown, known),
)
