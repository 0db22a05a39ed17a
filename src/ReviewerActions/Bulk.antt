-- ===== src/ReviewerActions/Bulk.antt =====
-- Bulk approval: sensitive classes are refused, and the rest is one action after another.
use exposure_atlas.Base.{
  sym, ap, suc, ok_inj, ◌∙◌, some, String, true, false, List, [], ◌∷◌, ◌++◌, ◌||◌, elem, any, all,
  All, Result, ok, err, >>=-eq-ok, ◌==◌, ==_iff, text_eq_instance, ◌≡◌, refl, arith, Bool-cases,
  inl, inr, length,
}
use exposure_atlas.Base.Dict.{get, all-get}
use exposure_atlas.ReviewerActions.Types.{
  class_required_role, sensitive_no_bulk, ActionError, Session, ActionRequest, Outcome, Processor,
}
use exposure_atlas.ReviewerActions.Process.{
  Host, process, after_first, in_turn, process_all, process_bulk,
}
use exposure_atlas.ReviewerActions.Authority.{IsAuthorized, process-IsAuthorized}
use exposure_atlas.ReviewerActions.Locking.{process-err_unchanged}

-- Every class that has a required role is sensitive, but for ordinary reviews.
roles_cover :
    all (λ e. e.0 == "ordinary_review" || elem e.0 sensitive_no_bulk) class_required_role ≡ true
roles_cover = refl

ordinary :
    (c role : String)
    → get class_required_role c ≡ some role
    → elem c sensitive_no_bulk ≡ false
    → c ≡ "ordinary_review"
ordinary c role e h = ground (
  arith,
  all-get (λ e. e.0 == "ordinary_review" || elem e.0 sensitive_no_bulk) class_required_role c role
      roles_cover e,
  ==_iff c "ordinary_review",
)

-- What every request of a bulk that went through is.
abbrev pub IsOrdinary : Session → String → ActionRequest → Type 0
IsOrdinary s now r = IsAuthorized s r now × (r.decision_class ≡ "ordinary_review")

in_turn-ok :
    (r : Result ActionError Outcome) (p : Processor)
    (rest : Processor → Result ActionError (List Outcome) × Processor) {os : List Outcome}
    → (in_turn (r, p) rest).0 ≡ ok os
    → (o : Outcome) × (os' : List Outcome) × (r ≡ ok o) × ((rest p).0 ≡ ok os') × (os ≡ o ∷ os')
unfolding in_turn after_first
in_turn-ok (err e) p rest h = cc
in_turn-ok (ok o) p rest h = let (os', a, b) = >>=-eq-ok (rest p).0 _ h in (o, os', refl, a, cc b)

process_all-IsOrdinary :
    (host : Host) (s : Session) (reqs : List ActionRequest) (now : String) (p : Processor)
    {os : List Outcome}
    → any (λ r. elem r.decision_class sensitive_no_bulk) reqs ≡ false
    → (process_all host s reqs now p).0 ≡ ok os
    → All (IsOrdinary s now) reqs × (length os ≡ length reqs)
unfolding process_all
process_all-IsOrdinary host s [] now p plain h = (tt, ap length (ok_inj (sym h)))
process_all-IsOrdinary host s (r ∷ reqs) now p plain h =
    let (o, os', a, b, e) =
      in_turn-ok (process host s r now p).0 (process host s r now p).1 (process_all host s reqs now)
        h in
    let allowed = process-IsAuthorized host s r now p a in
    let (rest, len) =
      process_all-IsOrdinary host s reqs now (process host s r now p).1 (ground arith) b in
    (
      ((allowed, ordinary r.decision_class r.role allowed.required (ground arith)), rest),
      ap length e ∙ ap suc len,
    )

-- A bulk that goes through holds ordinary reviews only, each of them authorized on its own, and
-- returns one outcome for each; a bulk with a sensitive class in it raises and changes nothing.
pub process_bulk-IsOrdinary :
    (host : Host) (s : Session) (reqs : List ActionRequest) (now : String) (p : Processor)
    → ((os : List Outcome)
        → (process_bulk host s reqs now p).0 ≡ ok os
        → All (IsOrdinary s now) reqs × (length os ≡ length reqs))
      × (any (λ r. elem r.decision_class sensitive_no_bulk) reqs ≡ true
          → process_bulk host s reqs now p ≡ (err ActionError.bulk_forbidden, p))
unfolding process_bulk
process_bulk-IsOrdinary host s reqs now p = (
  λ os h. elim (Bool-cases (any (λ r. elem r.decision_class sensitive_no_bulk) reqs)) [
    | inl bad ↦ absurd (ground arith)
    | inr plain ↦ process_all-IsOrdinary host s reqs now p plain (rw plain at h)
  ],
  λ bad. rw bad,
)

in_turn-err :
    (x : Result ActionError Outcome × Processor)
    (rest : Processor → Result ActionError (List Outcome) × Processor) {e : ActionError}
    → x.0 ≡ err e
    → in_turn x rest ≡ (err e, x.1)
unfolding in_turn
in_turn-err (err e, p) rest h = cc
in_turn-err (ok o, p) rest h = cc

in_turn-first :
    (x : Result ActionError Outcome × Processor)
    (rest : Processor → Result ActionError (List Outcome) × Processor) {o : Outcome}
    → x.0 ≡ ok o
    → in_turn x rest ≡ after_first o rest x.1
unfolding in_turn
in_turn-first (err e, p) rest h = cc
in_turn-first (ok o, p) rest h = cc

-- When a request of a bulk raises, what stood before it stays applied: the bulk raises the same
-- error and leaves the processor as it was when that request came.
pub process_all_stops :
    (host : Host) (s : Session) (before rest : List ActionRequest) (r : ActionRequest)
    (now : String) (p : Processor) {os : List Outcome} {e : ActionError}
    → (process_all host s before now p).0 ≡ ok os
    → (process host s r now (process_all host s before now p).1).0 ≡ err e
    → process_all host s (before ++ r ∷ rest) now p ≡ (err e, (process_all host s before now p).1)
unfolding process_all after_first
process_all_stops host s [] rest r now p {e = e} h k =
    in_turn-err (process host s r now p) (process_all host s rest now) k
    ∙ ap (λ q. (err e, q)) (process-err_unchanged host s r now p k)
process_all_stops host s (b ∷ before) rest r now p {e = e} h k =
    let x = process host s b now p in
    let (o, os', a, c, _) = in_turn-ok x.0 x.1 (process_all host s before now) h in
    let same = in_turn-first x (process_all host s before now) a in
    let ih = process_all_stops host s before rest r now x.1 c (rw same at k) in
    in_turn-first x (process_all host s (before ++ r ∷ rest) now) a ∙ rw (ih, same)
