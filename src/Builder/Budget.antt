-- ===== src/Builder/Budget.antt =====
-- The budget ledger over sequences of calls.
use exposure_atlas.Base.{
  ℕ, ◌+◌, ◌≤◌, String, Bool, true, Option, none, some, List, [], ◌∷◌, ◌++◌, not, ltb, leb, any,
  Result, ok, err, raise_if, if◌then◌else◌, text_eq_instance, ◌≡◌, inl, inr, refl, arith,
  Bool-cases, >>-eq-ok, ok_inj, raise_if-eq-ok, subst, ◌&&◌,
}
use exposure_atlas.Builder.{
  Entry, Ceilings, BudgetError, cost_of, committed, reserve, reserve_under, is_open, settle,
  reconcile,
}

pub data Call : Type 0 where
  reserve_call reconcile_call : String → ℕ → Call

abbrev pub rewritten : List Entry → Result BudgetError (List Entry) → List Entry
rewritten entries (ok new) = new
rewritten entries (err _) = entries

-- The ledger after a call; a refused call writes nothing.
unfoldable pub call : Ceilings → Call → List Entry → List Entry
call ceilings (Call.reserve_call run_id cost) entries =
    rewritten entries (reserve ceilings run_id cost entries)
call ceilings (Call.reconcile_call run_id cost) entries =
    rewritten entries (reconcile run_id cost entries)

unfoldable pub run : Ceilings → List Call → List Entry → List Entry
run ceilings [] entries = entries
run ceilings (c ∷ calls) entries = run ceilings calls (call ceilings c entries)

-- The cost that was observed is at most the worst case that the open reservation stated.
unfoldable pub within_reserved : String → ℕ → List Entry → Bool
within_reserved run_id cost [] = true
within_reserved run_id cost (e ∷ entries) =
    if is_open run_id e then leb cost e.reserved_cost else within_reserved run_id cost entries

abbrev pub honest : Call → List Entry → Bool
honest (Call.reserve_call run_id cost) entries = true
honest (Call.reconcile_call run_id cost) entries = within_reserved run_id cost entries

-- Each reconciliation of the run is within its reservation.
unfoldable pub all_honest : Ceilings → List Call → List Entry → Bool
all_honest ceilings [] entries = true
all_honest ceilings (c ∷ calls) entries =
    honest c entries && all_honest ceilings calls (call ceilings c entries)

committed-append :
    (entries : List Entry) (e : Entry)
    → committed (entries ++ e ∷ []) ≡ committed entries + cost_of e
unfolding committed
committed-append [] e = omega arith
committed-append (x ∷ entries) e = omega (arith, committed-append entries e)

open_cost : (run_id : String) (e : Entry) → is_open run_id e ≡ true → cost_of e ≡ e.reserved_cost
open_cost run_id e h = ground arith

settle-le :
    (run_id : String) (cost : ℕ) (entries : List Entry)
    → within_reserved run_id cost entries ≡ true
    → committed (settle run_id cost entries) ≤ committed entries
unfolding settle committed within_reserved
settle-le run_id cost [] h = omega arith
settle-le run_id cost (e ∷ entries) h = elim (Bool-cases (is_open run_id e)) [
  | inl o ↦
      let fits : cost ≤ e.reserved_cost = ground arith in
      let same = open_cost run_id e o in rw o (omega arith)
  | inr c ↦
      let ih = settle-le run_id cost entries (rw (c, within_reserved) at h) in rw c (omega arith)
]

-- A reservation that is accepted adds its worst case to what is committed, within the ceiling of the session.
pub reserve-le_ceiling :
    (ceilings : Ceilings) (run_id : String) (cost : ℕ) (entries : List Entry) {new : List Entry}
    → reserve ceilings run_id cost entries ≡ ok new
    → (ceiling : ℕ) × (ceilings.session_ceiling ≡ some ceiling)
      × (committed new ≡ committed entries + cost)
      × (committed new ≤ ceiling)
unfolding reserve
reserve-le_ceiling ceilings run_id cost entries h =
    under ceilings.session_ceiling ceilings.day_ceiling refl h
  where
    under :
        (session day : Option ℕ) {new : List Entry}
        → ceilings.session_ceiling ≡ session
        → reserve_under session day run_id cost entries ≡ ok new
        → (ceiling : ℕ) × (ceilings.session_ceiling ≡ some ceiling)
          × (committed new ≡ committed entries + cost)
          × (committed new ≤ ceiling)
    under none day e k = cc
    under (some session) none e k = cc
    under (some session) (some day) e k =
        let over = ltb session (committed entries + cost) in
        let (a, made) = >>-eq-ok (raise_if over BudgetError.over_ceiling) _ k in
        let fits : committed entries + cost ≤ session =
          ground (arith, raise_if-eq-ok over BudgetError.over_ceiling a) in
        let entry : Entry = record {
          run_id = run_id;
          reserved_cost = cost;
          reconciled_cost = none;
        } in
        let sum : committed (entries ++ entry ∷ []) ≡ committed entries + cost =
          committed-append entries entry in
        subst
          (λ x.
            (ceiling : ℕ) × (ceilings.session_ceiling ≡ some ceiling)
            × (committed x ≡ committed entries + cost)
            × (committed x ≤ ceiling))
          (ok_inj made) (session, e, sum, omega arith)

reconcile-le :
    (run_id : String) (cost : ℕ) (entries : List Entry) {new : List Entry}
    → reconcile run_id cost entries ≡ ok new
    → within_reserved run_id cost entries ≡ true
    → committed new ≤ committed entries
unfolding reconcile
reconcile-le run_id cost entries h k =
    let closed = not (any (is_open run_id) entries) in
    let (_, made) = >>-eq-ok (raise_if closed BudgetError.no_open_reservation) _ h in
    subst (λ x. committed x ≤ committed entries) (ok_inj made) (settle-le run_id cost entries k)

call-le :
    (ceilings : Ceilings) (ceiling : ℕ) (c : Call) (entries : List Entry)
    → ceilings.session_ceiling ≡ some ceiling
    → honest c entries ≡ true
    → committed entries ≤ ceiling
    → committed (call ceilings c entries) ≤ ceiling
unfolding call
call-le ceilings ceiling (Call.reserve_call run_id cost) entries e k h =
    settled (reserve ceilings run_id cost entries) refl
  where
    settled :
        (r : Result BudgetError (List Entry))
        → reserve ceilings run_id cost entries ≡ r
        → committed (rewritten entries r) ≤ ceiling
    settled (err x) m = h
    settled (ok new) m =
        let (top, f, _, fits) = reserve-le_ceiling ceilings run_id cost entries m in
        let same : top ≡ ceiling = cc in subst (λ n. committed new ≤ n) same fits
call-le ceilings ceiling (Call.reconcile_call run_id cost) entries e k h =
    settled (reconcile run_id cost entries) refl
  where
    settled :
        (r : Result BudgetError (List Entry))
        → reconcile run_id cost entries ≡ r
        → committed (rewritten entries r) ≤ ceiling
    settled (err x) m = h
    settled (ok new) m = omega (arith, reconcile-le run_id cost entries m k)

-- Whatever is reserved and reconciled, as long as no run costs more than the worst case that it
-- reserved, what is committed never passes the ceiling of the session.
pub run-le_ceiling :
    (ceilings : Ceilings) (ceiling : ℕ) (calls : List Call) (entries : List Entry)
    → ceilings.session_ceiling ≡ some ceiling
    → committed entries ≤ ceiling
    → all_honest ceilings calls entries ≡ true
    → committed (run ceilings calls entries) ≤ ceiling
unfolding run all_honest
run-le_ceiling ceilings ceiling [] entries e h k = h
run-le_ceiling ceilings ceiling (c ∷ calls) entries e h k =
    run-le_ceiling ceilings ceiling calls (call ceilings c entries) e
      (call-le ceilings ceiling c entries e (ground arith) h) (ground arith)
