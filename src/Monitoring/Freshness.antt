-- ===== src/Monitoring/Freshness.antt =====
-- What the targets ask of the freshness of their record (`aggregate_record_freshness`).
use exposure_atlas.Base.{
  true, false, ap, none, text_leb, text_ltb, leb, if◌then◌else◌, ℕ, ◌≤◌, String, Option, some, List,
  [], ◌∷◌, ltb, ◌==◌, ==_iff, text_eq_instance, ◌≡◌, refl, arith, ◌∙◌, subst, Bool-cases, inl, inr,
  All,
}
use exposure_atlas.Base.Dict.{Dict, get, put, values, get-put}
use exposure_atlas.Monitoring.{
  Target, State, severity, states_of, worst_from, summarized, aggregate_record_freshness,
  target_freshness, freshness_of, failures_allowed, grace_or,
}

worst_from-le :
    (w : State) (states : List State) (n : ℕ)
    → severity (worst_from w states) ≡ n
    → (severity w ≤ n) × All (λ s. severity s ≤ n) states
unfolding worst_from
worst_from-le w [] n e = (omega arith, tt)
worst_from-le w (s ∷ states) n e = elim (Bool-cases (ltb (severity w) (severity s))) [
  | inl more ↦
      let (a, b) = worst_from-le s states n (rw (more, worst_from) at e) in (ground arith, (a, b))
  | inr less ↦
      let (a, b) = worst_from-le w states n (rw (less, worst_from) at e) in (a, (ground arith, b))
]

get-All :
    (P : State → Type 0) (d : Dict String State) (id : String) (s : State)
    → All P (values d)
    → get d id ≡ some s
    → P s
unfolding get
get-All P [] id s h e = cc
get-All P ((j, t) ∷ d) id s h e = elim (Bool-cases (j == id)) [
  | inl same ↦ subst P (cc (rw same at e)) h.0
  | inr other ↦ get-All P d id s h.1 (rw other at e)
]

summarized-worst :
    (states : Dict String State) (id : String) (s : State)
    → get states id ≡ some s
    → severity s ≤ severity (summarized states).state
unfolding summarized get
summarized-worst [] id s e = cc
summarized-worst ((j, t) ∷ states) id s e =
    get-All (λ x. severity x ≤ severity (worst_from t (values states))) ((j, t) ∷ states) id s
      (worst_from-le t (values states) _ refl) e

-- The last target of an identifier: a later target of the same one takes its place.
abbrev pub last_of : String → List Target → Option Target → Option Target
last_of id [] found = found
last_of id (t ∷ targets) found = last_of id targets (if t.target_id == id then some t else found)

fresh_of : String → Dict String String → String → Option Target → Option State
fresh_of as_of graces id none = none
fresh_of as_of graces id (some t) = some (target_freshness t as_of (grace_or (get graces id) as_of))

fresh_of-put :
    (as_of : String) (graces : Dict String String) (id : String) (t : Target)
    (found : Option Target) (states : Dict String State)
    → get states id ≡ fresh_of as_of graces id found
    → get
        (put states t.target_id
          (target_freshness t as_of (grace_or (get graces t.target_id) as_of)))
        id
      ≡ fresh_of as_of graces id (if t.target_id == id then some t else found)
unfolding fresh_of
fresh_of-put as_of graces id t found states h =
    let v = target_freshness t as_of (grace_or (get graces t.target_id) as_of) in
    let at : get (put states t.target_id v) id
        ≡ (if t.target_id == id then some v else get states id) =
      get-put states t.target_id id v in
    elim (Bool-cases (t.target_id == id)) [
      | inl same ↦
          let known : t.target_id ≡ id = (==_iff t.target_id id).0 same in
          let first : get (put states t.target_id v) id ≡ some v = rw same at at in
          rw same (
            first ∙ ap (λ k. some (target_freshness t as_of (grace_or (get graces k) as_of))) known)
      | inr other ↦
          let second : get (put states t.target_id v) id ≡ get states id = rw other at at in
          rw other (second ∙ h)
    ]

get-states_of :
    (as_of : String) (graces : Dict String String) (id : String) (targets : List Target)
    (found : Option Target) (states : Dict String State)
    → get states id ≡ fresh_of as_of graces id found
    → get (states_of targets as_of graces states) id
      ≡ fresh_of as_of graces id (last_of id targets found)
unfolding states_of
get-states_of as_of graces id [] found states h = h
get-states_of as_of graces id (t ∷ targets) found states h =
    get-states_of as_of graces id targets _ _ (fresh_of-put as_of graces id t found states h)

-- At least overdue, and the two worst states.
abbrev pub IsLate : State → Type 0
IsLate State.current = ⊥
IsLate State.due = ⊥
IsLate _ = Unit

abbrev pub IsWorst : State → Type 0
IsWorst State.stale = Unit
IsWorst State.monitoring_degraded = Unit
IsWorst _ = ⊥

severity-IsLate : (s : State) → 2 ≤ severity s → IsLate s
unfolding severity
severity-IsLate State.current h = omega arith
severity-IsLate State.due h = omega arith
severity-IsLate State.overdue h = tt
severity-IsLate State.stale h = tt
severity-IsLate State.monitoring_degraded h = tt
severity-IsLate State.unmonitored h = tt

severity-IsWorst : (s : State) → 3 ≤ severity s → IsWorst s
unfolding severity
severity-IsWorst State.current h = omega arith
severity-IsWorst State.due h = omega arith
severity-IsWorst State.overdue h = omega arith
severity-IsWorst State.stale h = tt
severity-IsWorst State.monitoring_degraded h = tt
severity-IsWorst State.unmonitored h = omega arith

-- What a target asks of the state of its record: late where it was never checked with success or its
-- next check is past due; worst where it failed as often as it may, three times where it does not say,
-- or where the time of grace that it was given is past as well.
pub record IsShown (t : Target) (as_of : String) (grace : Option String) (s : State) : Type 0 where
  pub never_checked : t.last_successful_check_at ≡ none → IsLate s
  pub past_due : text_leb as_of t.next_check_due_at ≡ false → IsLate s
  pub failing :
      (last : String) (limit : ℕ)
      → t.last_successful_check_at ≡ some last
      → t.degraded_after_failures ≡ some limit
      → limit ≤ t.consecutive_failures
      → IsWorst s
  pub failing_by_default :
      (last : String)
      → t.last_successful_check_at ≡ some last
      → t.degraded_after_failures ≡ none
      → 3 ≤ t.consecutive_failures
      → IsWorst s
  pub past_grace :
      (last end : String)
      → t.last_successful_check_at ≡ some last
      → text_leb as_of t.next_check_due_at ≡ false
      → grace ≡ some end
      → text_ltb end as_of ≡ true
      → IsWorst s

late_severity :
    (o : Option String) (t : Target) (as_of grace : String)
    → text_leb as_of t.next_check_due_at ≡ false
    → 2 ≤ severity (freshness_of o t as_of grace)
unfolding freshness_of severity
late_severity none t as_of grace h = omega arith
late_severity (some last) t as_of grace h = ground arith

unchecked_severity :
    (o : Option String) (t : Target) (as_of grace : String)
    → o ≡ none
    → 2 ≤ severity (freshness_of o t as_of grace)
unfolding freshness_of severity
unchecked_severity none t as_of grace h = omega arith
unchecked_severity (some last) t as_of grace h = cc

failing_severity :
    (o : Option String) (t : Target) (as_of grace last : String)
    → o ≡ some last
    → leb (failures_allowed t.degraded_after_failures) t.consecutive_failures ≡ true
    → 3 ≤ severity (freshness_of o t as_of grace)
unfolding freshness_of severity
failing_severity none t as_of grace last e h = cc
failing_severity (some x) t as_of grace last e h = rw h (omega arith)

graced_severity :
    (o : Option String) (t : Target) (as_of grace last : String)
    → o ≡ some last
    → text_leb as_of t.next_check_due_at ≡ false
    → text_ltb grace as_of ≡ true
    → 3 ≤ severity (freshness_of o t as_of grace)
unfolding freshness_of severity
graced_severity none t as_of grace last e h k = cc
graced_severity (some x) t as_of grace last e h k = ground arith

allowed_some :
    (o : Option ℕ) (limit n : ℕ) → o ≡ some limit → limit ≤ n → leb (failures_allowed o) n ≡ true
unfolding failures_allowed
allowed_some none limit n e h = cc
allowed_some (some m) limit n e h = let same : m ≡ limit = cc e in ground (arith, same)

allowed_none : (o : Option ℕ) (n : ℕ) → o ≡ none → 3 ≤ n → leb (failures_allowed o) n ≡ true
unfolding failures_allowed
allowed_none none n e h = ground arith
allowed_none (some m) n e h = cc

-- A record is never shown fresher than one of its targets. Of every target that no later target of the
-- same identifier replaces: the record is at least overdue or unmonitored where the target was never
-- checked with success or is past due, and it is stale or degraded where the target's failures have
-- reached their limit or its time of grace is past.
pub aggregate-worst :
    (targets : List Target) (as_of : String) (graces : Dict String String) (id : String)
    (t : Target)
    → last_of id targets none ≡ some t
    → IsShown t as_of (get graces id) (aggregate_record_freshness targets as_of graces).state
unfolding aggregate_record_freshness target_freshness fresh_of get
aggregate-worst targets as_of graces id t e =
    let grace = grace_or (get graces id) as_of in
    let shown = (aggregate_record_freshness targets as_of graces).state in
    let bound : severity (freshness_of t.last_successful_check_at t as_of grace) ≤ severity shown =
      summarized-worst (states_of targets as_of graces []) id _
        (get-states_of as_of graces id targets none [] refl ∙ ap (fresh_of as_of graces id) e) in
    let o = t.last_successful_check_at in
    record {
      never_checked =
          λ n. severity-IsLate shown (omega (arith, bound, unchecked_severity o t as_of grace n));
      past_due = λ h. severity-IsLate shown (omega (arith, bound, late_severity o t as_of grace h));
      failing = λ last limit a b c.
          let worn = allowed_some t.degraded_after_failures limit _ b c in
          severity-IsWorst shown
            (omega (arith, bound, failing_severity o t as_of grace last a worn));
      failing_by_default = λ last a b c.
          let worn = allowed_none t.degraded_after_failures _ b c in
          severity-IsWorst shown
            (omega (arith, bound, failing_severity o t as_of grace last a worn));
      past_grace = λ last end a h g past.
          let ended : text_ltb grace as_of ≡ true =
            ap (λ x. text_ltb (grace_or x as_of) as_of) g ∙ past in
          severity-IsWorst shown
            (omega (arith, bound, graced_severity o t as_of grace last a h ended));
    }
