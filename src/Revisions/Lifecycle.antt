-- ===== src/Revisions/Lifecycle.antt =====
-- A published revision has been approved and names its release, in the log that calls of
-- `append_lifecycle_event` leave.
use exposure_atlas.Base.{
  String, Bool, true, false, Option, none, some, List, [], ◌∷◌, ◌++◌, ◌&&◌, ◌||◌, Result, ok, err,
  ◌==◌, ==_iff, text_eq_instance, if◌then◌else◌, ◌≡◌, ◌≢◌, inl, inr, refl, arith, any, all,
  all-elem, not, Bool-cases,
}
use exposure_atlas.Base.Dict.{get, all-get}
use exposure_atlas.States.{TransitionError, revision, step, transition}
use exposure_atlas.Revisions.{
  Event, derive_from, derive_state, record_event, append_lifecycle_event,
}
use exposure_atlas.Revisions.Log.{IsLegal, IsPath, IsLog, append_lifecycle_event-IsLog}

-- The revision is before the public, or was.
abbrev pub is_released : String → Bool
is_released s = s == "published" || s == "superseded"

-- The log holds an approval of the revision; a publication of it in a named release.
abbrev pub approves : String → Event → Bool
approves r ev = ev.record_revision_id == r && ev.to_state == "approved"

abbrev pub has_release : Option String → Bool
has_release none = false
has_release (some _) = true

abbrev pub publishes : String → Event → Bool
publishes r ev =
    ev.record_revision_id == r && ev.to_state == "published" && has_release ev.release_id

guarded : String → String → Bool
guarded s t =
    not (is_released t) || (is_released s || s == "approved") && (is_released s || t == "published")

-- Only an approved or an already released revision steps into the public, by the whole table.
revision-guarded : all (λ e. all (guarded e.0) e.1) revision ≡ true
unfolding guarded
revision-guarded = refl

step_guarded :
    (s t : String) (o : Option (List String))
    → get revision s ≡ o
    → step o t ≡ ok t
    → is_released t ≡ true
    → ((is_released s || s == "approved") && (is_released s || t == "published")) ≡ true
unfolding step
step_guarded s t none e h k = cc
step_guarded s t (some ts) e h k =
    unfold guarded in
    ground (
      arith,
      all-get (λ e. all (guarded e.0) e.1) revision s ts revision-guarded e,
      all-elem (guarded s) t ts,
    )

into_released :
    (s t : String)
    → transition "revision" s t ≡ ok t
    → is_released t ≡ true
    → ((is_released s || s == "approved") && (is_released s || t == "published")) ≡ true
unfolding transition
into_released s t h k = step_guarded s t (get revision s) refl h k

has_release_lem : (o : Option String) → o ≢ none → has_release o ≡ true
has_release_lem none h = absurd (h refl)
has_release_lem (some x) h = refl

event_into_released :
    (state : String) (ev : Event)
    → IsLegal state ev
    → is_released ev.to_state ≡ true
    → ((is_released state || state == "approved") ≡ true)
      × ((is_released state || ev.to_state == "published" && has_release ev.release_id) ≡ true)
event_into_released state ev legal h = ground (
  arith,
  into_released state ev.to_state legal.allowed h,
  has_release_lem ev.release_id,
  legal.released,
  ==_iff ev.to_state "published",
)

-- The two traces that a released revision leaves, from its state before the events.
abbrev IsTraced : String → Bool → Bool → Type 0
IsTraced state approved published =
    ((is_released state || state == "approved" || approved) ≡ true)
    × ((is_released state || published) ≡ true)

IsTraced-before :
    (r state : String) (ev : Event) (a p : Bool)
    → IsLegal state ev
    → (ev.record_revision_id == r) ≡ true
    → IsTraced ev.to_state a p
    → IsTraced state (approves r ev || a) (publishes r ev || p)
IsTraced-before r state ev a p legal same h = elim (Bool-cases (is_released ev.to_state)) [
  | inl public ↦ ground (arith, event_into_released state ev legal public)
  | inr private ↦ ground arith
]

IsTraced-other :
    (r state : String) (ev : Event) (a p : Bool)
    → (ev.record_revision_id == r) ≡ false
    → IsTraced state a p
    → IsTraced state (approves r ev || a) (publishes r ev || p)
IsTraced-other r state ev a p other h = rw other h

release_trace :
    (r : String) (events : List Event) (state : String)
    → IsPath r state events
    → is_released (derive_from state events r) ≡ true
    → IsTraced state (any (approves r) events) (any (publishes r) events)
unfolding derive_from
release_trace r [] state h k = ground arith
release_trace r (ev ∷ events) state h k = elim (Bool-cases (ev.record_revision_id == r)) [
  | inr other ↦
      IsTraced-other r state ev _ _ other
        (release_trace r events state (rw other at (h.1)) (rw other at k))
  | inl same ↦
      IsTraced-before r state ev _ _ (h.0 ((==_iff ev.record_revision_id r).0 same)) same
        (release_trace r events ev.to_state (rw same at (h.1)) (rw same at k))
]

-- The arguments of one call of `append_lifecycle_event`.
pub record Append : Type 0 where
  pub event_id : String
  pub record_revision_id : String
  pub to_state : String
  pub at : String
  pub actor : String
  pub release_id : Option String

-- The log after a sequence of calls, the refused ones included.
unfoldable pub append_all : (Event → Bool) → List Append → List Event → List Event
append_all schema_ok [] events = events
append_all schema_ok (a ∷ appends) events =
    append_all schema_ok appends
      (append_lifecycle_event schema_ok a.event_id a.record_revision_id a.to_state a.at a.actor
        a.release_id events).1

append_all-IsLog :
    (schema_ok : Event → Bool) (appends : List Append) (events : List Event)
    → IsLog events
    → IsLog (append_all schema_ok appends events)
unfolding append_all
append_all-IsLog schema_ok [] events h = h
append_all-IsLog schema_ok (a ∷ appends) events h = append_all-IsLog schema_ok appends _ (
    append_lifecycle_event-IsLog schema_ok a.event_id a.record_revision_id a.to_state a.at a.actor
      a.release_id events h)

-- However often `append_lifecycle_event` is called on an empty log, and whichever calls it refuses: a
-- revision that the log then shows as published or superseded was approved by an event of the log, and
-- was published by one that names a release.
pub released_was_approved :
    (schema_ok : Event → Bool) (appends : List Append) (r : String)
    → is_released (derive_state (append_all schema_ok appends []) r) ≡ true
    → (any (approves r) (append_all schema_ok appends []) ≡ true)
      × (any (publishes r) (append_all schema_ok appends []) ≡ true)
unfolding derive_state
released_was_approved schema_ok appends r k =
    release_trace r (append_all schema_ok appends []) "draft"
      (append_all-IsLog schema_ok appends [] (λ _. tt) r) k

derive_from-append :
    (r : String) (events : List Event) (state : String) (ev : Event)
    → derive_from state (events ++ ev ∷ []) r
      ≡ (if ev.record_revision_id == r then ev.to_state else derive_from state events r)
unfolding derive_from
derive_from-append r [] state ev = refl
derive_from-append r (x ∷ events) state ev = derive_from-append r events _ ev

record_event-derive :
    (schema_ok : Event → Bool) (ev : Event) (next : Result TransitionError String)
    (events : List Event) (j : String) {written : Event}
    → (record_event schema_ok ev next events).0 ≡ ok written
    → derive_state (record_event schema_ok ev next events).1 j
      ≡ (if ev.record_revision_id == j then ev.to_state else derive_state events j)
unfolding record_event derive_state
record_event-derive schema_ok ev (err e) events j h = cc
record_event-derive schema_ok ev (ok s) events j h =
    ground (arith, derive_from-append j events "draft" ev)

-- An accepted event moves its revision to the state that was asked for, and no other revision.
pub derive_state-append :
    (schema_ok : Event → Bool) (oid r to_state at actor : String) (release : Option String)
    (events : List Event) (j : String) {written : Event}
    → (append_lifecycle_event schema_ok oid r to_state at actor release events).0 ≡ ok written
    → derive_state (append_lifecycle_event schema_ok oid r to_state at actor release events).1 j
      ≡ (if r == j then to_state else derive_state events j)
unfolding append_lifecycle_event
derive_state-append schema_ok oid r to_state at actor release events j h =
    record_event-derive schema_ok _ (transition "revision" (derive_state events r) to_state) events
      j h
