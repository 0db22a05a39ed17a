-- ===== src/Revisions/Log.antt =====
-- The log that `append_lifecycle_event` writes is a legal path of each revision.
use exposure_atlas.Base.{
  String, Bool, false, Option, none, some, List, [], ◌∷◌, ◌++◌, Result, ok, err, ◌==◌, ==_iff,
  text_eq_instance, if◌then◌else◌, ◌≡◌, ◌≢◌, inl, inr, refl, subst, arith, Bool-cases,
}
use exposure_atlas.States.Runs.{transition-closed}
use exposure_atlas.States.{TransitionError, transition}
use exposure_atlas.Revisions.{
  Event, derive_from, derive_state, unreleased, record_event, append_lifecycle_event,
}

-- What one event of the revision must be, when the revision stands in `state`.
pub record IsLegal (state : String) (ev : Event) : Type 0 where
  pub continues : ev.from_state ≡ state
  pub allowed : transition "revision" state ev.to_state ≡ ok ev.to_state
  pub released : ev.to_state ≡ "published" → ev.release_id ≢ none

-- The events of one revision form a path from `state`.
abbrev pub IsPath : String → String → List Event → Type 0
IsPath r state [] = Unit
IsPath r state (ev ∷ events) =
    (ev.record_revision_id ≡ r → IsLegal state ev)
    × IsPath r (if ev.record_revision_id == r then ev.to_state else state) events

abbrev pub IsLog : List Event → Type 0
IsLog events = (r : String) → IsPath r "draft" events

IsPath-append :
    (r : String) (events : List Event) (state : String) (ev : Event)
    → IsPath r state events
    → (ev.record_revision_id ≡ r → IsLegal (derive_from state events r) ev)
    → IsPath r state (events ++ ev ∷ [])
unfolding derive_from
IsPath-append r [] state ev h k = (k, tt)
IsPath-append r (x ∷ events) state ev h k =
    (h.0, IsPath-append r events (if x.record_revision_id == r then x.to_state else state) ev h.1 k)

named_release :
    (to_state : String) (release : Option String)
    → unreleased to_state release ≡ false
    → to_state ≡ "published"
    → release ≢ none
unfolding unreleased
named_release to_state none free e = ground (arith, ==_iff to_state "published")
named_release to_state (some x) free e = ground arith

IsLegal-event :
    (ev : Event) (s : String) (events : List Event)
    → ev.from_state ≡ derive_state events ev.record_revision_id
    → transition "revision" ev.from_state ev.to_state ≡ ok s
    → unreleased ev.to_state ev.release_id ≡ false
    → IsLegal (derive_state events ev.record_revision_id) ev
IsLegal-event ev s events from next free = record {
  continues = from;
  allowed = cc (from, next, (transition-closed "revision" ev.from_state ev.to_state s next).0);
  released = named_release ev.to_state ev.release_id free;
}

record_event-IsLog :
    (schema_ok : Event → Bool) (ev : Event) (next : Result TransitionError String)
    (events : List Event)
    → IsLog events
    → ev.from_state ≡ derive_state events ev.record_revision_id
    → transition "revision" ev.from_state ev.to_state ≡ next
    → IsLog (record_event schema_ok ev next events).1
unfolding record_event derive_state
record_event-IsLog schema_ok ev (err e) events h from next = h
record_event-IsLog schema_ok ev (ok s) events h from next =
    elim (Bool-cases (unreleased ev.to_state ev.release_id)) [
      | inl refused ↦ rw refused h
      | inr free ↦ rw free (elim (Bool-cases (schema_ok ev)) [
        | inr bad ↦ rw bad h
        | inl good ↦ rw good (λ r. IsPath-append r events "draft" ev (h r) (λ e.
            subst (λ x. IsLegal (derive_from "draft" events x) ev) e
              (IsLegal-event ev s events from next free)))
      ])
    ]

-- Whatever is appended, and whether it is accepted or refused, the log stays a path of every
-- revision: each event continues the state of its revision by a listed transition, and every
-- publication names its release.
pub append_lifecycle_event-IsLog :
    (schema_ok : Event → Bool) (oid r to_state at actor : String) (release : Option String)
    (events : List Event)
    → IsLog events
    → IsLog (append_lifecycle_event schema_ok oid r to_state at actor release events).1
unfolding append_lifecycle_event
append_lifecycle_event-IsLog schema_ok oid r to_state at actor release events h =
    record_event-IsLog schema_ok _ (transition "revision" (derive_state events r) to_state) events h
      refl refl
