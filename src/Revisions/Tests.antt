-- ===== src/Revisions/Tests.antt =====
-- A revision that is approved, and published in a release.
use exposure_atlas.Base.{
  String, Bool, true, Option, none, some, List, [], ◌∷◌, ok, ◌≡◌, refl, any, ap, text_eq_instance,
}
use exposure_atlas.States.{transition}
use exposure_atlas.Revisions.{Event, append_lifecycle_event, derive_state}
use exposure_atlas.Revisions.Lifecycle.{
  Append, append_all, approves, publishes, is_released, released_was_approved,
}

abbrev valid : Event → Bool
valid ev = true

abbrev entry : String → String → String → Option String → Event
entry id from to release = record {
  event_id = id;
  record_revision_id = "rvn_1";
  from_state = from;
  to_state = to;
  at = "2026-07-11T12:00:00Z";
  actor = "Alexios";
  release_id = release;
}

-- One event after another, as the kernel appends them.
abbrev appended : String → Option String → List Event → List Event
appended to release events =
    (append_lifecycle_event valid "e" "rvn_1" to "2026-07-11T12:00:00Z" "Alexios" release events).1

abbrev approved_log : List Event
approved_log = appended "approved" none (appended "in_review" none [])

abbrev published_log : List Event
published_log = appended "published" (some "rel_1") approved_log

-- The calls of which the last one is refused: a published revision is not approved again.
abbrev one_append : String → Option String → Append
one_append to release = record {
  event_id = "e";
  record_revision_id = "rvn_1";
  to_state = to;
  at = "2026-07-11T12:00:00Z";
  actor = "Alexios";
  release_id = release;
}

abbrev appends : List Append
appends =
    one_append "in_review" none
    ∷ one_append "approved" none
    ∷ one_append "published" none
    ∷ one_append "published" (some "rel_1")
    ∷ one_append "approved" none
    ∷ []

all-published : derive_state (append_all valid appends []) "rvn_1" ≡ "published"
unfolding append_all append_lifecycle_event derive_state transition
all-published = refl

released_was_approved_example :
    (any (approves "rvn_1") (append_all valid appends []) ≡ true)
    × (any (publishes "rvn_1") (append_all valid appends []) ≡ true)
released_was_approved_example =
    released_was_approved valid appends "rvn_1" (ap is_released all-published)

published-ok :
    (append_lifecycle_event valid "e" "rvn_1" "published" "2026-07-11T12:00:00Z" "Alexios"
      (some "rel_1")
      approved_log).0
    ≡ ok (entry "e" "approved" "published" (some "rel_1"))
unfolding append_lifecycle_event derive_state transition
published-ok = refl

approval-allowed : transition "revision" "in_review" "approved" ≡ ok "approved"
unfolding transition
approval-allowed = refl
