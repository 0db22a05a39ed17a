-- ===== src/Revisions.antt =====
-- Revision manifests and the lifecycle of a revision (packages/python/atlas/revisions.py). The
-- state of a revision is not stored: it is derived from the append-only list of events. A random
-- identifier is an argument (`_oid` calls `secrets`), and a JSON schema is a test of the document.
mod Tests
pub mod Log
pub mod Lifecycle
use exposure_atlas.Base.{
  String, Bool, Option, none, some, List, [], ◌∷◌, ◌++◌, not, ◌&&◌, Result, ok, err, Exec, ◌==◌,
  text_eq_instance, if◌then◌else◌,
}
use exposure_atlas.Base.Sort.{sorted, distinct}
use exposure_atlas.States.{TransitionError, transition}

pub record FactsRevision : Type 0 where
  pub facts_revision_id : String
  pub record_id : String
  pub assertion_ids : List String
  pub created_at : String

pub record RecordRevision : Type 0 where
  pub record_revision_id : String
  pub record_id : String
  pub facts_revision_id : String
  pub classification_revision_id : Option String
  pub boundary_version : String
  pub parent_revision_id : Option String
  pub created_at : String

pub record Event : Type 0 where
  pub event_id : String
  pub record_revision_id : String
  pub from_state : String
  pub to_state : String
  pub at : String
  pub actor : String
  pub release_id : Option String

pub data RevisionError : Type 0 where
  schema_error : RevisionError
  bad_transition : TransitionError → RevisionError
  release_id_required : RevisionError

checked : {A : Type 0} → (A → Bool) → A → Result RevisionError A
checked schema_ok a = if schema_ok a then ok a else err RevisionError.schema_error

pub make_facts_revision :
    (FactsRevision → Bool)
    → String
    → String
    → List String
    → String
    → Result RevisionError FactsRevision
unfolding checked sorted distinct
make_facts_revision schema_ok oid record_id assertion_ids created = checked schema_ok (record {
  facts_revision_id = oid;
  record_id = record_id;
  assertion_ids = sorted (distinct assertion_ids);
  created_at = created;
})

pub make_record_revision :
    (RecordRevision → Bool)
    → String
    → String
    → String
    → String
    → String
    → Option String
    → Option String
    → Result RevisionError RecordRevision
unfolding checked
make_record_revision schema_ok oid record_id facts boundary_version created classification parent =
    checked schema_ok (record {
      record_revision_id = oid;
      record_id = record_id;
      facts_revision_id = facts;
      classification_revision_id = classification;
      boundary_version = boundary_version;
      parent_revision_id = parent;
      created_at = created;
    })

-- The loop of `derive_state`, from the state so far.
derive_from : String → List Event → String → String
derive_from state [] revision_id = state
derive_from state (ev ∷ events) revision_id =
    derive_from (if ev.record_revision_id == revision_id then ev.to_state else state) events
      revision_id

unfoldable pub derive_state : List Event → String → String
unfolding derive_from
derive_state events revision_id = derive_from "draft" events revision_id

-- `to_state == "published" and release_id is None`
unreleased : String → Option String → Bool
unreleased to_state none = to_state == "published"
unreleased to_state (some _) = Bool.false

-- the event is appended once its schema has been checked
record_event :
    (Event → Bool) → Event → Result TransitionError String → Exec (List Event) RevisionError Event
record_event schema_ok ev (err e) events = (err (RevisionError.bad_transition e), events)
record_event schema_ok ev (ok _) events =
    if unreleased ev.to_state ev.release_id
    then (err RevisionError.release_id_required, events)
    else if schema_ok ev
    then (ok ev, events ++ ev ∷ [])
    else (err RevisionError.schema_error, events)

pub append_lifecycle_event :
    (Event → Bool)
    → String
    → String
    → String
    → String
    → String
    → Option String
    → Exec (List Event) RevisionError Event
unfolding record_event unreleased
append_lifecycle_event schema_ok oid revision_id to_state at actor release_id events =
    let current = derive_state events revision_id in
    record_event schema_ok
      (record {
        event_id = oid;
        record_revision_id = revision_id;
        from_state = current;
        to_state = to_state;
        at = at;
        actor = actor;
        release_id = release_id;
      })
      (transition "revision" current to_state) events
