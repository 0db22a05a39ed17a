-- ===== src/Audit.antt =====
-- The hash-chained audit log (packages/python/atlas/audit.py). A log is the list of its lines, as
-- the events that they hold; `event_hash` is `sha256_hex(canonical_json_bytes(event))`, and a
-- `detail` is kept as its text.
mod Tests
pub mod Chain
use exposure_atlas.Base.{
  ℕ, ◌+◌, String, Bool, Option, none, some, List, [], ◌∷◌, ◌++◌, not, Result, ok, err, Exec, ◌>>=◌,
  ◌>>◌, raise_if, ◌==◌, text_eq_instance, nat_eq, if◌then◌else◌,
}

pub record Event : Type 0 where
  pub seq : ℕ
  pub prev_hash : String
  pub actor : String
  pub action : String
  pub at : String
  pub detail : String

pub data AuditError : Type 0 where
  schema_error sequence_break hash_break : AuditError

-- `lines[-1]`
unfoldable pub last : List Event → Option Event
last [] = none
last (e ∷ []) = some e
last (e ∷ f ∷ events) = last (f ∷ events)

next_seq : Option Event → ℕ
next_seq none = 0
next_seq (some e) = e.seq + 1

next_prev : (Event → String) → Option Event → String
next_prev event_hash none = "genesis"
next_prev event_hash (some e) = event_hash e

next_event : (Event → String) → List Event → String → String → String → String → Event
next_event event_hash log actor action at detail = record {
  seq = next_seq (last log);
  prev_hash = next_prev event_hash (last log);
  actor = actor;
  action = action;
  at = at;
  detail = detail;
}

unfoldable pub append_event :
    (Event → String)
    → (Event → Bool)
    → String
    → String
    → String
    → String
    → Exec (List Event) AuditError Event
unfolding last next_seq next_prev next_event
append_event event_hash schema_ok actor action at detail log =
    let ev = next_event event_hash log actor action at detail in
    if schema_ok ev then (ok ev, log ++ ev ∷ []) else (err AuditError.schema_error, log)

-- The loop of `verify_chain`, from line `i` behind the hash `prev`.
verify_from :
    (Event → String) → (Event → Bool) → ℕ → String → List Event → Result AuditError (Unit {0})
verify_from event_hash schema_ok i prev [] = ok tt
verify_from event_hash schema_ok i prev (ev ∷ events) = do
  raise_if (not (schema_ok ev)) AuditError.schema_error
  raise_if (not (ev.seq == i)) AuditError.sequence_break
  raise_if (not (ev.prev_hash == prev)) AuditError.hash_break
  verify_from event_hash schema_ok (i + 1) (event_hash ev) events

unfoldable pub verify_chain :
    (Event → String) → (Event → Bool) → List Event → Result AuditError (Unit {0})
unfolding verify_from
verify_chain event_hash schema_ok events = verify_from event_hash schema_ok 0 "genesis" events
