-- ===== src/ReviewerActions/Tests.antt =====
-- A request of the operator, run through the processor, at which the theorems apply.
use exposure_atlas.Base.{
  String, true, false, none, some, List, [], ◌∷◌, ok, err, ◌≡◌, ◌≢◌, refl, elem, text_eq_instance,
  pair_eq, any, All, length,
}
use exposure_atlas.Base.Dict.{get, put}
use exposure_atlas.Base.Text.{codes, read_nat, show_nat}
use exposure_atlas.Timestamp.{parse}
use exposure_atlas.ReviewerActions.Types.{
  cooling_period_classes, sensitive_no_bulk, ActionError, Session, ActionRequest, Outcome,
  Processor, new_processor,
}
use exposure_atlas.ReviewerActions.Checks.{admit, preconditions, next_version, parse_ts}
use exposure_atlas.ReviewerActions.Process.{
  Host, process, process_all, process_bulk, stage_cooling_period, fresh, commit,
}
use exposure_atlas.ReviewerActions.Locking.{
  replayed_nonce_refused, stale_write_refused, new_processor-IsVersioned,
}
use exposure_atlas.ReviewerActions.Authority.{IsAuthorized, process-IsAuthorized}
use exposure_atlas.ReviewerActions.Cooling.{
  IsConfirmed, cooling_period_kept, policy_changes_never_apply,
}
use exposure_atlas.ReviewerActions.Bulk.{IsOrdinary, process_bulk-IsOrdinary, process_all_stops}

abbrev host : Host
host = record { digest12 = λ s. s; digest8 = λ s. s; schema_ok = λ d. true }

abbrev session : Session
session = record {
  actor = "Alexios";
  roles = "operator_reviewer" ∷ [];
  authenticated = true;
  expires_at = "2026-07-12T00:00:00Z";
  csrf_token = "csrf";
}

abbrev request : String → String → String → ActionRequest
request key nonce decision_class = record {
  task_id = "rvt_1";
  action = "approve";
  role = "operator_reviewer";
  decision_class = decision_class;
  target_ref = "rec_1";
  expected_version = "v0";
  reason = "ok";
  nonce = nonce;
  idempotency_key = key;
  csrf = "csrf";
  input_hashes = [];
  edited_assertion = none;
  fresh_diff_hash = none;
}

abbrev now : String
now = "2026-07-11T12:00:00Z"

abbrev outcome : Outcome
outcome = record {
  decision = record {
    decision_id = "rvd_rvt_1\napprove\noperator_reviewer\n2026-07-11T12:00:00Z\nn1";
    task_id = "rvt_1";
    action = "approve";
    decided_by = "Alexios";
    role = "operator_reviewer";
    decided_at = now;
    reason = "ok";
    input_hashes = [];
  };
  input_version = "v0";
  output_version = "v1";
  target_ref = "rec_1";
}

abbrev first : ActionRequest
first = request "k1" "n1" "ordinary_review"

first-applied : (process host session first now new_processor).0 ≡ ok outcome
unfolding process admit parse codes get fresh preconditions next_version read_nat show_nat commit
    put parse_ts
first-applied = refl

abbrev after : Processor
after = (process host session first now new_processor).1

first-unknown : get new_processor.idem first.idempotency_key ≡ none
unfolding get
first-unknown = refl

-- the request again; the same nonce under another key; and another write against `v0`
abbrev again : ActionRequest
again = request "k1" "n2" "ordinary_review"

abbrev replayed : ActionRequest
replayed = request "k2" "n1" "ordinary_review"

abbrev stale : ActionRequest
stale = request "k2" "n2" "ordinary_review"

request-admitted :
    (key nonce : String) → admit session (request key nonce "ordinary_review") now ≡ ok tt
unfolding admit parse codes get
request-admitted key nonce = refl

other_key-unknown : get after.idem "k2" ≡ none
unfolding process admit parse codes get fresh preconditions next_version read_nat show_nat commit
    put parse_ts
other_key-unknown = refl

other_nonce-unused : elem "n2" after.nonces ≡ false
unfolding process admit parse codes get fresh preconditions next_version read_nat show_nat commit
    put parse_ts
other_nonce-unused = refl

replayed_nonce_refused_example :
    process host session replayed now after ≡ (err ActionError.replay, after)
replayed_nonce_refused_example =
    replayed_nonce_refused host session first now new_processor first-unknown first-applied session
      replayed now (request-admitted "k2" "n1") other_key-unknown refl

stale_write_refused_example :
    process host session stale now after ≡ (err ActionError.stale_write, after)
stale_write_refused_example =
    stale_write_refused host session first now new_processor first-unknown first-applied session
      stale now (request-admitted "k2" "n2") new_processor-IsVersioned other_key-unknown
      other_nonce-unused refl refl

stale-raises : (process host session stale now after).0 ≡ err ActionError.stale_write
unfolding process admit parse codes get fresh preconditions next_version read_nat show_nat commit
    put parse_ts
stale-raises = refl

process-IsAuthorized_example : IsAuthorized session first now
process-IsAuthorized_example =
    process-IsAuthorized host session first now new_processor first-applied

-- A material correction, staged one day before it is confirmed.
abbrev correction : ActionRequest
correction = record (request "k3" "n3" "material_correction") { fresh_diff_hash = some "diff" }

abbrev staged : Processor
staged =
    (stage_cooling_period "rec_1" "material_correction" "2026-07-10T23:59:00Z" "diff"
      new_processor).1

correction-unknown : get staged.idem "k3" ≡ none
unfolding stage_cooling_period parse codes get parse_ts put
correction-unknown = refl

abbrev correction_outcome : Outcome
correction_outcome = record outcome {
  decision = record outcome.decision {
    decision_id = "rvd_rvt_1\napprove\noperator_reviewer\n2026-07-11T12:00:00Z\nn3";
  };
}

correction-applied : (process host session correction now staged).0 ≡ ok correction_outcome
unfolding process admit parse codes get fresh preconditions next_version read_nat show_nat commit
    put parse_ts stage_cooling_period
correction-applied = refl

cooling_period_kept_example :
    IsConfirmed (get staged.staged ("rec_1", "material_correction")) correction now
    × (get (process host session correction now staged).1.staged ("rec_1", "material_correction")
        ≡ none)
cooling_period_kept_example =
    cooling_period_kept host session correction now staged refl correction-unknown
      correction-applied

abbrev policy_change : ActionRequest
policy_change = request "k4" "n4" "boundary_change"

policy_changes_never_apply_example :
    (elem policy_change.decision_class cooling_period_classes ≡ true)
    × ((process host session policy_change now new_processor).0 ≢ ok outcome)
policy_changes_never_apply_example =
    policy_changes_never_apply host session policy_change now new_processor outcome refl

process_bulk-IsOrdinary_example :
    ((os : List Outcome)
      → (process_bulk host session (first ∷ []) now new_processor).0 ≡ ok os
      → All (IsOrdinary session now) (first ∷ []) × (length os ≡ 1))
    × (any (λ r. elem r.decision_class sensitive_no_bulk) (first ∷ []) ≡ true
        → process_bulk host session (first ∷ []) now new_processor
          ≡ (err ActionError.bulk_forbidden, new_processor))
process_bulk-IsOrdinary_example =
    process_bulk-IsOrdinary host session (first ∷ []) now new_processor

-- A bulk whose second request replays the nonce of the first.
one-applied : (process_all host session (first ∷ []) now new_processor).0 ≡ ok (outcome ∷ [])
unfolding process admit parse codes get fresh preconditions next_version read_nat show_nat commit
    put parse_ts process_all
one-applied = refl

replay-raises :
    (process host session replayed now
      (process_all host session (first ∷ []) now new_processor).1).0
    ≡ err ActionError.replay
unfolding process admit parse codes get fresh preconditions next_version read_nat show_nat commit
    put parse_ts process_all
replay-raises = refl

process_all_stops_example :
    process_all host session (first ∷ replayed ∷ []) now new_processor
    ≡ (err ActionError.replay, (process_all host session (first ∷ []) now new_processor).1)
process_all_stops_example =
    process_all_stops host session (first ∷ []) [] replayed now new_processor one-applied
      replay-raises
