-- ===== src/ReviewerActions/Process.antt =====
-- `ActionProcessor`: staging, one action, and a bulk of actions. SHA-256 is an argument: `digest12`
-- and `digest8` are the first digits of the hash of a text.
use exposure_atlas.Base.{
  String, ◌^^◌, Bool, Option, none, some, List, [], ◌∷◌, any, not, elem, Result, ok, err, Exec,
  ◌>>=◌, ◌>>◌, raise_if, text_eq_instance, pair_eq, if◌then◌else◌,
}
use exposure_atlas.Base.Dict.{get, put, remove}
use exposure_atlas.Timestamp.{Moment}
use exposure_atlas.ReviewerActions.Types.{
  operator, sensitive_no_bulk, cooling_period_classes, ActionError, Session, ActionRequest,
  Decision, Outcome, Processor,
}
use exposure_atlas.ReviewerActions.Checks.{
  parse_ts, admit, preconditions, current_version, next_version,
}

-- What the processor takes from outside: SHA-256 and the schema of a decision.
pub record Host : Type 0 where
  pub digest12 : String → String
  pub digest8 : String → String
  pub schema_ok : Decision → Bool

unfoldable pub build_decision : Host → ActionRequest → String → Result ActionError Decision
build_decision host req decided_at = do
  let dec : Decision = record {
    decision_id =
        "rvd_"
        ^^ host.digest12 (
            req.task_id ^^ "\n" ^^ req.action ^^ "\n" ^^ req.role ^^ "\n" ^^ decided_at ^^ "\n"
            ^^ req.nonce);
    task_id = req.task_id;
    action = req.action;
    decided_by = operator;
    role = req.role;
    decided_at = decided_at;
    reason = req.reason;
    input_hashes = req.input_hashes;
  }
  raise_if (not (host.schema_ok dec)) ActionError.schema_error
  ok dec

unfoldable pub stage_at :
    Result ActionError Moment → String → String → String → Exec Processor ActionError (Unit {0})
stage_at (err e) target decision_class diff p = (err e, p)
stage_at (ok at) target decision_class diff p = (
  ok tt,
  record p {
    staged = put p.staged (target, decision_class) (record { date = at.day; diff = diff });
  },
)

unfoldable pub stage_cooling_period :
    String → String → String → String → Exec Processor ActionError (Unit {0})
unfolding stage_at
stage_cooling_period target decision_class staged_at diff p =
    stage_at (parse_ts staged_at) target decision_class diff p

-- The result of an action that is applied for the first time; nothing is written yet.
unfoldable pub fresh : Host → Processor → ActionRequest → String → Result ActionError Outcome
unfolding build_decision
fresh host p req now = do
  preconditions p req now
  output ← next_version host.digest8 (current_version p req.target_ref)
  decision ← build_decision host req now
  ok (record {
    decision = decision;
    input_version = current_version p req.target_ref;
    output_version = output;
    target_ref = req.target_ref;
  })

unfoldable pub commit : Processor → ActionRequest → Outcome → Processor
commit p req outcome = record {
  versions = put p.versions req.target_ref outcome.output_version;
  nonces = req.nonce ∷ p.nonces;
  idem = put p.idem req.idempotency_key outcome;
  staged =
      if elem req.decision_class cooling_period_classes
      then remove p.staged (req.target_ref, req.decision_class)
      else p.staged;
}

-- An idempotent retry returns the prior result; otherwise the action is applied or raises.
unfoldable pub settle :
    Result ActionError (Unit {0})
    → Option Outcome
    → Result ActionError Outcome
    → ActionRequest
    → Exec Processor ActionError Outcome
settle (err e) prior next req p = (err e, p)
settle (ok _) (some prior) next req p = (ok prior, p)
settle (ok _) none (err e) req p = (err e, p)
settle (ok _) none (ok outcome) req p = (ok outcome, commit p req outcome)

unfoldable pub process :
    Host → Session → ActionRequest → String → Exec Processor ActionError Outcome
unfolding settle
process host s req now p =
    settle (admit s req now) (get p.idem req.idempotency_key) (fresh host p req now) req p

-- `[self.process(session, r, now) for r in reqs]`: the first that raises ends the loop, and what
-- was applied before it stays applied.
unfoldable pub after_first :
    Outcome → Exec Processor ActionError (List Outcome) → Exec Processor ActionError (List Outcome)
after_first o rest p = let (r, p') = rest p in (r >>= (λ os. ok (o ∷ os)), p')

unfoldable pub in_turn :
    Result ActionError Outcome × Processor
    → Exec Processor ActionError (List Outcome)
    → Result ActionError (List Outcome) × Processor
in_turn (err e, p) rest = (err e, p)
in_turn (ok o, p) rest = after_first o rest p

unfoldable pub process_all :
    Host → Session → List ActionRequest → String → Exec Processor ActionError (List Outcome)
unfolding after_first in_turn
process_all host s [] now p = (ok [], p)
process_all host s (req ∷ reqs) now p =
    in_turn (process host s req now p) (process_all host s reqs now)

unfoldable pub process_bulk :
    Host → Session → List ActionRequest → String → Exec Processor ActionError (List Outcome)
process_bulk host s reqs now p =
    if any (λ r. elem r.decision_class sensitive_no_bulk) reqs
    then (err ActionError.bulk_forbidden, p)
    else process_all host s reqs now p
