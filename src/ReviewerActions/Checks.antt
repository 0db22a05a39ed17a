-- ===== src/ReviewerActions/Checks.antt =====
-- What must hold before an action is applied: the session, the role, the lock, the support of an
-- edited fact and the cooling period.
use exposure_atlas.Base.{
  ℕ, ◌+◌, String, ◌^^◌, Bool, Option, none, some, List, [], ◌∷◌, not, ◌&&◌, leb, eqb, elem, Result,
  ok, err, ◌>>=◌, ◌>>◌, raise_if, or_raise, ◌==◌, text_eq_instance, pair_eq, if◌then◌else◌,
}
use exposure_atlas.Base.Dict.{get}
use exposure_atlas.Base.Text.{codes, show_nat, read_nat}
use exposure_atlas.Timestamp.{Moment, parse}
use exposure_atlas.ReviewCard.{Assertion, CardError, assertion_ok}
use exposure_atlas.ReviewerActions.Types.{
  human_roles, operator, actions, class_required_role, cooling_period_classes, ActionError, Session,
  ActionRequest, Staged, Processor,
}

-- `_parse`
unfoldable pub parse_ts : String → Result ActionError Moment
parse_ts ts = or_raise (parse ts) ActionError.bad_timestamp

-- `Session.check`
unfoldable pub session_check : Session → String → String → Result ActionError (Unit {0})
unfolding parse_ts
session_check s now csrf = do
  raise_if (not s.authenticated) ActionError.not_authenticated
  raise_if (not (s.actor == operator)) ActionError.not_operator
  at ← parse_ts now
  expires ← parse_ts s.expires_at
  raise_if (leb expires.instant at.instant) ActionError.session_expired
  raise_if (not (csrf == s.csrf_token)) ActionError.bad_csrf

-- `_require_role`
unfoldable pub require_role : ActionRequest → Session → Result ActionError (Unit {0})
require_role req s = do
  raise_if (not (elem req.role human_roles)) ActionError.role_cannot_decide
  raise_if (not (elem req.role s.roles)) ActionError.session_lacks_role
  required ←
      or_raise (get class_required_role req.decision_class) ActionError.unknown_decision_class
  raise_if (not (req.role == required)) ActionError.wrong_role

-- The checks that stand before the idempotent retry.
unfoldable pub admit : Session → ActionRequest → String → Result ActionError (Unit {0})
unfolding session_check require_role
admit s req now = do
  session_check s now req.csrf
  raise_if (not (elem req.action actions)) ActionError.unknown_action
  require_role req s

unfoldable pub version_or : Option String → String
version_or none = "v0"
version_or (some v) = v

unfoldable pub current_version : Processor → String → String
unfolding version_or
current_version p target = version_or (get p.versions target)

unfoldable pub edited_result : Result CardError (Unit {0}) → Result ActionError (Unit {0})
edited_result (ok _) = ok tt
edited_result (err e) = err (ActionError.unsupported e)

-- `_assertion_ok(req.edited_assertion)`, with a `CardError` raised again as a `SupportError`
unfoldable pub edited_ok : Option Assertion → Result ActionError (Unit {0})
unfolding edited_result
edited_ok none = ok tt
edited_ok (some a) = edited_result (assertion_ok a)

unfoldable pub same_diff : Option String → String → Bool
same_diff none diff = Bool.false
same_diff (some h) diff = not (h == "") && h == diff

unfoldable pub confirmed : Option Staged → ActionRequest → String → Result ActionError (Unit {0})
unfolding parse_ts same_diff
confirmed none req now = err ActionError.not_staged
confirmed (some staged) req now = do
  at ← parse_ts now
  raise_if (leb at.day staged.date) ActionError.same_day
  raise_if (not (same_diff req.fresh_diff_hash staged.diff)) ActionError.different_diff

unfoldable pub cooling_ok : Processor → ActionRequest → String → Result ActionError (Unit {0})
unfolding confirmed
cooling_ok p req now =
    if elem req.decision_class cooling_period_classes
    then confirmed (get p.staged (req.target_ref, req.decision_class)) req now
    else ok tt

-- The checks that stand after it.
unfoldable pub preconditions : Processor → ActionRequest → String → Result ActionError (Unit {0})
unfolding current_version edited_ok cooling_ok
preconditions p req now = do
  raise_if (elem req.nonce p.nonces) ActionError.replay
  raise_if (not (req.expected_version == current_version p req.target_ref)) ActionError.stale_write
  edited_ok req.edited_assertion
  cooling_ok p req now

-- `"v" + str(int(version[1:]) + 1)` behind a `v`, else the first eight digits of the hash
unfoldable pub numbered : Option ℕ → Result ActionError String
numbered none = err ActionError.bad_version
numbered (some n) = ok ("v" ^^ show_nat (n + 1))

unfoldable pub bumped : (String → String) → String → List ℕ → Result ActionError String
bumped digest8 version [] = ok (digest8 version)
bumped digest8 version (c ∷ cs) =
    if eqb c b'v' then numbered (read_nat cs) else ok (digest8 version)

unfoldable pub next_version : (String → String) → String → Result ActionError String
unfolding numbered bumped
next_version digest8 version = bumped digest8 version (codes version)
