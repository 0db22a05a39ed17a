-- ===== src/ReviewerActions/Authority.antt =====
-- Who may act: an outcome is only ever returned to the authenticated operator, in the one role that
-- the decision class requires.
use exposure_atlas.Base.{
  ◌<◌, String, Bool, true, Option, none, some, not, leb, elem, Result, ok, err, >>-eq-ok, >>=-eq-ok,
  raise_if, raise_if-eq-ok, or_raise, ◌==◌, ==_iff, ==_refl, text_eq_instance, ◌≡◌, refl, arith,
}
use exposure_atlas.Base.Dict.{get}
use exposure_atlas.Timestamp.{Moment, parse}
use exposure_atlas.ReviewerActions.Types.{
  human_roles, operator, actions, class_required_role, ActionError, Session, ActionRequest, Outcome,
  Processor,
}
use exposure_atlas.ReviewerActions.Checks.{session_check, require_role, admit}
use exposure_atlas.ReviewerActions.Process.{Host, fresh, settle, process}

-- The session is the operator's and has not expired.
pub record IsOperatorSession (s : Session) (now csrf : String) : Type 0 where
  pub authenticated : s.authenticated ≡ true
  pub actor : s.actor ≡ operator
  pub token : csrf ≡ s.csrf_token
  pub live :
      (t : Moment) × (e : Moment) × (parse now ≡ some t)
      × (parse s.expires_at ≡ some e)
      × (t.instant < e.instant)

pub record IsAuthorized (s : Session) (req : ActionRequest) (now : String) : Type 0 where
  pub session : IsOperatorSession s now req.csrf
  pub known_action : elem req.action actions ≡ true
  pub human : elem req.role human_roles ≡ true
  pub held : elem req.role s.roles ≡ true
  pub required : get class_required_role req.decision_class ≡ some req.role

not_raised : {b : Bool} (e : ActionError) → raise_if (not b) e ≡ ok tt → b ≡ true
not_raised {b} e h = ground arith

or_raise-eq-ok :
    {A : Type 0} (o : Option A) (e : ActionError) {a : A} → or_raise o e ≡ ok a → o ≡ some a
or_raise-eq-ok none e h = cc
or_raise-eq-ok (some x) e h = cc

session_check_sound :
    (s : Session) (now csrf : String)
    → session_check s now csrf ≡ ok tt
    → IsOperatorSession s now csrf
unfolding session_check
session_check_sound s now csrf h =
    let (a, h1) = >>-eq-ok (raise_if (not s.authenticated) ActionError.not_authenticated) _ h in
    let (b, h2) = >>-eq-ok (raise_if (not (s.actor == operator)) ActionError.not_operator) _ h1 in
    let (t, c, h3) = >>=-eq-ok (or_raise (parse now) ActionError.bad_timestamp) _ h2 in
    let (e, d, h4) = >>=-eq-ok (or_raise (parse s.expires_at) ActionError.bad_timestamp) _ h3 in
    let (f, g) = >>-eq-ok (raise_if (leb e.instant t.instant) ActionError.session_expired) _ h4 in
    record {
      authenticated = not_raised ActionError.not_authenticated a;
      actor = (==_iff s.actor operator).0 (not_raised ActionError.not_operator b);
      token = (==_iff csrf s.csrf_token).0 (not_raised ActionError.bad_csrf g);
      live = (
        t,
        e,
        or_raise-eq-ok (parse now) ActionError.bad_timestamp c,
        or_raise-eq-ok (parse s.expires_at) ActionError.bad_timestamp d,
        ground (arith, raise_if-eq-ok (leb e.instant t.instant) ActionError.session_expired f),
      );
    }

require_role_sound :
    (req : ActionRequest) (s : Session)
    → require_role req s ≡ ok tt
    → (elem req.role human_roles ≡ true)
      × (elem req.role s.roles ≡ true)
      × (get class_required_role req.decision_class ≡ some req.role)
unfolding require_role
require_role_sound req s h =
    let (a, h1) =
      >>-eq-ok (raise_if (not (elem req.role human_roles)) ActionError.role_cannot_decide) _ h in
    let (b, h2) =
      >>-eq-ok (raise_if (not (elem req.role s.roles)) ActionError.session_lacks_role) _ h1 in
    let (r, c, h3) =
      >>=-eq-ok
        (or_raise (get class_required_role req.decision_class) ActionError.unknown_decision_class) _
        h2 in
    let same = (==_iff req.role r).0 (not_raised ActionError.wrong_role h3) in
    (
      not_raised ActionError.role_cannot_decide a,
      not_raised ActionError.session_lacks_role b,
      cc (
        or_raise-eq-ok (get class_required_role req.decision_class)
            ActionError.unknown_decision_class c,
        same,
      ),
    )

pub admit-IsAuthorized :
    (s : Session) (req : ActionRequest) (now : String)
    → admit s req now ≡ ok tt
    → IsAuthorized s req now
unfolding admit
admit-IsAuthorized s req now h =
    let (a, h1) = >>-eq-ok (session_check s now req.csrf) _ h in
    let (b, h2) =
      >>-eq-ok (raise_if (not (elem req.action actions)) ActionError.unknown_action) _ h1 in
    let (human, held, required) = require_role_sound req s h2 in
    record {
      session = session_check_sound s now req.csrf a;
      known_action = not_raised ActionError.unknown_action b;
      human = human;
      held = held;
      required = required;
    }

-- Whoever is authorized passes: the checks refuse nothing else.
session_check_complete :
    (s : Session) (now csrf : String)
    → IsOperatorSession s now csrf
    → session_check s now csrf ≡ ok tt
unfolding session_check
session_check_complete s now csrf h =
    let (t, e, pt, pe, lt) = h.live in
    ground (
      arith,
      h.authenticated,
      h.actor,
      h.token,
      pt,
      pe,
      lt,
      ==_iff s.actor operator,
      ==_iff csrf s.csrf_token,
    )

require_role_complete :
    (req : ActionRequest) (s : Session) (now : String)
    → IsAuthorized s req now
    → require_role req s ≡ ok tt
unfolding require_role
require_role_complete req s now h = rw (h.human, h.held, h.required, ==_refl req.role)

pub admit_complete :
    (s : Session) (req : ActionRequest) (now : String)
    → IsAuthorized s req now
    → admit s req now ≡ ok tt
unfolding admit
admit_complete s req now h = rw (
  session_check_complete s now req.csrf h.session,
  h.known_action,
  require_role_complete req s now h,
)

settle-admitted :
    (a : Result ActionError (Unit {0})) (prior : Option Outcome) (next : Result ActionError Outcome)
    (req : ActionRequest) (p : Processor) {o : Outcome}
    → (settle a prior next req p).0 ≡ ok o
    → a ≡ ok tt
unfolding settle
settle-admitted (err e) prior next req p h = cc
settle-admitted (ok tt) prior next req p h = refl

-- An outcome, new or retried, is only returned to the authenticated operator in a session that
-- has not expired, with its token, for a known action and in the role that the class requires.
pub process-IsAuthorized :
    (host : Host) (s : Session) (req : ActionRequest) (now : String) (p : Processor) {o : Outcome}
    → (process host s req now p).0 ≡ ok o
    → IsAuthorized s req now
unfolding process
process-IsAuthorized host s req now p h = admit-IsAuthorized s req now (
    settle-admitted (admit s req now) (get p.idem req.idempotency_key) (fresh host p req now) req p
      h)
