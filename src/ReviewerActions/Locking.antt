-- ===== src/ReviewerActions/Locking.antt =====
-- Retries, replays and stale writes: what one applied action changes, and what it rules out after it.
use exposure_atlas.Base.{
  ℕ, ◌+◌, String, ◌^^◌, true, false, Option, none, some, List, [], ◌∷◌, not, elem, Result, ok, err,
  >>-eq-ok, >>=-eq-ok, ok_inj, raise_if, raise_if-eq-ok, ◌==◌, ==_iff, ==_refl, text_eq_instance,
  ◌≡◌, refl, arith, sym, ap, ◌∙◌, if◌then◌else◌, Bool-cases, inl, inr,
}
use exposure_atlas.Base.Dict.{get, get-put, get-put_self}
use exposure_atlas.Base.Text.{codes, codes-append, show_nat, read_nat, read_nat-show_nat}
use exposure_atlas.ReviewerActions.Types.{
  ActionError, Session, ActionRequest, Outcome, Processor, new_processor,
}
use exposure_atlas.ReviewerActions.Checks.{
  admit, current_version, edited_ok, cooling_ok, preconditions, next_version,
}
use exposure_atlas.ReviewerActions.Process.{Host, build_decision, fresh, commit, settle, process}

-- The versions that the processor writes: `v0`, `v1`, …
unfoldable pub version : ℕ → String
version n = "v" ^^ show_nat n

pub IsVersioned : Processor → Type 0
IsVersioned p = (t : String) → (n : ℕ) × (current_version p t ≡ version n)

codes-version : (n : ℕ) → codes (version n) ≡ b'v' ∷ codes (show_nat n)
unfolding version codes
codes-version n = codes-append "v" (show_nat n)

tail_number : List ℕ → Option ℕ
tail_number [] = none
tail_number (c ∷ cs) = read_nat cs

version_inj : (n m : ℕ) → version n ≡ version m → n ≡ m
version_inj n m h =
    unfold tail_number in
    cc (codes-version n, codes-version m, read_nat-show_nat n, read_nat-show_nat m)

same_version : (n : ℕ) → ¬ (version n ≡ version (n + 1))
same_version n h = let e = version_inj n (n + 1) h in omega arith

next_version-version :
    (d : String → String) (n : ℕ) → next_version d (version n) ≡ ok (version (n + 1))
unfolding next_version
next_version-version d n = rw (codes-version n, read_nat-show_nat n) (unfold version in refl)

-- Inversion of a first application.
pub fresh-ok :
    (host : Host) (p : Processor) (req : ActionRequest) (now : String) {o : Outcome}
    → fresh host p req now ≡ ok o
    → (preconditions p req now ≡ ok tt)
      × (next_version host.digest8 (current_version p req.target_ref) ≡ ok o.output_version)
      × (o.input_version ≡ current_version p req.target_ref)
      × (build_decision host req now ≡ ok o.decision)
      × (o.target_ref ≡ req.target_ref)
unfolding fresh
fresh-ok host p req now {o} h =
    let (a, h1) = >>-eq-ok (preconditions p req now) _ h in
    let (v, b, h2) =
      >>=-eq-ok (next_version host.digest8 (current_version p req.target_ref)) _ h1 in
    let (d, c, h3) = >>=-eq-ok (build_decision host req now) _ h2 in
    let e = ok_inj h3 in
    (
      a,
      b ∙ ap (λ x. ok (x.output_version)) e,
      ap (λ x. x.input_version) (sym e),
      c ∙ ap (λ x. ok (x.decision)) e,
      ap (λ x. x.target_ref) (sym e),
    )

pub preconditions-ok :
    (p : Processor) (req : ActionRequest) (now : String)
    → preconditions p req now ≡ ok tt
    → (elem req.nonce p.nonces ≡ false)
      × (req.expected_version ≡ current_version p req.target_ref)
      × (edited_ok req.edited_assertion ≡ ok tt)
      × (cooling_ok p req now ≡ ok tt)
unfolding preconditions
preconditions-ok p req now h =
    let (a, h1) = >>-eq-ok (raise_if (elem req.nonce p.nonces) ActionError.replay) _ h in
    let (b, h2) =
      >>-eq-ok
        (raise_if (not (req.expected_version == current_version p req.target_ref))
          ActionError.stale_write)
        _ h1 in
    let (c, d) = >>-eq-ok (edited_ok req.edited_assertion) _ h2 in
    (
      raise_if-eq-ok (elem req.nonce p.nonces) ActionError.replay a,
      (==_iff req.expected_version (current_version p req.target_ref)).0 (ground arith),
      c,
      d,
    )

pub settle-applied :
    (a : Result ActionError (Unit {0})) (next : Result ActionError Outcome) (req : ActionRequest)
    (p : Processor) {o : Outcome}
    → (settle a none next req p).0 ≡ ok o
    → (next ≡ ok o) × ((settle a none next req p).1 ≡ commit p req o)
unfolding settle
settle-applied (err e) next req p h = cc
settle-applied (ok _) (err e) req p h = cc
settle-applied (ok _) (ok x) req p h = (h, ap (λ y. commit p req y) (ok_inj h))

pub process-applied :
    (host : Host) (s : Session) (req : ActionRequest) (now : String) (p : Processor) {o : Outcome}
    → get p.idem req.idempotency_key ≡ none
    → (process host s req now p).0 ≡ ok o
    → (fresh host p req now ≡ ok o) × ((process host s req now p).1 ≡ commit p req o)
unfolding process
process-applied host s req now p e h =
    rw e (settle-applied (admit s req now) (fresh host p req now) req p (rw e at h))

current_version-commit :
    (p : Processor) (req : ActionRequest) (o : Outcome) (t : String)
    → current_version (commit p req o) t
      ≡ (if req.target_ref == t then o.output_version else current_version p t)
unfolding current_version commit
current_version-commit p req o t =
    rw (get-put p.versions req.target_ref t o.output_version) (ground arith)

settle-err :
    (a : Result ActionError (Unit {0})) (prior : Option Outcome) (next : Result ActionError Outcome)
    (req : ActionRequest) (p : Processor) {e : ActionError}
    → (settle a prior next req p).0 ≡ err e
    → (settle a prior next req p).1 ≡ p
unfolding settle
settle-err (err x) prior next req p h = refl
settle-err (ok _) (some o) next req p h = refl
settle-err (ok _) none (err x) req p h = refl
settle-err (ok _) none (ok o) req p h = cc

-- An action that raises changes nothing.
pub process-err_unchanged :
    (host : Host) (s : Session) (req : ActionRequest) (now : String) (p : Processor)
    {e : ActionError}
    → (process host s req now p).0 ≡ err e
    → (process host s req now p).1 ≡ p
unfolding process
process-err_unchanged host s req now p h =
    settle-err (admit s req now) (get p.idem req.idempotency_key) (fresh host p req now) req p h

fresh_version :
    (host : Host) (p : Processor) (req : ActionRequest) (now : String) {o : Outcome} (n : ℕ)
    → current_version p req.target_ref ≡ version n
    → fresh host p req now ≡ ok o
    → o.output_version ≡ version (n + 1)
fresh_version host p req now n e h =
    let f = fresh-ok host p req now h in
    ok_inj (sym (f.1) ∙ ap (next_version host.digest8) e ∙ next_version-version host.digest8 n)

-- A first application is made against the current version of its target and with an unused nonce;
-- it moves that target to the next version and leaves every other target where it is.
pub process_bumps_version :
    (host : Host) (s : Session) (req : ActionRequest) (now : String) (p : Processor) {o : Outcome}
    → IsVersioned p
    → get p.idem req.idempotency_key ≡ none
    → (process host s req now p).0 ≡ ok o
    → (n : ℕ) × (req.expected_version ≡ version n)
      × (current_version p req.target_ref ≡ version n)
      × (elem req.nonce p.nonces ≡ false)
      × ((t : String)
          → current_version (process host s req now p).1 t
            ≡ (if req.target_ref == t then version (n + 1) else current_version p t))
unfolding IsVersioned
process_bumps_version host s req now p v first h =
    let (n, e) = v req.target_ref in
    let (f, after) = process-applied host s req now p first h in
    let pre = preconditions-ok p req now (fresh-ok host p req now f).0 in
    (
      n,
      pre.1 ∙ e,
      e,
      pre.0,
      λ t. rw (after, current_version-commit p req _ t, fresh_version host p req now n e f),
    )

commit-IsVersioned :
    (host : Host) (p : Processor) (req : ActionRequest) (now : String) (o : Outcome)
    → IsVersioned p
    → fresh host p req now ≡ ok o
    → IsVersioned (commit p req o)
unfolding IsVersioned
commit-IsVersioned host p req now o v f t = elim (Bool-cases (req.target_ref == t)) [
  | inl same ↦
      let (n, e) = v req.target_ref in
      (n + 1, current_version-commit p req o t ∙ rw same (fresh_version host p req now n e f))
  | inr other ↦ let (n, e) = v t in (n, current_version-commit p req o t ∙ rw other e)
]

settle-IsVersioned :
    (host : Host) (p : Processor) (now : String) (a : Result ActionError (Unit {0}))
    (prior : Option Outcome) (next : Result ActionError Outcome) (req : ActionRequest)
    → IsVersioned p
    → fresh host p req now ≡ next
    → IsVersioned (settle a prior next req p).1
unfolding settle
settle-IsVersioned host p now (err x) prior next req v e = v
settle-IsVersioned host p now (ok _) (some o) next req v e = v
settle-IsVersioned host p now (ok _) none (err x) req v e = v
settle-IsVersioned host p now (ok _) none (ok o) req v e = commit-IsVersioned host p req now o v e

-- Every action, applied, retried or refused, keeps all versions of the form `v0`, `v1`, …
pub process-IsVersioned :
    (host : Host) (s : Session) (req : ActionRequest) (now : String) (p : Processor)
    → IsVersioned p
    → IsVersioned (process host s req now p).1
unfolding process
process-IsVersioned host s req now p v =
    settle-IsVersioned host p now (admit s req now) (get p.idem req.idempotency_key)
      (fresh host p req now) req v refl

pub new_processor-IsVersioned : IsVersioned new_processor
unfolding IsVersioned current_version get version show_nat
new_processor-IsVersioned t = (0, refl)

process-retry :
    (host : Host) (s : Session) (req : ActionRequest) (now : String) (q : Processor) (o : Outcome)
    → admit s req now ≡ ok tt
    → get q.idem req.idempotency_key ≡ some o
    → process host s req now q ≡ (ok o, q)
unfolding process
process-retry host s req now q o a e = rw (a, e)

process-refused :
    (host : Host) (s : Session) (req : ActionRequest) (now : String) (q : Processor)
    (e : ActionError)
    → admit s req now ≡ ok tt
    → get q.idem req.idempotency_key ≡ none
    → preconditions q req now ≡ err e
    → process host s req now q ≡ (err e, q)
unfolding process fresh
process-refused host s req now q e a k pre = rw (a, k, pre)

-- What a later admitted request meets, once `req` has been applied first.
module _ (host : Host) (s : Session) (req : ActionRequest) (now : String) (p : Processor)
    {o : Outcome} (first : get p.idem req.idempotency_key ≡ none)
    (applied : (process host s req now p).0 ≡ ok o) (s' : Session) (req' : ActionRequest)
    (now' : String) (admitted : admit s' req' now' ≡ ok tt) where
  abbrev after : Processor
  after = (process host s req now p).1

  -- A request with the key of the applied one gets its outcome again, and changes nothing.
  pub retry_returns_prior :
      req'.idempotency_key ≡ req.idempotency_key → process host s' req' now' after ≡ (ok o, after)
  retry_returns_prior key =
      let e = (process-applied host s req now p first applied).1 in
      process-retry host s' req' now' after o admitted
        (rw (e, key) (unfold commit in get-put_self p.idem req.idempotency_key o))

  -- Under another key, the nonce of the applied action is refused, and nothing changes.
  pub replayed_nonce_refused :
      get after.idem req'.idempotency_key ≡ none
      → req'.nonce ≡ req.nonce
      → process host s' req' now' after ≡ (err ActionError.replay, after)
  replayed_nonce_refused other nonce =
      process-refused host s' req' now' after ActionError.replay admitted other
        (unfold preconditions in rw used)
    where
      used : elem req'.nonce after.nonces ≡ true
      used =
          rw ((process-applied host s req now p first applied).1, nonce)
            (unfold commit in rw (==_refl req.nonce))

  -- Under another key and with an unused nonce, a write against the version that the applied
  -- action was made against is refused as stale, and nothing changes.
  pub stale_write_refused :
      IsVersioned p
      → get after.idem req'.idempotency_key ≡ none
      → elem req'.nonce after.nonces ≡ false
      → req'.target_ref ≡ req.target_ref
      → req'.expected_version ≡ req.expected_version
      → process host s' req' now' after ≡ (err ActionError.stale_write, after)
  stale_write_refused v other unused target expected =
      process-refused host s' req' now' after ActionError.stale_write admitted other
        (unfold preconditions in rw (unused, moved))
    where
      moved : (req'.expected_version == current_version after req'.target_ref) ≡ false
      moved =
          let (n, at, _, _, next) = process_bumps_version host s req now p v first applied in
          let bumped_to : current_version after req.target_ref ≡ version (n + 1) =
            next req.target_ref ∙ rw (==_refl req.target_ref) in
          elim (Bool-cases (req'.expected_version == current_version after req'.target_ref)) [
            | inr e ↦ e
            | inl e ↦ absurd (
                same_version n (
                  sym (expected ∙ at)
                  ∙ (==_iff req'.expected_version (current_version after req'.target_ref)).0 e
                  ∙ ap (current_version after) target
                  ∙ bumped_to))
          ]
