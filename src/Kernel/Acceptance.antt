-- ===== src/Kernel/Acceptance.antt =====
-- What `approve` demands before a proposal is accepted, and what an accepted assertion rests on.
use exposure_atlas.Base.{
  String, Bool, true, false, Option, none, some, List, [], ◌∷◌, any, Result, ok, err, ◌==◌, ==_iff,
  text_eq_instance, ◌≡◌, refl, arith, sym, ap, ◌∙◌, Bool-cases, inl, inr, ok_inj,
}
use exposure_atlas.Base.Dict.{Dict, get, put, values, get-put_self}
use exposure_atlas.Verify.{Report, Proposal}
use exposure_atlas.Audit
use exposure_atlas.Kernel.{
  Kernel, Host, KernelError, Approval, AcceptanceDecision, AcceptedAssertion, is_accepted,
  accepted_assertion, audited, audit, decision_of, logged, decide, accept, guarded, guards,
  after_decision, approve_with, approve,
}

guarded-ok :
    (o : Option Report) (taken : Bool) (decision : String) {report : Report}
    → guarded o taken decision ≡ ok report
    → (o ≡ some report) × (taken ≡ false) × (decision ≡ "accept" → report.overall ≡ "pass")
unfolding guarded
guarded-ok none taken decision h = cc
guarded-ok (some r) taken decision {report} h = (
  ground arith,
  ground arith,
  λ e. (==_iff report.overall "pass").0 (ground (arith, ==_iff decision "accept")),
)

-- What a written decision leaves in the kernel.
abbrev pub IsDecided : AcceptanceDecision → Kernel → Kernel → Type 0
IsDecided dec k k' =
    (get k'.decisions dec.decision_id ≡ some dec)
    × (k'.proposals ≡ k.proposals)
    × (k'.reports ≡ k.reports)
    × (k'.assertions ≡ k.assertions)

abbrev SameBut : Kernel → Kernel → Type 0
SameBut k k' =
    (k'.decisions ≡ k.decisions)
    × (k'.proposals ≡ k.proposals)
    × (k'.reports ≡ k.reports)
    × (k'.assertions ≡ k.assertions)

err_ok : {A : Type 0} {e : KernelError} {a : A} → ◌≡◌ {A = Result KernelError A} (err e) (ok a) → ⊥
err_ok h = cc

logged-audited :
    (dec dec' : AcceptanceDecision) (x : Result Audit.AuditError Audit.Event × List Audit.Event)
    (k : Kernel)
    → (logged dec (audited x k)).0 ≡ ok dec'
    → (dec' ≡ dec) × SameBut k (logged dec (audited x k)).1
unfolding logged audited
logged-audited dec dec' (ok ev, log) k h = (sym (ok_inj h), (refl, refl, refl, refl))
logged-audited dec dec' (err e, log) k h = cc

decide-IsDecided :
    (host : Host) (dec : AcceptanceDecision) (k : Kernel) {dec' : AcceptanceDecision}
    → (decide host dec k).0 ≡ ok dec'
    → (dec' ≡ dec) × IsDecided dec k (decide host dec k).1
unfolding decide audit
decide-IsDecided host dec k {dec'} h = elim (Bool-cases (host.decision_ok dec)) [
  | inr bad ↦ absurd (err_ok (rw bad at h))
  | inl good ↦ rw good (
      let (e, (d, p, r, a)) = logged-audited dec dec' _ _ (rw good at h) in
      (
        e,
        (
          ap (λ ds. get ds dec.decision_id) d ∙ get-put_self k.decisions dec.decision_id dec,
          p,
          r,
          a,
        ),
      ))
]

-- What an accepted assertion rests on, between the kernel before and after.
pub record IsBacked (host : Host) (dec_id ast_id proposal_id decision : String)
    (a : AcceptedAssertion) (k k' : Kernel) : Type 0 where
  pub report : Report
  pub dec : AcceptanceDecision
  pub asked : decision ≡ "accept"
  pub verified : get k.reports proposal_id ≡ some report
  pub passed : report.overall ≡ "pass"
  pub fresh : is_accepted k proposal_id ≡ false
  pub decided : get k'.decisions dec_id ≡ some dec
  pub accepting : (dec.decision ≡ "accept") × (dec.proposal_id ≡ proposal_id)
  pub same_report : dec.validation_report_sha256 ≡ host.report_sha256 report
  pub stored : k'.assertions ≡ put k.assertions ast_id a
  pub about : (a.proposal_id ≡ proposal_id) × (a.acceptance_decision_id ≡ dec_id)
  pub approved : a.semantic_review_state ≡ "human_approved"
  pub reports : k'.reports ≡ k.reports

made-fields :
    (ast_id proposal_id : String) (prop : Proposal) (dec : AcceptanceDecision) (k : Kernel)
    {a : AcceptedAssertion}
    → let b = accepted_assertion ast_id prop proposal_id dec.decision_id in
      ◌≡◌ {A = Result KernelError Approval} (ok (Approval.accepted b)) (ok (Approval.accepted a))
      → (record k { assertions = put k.assertions ast_id b }
          ≡ record k { assertions = put k.assertions ast_id a })
        × (a.proposal_id ≡ proposal_id)
        × (a.acceptance_decision_id ≡ dec.decision_id)
        × (a.semantic_review_state ≡ "human_approved")
unfolding accepted_assertion
made-fields ast_id proposal_id prop dec k {a} h =
    let same : accepted_assertion ast_id prop proposal_id dec.decision_id ≡ a = cc h in
    (
      ap (λ x. record k { assertions = put k.assertions ast_id x }) same,
      ap (λ x. x.proposal_id) (sym same),
      ap (λ x. x.acceptance_decision_id) (sym same),
      ap (λ x. x.semantic_review_state) (sym same),
    )

accept-ok :
    (host : Host) (ast_id proposal_id : String) (dec : AcceptanceDecision) (o : Option Proposal)
    (k : Kernel) {a : AcceptedAssertion}
    → (accept host ast_id proposal_id dec o k).0 ≡ ok (Approval.accepted a)
    → ((accept host ast_id proposal_id dec o k).1
        ≡ record k { assertions = put k.assertions ast_id a })
      × (a.proposal_id ≡ proposal_id)
      × (a.acceptance_decision_id ≡ dec.decision_id)
      × (a.semantic_review_state ≡ "human_approved")
unfolding accept
accept-ok host ast_id proposal_id dec none k h = cc
accept-ok host ast_id proposal_id dec (some prop) k {a} h =
    elim (Bool-cases
      (host.assertion_ok (accepted_assertion ast_id prop proposal_id dec.decision_id))) [
        | inr bad ↦ absurd (err_ok (rw bad at h))
        | inl good ↦ rw good (made-fields ast_id proposal_id prop dec k (rw good at h))
      ]

after_decision-ok :
    (host : Host) (ast_id proposal_id : String) (r : Result KernelError AcceptanceDecision)
    (k : Kernel) {a : AcceptedAssertion}
    → (after_decision host ast_id proposal_id (r, k)).0 ≡ ok (Approval.accepted a)
    → (dec : AcceptanceDecision) × (r ≡ ok dec)
      × (dec.decision ≡ "accept")
      × ((after_decision host ast_id proposal_id (r, k))
          ≡ accept host ast_id proposal_id dec (get k.proposals proposal_id) k)
unfolding after_decision
after_decision-ok host ast_id proposal_id (err e) k h = cc
after_decision-ok host ast_id proposal_id (ok dec) k h =
    elim (Bool-cases (dec.decision == "accept")) [
      | inr other ↦ absurd (recorded_accepted (rw other at h))
      | inl same ↦ (dec, refl, (==_iff dec.decision "accept").0 same, rw same refl)
    ]
  where
    recorded_accepted :
        {d : AcceptanceDecision} {a : AcceptedAssertion}
        → ◌≡◌ {A = Result KernelError Approval}
            (ok (Approval.recorded d))
            (ok (Approval.accepted a))
        → ⊥
    recorded_accepted h = cc

accepting_result :
    (host : Host) (dec_id ast_id proposal_id reason at decision : String)
    (o : Result KernelError Report) (k : Kernel) {a : AcceptedAssertion}
    → guards k proposal_id decision ≡ o
    → (approve_with host dec_id ast_id proposal_id reason at decision o k).0
      ≡ ok (Approval.accepted a)
    → IsBacked host dec_id ast_id proposal_id decision a k
        (approve_with host dec_id ast_id proposal_id reason at decision o k).1
unfolding approve_with decision_of
accepting_result host dec_id ast_id proposal_id reason at decision (err e) k g h = cc
accepting_result host dec_id ast_id proposal_id reason at decision (ok report) k {a} g h =
    let dec = decision_of host dec_id proposal_id reason at decision report in
    let (found, free, passes) =
      guarded-ok (get k.reports proposal_id) (is_accepted k proposal_id) decision {report = report}
        (unfold guards in g) in
    let (dec', r, asked, after) =
      after_decision-ok host ast_id proposal_id (decide host dec k).0 (decide host dec k).1 h in
    let (same, (written, props, reports, assertions)) = decide-IsDecided host dec k r in
    let (stored, about, from, approved) =
      accept-ok host ast_id proposal_id dec' (get (decide host dec k).1.proposals proposal_id)
        (decide host dec k).1 (ap (λ x. x.0) (sym after) ∙ h) in
    record {
      report = report;
      dec = dec;
      asked = sym (ap (λ d. d.decision) same) ∙ asked;
      verified = found;
      passed = passes (sym (ap (λ d. d.decision) same) ∙ asked);
      fresh = free;
      decided =
          ap (λ x. get x.1.decisions dec_id) after
          ∙ ap (λ x. get x.decisions dec_id) stored
          ∙ written;
      accepting = (sym (ap (λ d. d.decision) same) ∙ asked, refl);
      same_report = refl;
      stored =
          ap (λ x. x.1.assertions) after
          ∙ ap (λ x. x.assertions) stored
          ∙ ap (λ d. put d ast_id a) assertions;
      about = (about, from ∙ ap (λ d. d.decision_id) same);
      approved = approved;
      reports = ap (λ x. x.1.reports) after ∙ ap (λ x. x.reports) stored ∙ reports;
    }

-- `approve` accepts only on an "accept" decision, for a proposal that has no assertion yet and whose
-- report passed. It writes that decision, which carries the report's hash, and one assertion,
-- which names the proposal and the decision and is marked as approved by a human.
pub approve-IsBacked :
    (host : Host) (dec_id ast_id proposal_id reason at decision : String) (k : Kernel)
    {a : AcceptedAssertion}
    → (approve host dec_id ast_id proposal_id reason at decision k).0 ≡ ok (Approval.accepted a)
    → IsBacked host dec_id ast_id proposal_id decision a k
        (approve host dec_id ast_id proposal_id reason at decision k).1
unfolding approve
approve-IsBacked host dec_id ast_id proposal_id reason at decision k h =
    accepting_result host dec_id ast_id proposal_id reason at decision
      (guards k proposal_id decision) k refl h

any-put :
    (p : AcceptedAssertion → Bool) (d : Dict String AcceptedAssertion) (id : String)
    (a : AcceptedAssertion)
    → p a ≡ true
    → any p (values (put d id a)) ≡ true
unfolding put
any-put p [] id a h = ground arith
any-put p ((j, b) ∷ d) id a h = ground (arith, any-put p d id a)

taken_refused :
    (o : Option Report) (report : Report) (decision : String)
    → o ≡ some report
    → guarded o true decision ≡ err KernelError.already_accepted
unfolding guarded
taken_refused none report decision e = cc
taken_refused (some r) report decision e = refl

-- A proposal that was accepted is not decided again: whatever the next decision is, it is refused
-- as already accepted, and nothing is written.
pub accepted_once :
    (host : Host) (dec_id ast_id proposal_id reason at decision : String) (k : Kernel)
    {a : AcceptedAssertion} (dec_id' ast_id' reason' at' decision' : String)
    → (approve host dec_id ast_id proposal_id reason at decision k).0 ≡ ok (Approval.accepted a)
    → let k' = (approve host dec_id ast_id proposal_id reason at decision k).1 in
      approve host dec_id' ast_id' proposal_id reason' at' decision' k'
      ≡ (err KernelError.already_accepted, k')
accepted_once host dec_id ast_id proposal_id reason at decision k {a} dec_id' ast_id' reason' at'
      decision' h =
    let b = approve-IsBacked host dec_id ast_id proposal_id reason at decision k h in
    refused (approve host dec_id ast_id proposal_id reason at decision k).1 b.report b.stored
      (ap (λ d. get d proposal_id) b.reports ∙ b.verified) b.about.0
  where
    refused :
        (k' : Kernel) (report : Report)
        → k'.assertions ≡ put k.assertions ast_id a
        → get k'.reports proposal_id ≡ some report
        → a.proposal_id ≡ proposal_id
        → approve host dec_id' ast_id' proposal_id reason' at' decision' k'
          ≡ (err KernelError.already_accepted, k')
    refused k' report stored reports about =
        let listed : is_accepted k' proposal_id ≡ true =
          unfold is_accepted in
          rw stored (
            any-put (λ x. x.proposal_id == proposal_id) k.assertions ast_id a
              ((==_iff a.proposal_id proposal_id).1 about)) in
        unfold approve guards approve_with in
        rw (listed, taken_refused (get k'.reports proposal_id) report decision' reports)
