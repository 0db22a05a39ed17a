-- ===== src/Builder/Policy.antt =====
-- What the tool policy and the completion gate let pass.
use exposure_atlas.Base.{
  String, Bool, true, false, Option, none, some, List, [], ◌∷◌, not, elem, any, all, find, select,
  is_empty, ok, raise_if, or_raise, ◌==◌, text_eq_instance, ◌≡◌, ◌↔◌, inl, inr, refl, arith, ==_iff,
  Bool-cases, Option-cases, >>-eq-ok, >>=-eq-ok, ok_inj, raise_if-eq-ok, ap, sym, ◌∙◌,
}
use mathlib.Core.Bool.{false≢true}
use exposure_atlas.Base.Dict.{get}
use exposure_atlas.Plan.{Task, Receipt, task_verify, is_verified, receipt_ok, of_task, settle_task}
use exposure_atlas.Builder.{
  Role, ToolPolicy, PolicyError, check_granted, check_tool, CompletionRefused, close_task,
  valid_terminations,
}

-- What the policy says of a tool: the role is listed, grants the tool and does not disallow it.
abbrev pub IsGranted : ToolPolicy → String → String → Type 0
IsGranted policy role tool =
    (spec : Role) × (get policy.roles role ≡ some spec)
    × (tools : List String) × (spec.tools ≡ some tools)
    × (elem tool tools ≡ true)
    × (elem tool spec.disallowed_tools ≡ false)

granted_by :
    (o : Option (List String)) (tool : String)
    → check_granted o tool ≡ ok tt
    → (tools : List String) × (o ≡ some tools) × (elem tool tools ≡ true)
granted_by none tool h = cc
granted_by (some tools) tool h =
    (tools, refl, ground (arith, raise_if-eq-ok (not (elem tool tools)) PolicyError.not_granted))

-- A tool passes the check exactly where its role is listed, grants it and does not disallow it:
-- everything else is denied.
pub check_tool-IsGranted :
    (policy : ToolPolicy) (role tool : String)
    → (check_tool policy role tool ≡ ok tt) ↔ IsGranted policy role tool
unfolding check_tool
check_tool-IsGranted policy role tool = (into, out)
  where
    listed :
        (o : Option Role) {spec : Role}
        → or_raise o PolicyError.unknown_role ≡ ok spec
        → o ≡ some spec
    listed none h = cc
    listed (some found) h = ap (λ x. some x) (ok_inj h)

    into : check_tool policy role tool ≡ ok tt → IsGranted policy role tool
    into h =
        let (spec, found, h1) =
          >>=-eq-ok (or_raise (get policy.roles role) PolicyError.unknown_role) _ h in
        let (a, h2) =
          >>-eq-ok (raise_if (elem tool spec.disallowed_tools) PolicyError.disallowed) _ h1 in
        let (tools, f, granted) = granted_by spec.tools tool h2 in
        (
          spec,
          listed (get policy.roles role) found,
          tools,
          f,
          granted,
          raise_if-eq-ok (elem tool spec.disallowed_tools) PolicyError.disallowed a,
        )

    out : IsGranted policy role tool → check_tool policy role tool ≡ ok tt
    out (spec, e, tools, f, granted, allowed) =
        rw (e, check_tool) (rw (allowed, f) (rw granted refl))

find-none :
    (p : Receipt → Bool) (rs : List Receipt) → find p rs ≡ none → all (λ r. not (p r)) rs ≡ true
find-none p [] h = refl
find-none p (r ∷ rs) h = ground (arith, find-none p rs)

-- A receipt in the ledger that passes for the task at the head.
abbrev pub has_evidence : List Receipt → String → String → Bool
has_evidence receipts task_id head = any (λ r. receipt_ok r task_id (some head)) receipts

any_of_select :
    (p q : Receipt → Bool) (rs : List Receipt)
    → is_empty (select p (select q rs)) ≡ false
    → any p rs ≡ true
any_of_select p q [] h = cc
any_of_select p q (r ∷ rs) h = ground (arith, any_of_select p q rs)

settled_verified :
    (good : List Receipt) → is_verified (settle_task good) ≡ true → is_empty good ≡ false
settled_verified [] h = cc
settled_verified (g ∷ good) h = refl

not-not-all : (p : Receipt → Bool) (rs : List Receipt) → all (λ r. not (not (p r))) rs ≡ all p rs
not-not-all p [] = refl
not-not-all p (r ∷ rs) = ground (arith, not-not-all p rs)

-- What a report that verifies a task says of the plan and the ledger.
abbrev pub HasEvidence : (Receipt → Bool) → List Task → List Receipt → String → String → Type 0
HasEvidence receipt_valid tasks receipts head task_id =
    (any (λ (t : Task). t.id == task_id) tasks ≡ true)
    × (has_evidence receipts task_id head ≡ true)
    × (all receipt_valid (select (of_task task_id) receipts) ≡ true)

task_verify-HasEvidence :
    (receipt_valid : Receipt → Bool) (tasks : List Task) (receipts : List Receipt)
    (head task_id : String)
    → is_verified (task_verify receipt_valid tasks receipts head task_id) ≡ true
    → HasEvidence receipt_valid tasks receipts head task_id
unfolding task_verify
task_verify-HasEvidence receipt_valid tasks receipts head task_id h =
    let mine = select (of_task task_id) receipts in
    elim (Bool-cases (any (λ (t : Task). t.id == task_id) tasks)) [
      | inr e ↦ absurd (false≢true (rw (e, task_verify) at h))
      | inl e ↦ elim (Bool-cases (is_empty mine)) [
        | inl f ↦ absurd (false≢true (rw (f, e, task_verify) at h))
        | inr f ↦ elim (Option-cases (find (λ r. not (receipt_valid r)) mine)) [
          | inr (r, g) ↦ absurd (false≢true (rw (g, f, e, task_verify) at h))
          | inl g ↦
              let good : is_verified
                    (settle_task (select (λ r. receipt_ok r task_id (some head)) mine))
                  ≡ true =
                rw (g, f, e, task_verify) at h in
              (
                e,
                any_of_select (λ r. receipt_ok r task_id (some head)) (of_task task_id) receipts
                    (settled_verified _ good),
                sym (not-not-all receipt_valid mine)
                    ∙ find-none (λ r. not (receipt_valid r)) mine g,
              )
        ]
      ]
    ]

-- A task is closed only after a complete run with valid output, where the plan has the task, the
-- ledger holds a passing receipt of it at the head, and every receipt of it keeps the schema.
pub close_task-HasEvidence :
    (receipt_valid : Receipt → Bool) (tasks : List Task) (receipts : List Receipt)
    (head task_id termination_reason : String) (structured_output_valid : Bool) {status : String}
    → close_task receipt_valid tasks receipts head task_id termination_reason
        structured_output_valid
      ≡ ok status
    → (status ≡ "done")
      × (termination_reason ≡ "complete")
      × (structured_output_valid ≡ true)
      × HasEvidence receipt_valid tasks receipts head task_id
unfolding close_task
close_task-HasEvidence receipt_valid tasks receipts head task_id reason output h =
    let listed = elem reason valid_terminations in
    let passed = is_verified (task_verify receipt_valid tasks receipts head task_id) in
    let (a, h1) = >>-eq-ok (raise_if (not listed) CompletionRefused.bad_termination) _ h in
    let (b, h2) = >>-eq-ok (raise_if (not output) CompletionRefused.no_valid_output) _ h1 in
    let (c, made) = >>-eq-ok (raise_if (not passed) CompletionRefused.no_evidence) _ h2 in
    let good : passed ≡ true =
      ground (arith, raise_if-eq-ok (not passed) CompletionRefused.no_evidence c) in
    (
      sym (ok_inj made),
      sym (
          (==_iff "complete" reason).0
            (ground (arith, raise_if-eq-ok (not listed) CompletionRefused.bad_termination a))),
      ground (arith, raise_if-eq-ok (not output) CompletionRefused.no_valid_output b),
      task_verify-HasEvidence receipt_valid tasks receipts head task_id good,
    )
