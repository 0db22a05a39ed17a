-- ===== src/Plan/Gates.antt =====
-- The gate verifier (`gate_verify`, tools/atlas_plan.py): a manifest of the tasks of a gate, and
-- what a gate that passes has behind it.
use exposure_atlas.Base.{
  ◌++◌, any, false, true, ap₂, ◌∙◌, Bool-cases, inl, inr, ◌≢◌, >>-eq-ok, ok_inj, raise_if-eq-ok,
  ◌≡◌, refl, arith, ==_iff, subst, ◌++◌, String, Bool, true, false, none, some, List, [], ◌∷◌, not,
  ◌&&◌, ◌||◌, select, any, all, elem, is_empty, map, Result, ok, ◌>>◌, raise_if, if◌then◌else◌,
  ◌==◌, text_eq_instance, nat_eq, ◌≡◌, inl, inr, refl, arith, ==_iff, Bool-cases, >>-eq-ok, ok_inj,
  raise_if-eq-ok, subst, ◌∙◌, ◌≢◌,
}
use exposure_atlas.Base.Dict.{Dict, get}
use exposure_atlas.Plan.{Task, Receipt, receipt_ok}

abbrev pub gate_operator_decisions : Dict String (List String)
gate_operator_decisions =
    (
      "G0",
      "G0-Q1" ∷ "G0-Q2" ∷ "G0-Q3" ∷ "G0-Q4" ∷ "G0-Q5" ∷ "G0-Q6" ∷ "G0-Q7" ∷ "G0-Q8" ∷ "G0-Q9"
          ∷ "G0-Q10" ∷ "G0-Q11" ∷ "G0-Q12" ∷ "G0-Q13" ∷ "G0-Q14" ∷ [],
    )
    ∷ []

abbrev pub gate_evidence_policy : Dict String String
gate_evidence_policy = ("G0", "self_asserted_ok") ∷ []

pub data EvidenceState : Type 0 where
  verified self_asserted_only missing : EvidenceState

pub record GateRow : Type 0 where
  pub id : String
  pub status : String
  pub evidence_state : EvidenceState
  pub receipt_ids : List String

-- The entries of `missing_evidence`.
pub data MissingEvidence : Type 0 where
  only_self_asserted no_evidence_receipt : String → MissingEvidence

pub record Manifest : Type 0 where
  pub gate : String
  pub generated_at : String
  pub commit : String
  pub pass : Bool
  pub tasks : List GateRow
  pub missing_evidence : List MissingEvidence
  pub missing_operator_decisions : List String
  pub notes : Bool

abbrev pub evidence_of : List Receipt → EvidenceState
evidence_of [] = EvidenceState.missing
evidence_of (r ∷ rs) =
    if any (λ (x : Receipt). not x.self_asserted) (r ∷ rs)
    then EvidenceState.verified
    else EvidenceState.self_asserted_only

abbrev pub accepts_self_asserted : String → Bool
accepts_self_asserted gate = elim (get gate_evidence_policy gate) [
  | some policy ↦ policy == "self_asserted_ok"
  | none ↦ false
]

abbrev pub missing_of : Bool → String → EvidenceState → List MissingEvidence
missing_of lenient id EvidenceState.verified = []
missing_of lenient id EvidenceState.self_asserted_only =
    if lenient then [] else MissingEvidence.only_self_asserted id ∷ []
missing_of lenient id EvidenceState.missing = MissingEvidence.no_evidence_receipt id ∷ []

-- The rows and the missing evidence, task by task.
unfoldable pub gate_rows :
    (gate : String) (receipts : List Receipt) → List Task → List GateRow × List MissingEvidence
gate_rows gate receipts [] = ([], [])
gate_rows gate receipts (t ∷ tasks) =
    let rs = select (λ r. receipt_ok r t.id none) receipts in
    let (rows, lacking) = gate_rows gate receipts tasks in
    (
      record {
        id = t.id;
        status = t.status;
        evidence_state = evidence_of rs;
        receipt_ids = map (λ (r : Receipt). r.receipt_id) rs;
      }
          ∷ rows,
      missing_of (accepts_self_asserted gate) t.id (evidence_of rs) ++ lacking,
    )

abbrev pub required_decisions : String → List String
required_decisions gate = elim (get gate_operator_decisions gate) [ some ds ↦ ds | none ↦ [] ]

unfoldable pub make_manifest :
    (gate generated_at head : String) (receipts : List Receipt) (decisions : List String)
    → List Task
    → Manifest
make_manifest gate generated_at head receipts decisions gate_tasks =
    let (rows, missing_ev) = gate_rows gate receipts gate_tasks in
    let missing_dec = select (λ d. not (elem d decisions)) (required_decisions gate) in
    record {
      gate = gate;
      generated_at = generated_at;
      commit = head;
      pass = is_empty missing_ev && is_empty missing_dec;
      tasks = rows;
      missing_evidence = missing_ev;
      missing_operator_decisions = missing_dec;
      notes = accepts_self_asserted gate;
    }

-- `no_tasks` is the refusal before a manifest is made, `schema_error` the raise of the validator.
pub data GateError : Type 0 where
  no_tasks schema_error : GateError

abbrev pub of_gate : String → Task → Bool
of_gate gate t = t.gate == gate

-- The manifest that is written; the exit code is 0 exactly where it passes.
unfoldable pub gate_verify :
    (manifest_ok : Manifest → Bool) (tasks : List Task) (receipts : List Receipt)
    (decisions : List String) (head generated_at gate : String)
    → Result GateError Manifest
gate_verify manifest_ok tasks receipts decisions head generated_at gate =
    let gate_tasks = select (of_gate gate) tasks in
    let manifest = make_manifest gate generated_at head receipts decisions gate_tasks in
    raise_if (is_empty gate_tasks) GateError.no_tasks
    >> (raise_if (not (manifest_ok manifest)) GateError.schema_error >> ok manifest)

-- the evidence that the gate's policy asks of a task
abbrev pub counted_by : String → Receipt → Bool
counted_by gate r = accepts_self_asserted gate || not r.self_asserted

-- A receipt of the task whose criteria all passed or do not apply; a self-asserted one counts for G0.
abbrev pub backs : String → Task → Receipt → Bool
backs gate t r =
    r.task_id == t.id
    && all (λ c. c == "pass" || c == "not_applicable") r.criteria
    && ("G0" == gate || not r.self_asserted)

-- The ledger holds a receipt that backs the task.
abbrev pub is_backed : String → List Receipt → Task → Bool
is_backed gate receipts t = any (backs gate t) receipts

receipt_ok-backs :
    (gate : String) (t : Task) (r : Receipt)
    → (receipt_ok r t.id none && counted_by gate r) ≡ backs gate t r
unfolding receipt_ok get
receipt_ok-backs gate t r = ground arith

any_backs :
    (gate : String) (t : Task) (rs : List Receipt)
    → any (λ r. receipt_ok r t.id none && counted_by gate r) rs ≡ is_backed gate rs t
any_backs gate t [] = refl
any_backs gate t (r ∷ rs) = ap₂ (λ b c. b || c) (receipt_ok-backs gate t r) (any_backs gate t rs)

any-select :
    (p q : Receipt → Bool) (rs : List Receipt) → any q (select p rs) ≡ any (λ r. p r && q r) rs
any-select p q [] = refl
any-select p q (r ∷ rs) = ground (arith, any-select p q rs)

missing_of-evidence_of :
    (lenient : Bool) (id : String) (rs : List Receipt)
    → is_empty (missing_of lenient id (evidence_of rs))
      ≡ any (λ (r : Receipt). lenient || not r.self_asserted) rs
missing_of-evidence_of lenient id [] = refl
missing_of-evidence_of true id (r ∷ rs) =
    elim (Bool-cases (any (λ (x : Receipt). not x.self_asserted) (r ∷ rs))) [
      | inl e ↦ rw e refl
      | inr e ↦ rw e refl
    ]
missing_of-evidence_of false id (r ∷ rs) =
    elim (Bool-cases (any (λ (x : Receipt). not x.self_asserted) (r ∷ rs))) [
      | inl e ↦ rw e refl
      | inr e ↦ rw e refl
    ]

is_empty-append :
    (xs ys : List MissingEvidence) → is_empty (xs ++ ys) ≡ (is_empty xs && is_empty ys)
is_empty-append [] ys = refl
is_empty-append (x ∷ xs) ys = refl

gate_rows-is_backed :
    (gate : String) (receipts : List Receipt) (tasks : List Task)
    → is_empty (gate_rows gate receipts tasks).1 ≡ all (is_backed gate receipts) tasks
unfolding gate_rows
gate_rows-is_backed gate receipts [] = refl
gate_rows-is_backed gate receipts (t ∷ tasks) =
    let rs = select (λ r. receipt_ok r t.id none) receipts in
    let lenient = accepts_self_asserted gate in
    is_empty-append (missing_of lenient t.id (evidence_of rs)) (gate_rows gate receipts tasks).1
    ∙ ap₂ (λ b c. b && c)
        (missing_of-evidence_of lenient t.id rs
          ∙ any-select (λ r. receipt_ok r t.id none) (counted_by gate) receipts
          ∙ any_backs gate t receipts)
        (gate_rows-is_backed gate receipts tasks)

is_empty-select :
    (p : String → Bool) (xs : List String) → is_empty (select (λ x. not (p x)) xs) ≡ all p xs
is_empty-select p [] = refl
is_empty-select p (x ∷ xs) = ground (arith, is_empty-select p xs)

-- A gate verifies exactly where it has tasks, each of them with a receipt whose criteria all passed or
-- do not apply and that the policy of the gate counts, and every operator decision that the gate asks for is recorded. The receipt may
-- be of any commit, and for G0 it may be self-asserted; for every other gate it is one that is not.
-- The manifest that is written is about this gate and names the commit of the checkout.
pub gate_verify_pass :
    (manifest_ok : Manifest → Bool) (tasks : List Task) (receipts : List Receipt)
    (decisions : List String) (head generated_at gate : String) {manifest : Manifest}
    → gate_verify manifest_ok tasks receipts decisions head generated_at gate ≡ ok manifest
    → (manifest.gate ≡ gate)
      × (manifest.commit ≡ head)
      × (is_empty (select (of_gate gate) tasks) ≡ false)
      × (manifest.pass ≡ (
          all (is_backed gate receipts) (select (of_gate gate) tasks)
          && all (λ d. elem d decisions) (required_decisions gate)))
unfolding gate_verify make_manifest
gate_verify_pass manifest_ok tasks receipts decisions head generated_at gate h =
    let gate_tasks = select (of_gate gate) tasks in
    let made = make_manifest gate generated_at head receipts decisions gate_tasks in
    let (some_task, h1) = >>-eq-ok (raise_if (is_empty gate_tasks) GateError.no_tasks) _ h in
    let (_, same) = >>-eq-ok (raise_if (not (manifest_ok made)) GateError.schema_error) _ h1 in
    subst
      (λ m.
        (m.gate ≡ gate)
        × (m.commit ≡ head)
        × (is_empty gate_tasks ≡ false)
        × (m.pass ≡ (
            all (is_backed gate receipts) gate_tasks
            && all (λ d. elem d decisions) (required_decisions gate))))
      (ok_inj same)
      (
        refl,
        refl,
        raise_if-eq-ok (is_empty gate_tasks) GateError.no_tasks some_task,
        ap₂ (λ b c. b && c) (gate_rows-is_backed gate receipts gate_tasks)
            (is_empty-select (λ d. elem d decisions) (required_decisions gate)),
      )

-- No gate but G0 is passed on self-asserted evidence: a receipt counts for it only where it is not
-- self-asserted.
pub counted_by-strict :
    (gate : String) (r : Receipt) → gate ≢ "G0" → counted_by gate r ≡ not r.self_asserted
unfolding get
counted_by-strict gate r other = ground (arith, ==_iff "G0" gate)
