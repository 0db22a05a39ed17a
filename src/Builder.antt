-- ===== src/Builder.antt =====
-- The builder's core: the tool policy (builder/core/policy.py), the budget ledger
-- (builder/core/budget.py) and the completion gate (builder/core/completion.py). Costs are whole
-- units; the ledger file is the list of its lines, the YAML files are what they hold.
pub mod Budget
pub mod Policy
mod Tests
use exposure_atlas.Base.{
  ℕ, ◌+◌, String, Bool, true, false, Option, none, some, List, [], ◌∷◌, ◌++◌, not, ltb, elem, any,
  Result, ok, err, ◌>>=◌, ◌>>◌, raise_if, or_raise, if◌then◌else◌, ◌==◌, text_eq_instance,
}
use exposure_atlas.Base.Dict.{Dict, get, values}
use exposure_atlas.Plan.{Task, Receipt, task_verify, is_verified}

-- The entry of a role: `tools` is `none` where it is not a list.
pub record Role : Type 0 where
  pub tools : Option (List String)
  pub disallowed_tools : List String

pub record ToolPolicy : Type 0 where
  pub version : String
  pub roles : Dict String Role
  pub hash : String

pub data PolicyError : Type 0 where
  tools_list_required unknown_role disallowed not_granted no_tools_list : PolicyError

abbrev pub lacks_list : Role → Bool
lacks_list role = elim role.tools [ none ↦ true | some _ ↦ false ]

-- `obj_hash` is the hash of the version and the roles.
unfoldable pub compile_policy :
    (obj_hash : String → Dict String Role → String) (version : String) (roles : Dict String Role)
    → Result PolicyError ToolPolicy
compile_policy obj_hash version roles =
    raise_if (any lacks_list (values roles)) PolicyError.tools_list_required
    >> ok (record { version = version; roles = roles; hash = obj_hash version roles })

abbrev pub check_granted : Option (List String) → String → Result PolicyError (Unit {0})
check_granted none tool = err PolicyError.no_tools_list
check_granted (some tools) tool = raise_if (not (elem tool tools)) PolicyError.not_granted

unfoldable pub check_tool : ToolPolicy → (role tool : String) → Result PolicyError (Unit {0})
check_tool policy role tool = or_raise (get policy.roles role) PolicyError.unknown_role >>= λ spec.
    raise_if (elem tool spec.disallowed_tools) PolicyError.disallowed
    >> check_granted spec.tools tool

-- One line of the ledger.
pub record Entry : Type 0 where
  pub run_id : String
  pub reserved_cost : ℕ
  pub reconciled_cost : Option ℕ

pub record Ceilings : Type 0 where
  pub session_ceiling : Option ℕ
  pub day_ceiling : Option ℕ

pub data BudgetError : Type 0 where
  ceilings_unset over_ceiling no_open_reservation : BudgetError

abbrev pub cost_of : Entry → ℕ
cost_of e = elim e.reconciled_cost [ some cost ↦ cost | none ↦ e.reserved_cost ]

unfoldable pub committed : List Entry → ℕ
committed [] = 0
committed (e ∷ entries) = cost_of e + committed entries

abbrev pub reserve_under :
    Option ℕ → Option ℕ → String → ℕ → List Entry → Result BudgetError (List Entry)
reserve_under (some session) (some day) run_id worst_case_cost entries =
    raise_if (ltb session (committed entries + worst_case_cost)) BudgetError.over_ceiling
    >> ok (
        entries
        ++ record { run_id = run_id; reserved_cost = worst_case_cost; reconciled_cost = none } ∷ [])
reserve_under _ _ run_id worst_case_cost entries = err BudgetError.ceilings_unset

unfoldable pub reserve :
    Ceilings
    → (run_id : String) (worst_case_cost : ℕ) → List Entry
    → Result BudgetError (List Entry)
reserve ceilings run_id worst_case_cost entries =
    reserve_under ceilings.session_ceiling ceilings.day_ceiling run_id worst_case_cost entries

abbrev pub is_open : String → Entry → Bool
is_open run_id e = elim e.reconciled_cost [ some _ ↦ false | none ↦ e.run_id == run_id ]

-- The first open reservation of the run gets the cost that was observed.
unfoldable pub settle : String → ℕ → List Entry → List Entry
settle run_id observed_cost [] = []
settle run_id observed_cost (e ∷ entries) =
    if is_open run_id e
    then record e { reconciled_cost = some observed_cost } ∷ entries
    else e ∷ settle run_id observed_cost entries

unfoldable pub reconcile :
    (run_id : String) (observed_cost : ℕ) → List Entry → Result BudgetError (List Entry)
reconcile run_id observed_cost entries =
    raise_if (not (any (is_open run_id) entries)) BudgetError.no_open_reservation
    >> ok (settle run_id observed_cost entries)

pub data CompletionRefused : Type 0 where
  bad_termination no_valid_output no_evidence : CompletionRefused

abbrev pub valid_terminations : List String
valid_terminations = "complete" ∷ []

unfoldable pub close_task :
    (receipt_valid : Receipt → Bool) (tasks : List Task) (receipts : List Receipt)
    (head task_id termination_reason : String) (structured_output_valid : Bool)
    → Result CompletionRefused String
close_task receipt_valid tasks receipts head task_id termination_reason structured_output_valid =
    raise_if (not (elem termination_reason valid_terminations)) CompletionRefused.bad_termination
    >> (raise_if (not structured_output_valid) CompletionRefused.no_valid_output
        >> (raise_if (not (is_verified (task_verify receipt_valid tasks receipts head task_id)))
              CompletionRefused.no_evidence
            >> ok "done"))
