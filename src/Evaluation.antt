-- ===== src/Evaluation.antt =====
-- Evaluation governance (packages/python/atlas/evalgov.py): the partitions of evaluation items, the
-- disposition of slices, blinded labels and the certification of a gate.
pub mod Partition
mod Tests
use exposure_atlas.Base.{
  ℕ, ◌+◌, ◌*◌, ◌%◌, String, ◌^^◌, Bool, true, false, Option, none, some, List, [], ◌∷◌, not, ◌&&◌,
  ltb, leb, find, elem, Result, ok, err, ◌>>=◌, or_raise, if◌then◌else◌, ◌==◌, text_eq_instance,
  nat_eq,
}
use exposure_atlas.Base.Dict.{Dict, get, keys}
use exposure_atlas.Base.Sort.{sorted}

pub data EvaluationError : Type 0 where
  zero_total no_parts no_key unregistered_stage : EvaluationError

abbrev pub weight_or : Option ℕ → ℕ
weight_or none = 0
weight_or (some w) = w

-- `weights[p]`, where `p` is one of the keys
abbrev pub weight_of : Dict String ℕ → String → ℕ
weight_of weights p = weight_or (get weights p)

unfoldable pub total_weight : Dict String ℕ → List String → ℕ
total_weight weights [] = 0
total_weight weights (p ∷ parts) = weight_of weights p + total_weight weights parts

-- The loop; behind its end stands the last part, or the IndexError of an empty list.
unfoldable pub pick_from :
    (weights : Dict String ℕ) (bucket acc : ℕ) (last : Result EvaluationError String)
    → List String
    → Result EvaluationError String
pick_from weights bucket acc last [] = last
pick_from weights bucket acc last (p ∷ parts) =
    let later = pick_from weights bucket (acc + weight_of weights p) (ok p) parts in
    if ltb bucket (acc + weight_of weights p) then ok p else later

-- `digest` is the number that the hash of the salt and the key is; `%` by 0 raises.
unfoldable pub assign_partition :
    (digest : String → String → ℕ) (salt : String) (weights : Dict String ℕ) (item_key : String)
    → Result EvaluationError String
assign_partition digest salt weights item_key =
    let parts = sorted (keys weights) in
    let total = total_weight weights parts in
    if total == 0
    then err EvaluationError.zero_total
    else pick_from weights (digest salt item_key % total) 0 (err EvaluationError.no_parts) parts

abbrev pub holdout_readers : List String
holdout_readers = "operator" ∷ []

unfoldable pub can_read_holdout : String → Bool
can_read_holdout role = elem role holdout_readers

pub record StageMetric : Type 0 where
  pub stage : String
  pub min_items_supported : ℕ

unfoldable pub slice_disposition :
    (n_items : ℕ) (stage : String) (stage_metrics : List StageMetric)
    (underpowered_disposition : String)
    → Result EvaluationError String
slice_disposition n_items stage stage_metrics underpowered_disposition =
    or_raise (find (λ (s : StageMetric). s.stage == stage) stage_metrics)
      EvaluationError.unregistered_stage
    >>= λ reg.
        ok (if leb reg.min_items_supported n_items then "supported" else underpowered_disposition)

unfoldable pub can_certify_gate :
    (author_role certifier_role : String)
    (has_operator_frozen_labels has_operator_gate_decision : Bool)
    → Bool
can_certify_gate author_role certifier_role has_operator_frozen_labels has_operator_gate_decision =
    certifier_role == "operator"
    && not (author_role == "operator")
    && has_operator_frozen_labels
    && has_operator_gate_decision
