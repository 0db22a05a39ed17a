-- ===== src/Evaluation/Partition.antt =====
-- The partition that the loop over the weights of the parts picks.
use exposure_atlas.Base.{
  ℕ, ◌+◌, ◌≤◌, ◌<◌, ◌%◌, String, false, List, [], ◌∷◌, Result, ok, err, ◌==◌, ==_iff,
  text_eq_instance, nat_eq, ltb, ◌≡◌, ◌⊎◌, inl, inr, refl, arith, Bool-cases,
}
use native.Mathlib.Nat.{mod-lt}
use exposure_atlas.Base.Dict.{Dict, keys}
use exposure_atlas.Base.Sort.{sorted}
use exposure_atlas.Evaluation.{
  EvaluationError, weight_of, total_weight, pick_from, assign_partition,
}

-- The share of a part: the numbers behind the weights of the parts before it.
abbrev pub IsPicked : Dict String ℕ → ℕ → ℕ → List String → String → Type 0
IsPicked weights bucket acc [] p = ⊥
IsPicked weights bucket acc (q ∷ parts) p =
    ((q ≡ p) × (bucket < acc + weight_of weights q))
    ⊎ ((acc + weight_of weights q ≤ bucket)
        × IsPicked weights bucket (acc + weight_of weights q) parts p)

pick_from-IsPicked :
    (weights : Dict String ℕ) (bucket acc : ℕ) (last : Result EvaluationError String)
    (parts : List String)
    → bucket < acc + total_weight weights parts
    → acc ≤ bucket
    → (p : String) × (pick_from weights bucket acc last parts ≡ ok p)
      × IsPicked weights bucket acc parts p
unfolding pick_from total_weight
pick_from-IsPicked weights bucket acc last [] below above = absurd (omega arith)
pick_from-IsPicked weights bucket acc last (q ∷ parts) below above =
    let next = acc + weight_of weights q in
    elim (Bool-cases (ltb bucket next)) [
      | inl here ↦ (q, (rw here refl), inl (refl, ground arith))
      | inr beyond ↦
          let past : next ≤ bucket = ground arith in
          let (p, e, picked) =
            pick_from-IsPicked weights bucket next (ok q) parts (omega arith) past in
          (p, (rw beyond e), inr (past, picked))
    ]

-- Where the weights have a positive sum, every item has a partition, and it is the one in whose share
-- of the sum the hash of the item falls: the line behind the loop is never reached.
pub assign_partition-IsPicked :
    (digest : String → String → ℕ) (salt : String) (weights : Dict String ℕ) (item_key : String)
    → 0 < total_weight weights (sorted (keys weights))
    → (p : String) × (assign_partition digest salt weights item_key ≡ ok p)
      × IsPicked weights
          (digest salt item_key % total_weight weights (sorted (keys weights)))
          0
          (sorted (keys weights))
          p
unfolding assign_partition
assign_partition-IsPicked digest salt weights item_key positive =
    let parts = sorted (keys weights) in
    let total = total_weight weights parts in
    let bucket = digest salt item_key % total in
    let below : bucket < total = mod-lt (digest salt item_key) positive in
    let some_total : (total == 0) ≡ false = ground (arith, ==_iff total 0) in
    let (p, e, picked) =
      pick_from-IsPicked weights bucket 0 (err EvaluationError.no_parts) parts (omega arith)
        (omega arith) in
    (p, (rw some_total e), picked)
