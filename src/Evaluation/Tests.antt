-- ===== src/Evaluation/Tests.antt =====
-- An item among four partitions.
use exposure_atlas.Base.{ℕ, ◌<◌, ◌%◌, String, [], ◌∷◌, ok, ◌≡◌, arith, refl, text_eq_instance}
use exposure_atlas.Base.Dict.{Dict, get, keys}
use exposure_atlas.Base.Sort.{sorted}
use exposure_atlas.Evaluation.{total_weight, pick_from, assign_partition}
use exposure_atlas.Evaluation.Partition.{IsPicked, assign_partition-IsPicked}

abbrev weights : Dict String ℕ
weights = ("held_out", 40) ∷ ("examples", 5) ∷ ("development", 35) ∷ ("calibration", 20) ∷ []

abbrev digest : String → String → ℕ
digest salt key = 123

some_weight : 0 < total_weight weights (sorted (keys weights))
unfolding total_weight sorted get
some_weight = omega arith

assign_partition-IsPicked_example :
    (p : String) × (assign_partition digest "salt" weights "item" ≡ ok p)
    × IsPicked weights
        (123 % total_weight weights (sorted (keys weights)))
        0
        (sorted (keys weights))
        p
assign_partition-IsPicked_example =
    assign_partition-IsPicked digest "salt" weights "item" some_weight

assigned : assign_partition digest "salt" weights "item" ≡ ok "development"
unfolding assign_partition total_weight sorted get pick_from
assigned = refl
