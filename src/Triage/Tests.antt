-- ===== src/Triage/Tests.antt =====
-- A checklist with every kind of criterion, on which the candidate is included.
use exposure_atlas.Base.{List, [], ◌∷◌, ok, ◌≡◌, refl, text_eq_instance}
use exposure_atlas.Base.Dict.{get}
use exposure_atlas.Triage.{
  Criterion, Results, TriageReason, Triaged, value_is, is, gating, evaluate,
}
use exposure_atlas.Triage.Inclusion.{IsIncluded, evaluate-IsIncluded}

abbrev criteria : List Criterion
criteria =
    record { id = "c1"; kind = "core_inclusion" }
    ∷ record { id = "x1"; kind = "exclusion" }
    ∷ record { id = "i1"; kind = "instrument" }
    ∷ record { id = "a1"; kind = "accessibility" }
    ∷ []

abbrev answers : Results
answers = ("c1", "met") ∷ ("x1", "not_met") ∷ ("i1", "met") ∷ ("a1", "met") ∷ []

abbrev included : Triaged
included = record { outcome = "include"; route = "include"; reason = TriageReason.all_met }

candidate-included : evaluate answers criteria ≡ ok included
unfolding evaluate gating is value_is get
candidate-included = refl

evaluate-IsIncluded_example : IsIncluded answers criteria
evaluate-IsIncluded_example = evaluate-IsIncluded answers criteria candidate-included refl
