-- ===== src/Triage/Inclusion.antt =====
-- A candidate is only included on a complete checklist whose inclusions are all met.
use exposure_atlas.Base.{
  String, Bool, true, false, Option, none, some, List, [], ◌∷◌, not, ◌||◌, any, all, elem, select,
  Result, ok, err, ok_inj, ◌==◌, ==_iff, text_eq_instance, ◌≡◌, ◌≢◌, refl, arith, sym, ap, ◌∙◌,
  Bool-cases, inl, inr,
}
use mathlib.Core.Bool.{false≢true}
use exposure_atlas.Base.Dict.{get, has, all-get}
use exposure_atlas.Triage.{
  Criterion, Results, RubricError, TriageReason, Triaged, result_values, crit_ids, by_kind,
  one_of_kind, value_is, is, signal_met, gating, evaluate,
}

any-not :
    {A : Type 0} (p : A → Bool) (xs : List A) → any (λ x. not (p x)) xs ≡ false → all p xs ≡ true
any-not p [] h = refl
any-not p (x ∷ xs) h = ground (arith, any-not p xs)

any-false :
    {A : Type 0} (p : A → Bool) (xs : List A) → any p xs ≡ false → all (λ x. not (p x)) xs ≡ true
any-false p [] h = refl
any-false p (x ∷ xs) h = ground (arith, any-false p xs)

-- What an inclusion rests on.
pub record IsIncluded (results : Results) (criteria : List Criterion) : Type 0 where
  pub complete : all (has results) (crit_ids criteria) ≡ true
  pub unexcluded : all (λ id. not (is results "met" id)) (by_kind criteria "exclusion") ≡ true
  pub core : all (is results "met") (by_kind criteria "core_inclusion") ≡ true
  pub instrument :
      (i : String) × (one_of_kind criteria "instrument" ≡ some i) × (is results "met" i ≡ true)
  pub accessible :
      (a : String) × (one_of_kind criteria "accessibility" ≡ some a) × (is results "met" a ≡ true)

value_met :
    (o : Option String)
    → o ≢ none
    → ((v : String) → o ≡ some v → elem v result_values ≡ true)
    → value_is o "not_met" ≡ false
    → (value_is o "uncertain" || value_is o "not_applicable") ≡ false
    → value_is o "met" ≡ true
unfolding value_is
value_met none h valid a b = absurd (h refl)
value_met (some v) h valid a b =
    let listed : elem v result_values ≡ true = valid v refl in
    ground (
      arith,
      ==_iff v "met",
      ==_iff "met" v,
      ==_iff v "not_met",
      ==_iff "not_met" v,
      ==_iff v "uncertain",
      ==_iff "uncertain" v,
      ==_iff v "not_applicable",
      ==_iff "not_applicable" v,
    )

core_met :
    (results : Results) (kept all_of : List Criterion)
    → all (λ e. elem e.1 result_values) results ≡ true
    → all (has results) (crit_ids all_of) ≡ true
    → kept ≡ select (λ c. c.kind == "core_inclusion") all_of
    → any (is results "not_met") (crit_ids kept) ≡ false
    → any (λ id. is results "uncertain" id || is results "not_applicable" id) (crit_ids kept)
      ≡ false
    → all (is results "met") (crit_ids kept) ≡ true
unfolding is
core_met results kept all_of valid complete e a b =
    rw e (walk all_of complete (rw e at a) (rw e at b))
  where
    answered : (c : Criterion) → has results c.id ≡ true → get results c.id ≢ none
    answered c h = λ missing. absurd (false≢true (rw (missing, has) at h))

    walk :
        (cs : List Criterion)
        → all (has results) (crit_ids cs) ≡ true
        → any (is results "not_met") (crit_ids (select (λ c. c.kind == "core_inclusion") cs))
          ≡ false
        → any
            (λ id. is results "uncertain" id || is results "not_applicable" id)
            (crit_ids (select (λ c. c.kind == "core_inclusion") cs))
          ≡ false
        → all (is results "met") (crit_ids (select (λ c. c.kind == "core_inclusion") cs)) ≡ true
    walk [] h p q = refl
    walk (c ∷ cs) h p q = elim (Bool-cases (c.kind == "core_inclusion")) [
      | inr other ↦ rw other (walk cs (ground arith) (rw other at p) (rw other at q))
      | inl core ↦
          let p' = rw core at p in
          let q' = rw core at q in
          let met =
            value_met (get results c.id) (answered c (ground arith))
              (λ v found. all-get (λ x. elem x.1 result_values) results c.id v valid found)
              (ground arith) (ground arith) in
          rw core (ground (arith, met, walk cs))
    ]

included_only :
    {o : String} {t : Triaged} {route : String} {reason : TriageReason}
    → (o == "include") ≡ false
    → ◌≡◌ {A = Result RubricError Triaged}
        (ok (record { outcome = o; route = route; reason = reason }))
        (ok t)
    → t.outcome ≡ "include"
    → ⊥
included_only {o} other e k =
    false≢true (sym other ∙ (==_iff o "include").1 (ap (λ x. x.outcome) (ok_inj e) ∙ k))

gating-include :
    (results : Results) (i a signal : Option String) {r : Triaged}
    → gating results i a signal ≡ ok r
    → r.outcome ≡ "include"
    → ((x : String) × (i ≡ some x) × (is results "met" x ≡ true))
      × ((y : String) × (a ≡ some y) × (is results "met" y ≡ true))
unfolding gating
gating-include results none a signal h k = cc
gating-include results (some i) none signal h k = cc
gating-include results (some i) (some a) signal h k = elim (Bool-cases (is results "met" i)) [
  | inl one ↦ elim (Bool-cases (is results "met" a)) [
    | inl two ↦ ((i, refl, one), (a, refl, two))
    | inr unmet ↦ absurd (included_only refl (rw (one, unmet) at h) k)
  ]
  | inr unmet ↦ elim (Bool-cases (signal_met results signal)) [
    | inl s ↦ absurd (included_only refl (rw (unmet, s) at h) k)
    | inr s ↦ absurd (included_only refl (rw (unmet, s) at h) k)
  ]
]

refused : {e : RubricError} {t : Triaged} → ◌≡◌ {A = Result RubricError Triaged} (err e) (ok t) → ⊥
refused h = cc

-- An "include" is only returned for a complete checklist: every criterion has a result, no exclusion
-- is met, every core inclusion is met, and so are the instrument and the accessibility criterion.
pub evaluate-IsIncluded :
    (results : Results) (criteria : List Criterion) {r : Triaged}
    → evaluate results criteria ≡ ok r
    → r.outcome ≡ "include"
    → IsIncluded results criteria
unfolding evaluate
evaluate-IsIncluded results criteria {r} h k =
    elim (Bool-cases (any (λ e. not (elem e.1 result_values)) results)) [
      | inl bad ↦ absurd (refused (rw bad at h))
      | inr valid ↦ elim (Bool-cases (any (λ e. not (elem e.0 (crit_ids criteria))) results)) [
        | inl bad ↦ absurd (refused (rw (valid, bad) at h))
        | inr known ↦ elim (Bool-cases (any (λ id. not (has results id)) (crit_ids criteria))) [
          | inl missing ↦ absurd (included_only refl (rw (valid, known, missing) at h) k)
          | inr complete ↦
              elim (Bool-cases (any (is results "met") (by_kind criteria "exclusion"))) [
                | inl excluded ↦
                    absurd (included_only refl (rw (valid, known, complete, excluded) at h) k)
                | inr free ↦
                    elim (Bool-cases
                      (any (is results "not_met") (by_kind criteria "core_inclusion"))) [
                        | inl out ↦
                            absurd
                              (included_only refl (rw (valid, known, complete, free, out) at h) k)
                        | inr inside ↦
                            elim (Bool-cases (
                              any
                                (λ id. is results "uncertain" id || is results "not_applicable" id)
                                (by_kind criteria "core_inclusion"))) [
                                  | inl open_core ↦ absurd (
                                      included_only refl
                                        (rw (valid, known, complete, free, inside, open_core) at h)
                                        k)
                                  | inr closed ↦
                                      let (i, a) =
                                        gating-include results _ _ _
                                          (rw (valid, known, complete, free, inside, closed) at h)
                                          k in
                                      let whole =
                                        any-not (has results) (crit_ids criteria) complete in
                                      record {
                                        complete = whole;
                                        unexcluded =
                                            any-false (is results "met")
                                              (by_kind criteria "exclusion") free;
                                        core =
                                            core_met results
                                              (select (λ c. c.kind == "core_inclusion") criteria)
                                              criteria
                                              (any-not (λ e. elem e.1 result_values) results valid)
                                              whole refl inside closed;
                                        instrument = i;
                                        accessible = a;
                                      }
                                ]
                      ]
              ]
        ]
      ]
    ]
