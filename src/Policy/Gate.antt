-- ===== src/Policy/Gate.antt =====
-- Publication is allowed exactly when every gate is open; nothing that is missing is let through.
use exposure_atlas.Base.{
  String, Bool, true, false, Option, none, some, [], elem, ok, >>-eq-ok, ok_inj, raise_if, ==_iff,
  text_eq_instance, ◌≡◌, ◌≢◌, ◌↔◌, ap, sym, ◌∙◌, refl, arith,
}
use exposure_atlas.Policy.{
  Verdict, Reason, PolicyError, PolicyDecision, Tally, cleared, deny_with, softened, review_with,
  when, mechanical, semantic, rights, boundary, publish_checks, tally, evaluate,
}

-- Every gate of a publication.
pub record IsOpen (overall state distribution : Option String) (suppressed : Bool)
    (version : Option String) : Type 0 where
  pub unsuppressed : suppressed ≡ false
  pub verified : overall ≡ some "pass"
  pub approved : state ≡ some "human_approved"
  pub rights_cleared : (d : String) × (distribution ≡ some d) × (elem d cleared ≡ true)
  pub bounded : version ≢ none

-- A tally that is still `allow` after a check was `allow` before it, and the check passed.
mechanical_allow :
    (o : Option String) (t : Tally)
    → (mechanical o t).0 ≡ Verdict.allow
    → (o ≡ some "pass") × (t.0 ≡ Verdict.allow)
unfolding mechanical deny_with review_with softened when
mechanical_allow none t h = cc
mechanical_allow (some s) t h = ground (arith, ==_iff s "pass", ==_iff s "fail")

semantic_allow :
    (o : Option String) (t : Tally)
    → (semantic o t).0 ≡ Verdict.allow
    → (o ≡ some "human_approved") × (t.0 ≡ Verdict.allow)
unfolding semantic deny_with review_with softened when
semantic_allow none t h = cc
semantic_allow (some s) t h = ground (arith, ==_iff s "human_approved")

rights_allow :
    (o : Option String) (t : Tally)
    → (rights o t).0 ≡ Verdict.allow
    → ((d : String) × (o ≡ some d) × (elem d cleared ≡ true)) × (t.0 ≡ Verdict.allow)
unfolding rights deny_with when
rights_allow none t h = cc
rights_allow (some d) t h = ((d, refl, ground arith), ground arith)

boundary_allow :
    (o : Option String) (t : Tally)
    → (boundary o t).0 ≡ Verdict.allow
    → (o ≢ none) × (t.0 ≡ Verdict.allow)
unfolding boundary deny_with
boundary_allow none t h = cc
boundary_allow (some d) t h = ((λ e. cc), h)

suppression_allow :
    (b : Bool) (r : Reason)
    → (when b (deny_with r) (Verdict.allow, [])).0 ≡ Verdict.allow
    → b ≡ false
unfolding deny_with when
suppression_allow true r h = cc
suppression_allow false r h = refl

tally_allow :
    (overall state distribution : Option String) (suppressed : Bool) (version : Option String)
    → (tally overall state distribution suppressed "publish_public" version).0 ≡ Verdict.allow
    → IsOpen overall state distribution suppressed version
unfolding tally publish_checks when
tally_allow overall state distribution suppressed version h =
    let (bounded, h1) = boundary_allow version _ h in
    let (cleared, h2) = rights_allow distribution _ h1 in
    let (approved, h3) = semantic_allow state _ h2 in
    let (verified, h4) = mechanical_allow overall _ h3 in
    record {
      unsuppressed = suppression_allow suppressed Reason.suppression_overlay_denies h4;
      verified = verified;
      approved = approved;
      rights_cleared = cleared;
      bounded = bounded;
    }

open_boundary : (o : Option String) (t : Tally) → o ≢ none → boundary o t ≡ t
unfolding boundary
open_boundary none t h = absurd (h refl)
open_boundary (some v) t h = refl

tally_open :
    (overall state distribution : Option String) (suppressed : Bool) (version : Option String)
    → IsOpen overall state distribution suppressed version
    → tally overall state distribution suppressed "publish_public" version ≡ (Verdict.allow, [])
unfolding tally publish_checks when mechanical semantic rights
tally_open overall state distribution suppressed version h =
    let (d, e, listed) = h.rights_cleared in
    rw (h.unsuppressed, h.verified, h.approved, e) (rw listed (open_boundary version _ h.bounded))

-- A public release is allowed exactly when no suppression denies it, the mechanical report passed,
-- a human approved the semantics, the rights are cleared and a boundary version is named.
pub evaluate_publish :
    (schema_ok : PolicyDecision → Bool) (overall state distribution : Option String)
    (suppressed : Bool) (at : String) (version : Option String) {d : PolicyDecision}
    → evaluate schema_ok overall state distribution suppressed "publish_public" at version ≡ ok d
    → (d.decision ≡ Verdict.allow) ↔ IsOpen overall state distribution suppressed version
unfolding evaluate
evaluate_publish schema_ok overall state distribution suppressed at version h =
    let (_, made) = >>-eq-ok (raise_if _ PolicyError.schema_error) _ h in
    let e = ap (λ x. x.decision) (ok_inj made) in
    (
      (λ allowed. tally_allow overall state distribution suppressed version (e ∙ allowed)),
      (λ gates.
          sym e ∙ ap (λ t. t.0) (tally_open overall state distribution suppressed version gates)),
    )
