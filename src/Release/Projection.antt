-- ===== src/Release/Projection.antt =====
-- The allowlist projection of a record (`project_record_summary`, packages/python/atlas/release.py):
-- only approved assertions become public facts.
use exposure_atlas.Base.{
  String, Bool, Option, none, some, List, [], ◌∷◌, not, Result, ok, ◌>>=◌, ◌>>◌, raise_if, or_raise,
  ◌==◌, ==_iff, text_eq_instance, ◌≡◌, refl, sym, ap, subst, arith, ok_inj, >>=-eq-ok, >>-eq-ok,
  raise_if-eq-ok,
}
use exposure_atlas.Base.Dict.{Dict, get}
use exposure_atlas.Release.{ReleaseError}

pub record Assertion : Type 0 where
  pub semantic_review_state : String
  pub source_version_id : String
  pub predicate : String
  pub raw_value : String
  pub normalized_value : Option String
  pub procedural_modality : String

pub record SourceVersion : Type 0 where
  pub source_document_id : String
  pub content_sha256 : String

pub record SourceDocument : Type 0 where
  pub issuer : String
  pub title : String
  pub docket : Option String

-- One entry of `facts`, with its citation.
pub record Fact : Type 0 where
  pub predicate : String
  pub raw_value : String
  pub normalized_value : Option String
  pub procedural_modality : String
  pub semantic_review_state : String
  pub issuer : String
  pub title : String
  pub docket : Option String
  pub content_sha256 : String

pub record Summary : Type 0 where
  pub release_id : String
  pub record_id : String
  pub record_revision_id : String
  pub boundary_version : String
  pub facts : List Fact

abbrev pub fact_of : Assertion → SourceVersion → SourceDocument → Fact
fact_of a sv sd = record {
  predicate = a.predicate;
  raw_value = a.raw_value;
  normalized_value = a.normalized_value;
  procedural_modality = a.procedural_modality;
  semantic_review_state = "human_approved";
  issuer = sd.issuer;
  title = sd.title;
  docket = sd.docket;
  content_sha256 = sv.content_sha256;
}

unfoldable pub project_fact :
    Dict String SourceVersion → Dict String SourceDocument → Assertion → Result ReleaseError Fact
project_fact versions documents a =
    raise_if (not (a.semantic_review_state == "human_approved")) ReleaseError.unapproved_assertion
    >> (or_raise (get versions a.source_version_id) ReleaseError.no_key >>= λ sv.
        or_raise (get documents sv.source_document_id) ReleaseError.no_key >>= λ sd.
        ok (fact_of a sv sd))

unfoldable pub project_facts :
    Dict String SourceVersion
    → Dict String SourceDocument
    → List Assertion
    → Result ReleaseError (List Fact)
project_facts versions documents [] = ok []
project_facts versions documents (a ∷ assertions) = project_fact versions documents a >>= λ fact.
    project_facts versions documents assertions >>= λ facts. ok (fact ∷ facts)

unfoldable pub project_record_summary :
    (summary_ok : Summary → Bool) (release_id record_id record_revision_id : String)
    (assertions : List Assertion) (documents : Dict String SourceDocument)
    (versions : Dict String SourceVersion) (boundary_version : String)
    → Result ReleaseError Summary
project_record_summary summary_ok release_id record_id record_revision_id assertions documents
      versions boundary_version =
    project_facts versions documents assertions >>= λ facts.
    let out : Summary = record {
      release_id = release_id;
      record_id = record_id;
      record_revision_id = record_revision_id;
      boundary_version = boundary_version;
      facts = facts;
    } in
    raise_if (not (summary_ok out)) ReleaseError.schema_error >> ok out

-- Every field of a fact, from the assertion, its source version and the document of that version.
abbrev pub IsFact : Assertion → SourceVersion → SourceDocument → Fact → Type 0
IsFact a version document f =
    (f.predicate ≡ a.predicate)
    × (f.raw_value ≡ a.raw_value)
    × (f.normalized_value ≡ a.normalized_value)
    × (f.procedural_modality ≡ a.procedural_modality)
    × (f.semantic_review_state ≡ a.semantic_review_state)
    × (f.issuer ≡ document.issuer)
    × (f.title ≡ document.title)
    × (f.docket ≡ document.docket)
    × (f.content_sha256 ≡ version.content_sha256)

-- A fact is that of an approved assertion, cited to the document of its source version.
pub record IsApproved (versions : Dict String SourceVersion)
    (documents : Dict String SourceDocument) (a : Assertion) (f : Fact) : Type 0 where
  pub approved : a.semantic_review_state ≡ "human_approved"
  version : SourceVersion
  document : SourceDocument
  found : get versions a.source_version_id ≡ some version
  cited : get documents version.source_document_id ≡ some document
  same : IsFact a version document f

-- One fact for each assertion, in order.
abbrev pub AreApproved :
    Dict String SourceVersion → Dict String SourceDocument → List Assertion → List Fact → Type 0
AreApproved versions documents [] [] = Unit
AreApproved versions documents (a ∷ assertions) (f ∷ facts) =
    IsApproved versions documents a f × AreApproved versions documents assertions facts
AreApproved versions documents _ _ = ⊥

or_raise-some :
    {A : Type 0} (o : Option A) {a : A} → or_raise o ReleaseError.no_key ≡ ok a → o ≡ some a
or_raise-some none h = cc
or_raise-some (some b) h = ap (λ x. some x) (ok_inj h)

project_fact-IsApproved :
    (versions : Dict String SourceVersion) (documents : Dict String SourceDocument) (a : Assertion)
    {f : Fact}
    → project_fact versions documents a ≡ ok f
    → IsApproved versions documents a f
unfolding project_fact
project_fact-IsApproved versions documents a h =
    let open_state = not (a.semantic_review_state == "human_approved") in
    let (b, h1) = >>-eq-ok (raise_if open_state ReleaseError.unapproved_assertion) _ h in
    let (sv, e, h2) =
      >>=-eq-ok (or_raise (get versions a.source_version_id) ReleaseError.no_key) _ h1 in
    let (sd, f, h3) =
      >>=-eq-ok (or_raise (get documents sv.source_document_id) ReleaseError.no_key) _ h2 in
    let approved : a.semantic_review_state ≡ "human_approved" =
      (==_iff a.semantic_review_state "human_approved").0
        (ground (arith, raise_if-eq-ok open_state ReleaseError.unapproved_assertion b)) in
    record {
      approved = approved;
      version = sv;
      document = sd;
      found = or_raise-some _ e;
      cited = or_raise-some _ f;
      same =
          subst (IsFact a sv sd) (ok_inj h3)
            (refl, refl, refl, refl, sym approved, refl, refl, refl, refl);
    }

project_facts-AreApproved :
    (versions : Dict String SourceVersion) (documents : Dict String SourceDocument)
    (assertions : List Assertion) {facts : List Fact}
    → project_facts versions documents assertions ≡ ok facts
    → AreApproved versions documents assertions facts
unfolding project_facts
project_facts-AreApproved versions documents [] h =
    subst (AreApproved versions documents []) (ok_inj h) tt
project_facts-AreApproved versions documents (a ∷ assertions) h =
    let (fact, e, h1) = >>=-eq-ok (project_fact versions documents a) _ h in
    let (facts, f, h2) = >>=-eq-ok (project_facts versions documents assertions) _ h1 in
    subst (AreApproved versions documents (a ∷ assertions)) (ok_inj h2) (
      project_fact-IsApproved versions documents a e,
      project_facts-AreApproved versions documents assertions f,
    )

-- A summary is projected only where every assertion of the record is approved by a human; it names the
-- release, the record, the revision and the boundary that were asked for, and its facts are these
-- assertions in order: each with the values and the modality of its assertion, the issuer, the title and
-- the docket of the document of its own source version, and the hash of that version.
pub project_record_summary-AreApproved :
    (summary_ok : Summary → Bool) (release_id record_id record_revision_id : String)
    (assertions : List Assertion) (documents : Dict String SourceDocument)
    (versions : Dict String SourceVersion) (boundary_version : String) {out : Summary}
    → project_record_summary summary_ok release_id record_id record_revision_id assertions documents
        versions boundary_version
      ≡ ok out
    → (out.release_id ≡ release_id)
      × (out.record_id ≡ record_id)
      × (out.record_revision_id ≡ record_revision_id)
      × (out.boundary_version ≡ boundary_version)
      × AreApproved versions documents assertions out.facts
unfolding project_record_summary
project_record_summary-AreApproved summary_ok release_id record_id record_revision_id assertions
      documents versions boundary_version h =
    let (facts, e, h1) = >>=-eq-ok (project_facts versions documents assertions) _ h in
    let (_, made) = >>-eq-ok (raise_if _ ReleaseError.schema_error) _ h1 in
    subst
      (λ o.
        (o.release_id ≡ release_id)
        × (o.record_id ≡ record_id)
        × (o.record_revision_id ≡ record_revision_id)
        × (o.boundary_version ≡ boundary_version)
        × AreApproved versions documents assertions o.facts)
      (ok_inj made)
      (refl, refl, refl, refl, project_facts-AreApproved versions documents assertions e)
