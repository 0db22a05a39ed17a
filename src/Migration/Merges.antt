-- ===== src/Migration/Merges.antt =====
-- A merge turns every redirect to a merged record to the survivor, and no other.
use exposure_atlas.Base.{
  String, Option, none, some, List, [], ◌∷◌, elem, Result, ok, err, ◌==◌, ==_iff, text_eq_instance,
  ◌≡◌, refl, arith, sym, ap, ◌∙◌, Bool-cases, inl, inr, if◌then◌else◌,
}
use exposure_atlas.Base.Dict.{Dict, get}
use exposure_atlas.Migration.{
  Host, Relationship, MigrationImporter, MigrationError, redirect_to, merge_one, merged_first,
  merge_rest, merge, make_relationship,
}

-- What a merge makes of the target of a redirect.
pub target_of : String → List String → Option String → Option String
target_of surviving merged none = none
target_of surviving merged (some rid) = some (if elem rid merged then surviving else rid)

get-redirect_to :
    (surviving mid key : String) (d : Dict String String)
    → get (redirect_to surviving mid d) key ≡ target_of surviving (mid ∷ []) (get d key)
unfolding get redirect_to target_of
get-redirect_to surviving mid key [] = refl
get-redirect_to surviving mid key ((j, rid) ∷ d) = elim (Bool-cases (j == key)) [
  | inl same ↦ rw same (ground (arith, ==_iff rid mid, ==_iff mid rid))
  | inr other ↦ rw other (get-redirect_to surviving mid key d)
]

target_of-cons :
    (surviving mid : String) (merged : List String) (o : Option String)
    → target_of surviving merged (target_of surviving (mid ∷ []) o)
      ≡ target_of surviving (mid ∷ merged) o
unfolding target_of
target_of-cons surviving mid merged none = refl
target_of-cons surviving mid merged (some rid) = elim (Bool-cases (mid == rid)) [
  | inl same ↦ rw same (ground arith)
  | inr other ↦ rw other refl
]

target_of-nil : (surviving : String) (o : Option String) → target_of surviving [] o ≡ o
unfolding target_of
target_of-nil surviving none = refl
target_of-nil surviving (some rid) = refl

merged_first-ok :
    (rln : Relationship) (x : Result MigrationError (List Relationship) × MigrationImporter)
    {rlns : List Relationship}
    → (merged_first rln x).0 ≡ ok rlns
    → (rest : List Relationship) × (x.0 ≡ ok rest) × ((merged_first rln x).1 ≡ x.1)
unfolding merged_first
merged_first-ok rln (ok rest, m) h = (rest, refl, refl)
merged_first-ok rln (err e, m) h = cc

-- A merge that goes through keeps every redirect, and turns exactly those that led to a merged
-- record to the surviving one.
pub merge_redirects :
    (host : Host) (surviving : String) (merged : List String) (at reason : String)
    (m : MigrationImporter) {rlns : List Relationship} (key : String)
    → (merge host surviving merged at reason m).0 ≡ ok rlns
    → get (merge host surviving merged at reason m).1.redirects key
      ≡ target_of surviving merged (get m.redirects key)
unfolding merge
merge_redirects host surviving [] at reason m key h =
    sym (target_of-nil surviving (get m.redirects key))
merge_redirects host surviving (mid ∷ merged) at reason m {rlns} key h =
    one (make_relationship host "consolidated_with" mid surviving "Alexios" at (some reason))
      (λ p rest k. merge_redirects host surviving merged at reason p key k) h
  where
    one :
        (r : Result MigrationError Relationship)
        → ((p : MigrationImporter) (rest : List Relationship)
            → (merge host surviving merged at reason p).0 ≡ ok rest
            → get (merge host surviving merged at reason p).1.redirects key
              ≡ target_of surviving merged (get p.redirects key))
        → (merge_rest (merge_one surviving r mid m) (merge host surviving merged at reason)).0
          ≡ ok rlns
        → get
            (merge_rest
              (merge_one surviving r mid m)
              (merge host surviving merged at reason)).1.redirects
            key
          ≡ target_of surviving (mid ∷ merged) (get m.redirects key)
    one (err e) ih k = cc
    one (ok rln) ih k =
        let p = record m { redirects = redirect_to surviving mid m.redirects } in
        let (rest, a, b) = merged_first-ok rln (merge host surviving merged at reason p) k in
        ap (λ x. get x.redirects key) b
        ∙ ih p rest a
        ∙ ap (target_of surviving merged) (get-redirect_to surviving mid key m.redirects)
        ∙ target_of-cons surviving mid merged (get m.redirects key)
