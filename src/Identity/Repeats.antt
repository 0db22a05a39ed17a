-- ===== src/Identity/Repeats.antt =====
-- Resolutions that are repeated after other ones.
use exposure_atlas.Base.{
  String, Bool, true, false, some, List, [], ◌∷◌, elem, is_empty, Result, ok, err, ◌==◌, ==_refl,
  text_eq_instance, nat_eq, list_eq, Result-cases, ◌≡◌, inl, inr, refl, ap, ◌∙◌, subst, arith,
  Bool-cases, ok_inj, >>-eq-ok,
}
use exposure_atlas.Base.Dict.{Dict, get}
use exposure_atlas.Identity.{Text, Identifier, IdentityError, normalize_identifier, artifact_kind}
use exposure_atlas.Identity.Resolver.{
  note_id, IdentityResolver, add, set_at, keys_of, found_ids, choose_id, register, linked,
  index_documents, finish, resolve_keys, resolve_matter,
}
use exposure_atlas.Identity.Stability.{
  IsKept, IsKept-refl, IsKept-trans, get-put_all, index_documents-same, registered_known,
  resolve_matter-IsKept,
}

index_documents-outcome :
    (id : String) (identifiers : List Identifier) (s t : IdentityResolver)
    → (index_documents id identifiers s).0 ≡ (index_documents id identifiers t).0
unfolding index_documents
index_documents-outcome id [] s t = refl
index_documents-outcome id (i ∷ identifiers) s t = elim (Bool-cases (i.kind == artifact_kind)) [
  | inr e ↦ rw e (index_documents-outcome id identifiers s t)
  | inl e ↦ elim (Result-cases (normalize_identifier artifact_kind i.value)) [
    | inr (x, f) ↦ rw (e, f) refl
    | inl (h, f) ↦
        rw (e, f) (index_documents-outcome id identifiers (linked h id s) (linked h id t))
  ]
]

-- The identifiers have keys, all of the record, which is known, and their documents are indexed.
record IsResolved (identifiers : List Identifier) (id : String) (s : IdentityResolver)
    : Type 0 where
  keys : List Text
  listed : keys_of identifiers ≡ ok keys
  some_key : is_empty keys ≡ false
  owned : (k : Text) → elem k keys ≡ true → get s.by_key k ≡ some id
  known : is_empty (set_at s.aliases id) ≡ false
  indexed : (u : IdentityResolver) → (index_documents id identifiers u).0 ≡ ok tt

finish-IsResolved :
    (identifiers : List Identifier) (ks : List Text) (chosen : String) (s t : IdentityResolver)
    {id : String} {new : Bool}
    → keys_of identifiers ≡ ok ks
    → is_empty ks ≡ false
    → finish identifiers ks chosen s ≡ (ok (id, new), t)
    → IsResolved identifiers id t
unfolding finish
finish-IsResolved identifiers ks chosen s t {id} listed full h =
    let start = register chosen ks s in
    let (done, made) = >>-eq-ok (index_documents chosen identifiers start).0 _ (ap (λ p. p.0) h) in
    let (e, f) = index_documents-same chosen identifiers start in
    let after : (index_documents chosen identifiers start).1 ≡ t = ap (λ p. p.1) h in
    subst (λ r. IsResolved identifiers r t) (ap (λ p. p.0) (ok_inj made))
      (subst (IsResolved identifiers chosen) after (record {
        keys = ks;
        listed = listed;
        some_key = full;
        owned = λ k m. ap (λ d. get d k) e ∙ get-put_all s.by_key ks chosen k ∙ (rw m refl);
        known = ap (λ d. is_empty (set_at d chosen)) f ∙ registered_known chosen ks s full;
        indexed = λ u. index_documents-outcome chosen identifiers u start ∙ done;
      }))

resolve_matter-IsResolved :
    (digest12 : Text → String) (identifiers : List Identifier) (s t : IdentityResolver)
    {id : String} {new : Bool}
    → resolve_matter digest12 identifiers s ≡ (ok (id, new), t)
    → IsResolved identifiers id t
unfolding resolve_matter resolve_keys
resolve_matter-IsResolved digest12 identifiers s t h = elim (Result-cases (keys_of identifiers)) [
  | inr (x, e) ↦ absurd (raised (ap (λ p. p.0) (rw (e, resolve_matter) at h)))
  | inl (ks, e) ↦ elim (Bool-cases (is_empty ks)) [
    | inl f ↦
        absurd (raised (ap (λ p. p.0) (rw (f, resolve_keys) at (rw (e, resolve_matter) at h))))
    | inr f ↦ elim (Result-cases (choose_id digest12 ks (found_ids s.by_key ks))) [
      | inr (x, g) ↦
          absurd (raised (ap (λ p. p.0) (rw (g, f, resolve_keys) at (rw (e, resolve_matter) at h))))
      | inl (chosen, g) ↦
          finish-IsResolved identifiers ks chosen s t e f
            (rw (g, f, resolve_keys) at (rw (e, resolve_matter) at h))
    ]
  ]
]
  where
    raised :
        {x : IdentityError} {p : String × Bool}
        → ◌≡◌ {A = Result IdentityError (String × Bool)} (err x) (ok p)
        → ⊥
    raised e = cc

found_ids_one :
    (d : Dict Text String) (ks : List Text) (id : String)
    → is_empty ks ≡ false
    → ((k : Text) → elem k ks ≡ true → get d k ≡ some id)
    → found_ids d ks ≡ id ∷ []
unfolding found_ids
found_ids_one d [] id h owned = cc
found_ids_one d (k ∷ ks) id h owned =
    ap (λ o. note_id o (found_ids d ks)) (owned k (ground (arith, ==_refl k)))
    ∙ again ks (λ j m. owned j (ground arith))
  where
    again :
        (js : List Text)
        → ((j : Text) → elem j js ≡ true → get d j ≡ some id)
        → note_id (some id) (found_ids d js) ≡ id ∷ []
    again [] o = unfold found_ids add in refl
    again (j ∷ js) o =
        ap (note_id (some id)) (
          (unfold found_ids in
            ap (λ x. note_id x (found_ids d js)) (o j (ground (arith, ==_refl j))))
          ∙ again js (λ i m. o i (ground arith)))
        ∙ (unfold add in rw (==_refl id) refl)

resolved_again :
    (digest12 : Text → String) (identifiers : List Identifier) (id : String)
    (s t : IdentityResolver)
    → IsResolved identifiers id s
    → IsKept s t
    → (resolve_matter digest12 identifiers t).0 ≡ ok (id, false)
unfolding resolve_matter resolve_keys finish
resolved_again digest12 identifiers id s t r k =
    let found = found_ids_one t.by_key r.keys id r.some_key (λ j m. k.keys j id (r.owned j m)) in
    rw (r.listed, resolve_matter)
      (rw (r.some_key, resolve_keys)
        (rw found (rw (r.indexed (register id r.keys t), k.known id r.known) refl)))

unfoldable pub resolve_all :
    (Text → String) → List (List Identifier) → IdentityResolver → IdentityResolver
resolve_all digest12 [] s = s
resolve_all digest12 (identifiers ∷ calls) s =
    resolve_all digest12 calls (resolve_matter digest12 identifiers s).1

resolve_all-IsKept :
    (digest12 : Text → String) (calls : List (List Identifier)) (s : IdentityResolver)
    → IsKept s (resolve_all digest12 calls s)
unfolding resolve_all
resolve_all-IsKept digest12 [] s = IsKept-refl s
resolve_all-IsKept digest12 (identifiers ∷ calls) s =
    let next = (resolve_matter digest12 identifiers s).1 in
    IsKept-trans s next _ (resolve_matter-IsKept digest12 identifiers s)
      (resolve_all-IsKept digest12 calls next)

-- Resolution is idempotent for ever: identifiers that were resolved to a record are resolved to the
-- same record, which is not new, after any other resolutions, refused ones included.
pub resolve_matter_stable :
    (digest12 : Text → String) (identifiers : List Identifier) (s t : IdentityResolver)
    {id : String} {new : Bool}
    → resolve_matter digest12 identifiers s ≡ (ok (id, new), t)
    → (calls : List (List Identifier))
    → (resolve_matter digest12 identifiers (resolve_all digest12 calls t)).0 ≡ ok (id, false)
resolve_matter_stable digest12 identifiers s t {id} h calls =
    resolved_again digest12 identifiers id t (resolve_all digest12 calls t)
      (resolve_matter-IsResolved digest12 identifiers s t h) (resolve_all-IsKept digest12 calls t)
