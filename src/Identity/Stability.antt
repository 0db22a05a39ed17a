-- ===== src/Identity/Stability.antt =====
-- What a resolution keeps of the keys and the aliases.
use exposure_atlas.Base.{
  String, true, false, Option, none, some, List, [], ◌∷◌, ◌||◌, elem, is_empty, ok, if◌then◌else◌,
  ◌==◌, ==_iff, ==_refl, text_eq_instance, nat_eq, list_eq, ◌≡◌, inl, inr, refl, sym, ap, ◌∙◌,
  subst, arith, Bool-cases, elem-append,
}
use exposure_atlas.Base.Dict.{Dict, get, put, get-put, get-put_self}
use exposure_atlas.Identity.{Text, Identifier, normalize_identifier, artifact_kind}
use exposure_atlas.Base.{Result-cases}
use exposure_atlas.Identity.Resolver.{
  note_id, or_empty, IdentityResolver, add, add_each, set_at, keys_of, found_ids, choose_id,
  put_all, register, linked, index_documents, finish, resolve_keys, resolve_matter,
}

pub get-put_all :
    (d : Dict Text String) (ks : List Text) (r : String) (k : Text)
    → get (put_all d ks r) k ≡ (if elem k ks then some r else get d k)
unfolding put_all
get-put_all d [] r k = refl
get-put_all d (j ∷ ks) r k = ground (arith, get-put_all (put d j r) ks r k, get-put d j k r)

add-elem : (xs : List String) (x r : String) → elem r (add xs x) ≡ (elem r xs || x == r)
unfolding add
add-elem xs x r = ground (arith, elem-append r xs (x ∷ []), ==_iff x r)

found_ids-elem :
    (d : Dict Text String) (ks : List Text) (k : Text) (r : String)
    → elem k ks ≡ true
    → get d k ≡ some r
    → elem r (found_ids d ks) ≡ true
unfolding found_ids
found_ids-elem d [] k r m h = cc
found_ids-elem d (j ∷ ks) k r m h = elim (Bool-cases (j == k)) [
  | inl e ↦
      let here : get d j ≡ some r = ap (get d) ((==_iff j k).0 e) ∙ h in
      rw (here, found_ids) (rw (add-elem (found_ids d ks) r r, ==_refl r) (ground arith))
  | inr e ↦ noted (get d j) (found_ids d ks) (found_ids-elem d ks k r (ground arith) h)
]
  where
    noted : (o : Option String) (rs : List String) → elem r rs ≡ true → elem r (note_id o rs) ≡ true
    noted none rs m = m
    noted (some q) rs m = rw (add-elem rs q r, m) refl

choose_id-elem :
    (digest12 : Text → String) (ks : List Text) (rs : List String) {q : String} (r : String)
    → choose_id digest12 ks rs ≡ ok q
    → elem r rs ≡ true
    → r ≡ q
choose_id-elem digest12 ks [] r h m = cc
choose_id-elem digest12 ks (p ∷ []) r h m = ground (arith, ==_iff p r)
choose_id-elem digest12 ks (p ∷ q ∷ rs) r h m = cc

-- No key moves to another record, and a record that has aliases keeps having some.
pub record IsKept (s t : IdentityResolver) : Type 0 where
  pub keys : (k : Text) (r : String) → get s.by_key k ≡ some r → get t.by_key k ≡ some r
  pub known :
      (r : String) → is_empty (set_at s.aliases r) ≡ false → is_empty (set_at t.aliases r) ≡ false

pub IsKept-refl : (s : IdentityResolver) → IsKept s s
IsKept-refl s = record { keys = λ k r h. h; known = λ r h. h }

pub IsKept-trans : (s t u : IdentityResolver) → IsKept s t → IsKept t u → IsKept s u
IsKept-trans s t u a b = record {
  keys = λ k r h. b.keys k r (a.keys k r h);
  known = λ r h. b.known r (a.known r h);
}

pub index_documents-same :
    (id : String) (identifiers : List Identifier) (s : IdentityResolver)
    → ((index_documents id identifiers s).1.by_key ≡ s.by_key)
      × ((index_documents id identifiers s).1.aliases ≡ s.aliases)
unfolding index_documents
index_documents-same id [] s = (refl, refl)
index_documents-same id (i ∷ identifiers) s = elim (Bool-cases (i.kind == artifact_kind)) [
  | inr e ↦ rw e (index_documents-same id identifiers s)
  | inl e ↦ elim (Result-cases (normalize_identifier artifact_kind i.value)) [
    | inr (x, f) ↦ rw (e, f) (refl, refl)
    | inl (h, f) ↦ rw (e, f) (index_documents-same id identifiers (linked h id s))
  ]
]

is_empty-add : (xs : List Text) (y : Text) → is_empty (add xs y) ≡ false
unfolding add
is_empty-add [] y = refl
is_empty-add (x ∷ xs) y = ground arith

add_each-grows : (xs ys : List Text) → is_empty xs ≡ false → is_empty (add_each xs ys) ≡ false
unfolding add_each
add_each-grows xs [] h = h
add_each-grows xs (y ∷ ys) h = add_each-grows (add xs y) ys (is_empty-add xs y)

register-IsKept :
    (digest12 : Text → String) (id : String) (ks : List Text) (s : IdentityResolver)
    → choose_id digest12 ks (found_ids s.by_key ks) ≡ ok id
    → IsKept s (register id ks s)
register-IsKept digest12 id ks s chosen = record {
  keys = λ k r h. rw (get-put_all s.by_key ks id k) (elim (Bool-cases (elem k ks)) [
    | inr e ↦ rw e h
    | inl e ↦ rw e (
        ap (λ x. some x)
          (sym (
            choose_id-elem digest12 ks (found_ids s.by_key ks) r chosen
              (found_ids-elem s.by_key ks k r e h))))
  ]);
  known = λ r h.
      let new = add_each (set_at s.aliases id) ks in
      let at : get (put s.aliases id new) r ≡ (if id == r then some new else get s.aliases r) =
        get-put s.aliases id r new in
      elim (Bool-cases (id == r)) [
        | inr e ↦
            ap (λ o. is_empty (or_empty o))
              (at ∙ ap (λ b. if b then some new else get s.aliases r) e)
            ∙ h
        | inl e ↦
            ap (λ o. is_empty (or_empty o))
              (at ∙ ap (λ b. if b then some new else get s.aliases r) e)
            ∙ add_each-grows (set_at s.aliases id) ks
                (subst (λ x. is_empty (set_at s.aliases x) ≡ false) (sym ((==_iff id r).0 e)) h)
      ];
}

pub registered_known :
    (id : String) (ks : List Text) (s : IdentityResolver)
    → is_empty ks ≡ false
    → is_empty (set_at (register id ks s).aliases id) ≡ false
registered_known id [] s h = cc
registered_known id (k ∷ ks) s h =
    ap (λ o. is_empty (or_empty o)) (get-put_self s.aliases id _)
    ∙ (unfold add_each in
        add_each-grows (add (set_at s.aliases id) k) ks (is_empty-add (set_at s.aliases id) k))

IsKept-same :
    (s t u : IdentityResolver)
    → IsKept s t
    → u.by_key ≡ t.by_key
    → u.aliases ≡ t.aliases
    → IsKept s u
IsKept-same s t u k e f = record {
  keys = λ j r h. ap (λ d. get d j) e ∙ k.keys j r h;
  known = λ r h. ap (λ d. is_empty (set_at d r)) f ∙ k.known r h;
}

finish-IsKept :
    (digest12 : Text → String) (identifiers : List Identifier) (ks : List Text) (id : String)
    (s : IdentityResolver)
    → choose_id digest12 ks (found_ids s.by_key ks) ≡ ok id
    → IsKept s (finish identifiers ks id s).1
unfolding finish
finish-IsKept digest12 identifiers ks id s chosen =
    let (e, f) = index_documents-same id identifiers (register id ks s) in
    IsKept-same s (register id ks s) _ (register-IsKept digest12 id ks s chosen) e f

-- No destructive merge: whatever identifiers are resolved, conflicts and bad ones included, a key
-- that belongs to a record stays with this record, and no record that is known is forgotten.
pub resolve_matter-IsKept :
    (digest12 : Text → String) (identifiers : List Identifier) (s : IdentityResolver)
    → IsKept s (resolve_matter digest12 identifiers s).1
unfolding resolve_matter resolve_keys
resolve_matter-IsKept digest12 identifiers s = elim (Result-cases (keys_of identifiers)) [
  | inr (x, e) ↦ rw (e, resolve_matter) (IsKept-refl s)
  | inl (ks, e) ↦ elim (Bool-cases (is_empty ks)) [
    | inl f ↦ rw (e, resolve_matter) (rw (f, resolve_keys) (IsKept-refl s))
    | inr f ↦ elim (Result-cases (choose_id digest12 ks (found_ids s.by_key ks))) [
      | inr (x, g) ↦ rw (e, resolve_matter) (rw (f, resolve_keys) (rw g (IsKept-refl s)))
      | inl (id, g) ↦
          rw (e, resolve_matter)
            (rw (f, resolve_keys) (rw g (finish-IsKept digest12 identifiers ks id s g)))
    ]
  ]
]
