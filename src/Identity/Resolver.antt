-- ===== src/Identity/Resolver.antt =====
-- The index of exact identities (`IdentityResolver`, packages/python/atlas/identity.py).
use exposure_atlas.Base.{
  String, Bool, Option, none, some, List, [], ◌∷◌, ◌++◌, not, elem, is_empty, Result, ok, err,
  ◌>>=◌, ◌>>◌, raise_if, if◌then◌else◌, ◌==◌, text_eq_instance, nat_eq, list_eq, Eq,
}
use exposure_atlas.Base.Dict.{Dict, get, put}
use exposure_atlas.Base.{Exec}
use exposure_atlas.Base.Sort.{sort_by, sorted}
use exposure_atlas.Identity.{
  Text, Identifier, IdentityError, matter_id_kinds, artifact_kind, normalize_identifier,
  identity_key, new_record_id, text_le,
}

pub record IdentityResolver : Type 0 where
  pub by_key : Dict Text String
  pub aliases : Dict String (List Text)
  pub doc_index : Dict Text (List String)

module _ {A : Type 0} ⦃e : Eq A⦄ where
  -- `xs.add(x)`
  unfoldable pub add : List A → A → List A
  add xs x = if elem x xs then xs else xs ++ x ∷ []

  unfoldable pub add_each : List A → List A → List A
  unfolding add
  add_each xs [] = xs
  add_each xs (y ∷ ys) = add_each (add xs y) ys

  abbrev pub or_empty : Option (List A) → List A
  or_empty none = []
  or_empty (some xs) = xs

  -- `d.get(k, set())`
  abbrev pub set_at : {K : Type 0} → ⦃f : Eq K⦄ → Dict K (List A) → K → List A
  set_at d k = or_empty (get d k)

abbrev pub empty_resolver : IdentityResolver
empty_resolver = record { by_key = []; aliases = []; doc_index = [] }

unfoldable pub keys_of : List Identifier → Result IdentityError (List Text)
keys_of [] = ok []
keys_of (i ∷ identifiers) =
    let rest = keys_of identifiers in
    if elem i.kind matter_id_kinds
    then (identity_key i.kind i.value >>= λ k. rest >>= λ ks. ok (k ∷ ks))
    else rest

abbrev pub note_id : Option String → List String → List String
note_id none ids = ids
note_id (some r) ids = add ids r

-- the records that the keys belong to already
unfoldable pub found_ids : Dict Text String → List Text → List String
found_ids by_key [] = []
found_ids by_key (k ∷ ks) = note_id (get by_key k) (found_ids by_key ks)

abbrev pub choose_id : (Text → String) → List Text → List String → Result IdentityError String
choose_id digest12 matter_keys [] = new_record_id digest12 matter_keys
choose_id digest12 matter_keys (r ∷ []) = ok r
choose_id digest12 matter_keys (r ∷ q ∷ rs) = err (IdentityError.conflict (sorted (r ∷ q ∷ rs)))

unfoldable pub put_all : Dict Text String → List Text → String → Dict Text String
put_all by_key [] record_id = by_key
put_all by_key (k ∷ ks) record_id = put_all (put by_key k record_id) ks record_id

abbrev pub register : String → List Text → IdentityResolver → IdentityResolver
register record_id matter_keys s = record s {
  by_key = put_all s.by_key matter_keys record_id;
  aliases = put s.aliases record_id (add_each (set_at s.aliases record_id) matter_keys);
}

abbrev pub linked : Text → String → IdentityResolver → IdentityResolver
linked h record_id s = record s {
  doc_index = put s.doc_index h (add (set_at s.doc_index h) record_id);
}

-- The loop over the artifact hashes; one that is bad ends it, and what was written stays.
unfoldable pub index_documents :
    String → List Identifier → Exec IdentityResolver IdentityError (Unit {0})
index_documents record_id [] s = (ok tt, s)
index_documents record_id (i ∷ identifiers) s =
    if i.kind == artifact_kind
    then elim (normalize_identifier artifact_kind i.value) [
      | err e ↦ (err e, s)
      | ok h ↦ index_documents record_id identifiers (linked h record_id s)
    ]
    else index_documents record_id identifiers s

unfoldable pub finish :
    List Identifier → List Text → String → Exec IdentityResolver IdentityError (String × Bool)
finish identifiers matter_keys record_id s =
    let is_new = is_empty (set_at s.aliases record_id) in
    let (outcome, after) =
      index_documents record_id identifiers (register record_id matter_keys s) in
    (outcome >> ok (record_id, is_new), after)

unfoldable pub resolve_keys :
    (Text → String)
    → List Identifier
    → List Text
    → Exec IdentityResolver IdentityError (String × Bool)
resolve_keys digest12 identifiers matter_keys s =
    if is_empty matter_keys
    then (err IdentityError.no_matter_identifier, s)
    else elim (choose_id digest12 matter_keys (found_ids s.by_key matter_keys)) [
      | err e ↦ (err e, s)
      | ok record_id ↦ finish identifiers matter_keys record_id s
    ]

-- `resolve`: the record of the matter, and whether it is new.
unfoldable pub resolve_matter :
    (digest12 : Text → String) (identifiers : List Identifier)
    → Exec IdentityResolver IdentityError (String × Bool)
resolve_matter digest12 identifiers s = elim (keys_of identifiers) [
  | err e ↦ (err e, s)
  | ok matter_keys ↦ resolve_keys digest12 identifiers matter_keys s
]

unfoldable pub link_document :
    (record_id : String) (h : Text) → Exec IdentityResolver IdentityError (Unit {0})
link_document record_id h s = elim (normalize_identifier artifact_kind h) [
  | err e ↦ (err e, s)
  | ok k ↦ (ok tt, linked k record_id s)
]

unfoldable pub matters_sharing_document :
    Text → IdentityResolver → Result IdentityError (List String)
matters_sharing_document h s =
    normalize_identifier artifact_kind h >>= λ k. ok (set_at s.doc_index k)

unfoldable pub aliases_of : String → IdentityResolver → List Text
aliases_of record_id s = sort_by text_le (set_at s.aliases record_id)

pub record RecordIdentity : Type 0 where
  pub record_id : String
  pub aliases : List Text

unfoldable pub build_identity :
    (schema_ok : RecordIdentity → Bool) (record_id : String)
    → IdentityResolver
    → Result IdentityError RecordIdentity
build_identity schema_ok record_id s =
    let doc : RecordIdentity = record { record_id = record_id; aliases = aliases_of record_id s } in
    raise_if (not (schema_ok doc)) IdentityError.schema_error >> ok doc
