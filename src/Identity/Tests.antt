-- ===== src/Identity/Tests.antt =====
-- A matter that is resolved, gets a second identifier, and meets another matter.
use exposure_atlas.Base.{
  String, true, false, List, [], ◌∷◌, ok, ◌≡◌, refl, text_eq_instance, nat_eq, list_eq,
}
use exposure_atlas.Base.Dict.{get, put}
use exposure_atlas.Base.Text.{codes}
use exposure_atlas.Base.Sort.{sort_by}
use exposure_atlas.Anchors.{is_prefix}
use exposure_atlas.Identity.{
  Text, Identifier, words_from, normalize_identifier, identity_key, new_record_id_of,
}
use exposure_atlas.Identity.Resolver.{
  IdentityResolver, empty_resolver, add, add_each, keys_of, found_ids, put_all, index_documents,
  finish, resolve_keys, resolve_matter,
}
use exposure_atlas.Identity.Stability.{IsKept, resolve_matter-IsKept}
use exposure_atlas.Identity.Repeats.{resolve_all, resolve_matter_stable}

abbrev digest : Text → String
digest k = "0"

-- "Case-1" and "case-1" under a docket
abbrev docket : Text → List Identifier
docket value = record { kind = "docket_id"; value = value } ∷ []

abbrev upper_case : Text
upper_case = 67 ∷ 45 ∷ 49 ∷ []

abbrev lower_case : Text
lower_case = 99 ∷ 45 ∷ 49 ∷ []

abbrev resolved : IdentityResolver
resolved = (resolve_matter digest (docket upper_case) empty_resolver).1

resolve-ok :
    resolve_matter digest (docket upper_case) empty_resolver ≡ (ok ("rec_0", true), resolved)
unfolding resolve_matter resolve_keys finish keys_of identity_key normalize_identifier words_from
    codes found_ids new_record_id_of index_documents put_all add_each add get put sort_by is_prefix
resolve-ok = refl

resolve_matter-IsKept_example :
    IsKept resolved (resolve_matter digest (docket lower_case) resolved).1
resolve_matter-IsKept_example = resolve_matter-IsKept digest (docket lower_case) resolved

resolve_matter_stable_example :
    (resolve_matter digest
      (docket upper_case)
      (resolve_all digest (docket (50 ∷ []) ∷ docket lower_case ∷ []) resolved)).0
    ≡ ok ("rec_0", false)
resolve_matter_stable_example =
    resolve_matter_stable digest (docket upper_case) empty_resolver resolved resolve-ok
      (docket (50 ∷ []) ∷ docket lower_case ∷ [])
