-- ===== src/Migration/Tests.antt =====
-- Two imports and a merge of the second record into the first.
use exposure_atlas.Base.{String, true, false, none, some, [], ◌∷◌, ok, ◌≡◌, refl, text_eq_instance}
use exposure_atlas.Base.Dict.{get, put}
use exposure_atlas.Migration.{
  Host, Import, Relationship, MigrationImporter, new_entry, stable_record_id, import_record, merge,
  make_relationship, citable_entries,
}
use exposure_atlas.Migration.Ledger.{
  Steps, Step, new_importer, repeated, never_citable, import_record_idempotent,
}

abbrev host : Host
host = record {
  normalize = λ s. s;
  digest12 = λ s. s;
  sha256_hex = λ b. "h";
  entry_ok = λ e. true;
  relationship_ok = λ r. true;
}

abbrev imported : String → MigrationImporter → MigrationImporter
imported id m = (import_record host id [] "v1" "mapped" true [] none m).1

abbrev one : MigrationImporter
one = imported "a" new_importer

abbrev two : MigrationImporter
two = imported "b" one

abbrev result : Import
result = record {
  entry = new_entry host "b" [] "v1" "mapped" true [];
  record_id = stable_record_id host "b";
  is_new = true;
  changed = false;
}

second-imported : (import_record host "b" [] "v1" "mapped" true [] none one).0 ≡ ok result
unfolding import_record get put stable_record_id
second-imported = refl

import_record_idempotent_example :
    (import_record host "b" [] "v1" "mapped" true [] none two ≡ (ok (repeated result), two))
    × (stable_record_id host "b" ≡ stable_record_id host "b")
import_record_idempotent_example =
    import_record_idempotent host "b" [] "v1" "mapped" true [] none one second-imported

abbrev merged : MigrationImporter
merged = (merge host "s" ("b" ∷ []) "2026-07-11" "same" two).1

never_citable_example : citable_entries merged ≡ []
never_citable_example = never_citable host merged (
    Steps.next
      (Steps.next
        (Steps.next (Steps.done new_importer)
          (Step.imports "a" [] "v1" "mapped" true [] none new_importer))
        (Step.imports "b" [] "v1" "mapped" true [] none one))
      (Step.merges "s" ("b" ∷ []) "2026-07-11" "same" two))

abbrev relationship : Relationship
relationship = record {
  relationship_id = "rln_consolidated_with\nb\ns";
  kind = "consolidated_with";
  from_record_id = "b";
  to_record_id = "s";
  decided_by = "Alexios";
  decided_at = "2026-07-11";
  reversible = true;
  reason = some "same";
}

abbrev redirected : MigrationImporter
redirected = record new_importer { redirects = ("slug", "b") ∷ ("other", "c") ∷ [] }

merge-goes : (merge host "s" ("b" ∷ []) "2026-07-11" "same" redirected).0 ≡ ok (relationship ∷ [])
unfolding merge make_relationship
merge-goes = refl
