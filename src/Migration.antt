-- ===== src/Migration.antt =====
-- The migration importer and its ledger (packages/python/atlas/migration.py), with the
-- relationships of identity.py that a merge records. `normalize` is `normalize_legacy_id`, which is
-- Unicode normalization and case folding; `digest12` and `sha256_hex` are SHA-256, and a payload is
-- its list of bytes. All three are arguments, in `Host`.
mod Tests
pub mod Ledger
pub mod Merges
use exposure_atlas.Base.{
  ℕ, String, ◌^^◌, Bool, true, false, Option, none, some, List, [], ◌∷◌, ◌++◌, map, not, ◌&&◌, elem,
  select, is_empty, Result, ok, err, Exec, ◌==◌, text_eq_instance, if◌then◌else◌,
}
use exposure_atlas.Base.Dict.{Dict, get, put, values}

abbrev pub mig_namespace : String
mig_namespace = "atlas-migration/ns/v1"

abbrev pub secondary_dispositions : List String
secondary_dispositions = "awaiting_primary" ∷ "quarantined" ∷ []

pub data MigrationError : Type 0 where
  no_payload no_redirect schema_error : MigrationError

pub record Entry : Type 0 where
  pub legacy_id : String
  pub payload_sha256 : String
  pub mapping_version : String
  pub target_record_ids : List String
  pub disposition : String
  pub verification_migration_state : String
  pub next_action : Option String

pub record Relationship : Type 0 where
  pub relationship_id : String
  pub kind : String
  pub from_record_id : String
  pub to_record_id : String
  pub decided_by : String
  pub decided_at : String
  pub reversible : Bool
  pub reason : Option String

pub record MigrationImporter : Type 0 where
  pub entries : Dict String Entry
  pub payloads : Dict String (List ℕ)
  pub redirects : Dict String String

pub record Host : Type 0 where
  pub normalize : String → String
  pub digest12 : String → String
  pub sha256_hex : List ℕ → String
  pub entry_ok : Entry → Bool
  pub relationship_ok : Relationship → Bool

pub stable_record_id : Host → String → String
stable_record_id host legacy_id =
    "rec_" ^^ host.digest12 (mig_namespace ^^ "\n" ^^ host.normalize legacy_id)

-- The ordinals are given as their decimal texts.
pub split_record_ids : Host → String → String → List String → List String
split_record_ids host legacy_id split_decision_id ordinals =
    map
      (λ o.
        "rec_"
        ^^ host.digest12 (
            mig_namespace
            ^^ "\n"
            ^^ host.normalize legacy_id
            ^^ "\n"
            ^^ split_decision_id
            ^^ "\n"
            ^^ o))
      ordinals

pub record Import : Type 0 where
  pub entry : Entry
  pub record_id : String
  pub is_new : Bool
  pub changed : Bool

pub held_back : Bool → String → String
held_back secondary_only disposition =
    if secondary_only && not (elem disposition secondary_dispositions)
    then "awaiting_primary"
    else disposition

-- `"; ".join(warnings)`
joined : List String → String
joined [] = ""
joined (w ∷ []) = w
joined (w ∷ v ∷ warnings) = w ^^ "; " ^^ joined (v ∷ warnings)

next_action_of : List String → Option String
unfolding joined
next_action_of warnings = if is_empty warnings then none else some (joined warnings)

-- The prior entry is the one that the import would write, warnings and spelling apart.
pub unchanged : Entry → Entry → Bool
unchanged prior entry =
    prior.payload_sha256 == entry.payload_sha256
    && prior.mapping_version == entry.mapping_version
    && prior.disposition == entry.disposition

pub new_entry : Host → String → List ℕ → String → String → Bool → List String → Entry
unfolding held_back next_action_of
new_entry host legacy_id payload mapping_version disposition secondary_only warnings = record {
  legacy_id = legacy_id;
  payload_sha256 = host.sha256_hex payload;
  mapping_version = mapping_version;
  target_record_ids = stable_record_id host legacy_id ∷ [];
  disposition = held_back secondary_only disposition;
  verification_migration_state = "legacy_unverified";
  next_action = next_action_of warnings;
}

-- `if slug: self._redirects[normalize_legacy_id(slug)] = record_id`
slug_redirect : Host → Option String → String → Dict String String → Dict String String
slug_redirect host none record_id redirects = redirects
slug_redirect host (some slug) record_id redirects =
    if slug == "" then redirects else put redirects (host.normalize slug) record_id

write_entry :
    Host → Entry → List ℕ → Option String → Bool → Exec MigrationImporter MigrationError Import
unfolding slug_redirect
write_entry host entry payload slug is_new m =
    let id = stable_record_id host entry.legacy_id in
    let norm = host.normalize entry.legacy_id in
    if host.entry_ok entry
    then (
      ok (record { entry = entry; record_id = id; is_new = is_new; changed = not is_new }),
      record {
        entries = put m.entries norm entry;
        payloads = put m.payloads id payload;
        redirects = slug_redirect host slug id (put m.redirects norm id);
      },
    )
    else (err MigrationError.schema_error, m)

import_over :
    Host
    → Option Entry
    → Entry
    → List ℕ
    → Option String
    → Exec MigrationImporter MigrationError Import
unfolding write_entry
import_over host none entry payload slug m = write_entry host entry payload slug true m
import_over host (some prior) entry payload slug m =
    if unchanged prior entry
    then (
      ok (record {
        entry = prior;
        record_id = stable_record_id host entry.legacy_id;
        is_new = false;
        changed = false;
      }),
      m,
    )
    else write_entry host entry payload slug false m

pub import_record :
    Host
    → String
    → List ℕ
    → String
    → String
    → Bool
    → List String
    → Option String
    → Exec MigrationImporter MigrationError Import
unfolding new_entry import_over
import_record host legacy_id payload mapping_version disposition secondary_only warnings slug m =
    import_over host (get m.entries (host.normalize legacy_id))
      (new_entry host legacy_id payload mapping_version disposition secondary_only warnings) payload
      slug m

found : {A : Type 0} → MigrationError → Option A → Result MigrationError A
found e none = err e
found e (some a) = ok a

pub get_payload : MigrationImporter → String → Result MigrationError (List ℕ)
unfolding found
get_payload m record_id = found MigrationError.no_payload (get m.payloads record_id)

pub resolve_redirect : Host → MigrationImporter → String → Result MigrationError String
unfolding found
resolve_redirect host m slug_or_legacy =
    found MigrationError.no_redirect (get m.redirects (host.normalize slug_or_legacy))

-- `make_relationship`
pub make_relationship :
    Host
    → String
    → String
    → String
    → String
    → String
    → Option String
    → Result MigrationError Relationship
make_relationship host kind from to decided_by decided_at reason =
    let rln : Relationship = record {
      relationship_id = "rln_" ^^ host.digest12 (kind ^^ "\n" ^^ from ^^ "\n" ^^ to);
      kind = kind;
      from_record_id = from;
      to_record_id = to;
      decided_by = decided_by;
      decided_at = decided_at;
      reversible = true;
      reason = reason;
    } in
    if host.relationship_ok rln then ok rln else err MigrationError.schema_error

-- Every redirect to `merged` is turned to the survivor.
pub redirect_to : String → String → Dict String String → Dict String String
redirect_to surviving merged [] = []
redirect_to surviving merged ((key, rid) ∷ redirects) =
    (key, if rid == merged then surviving else rid) ∷ redirect_to surviving merged redirects

merge_one :
    String
    → Result MigrationError Relationship
    → String
    → MigrationImporter
    → Result MigrationError Relationship × MigrationImporter
unfolding redirect_to
merge_one surviving (err e) merged m = (err e, m)
merge_one surviving (ok rln) merged m =
    (ok rln, record m { redirects = redirect_to surviving merged m.redirects })

merged_first :
    Relationship
    → Result MigrationError (List Relationship) × MigrationImporter
    → Result MigrationError (List Relationship) × MigrationImporter
merged_first rln (ok rlns, m) = (ok (rln ∷ rlns), m)
merged_first rln (err e, m) = (err e, m)

merge_rest :
    Result MigrationError Relationship × MigrationImporter
    → Exec MigrationImporter MigrationError (List Relationship)
    → Result MigrationError (List Relationship) × MigrationImporter
unfolding merged_first
merge_rest (err e, m) rest = (err e, m)
merge_rest (ok rln, m) rest = merged_first rln (rest m)

-- `merge`: the relationships that it returns
pub merge :
    Host
    → String
    → List String
    → String
    → String
    → Exec MigrationImporter MigrationError (List Relationship)
unfolding merge_one merge_rest
merge host surviving [] decided_at reason m = (ok [], m)
merge host surviving (mid ∷ merged) decided_at reason m =
    merge_rest
      (merge_one surviving
        (make_relationship host "consolidated_with" mid surviving "Alexios" decided_at
          (some reason))
        mid m)
      (merge host surviving merged decided_at reason)

pub is_citable : Entry → Bool
is_citable entry = not (entry.verification_migration_state == "legacy_unverified")

pub citable_entries : MigrationImporter → List Entry
unfolding is_citable
citable_entries m = select is_citable (values m.entries)
