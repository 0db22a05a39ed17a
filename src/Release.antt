-- ===== src/Release.antt =====
-- Releases: the suppression overlay (suppression.py), the allowlist projection and the release
-- builder (release.py) and the read path (readpath.py), from packages/python/atlas/. The release
-- directory is a dict from relative paths to bytes; JSON and SHA-256 are parameters.
pub mod Projection
pub mod Files
pub mod Reading
mod Tests
use exposure_atlas.Base.{
  ℕ, String, ◌^^◌, Bool, true, false, Option, none, some, List, [], ◌∷◌, not, ◌&&◌, ◌||◌, any, elem,
  map, text_leb, Result, ok, err, Exec, ◌>>=◌, ◌>>◌, raise_if, or_raise, if◌then◌else◌, ◌==◌,
  text_eq_instance, nat_eq,
}
use exposure_atlas.Base.Dict.{Dict, get, put, has, keys}
use exposure_atlas.Base.Sort.{sorted, sort_by}
use exposure_atlas.Base.Text.{codes}
use exposure_atlas.Anchors.{is_prefix}

abbrev pub Bytes : Type 0
Bytes = List ℕ

abbrev pub Files : Type 0
Files = Dict String Bytes

-- `no_file` and `no_key` are the missing file and the missing key.
pub data ReleaseError : Type 0 where
  unapproved_assertion no_key schema_error canary no_file hash_mismatch root_mismatch
        overlay_integrity :
      ReleaseError

pub record Overlay : Type 0 where
  pub overlay_id : String
  pub as_of : String
  pub denied_record_ids : List String
  pub denial_reasons : Dict String String
  pub payload_sha256 : String

module _ (payload_hash : String → String → List String → Dict String String → String)
    (overlay_ok : Overlay → Bool) where
  unfoldable pub make_overlay :
      (overlay_id as_of : String) (denied : Dict String String) → Result ReleaseError Overlay
  make_overlay overlay_id as_of denied =
      let overlay : Overlay = record {
        overlay_id = overlay_id;
        as_of = as_of;
        denied_record_ids = sorted (keys denied);
        denial_reasons = denied;
        payload_sha256 = payload_hash overlay_id as_of (sorted (keys denied)) denied;
      } in
      raise_if (not (overlay_ok overlay)) ReleaseError.schema_error >> ok overlay

  unfoldable pub verify_overlay : Overlay → Result ReleaseError (Unit {0})
  verify_overlay o =
      raise_if (not (overlay_ok o)) ReleaseError.schema_error
      >> raise_if
          (not (
            payload_hash o.overlay_id o.as_of o.denied_record_ids o.denial_reasons
            == o.payload_sha256))
          ReleaseError.overlay_integrity

  unfoldable pub is_denied : Overlay → String → Result ReleaseError Bool
  is_denied o record_id = verify_overlay o >> ok (elem record_id o.denied_record_ids)

-- Private markers that no public artifact may hold.
abbrev pub canary_markers : List String
canary_markers = "INTERNAL_CANARY" ∷ "reviewer_note" ∷ "internal_url" ∷ []

-- `marker in text`
unfoldable pub contains : Bytes → Bytes → Bool
unfolding is_prefix
contains marker [] = is_prefix marker []
contains marker (c ∷ text) = is_prefix marker (c ∷ text) || contains marker text

unfoldable pub has_canary : Bytes → Bool
unfolding codes
has_canary text = any (λ marker. contains (codes marker) text) canary_markers

pub record Manifest : Type 0 where
  pub release_id : String
  pub snapshot_id : String
  pub prior_release_id : Option String
  pub created_from_commit : String
  pub artifact_hashes : Dict String String
  pub root_hash : String
  pub policy_versions : Dict String String
  pub build_timestamp : String
  pub signed_sha256 : String

abbrev pub manifest_path : String
manifest_path = "release-manifest.json"

abbrev pub record_path : String → String
record_path record_id = "records/" ^^ (record_id ^^ ".json")

-- A document of a release is any type with a record id and canonical JSON.
module _ {R : Type 0} (record_id : R → String) (record_bytes : R → Bytes)
    (sha256 : Bytes → String) where
  abbrev pub write_next :
      (Dict String String → Files → Result ReleaseError (Dict String String) × Files)
      → Bool
      → String
      → Bytes
      → Dict String String
      → Exec Files ReleaseError (Dict String String)
  write_next rest true path bytes hashes files = (err ReleaseError.canary, files)
  write_next rest false path bytes hashes files =
      rest (put hashes path (sha256 bytes)) (put files path bytes)

  -- The loop over the sorted records; what was written before a canary stays written.
  unfoldable pub write_records :
      List R → Dict String String → Exec Files ReleaseError (Dict String String)
  write_records [] hashes files = (ok hashes, files)
  write_records (r ∷ records) hashes files =
      write_next (write_records records) (has_canary (record_bytes r)) (record_path (record_id r))
        (record_bytes r) hashes files

  module _ (manifest_bytes : Manifest → Bytes) (manifest_ok : Manifest → Bool)
      (root_of : Dict String String → String) where
    abbrev pub write_manifest : Bool → Manifest → Exec Files ReleaseError Manifest
    write_manifest false manifest files = (err ReleaseError.schema_error, files)
    write_manifest true manifest files =
        (ok manifest, put files manifest_path (manifest_bytes manifest))

    abbrev pub close_release :
        (Dict String String → Manifest)
        → Result ReleaseError (Dict String String) × Files
        → Result ReleaseError Manifest × Files
    close_release make (err e, files) = (err e, files)
    close_release make (ok hashes, files) =
        write_manifest (manifest_ok (make hashes)) (make hashes) files

    abbrev pub before_record : R → R → Bool
    before_record a b = text_leb (record_id a) (record_id b)

    unfoldable pub build_release :
        (release_id snapshot_id : String) (policy_versions : Dict String String) (records : List R)
        (build_timestamp commit : String) (prior_release_id : Option String)
        → Exec Files ReleaseError Manifest
    build_release release_id snapshot_id policy_versions records build_timestamp commit
          prior_release_id files =
        close_release
          (λ hashes. record {
            release_id = release_id;
            snapshot_id = snapshot_id;
            prior_release_id = prior_release_id;
            created_from_commit = commit;
            artifact_hashes = hashes;
            root_hash = root_of hashes;
            policy_versions = policy_versions;
            build_timestamp = build_timestamp;
            signed_sha256 = root_of hashes;
          })
          (write_records (sort_by before_record records) [] files)

-- What the read path answers.
pub data Served (R : Type 0) : Type 0 where
  suppressed : (release_id record_id overlay_id : String) → Served R
  not_found_in_atlas : (release_id record_id : String) → Served R
  served : (release_id overlay_id : String) → R → Served R

module _ (sha256 : Bytes → String) (load_manifest : Bytes → Manifest)
    (manifest_ok : Manifest → Bool) (root_of : Dict String String → String) where
  unfoldable pub check_artifacts : Files → Dict String String → Result ReleaseError (Unit {0})
  check_artifacts files [] = ok tt
  check_artifacts files ((path, digest) ∷ hashes) =
      let rest = check_artifacts files hashes in
      or_raise (get files path) ReleaseError.no_file >>= λ bytes.
      raise_if (not (sha256 bytes == digest)) ReleaseError.hash_mismatch >> rest

  unfoldable pub verify_release : Files → Result ReleaseError Manifest
  verify_release files = or_raise (get files manifest_path) ReleaseError.no_file >>= λ bytes.
      let m = load_manifest bytes in
      raise_if (not (manifest_ok m)) ReleaseError.schema_error
      >> (check_artifacts files m.artifact_hashes
          >> (raise_if (not (root_of m.artifact_hashes == m.root_hash)) ReleaseError.root_mismatch
              >> ok m))

  module _ {R : Type 0} (load_record : Bytes → R)
      (payload_hash : String → String → List String → Dict String String → String)
      (overlay_ok : Overlay → Bool) where
    -- the test whether the manifest names the path
    abbrev pub read_listed :
        Files → Manifest → String → String → Option String → Result ReleaseError (Served R)
    read_listed files m record_id overlay_id none =
        ok (Served.not_found_in_atlas m.release_id record_id)
    read_listed files m record_id overlay_id (some digest) =
        or_raise (get files (record_path record_id)) ReleaseError.no_file >>= λ bytes.
        ok (Served.served m.release_id overlay_id (load_record bytes))

    abbrev pub read_record : Files → Manifest → String → String → Result ReleaseError (Served R)
    read_record files m record_id overlay_id =
        read_listed files m record_id overlay_id (get m.artifact_hashes (record_path record_id))

    abbrev pub answer : Files → Manifest → String → String → Bool → Result ReleaseError (Served R)
    answer files m record_id overlay_id true =
        ok (Served.suppressed m.release_id record_id overlay_id)
    answer files m record_id overlay_id false = read_record files m record_id overlay_id

    unfoldable pub serve_record :
        Files → (record_id : String) → Overlay → Result ReleaseError (Served R)
    serve_record files record_id o = verify_release files >>= λ m.
        is_denied payload_hash overlay_ok o record_id >>= answer files m record_id o.overlay_id
