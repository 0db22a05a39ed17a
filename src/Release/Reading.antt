-- ===== src/Release/Reading.antt =====
-- What the read path serves of a release that was built.
use exposure_atlas.Base.{
  String, Bool, true, false, Option, none, some, List, ok, or_raise, elem, text_eq_instance, ◌≡◌,
  refl, sym, ap, ◌∙◌, subst, ok_inj, >>=-eq-ok, >>-eq-ok,
}
use mathlib.Core.List.{Mem}
use exposure_atlas.Base.Dict.{Dict, get}
use exposure_atlas.Release.{
  Bytes, Files, ReleaseError, Overlay, is_denied, verify_overlay, Manifest, has_canary, record_path,
  build_release, verify_release, Served, read_listed, read_record, answer, serve_record,
}
use exposure_atlas.Release.Files.{IsReleased, build_release-IsReleased, IsReleased-verify_release}

-- What is served is a record of the release under this id, which the overlay does not deny, whose
-- bytes hold no private marker.
pub record IsPublic {R : Type 0} (record_id : R → String) (record_bytes : R → Bytes)
    (records : List R) (o : Overlay) (id : String) (body : R) : Type 0 where
  pub allowed : elem id o.denied_record_ids ≡ false
  pub member : Mem body records
  pub place : record_path (record_id body) ≡ record_path id
  pub clean : has_canary (record_bytes body) ≡ false

module _ {R : Type 0} (record_id : R → String) (record_bytes : R → Bytes) (load_record : Bytes → R)
    (load_record_bytes : (r : R) → load_record (record_bytes r) ≡ r) (sha256 : Bytes → String)
    (manifest_bytes : Manifest → Bytes) (load_manifest : Bytes → Manifest)
    (manifest_ok : Manifest → Bool) (root_of : Dict String String → String)
    (payload_hash : String → String → List String → Dict String String → String)
    (overlay_ok : Overlay → Bool) where
  read_record-IsPublic :
      (records : List R) (m : Manifest) (files : Files) (id : String) (o : Overlay)
      {release_id overlay_id : String} {body : R}
      → IsReleased record_id record_bytes sha256 manifest_bytes load_manifest manifest_ok root_of
          records m files
      → elem id o.denied_record_ids ≡ false
      → read_record sha256 load_manifest manifest_ok root_of load_record payload_hash overlay_ok
          files m id o.overlay_id
        ≡ ok (Served.served release_id overlay_id body)
      → IsPublic record_id record_bytes records o id body
  read_record-IsPublic records m files id o released allowed h =
      listed (get m.artifact_hashes (record_path id)) refl h
    where
      missing :
          {r i : String} {s t : String} {b : R}
          → Served.not_found_in_atlas r i ≡ Served.served s t b
          → ⊥
      missing e = cc

      body_inj :
          {r s : String} {q t : String} {a b : R}
          → Served.served r q a ≡ Served.served s t b
          → a ≡ b
      body_inj e = cc

      listed :
          (found : Option String) {release_id overlay_id : String} {body : R}
          → get m.artifact_hashes (record_path id) ≡ found
          → read_listed sha256 load_manifest manifest_ok root_of load_record payload_hash overlay_ok
              files m id o.overlay_id found
            ≡ ok (Served.served release_id overlay_id body)
          → IsPublic record_id record_bytes records o id body
      listed none e k = absurd (missing (ok_inj k))
      listed (some digest) e k =
          let a = released.written.artifacts (record_path id) digest e in
          let read : or_raise (get files (record_path id)) ReleaseError.no_file
              ≡ ok (record_bytes a.written) =
            ap (λ x. or_raise x ReleaseError.no_file) a.stored in
          let (bytes, got, made) =
            >>=-eq-ok (or_raise (get files (record_path id)) ReleaseError.no_file) _ k in
          let same_bytes : record_bytes a.written ≡ bytes = ok_inj (sym read ∙ got) in
          let same =
            sym (load_record_bytes a.written)
            ∙ ap load_record same_bytes
            ∙ body_inj (ok_inj made) in
          subst (IsPublic record_id record_bytes records o id) same
            (record { allowed = allowed; member = a.member; place = a.place; clean = a.clean })

  answered :
      {records : List R} (m : Manifest) (files : Files) (id : String) (o : Overlay)
      {release_id overlay_id : String} {body : R}
      → IsReleased record_id record_bytes sha256 manifest_bytes load_manifest manifest_ok root_of
          records m files
      → (denied : Bool) → elem id o.denied_record_ids ≡ denied
      → answer sha256 load_manifest manifest_ok root_of load_record payload_hash overlay_ok files m
          id o.overlay_id denied
        ≡ ok (Served.served release_id overlay_id body)
      → IsPublic record_id record_bytes records o id body
  answered m files id o released true e h = absurd (hidden (ok_inj h))
    where
      hidden : {r i q s t : String} {b : R} → Served.suppressed r i q ≡ Served.served s t b → ⊥
      hidden e = cc
  answered m files id o released false e h = read_record-IsPublic _ m files id o released e h

  -- Whatever the read path serves of a release that was built is one of its records, stored under the
  -- path of the id that was asked for, free of private markers and not denied by the overlay in force.
  -- JSON is assumed to read back what it wrote.
  pub serve_record-IsPublic :
      (release_id snapshot_id : String) (policy_versions : Dict String String) (records : List R)
      (build_timestamp commit : String) (prior : Option String) (before : Files) {m : Manifest}
      {files : Files}
      → build_release record_id record_bytes sha256 manifest_bytes manifest_ok root_of release_id
          snapshot_id policy_versions records build_timestamp commit prior before
        ≡ (ok m, files)
      → load_manifest (manifest_bytes m) ≡ m
      → (id : String) (o : Overlay) {served_id overlay_id : String} {body : R}
      → serve_record sha256 load_manifest manifest_ok root_of load_record payload_hash overlay_ok
          files id o
        ≡ ok (Served.served served_id overlay_id body)
      → IsPublic record_id record_bytes records o id body
  unfolding serve_record is_denied
  serve_record-IsPublic release_id snapshot_id policy_versions records build_timestamp commit prior
        before {m} {files} built again id o {served_id} {overlay_id} {body} h =
      let released =
        build_release-IsReleased record_id record_bytes sha256 manifest_bytes load_manifest
          manifest_ok root_of release_id snapshot_id policy_versions records build_timestamp commit
          prior before built in
      let verified =
        IsReleased-verify_release record_id record_bytes sha256 manifest_bytes load_manifest
          manifest_ok root_of records m files again released in
      let (found, first, h1) =
        >>=-eq-ok (verify_release sha256 load_manifest manifest_ok root_of files) _ h in
      let same : found ≡ m = ok_inj (sym first ∙ verified) in
      let (denied, looked, h2) = >>=-eq-ok (is_denied payload_hash overlay_ok o id) _ h1 in
      let (_, made) = >>-eq-ok (verify_overlay payload_hash overlay_ok o) _ looked in
      answered m files id o released denied (ok_inj made) (
        subst
          (λ x.
            answer sha256 load_manifest manifest_ok root_of load_record payload_hash overlay_ok
              files x id o.overlay_id denied
            ≡ ok (Served.served served_id overlay_id body))
          same h2)
