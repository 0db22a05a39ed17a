-- ===== src/Release/Files.antt =====
-- What the release builder writes, and what the verifier reads of it.
use exposure_atlas.Base.{
  ℕ, String, ◌^^◌, Bool, true, false, Option, some, List, [], ◌∷◌, ◌++◌, Result, ok, err, ◌==◌,
  ==_iff, ==_refl, text_eq_instance, All, IsDistinct, ◌≡◌, ◌≢◌, inl, inr, refl, sym, ap, ap₂, ◌∙◌,
  subst, arith, Bool-cases, ok_inj,
}
use mathlib.Core.List.{Mem, mem-cons_self, mem-cons_of_mem}
use mathlib.Core.List.Perm
use exposure_atlas.Base.Dict.{Dict, get, put, keys, get-put, get-put_self}
use exposure_atlas.Base.Entries.{put-IsDistinct, entries-get}
use exposure_atlas.Base.Sort.{sort_by, sort_by-perm}
use exposure_atlas.Base.Text.{codes, codes-append}
use exposure_atlas.Release.{
  Bytes, Files, ReleaseError, Manifest, has_canary, manifest_path, record_path, write_records,
  close_release, build_release, before_record, check_artifacts, verify_release,
}

third : List ℕ → ℕ
third (a ∷ b ∷ c ∷ cs) = c
third _ = 0

-- The path of a record is not that of the manifest.
record_path_apart : (id : String) → record_path id ≢ manifest_path
unfolding codes third
record_path_apart id e =
    let c : codes "records/" ++ codes (id ^^ ".json") ≡ codes manifest_path =
      sym (codes-append "records/" (id ^^ ".json")) ∙ ap codes e in
    let d : ◌≡◌ {A = ℕ} 99 108 = ap third c in omega arith

module _ {R : Type 0} (record_id : R → String) (record_bytes : R → Bytes)
    (sha256 : Bytes → String) where
  -- The artifact of a path: a record of the release, its bytes without any private marker.
  pub record IsArtifact (records : List R) (files : Files) (path digest : String) : Type 0 where
    pub written : R
    pub member : Mem written records
    pub place : record_path (record_id written) ≡ path
    pub stored : get files path ≡ some (record_bytes written)
    pub hashed : sha256 (record_bytes written) ≡ digest
    pub clean : has_canary (record_bytes written) ≡ false

  -- Every hash of the manifest is that of an artifact.
  pub record IsWritten (records : List R) (hashes : Dict String String) (files : Files)
      : Type 0 where
    pub distinct : IsDistinct (keys hashes)
    pub artifacts :
        (path digest : String)
        → get hashes path ≡ some digest
        → IsArtifact records files path digest

  put-IsArtifact :
      (records : List R) (hashes : Dict String String) (files : Files) (r : R)
      → Mem r records
      → has_canary (record_bytes r) ≡ false
      → IsWritten records hashes files
      → IsWritten records
          (put hashes (record_path (record_id r)) (sha256 (record_bytes r)))
          (put files (record_path (record_id r)) (record_bytes r))
  put-IsArtifact records hashes files r m clean w =
      let p = record_path (record_id r) in
      let h = sha256 (record_bytes r) in
      record {
        distinct = put-IsDistinct hashes p h w.distinct;
        artifacts = λ path digest found. elim (Bool-cases (p == path)) [
          | inl same ↦
              let at : get (put hashes p h) path ≡ some h =
                get-put hashes p path h ∙ (rw same refl) in
              let file : get (put files p (record_bytes r)) path ≡ some (record_bytes r) =
                get-put files p path (record_bytes r) ∙ (rw same refl) in
              let e : some h ≡ some digest = sym at ∙ found in
              record {
                written = r;
                member = m;
                place = (==_iff p path).0 same;
                stored = file;
                hashed = cc;
                clean = clean;
              }
          | inr other ↦
              let at : get (put hashes p h) path ≡ get hashes path =
                get-put hashes p path h ∙ (rw other refl) in
              let file : get (put files p (record_bytes r)) path ≡ get files path =
                get-put files p path (record_bytes r) ∙ (rw other refl) in
              let a = w.artifacts path digest (sym at ∙ found) in
              record {
                written = a.written;
                member = a.member;
                place = a.place;
                stored = file ∙ a.stored;
                hashed = a.hashed;
                clean = a.clean;
              }
        ];
      }

  write_records-IsWritten :
      (all_records records : List R) (hashes : Dict String String) (files : Files)
      {hashes' : Dict String String} {files' : Files}
      → ((r : R) → Mem r records → Mem r all_records)
      → IsWritten all_records hashes files
      → write_records record_id record_bytes sha256 records hashes files ≡ (ok hashes', files')
      → IsWritten all_records hashes' files'
  unfolding write_records
  write_records-IsWritten all_records [] hashes files into w h =
      subst (λ (p : Result ReleaseError (Dict String String) × Files). IsWrittenBy p) h w
    where
      IsWrittenBy : Result ReleaseError (Dict String String) × Files → Type 0
      IsWrittenBy (ok hs, fs) = IsWritten all_records hs fs
      IsWrittenBy (err e, fs) = ⊥
  write_records-IsWritten all_records (r ∷ records) hashes files into w h =
      elim (Bool-cases (has_canary (record_bytes r))) [
        | inl dirty ↦ absurd (stopped (ap (λ p. p.0) (rw (dirty, write_records) at h)))
        | inr clean ↦
            write_records-IsWritten all_records records
              (put hashes (record_path (record_id r)) (sha256 (record_bytes r)))
              (put files (record_path (record_id r)) (record_bytes r))
              (λ x m. into x (mem-cons_of_mem r m))
              (put-IsArtifact all_records hashes files r (into r mem-cons_self) clean w)
              (rw (clean, write_records) at h)
      ]
    where
      stopped :
          {x : ReleaseError} {hs : Dict String String}
          → ◌≡◌ {A = Result ReleaseError (Dict String String)} (err x) (ok hs)
          → ⊥
      stopped e = cc

  -- The artifacts of a release that was written to the end, and its manifest behind them.
  module _ (manifest_bytes : Manifest → Bytes) (load_manifest : Bytes → Manifest)
      (manifest_ok : Manifest → Bool) (root_of : Dict String String → String) where
    -- What a release leaves in its directory.
    pub record IsReleased (records : List R) (m : Manifest) (files : Files) : Type 0 where
      pub written : IsWritten records m.artifact_hashes files
      pub valid : manifest_ok m ≡ true
      pub rooted : root_of m.artifact_hashes ≡ m.root_hash
      pub manifest : get files manifest_path ≡ some (manifest_bytes m)

    put_manifest-IsWritten :
        (records : List R) (hashes : Dict String String) (files : Files) (bytes : Bytes)
        → IsWritten records hashes files
        → IsWritten records hashes (put files manifest_path bytes)
    put_manifest-IsWritten records hashes files bytes w = record {
      distinct = w.distinct;
      artifacts = λ path digest found.
          let a = w.artifacts path digest found in
          let other : (manifest_path == path) ≡ false = elim (Bool-cases (manifest_path == path)) [
            | inr e ↦ e
            | inl e ↦ absurd (
                record_path_apart (record_id a.written)
                  (a.place ∙ sym ((==_iff manifest_path path).0 e)))
          ] in
          let file : get (put files manifest_path bytes) path ≡ get files path =
            get-put files manifest_path path bytes ∙ (rw other refl) in
          record {
            written = a.written;
            member = a.member;
            place = a.place;
            stored = file ∙ a.stored;
            hashed = a.hashed;
            clean = a.clean;
          };
    }

    close_release-IsReleased :
        (records : List R) (make : Dict String String → Manifest)
        (r : Result ReleaseError (Dict String String) × Files) {m : Manifest} {files : Files}
        → ((hashes : Dict String String) → (make hashes).artifact_hashes ≡ hashes)
        → ((hashes : Dict String String) → root_of hashes ≡ (make hashes).root_hash)
        → ((hashes : Dict String String) → r.0 ≡ ok hashes → IsWritten records hashes r.1)
        → close_release record_id record_bytes sha256 manifest_bytes manifest_ok root_of make r
          ≡ (ok m, files)
        → IsReleased records m files
    close_release-IsReleased records make (err e, fs) own root w h =
        absurd (refused (ap (λ p. p.0) h))
      where
        refused :
            {x : ReleaseError} {m : Manifest}
            → ◌≡◌ {A = Result ReleaseError Manifest} (err x) (ok m)
            → ⊥
        refused e = cc
    close_release-IsReleased records make (ok hashes, fs) own root w h =
        elim (Bool-cases (manifest_ok (make hashes))) [
          | inr bad ↦ absurd (refused (ap (λ p. p.0) (rw bad at h)))
          | inl good ↦
              let done = rw good at h in
              let bytes = manifest_bytes (make hashes) in
              let released : IsReleased records (make hashes) (put fs manifest_path bytes) =
                record {
                  written =
                      subst (λ x. IsWritten records x (put fs manifest_path bytes))
                        (sym (own hashes))
                        (put_manifest-IsWritten records hashes fs bytes (w hashes refl));
                  valid = good;
                  rooted = ap root_of (own hashes) ∙ root hashes;
                  manifest = get-put_self fs manifest_path bytes;
                } in
              subst (IsReleased records _) (ap (λ p. p.1) done) (
                subst (λ x. IsReleased records x (put fs manifest_path bytes))
                  (ok_inj (ap (λ p. p.0) done)) released)
        ]
      where
        refused :
            {x : ReleaseError} {m : Manifest}
            → ◌≡◌ {A = Result ReleaseError Manifest} (err x) (ok m)
            → ⊥
        refused e = cc

    no_entry : (path : String) {digest : String} → get [] path ≡ some digest → ⊥
    unfolding get
    no_entry path e = cc

    -- the loop starts without artifacts
    pub build_release-IsReleased :
        (release_id snapshot_id : String) (policy_versions : Dict String String) (records : List R)
        (build_timestamp commit : String) (prior : Option String) (before : Files) {m : Manifest}
        {files : Files}
        → build_release record_id record_bytes sha256 manifest_bytes manifest_ok root_of release_id
            snapshot_id policy_versions records build_timestamp commit prior before
          ≡ (ok m, files)
        → IsReleased records m files
    unfolding build_release
    build_release-IsReleased release_id snapshot_id policy_versions records build_timestamp commit
          prior before h =
        let ordered =
          sort_by (before_record record_id record_bytes sha256 manifest_bytes manifest_ok root_of)
            records in
        close_release-IsReleased records _
          (write_records record_id record_bytes sha256 ordered [] before) (λ hashes. refl)
          (λ hashes. refl)
          (λ hashes e.
            write_records-IsWritten records ordered [] before
              (λ r m.
                (Perm.mem_iff (
                    sort_by-perm
                      (before_record record_id record_bytes sha256 manifest_bytes manifest_ok
                        root_of)
                      records)).0
                  m)
              (record {
                distinct = tt;
                artifacts = λ path digest found. absurd (no_entry path found);
              })
              (ap₂ (λ x y. (x, y)) e refl))
          h

    check_artifacts-ok :
        (files : Files) (hashes : Dict String String)
        → All
            (λ (e : String × String).
              (bytes : Bytes) × (get files e.0 ≡ some bytes) × (sha256 bytes ≡ e.1))
            hashes
        → check_artifacts sha256 load_manifest manifest_ok root_of files hashes ≡ ok tt
    unfolding check_artifacts
    check_artifacts-ok files [] a = refl
    check_artifacts-ok files ((path, digest) ∷ hashes) ((bytes, e, f), a) =
        rw (e, check_artifacts) (rw (f, ==_refl digest) (check_artifacts-ok files hashes a))

    -- what the manifest names is stored
    entries_stored :
        (records : List R) (hashes full : Dict String String) (files : Files)
        → IsWritten records full files
        → All (λ (e : String × String). get full e.0 ≡ some e.1) hashes
        → All
            (λ (e : String × String).
              (bytes : Bytes) × (get files e.0 ≡ some bytes) × (sha256 bytes ≡ e.1))
            hashes
    entries_stored records [] full files w a = tt
    entries_stored records ((path, digest) ∷ hashes) full files w (e, a) =
        let art = w.artifacts path digest e in
        (
          (record_bytes art.written, art.stored, art.hashed),
          entries_stored records hashes full files w a,
        )

    pub IsReleased-verify_release :
        (records : List R) (m : Manifest) (files : Files)
        → load_manifest (manifest_bytes m) ≡ m
        → IsReleased records m files
        → verify_release sha256 load_manifest manifest_ok root_of files ≡ ok m
    unfolding verify_release
    IsReleased-verify_release records m files again r =
        let checked = check_artifacts-ok files m.artifact_hashes (
          entries_stored records m.artifact_hashes m.artifact_hashes files r.written
            (entries-get m.artifact_hashes r.written.distinct)) in
        rw (r.manifest, verify_release)
          (rw again (rw (r.valid, checked) (rw (r.rooted, ==_refl m.root_hash) refl)))

    -- A release that is built to the end verifies: reading the directory back finds the manifest, every
    -- artifact that it names with the hash that it states, and the root hash. JSON is assumed to read back a
    -- manifest that it wrote.
    pub verify_release-build_release :
        (release_id snapshot_id : String) (policy_versions : Dict String String) (records : List R)
        (build_timestamp commit : String) (prior : Option String) (before : Files) {m : Manifest}
        {files : Files}
        → build_release record_id record_bytes sha256 manifest_bytes manifest_ok root_of release_id
            snapshot_id policy_versions records build_timestamp commit prior before
          ≡ (ok m, files)
        → load_manifest (manifest_bytes m) ≡ m
        → verify_release sha256 load_manifest manifest_ok root_of files ≡ ok m
    verify_release-build_release release_id snapshot_id policy_versions records build_timestamp
          commit prior before h again =
        IsReleased-verify_release records _ _ again (
          build_release-IsReleased release_id snapshot_id policy_versions records build_timestamp
            commit prior before h)
