-- ===== src/Migration/Ledger.antt =====
-- Imports are idempotent and keep their payload, and nothing in the ledger is ever citable.
use exposure_atlas.Base.{
  ℕ, String, Bool, true, false, Option, none, some, List, [], ◌∷◌, not, all, select, Result, ok,
  err, ok_inj, ==_refl, text_eq_instance, ◌≡◌, refl, arith, sym, ap, ◌∙◌, Bool-cases, inl, inr,
  subst,
}
use exposure_atlas.Base.Dict.{Dict, get, put, values, get-put_self}
use exposure_atlas.Migration.{
  Host, Entry, Import, Relationship, MigrationImporter, MigrationError, unchanged, new_entry,
  stable_record_id, write_entry, import_over, import_record, redirect_to, slug_redirect, merge_one,
  merged_first, merge_rest, merge, make_relationship, is_citable, citable_entries,
}

-- Every entry is unverified, and no entry can be cited.
abbrev pub IsUncitable : MigrationImporter → Type 0
IsUncitable m = all (λ e. not (is_citable e)) (values m.entries) ≡ true

all-put :
    (p : Entry → Bool) (d : Dict String Entry) (k : String) (v : Entry)
    → all p (values d) ≡ true
    → p v ≡ true
    → all p (values (put d k v)) ≡ true
unfolding put
all-put p [] k v h e = ground arith
all-put p ((j, w) ∷ d) k v h e = ground (arith, all-put p d k v)

write_entry-IsUncitable :
    (host : Host) (entry : Entry) (payload : List ℕ) (slug : Option String) (is_new : Bool)
    (m : MigrationImporter)
    → not (is_citable entry) ≡ true
    → IsUncitable m
    → IsUncitable (write_entry host entry payload slug is_new m).1
unfolding write_entry
write_entry-IsUncitable host entry payload slug is_new m e h =
    elim (Bool-cases (host.entry_ok entry)) [
      | inr bad ↦ rw bad h
      | inl good ↦
          rw good
            (all-put (λ x. not (is_citable x)) m.entries (host.normalize entry.legacy_id) entry h e)
    ]

import_over-IsUncitable :
    (host : Host) (prior : Option Entry) (entry : Entry) (payload : List ℕ) (slug : Option String)
    (m : MigrationImporter)
    → not (is_citable entry) ≡ true
    → IsUncitable m
    → IsUncitable (import_over host prior entry payload slug m).1
unfolding import_over
import_over-IsUncitable host none entry payload slug m e h =
    write_entry-IsUncitable host entry payload slug true m e h
import_over-IsUncitable host (some prior) entry payload slug m e h =
    elim (Bool-cases (unchanged prior entry)) [
      | inl same ↦ rw same h
      | inr other ↦ rw other (write_entry-IsUncitable host entry payload slug false m e h)
    ]

merge-entries :
    (host : Host) (surviving : String) (merged : List String) (at reason : String)
    (m : MigrationImporter)
    → (merge host surviving merged at reason m).1.entries ≡ m.entries
unfolding merge
merge-entries host surviving [] at reason m = refl
merge-entries host surviving (mid ∷ merged) at reason m =
    one (make_relationship host "consolidated_with" mid surviving "Alexios" at (some reason))
      (λ p. merge-entries host surviving merged at reason p)
  where
    first :
        (r : Relationship) (x : Result MigrationError (List Relationship) × MigrationImporter)
        → (merged_first r x).1 ≡ x.1
    first r (ok rlns, p) = refl
    first r (err e, p) = refl

    one :
        (r : Result MigrationError Relationship)
        → ((p : MigrationImporter)
            → (merge host surviving merged at reason p).1.entries ≡ p.entries)
        → (merge_rest
            (merge_one surviving r mid m)
            (merge host surviving merged at reason)).1.entries
          ≡ m.entries
    one (err e) ih = refl
    one (ok rln) ih =
        let p = record m { redirects = redirect_to surviving mid m.redirects } in
        ap (λ x. x.entries) (first rln (merge host surviving merged at reason p)) ∙ ih p

-- One call of the importer, whatever it returns.
pub data Step (host : Host) : MigrationImporter → MigrationImporter → Type 0 where
  imports :
      (legacy_id : String) (payload : List ℕ) (mapping disposition : String) (secondary_only : Bool)
      (warnings : List String) (slug : Option String) (m : MigrationImporter)
      → Step host m
          (import_record host legacy_id payload mapping disposition secondary_only warnings slug
            m).1
  merges :
      (surviving : String) (merged : List String) (at reason : String) (m : MigrationImporter)
      → Step host m (merge host surviving merged at reason m).1

pub data Steps (host : Host) : MigrationImporter → MigrationImporter → Type 0 where
  done : (m : MigrationImporter) → Steps host m m
  next : {m n p : MigrationImporter} → Steps host m n → Step host n p → Steps host m p

new_entry-uncitable :
    (host : Host) (legacy_id : String) (payload : List ℕ) (mapping disposition : String)
    (secondary_only : Bool) (warnings : List String)
    → not
        (is_citable (new_entry host legacy_id payload mapping disposition secondary_only warnings))
      ≡ true
unfolding new_entry is_citable
new_entry-uncitable host legacy_id payload mapping disposition secondary_only warnings = refl

Step-IsUncitable :
    (host : Host) (m n : MigrationImporter) → Step host m n → IsUncitable m → IsUncitable n
unfolding import_record
Step-IsUncitable host _ n (Step.imports id payload mapping disposition secondary warnings slug m)
      h =
    import_over-IsUncitable host (get m.entries (host.normalize id))
      (new_entry host id payload mapping disposition secondary warnings) payload slug m
      (new_entry-uncitable host id payload mapping disposition secondary warnings) h
Step-IsUncitable host _ n (Step.merges surviving merged at reason m) h =
    subst (λ es. all (λ e. not (is_citable e)) (values es) ≡ true)
      (sym (merge-entries host surviving merged at reason m)) h

Steps-IsUncitable :
    (host : Host) (m n : MigrationImporter) → Steps host m n → IsUncitable m → IsUncitable n
Steps-IsUncitable host _ n (Steps.done m) h = h
Steps-IsUncitable host m _ (Steps.next {n = n} {p = p} before last) h =
    Step-IsUncitable host n p last (Steps-IsUncitable host m n before h)

select_none :
    (p : Entry → Bool) (xs : List Entry) → all (λ x. not (p x)) xs ≡ true → select p xs ≡ []
select_none p [] h = refl
select_none p (x ∷ xs) h = ground (arith, select_none p xs)

abbrev pub new_importer : MigrationImporter
new_importer = record { entries = []; payloads = []; redirects = [] }

-- Whatever is imported and merged, in whatever order, no entry of the ledger is ever citable.
pub never_citable :
    (host : Host) (m : MigrationImporter) → Steps host new_importer m → citable_entries m ≡ []
unfolding citable_entries
never_citable host m run =
    select_none is_citable (values m.entries) (Steps-IsUncitable host new_importer m run refl)

unchanged_refl : (e : Entry) → unchanged e e ≡ true
unfolding unchanged
unchanged_refl e =
    rw (==_refl e.payload_sha256, ==_refl e.mapping_version, ==_refl e.disposition) refl

-- The result of a repeated import.
abbrev pub repeated : Import → Import
repeated r = record r { is_new = false; changed = false }

again_unchanged :
    (host : Host) (prior entry : Entry) (payload : List ℕ) (slug : Option String)
    (m : MigrationImporter)
    → unchanged prior entry ≡ true
    → import_over host (some prior) entry payload slug m ≡ (
      ok (record {
        entry = prior;
        record_id = stable_record_id host entry.legacy_id;
        is_new = false;
        changed = false;
      }),
      m,
    )
unfolding import_over
again_unchanged host prior entry payload slug m h = rw h refl

again_written :
    (host : Host) (entry : Entry) (payload : List ℕ) (slug : Option String) (is_new : Bool)
    (m : MigrationImporter) {r : Import}
    → (write_entry host entry payload slug is_new m).0 ≡ ok r
    → let m' = (write_entry host entry payload slug is_new m).1 in
      (import_over host (get m'.entries (host.normalize entry.legacy_id)) entry payload slug m'
        ≡ (ok (repeated r), m'))
      × (r.record_id ≡ stable_record_id host entry.legacy_id)
unfolding write_entry
again_written host entry payload slug is_new m {r} h = elim (Bool-cases (host.entry_ok entry)) [
  | inr bad ↦ absurd (refused (rw bad at h))
  | inl good ↦
      let key = host.normalize entry.legacy_id in
      let id = stable_record_id host entry.legacy_id in
      let m' : MigrationImporter = record {
        entries = put m.entries key entry;
        payloads = put m.payloads id payload;
        redirects = slug_redirect host slug id (put m.redirects key id);
      } in
      rw good (
        subst
          (λ x.
            (import_over host (get m'.entries key) entry payload slug m' ≡ (ok (repeated x), m'))
            × (x.record_id ≡ id))
          (ok_inj (rw good at h))
          (
            ap (λ o. import_over host o entry payload slug m') (get-put_self m.entries key entry)
                ∙ again_unchanged host entry entry payload slug m' (unchanged_refl entry),
            refl,
          ))
]
  where
    refused :
        {e : MigrationError} {a : Import}
        → ◌≡◌ {A = Result MigrationError Import} (err e) (ok a)
        → ⊥
    refused k = cc

again_over :
    (host : Host) (prior : Option Entry) (entry : Entry) (payload : List ℕ) (slug : Option String)
    (m : MigrationImporter) {r : Import}
    → get m.entries (host.normalize entry.legacy_id) ≡ prior
    → (import_over host prior entry payload slug m).0 ≡ ok r
    → let m' = (import_over host prior entry payload slug m).1 in
      (import_over host (get m'.entries (host.normalize entry.legacy_id)) entry payload slug m'
        ≡ (ok (repeated r), m'))
      × (r.record_id ≡ stable_record_id host entry.legacy_id)
unfolding import_over
again_over host none entry payload slug m e h = again_written host entry payload slug true m h
again_over host (some prior) entry payload slug m {r} e h =
    elim (Bool-cases (unchanged prior entry)) [
      | inr other ↦ rw other (again_written host entry payload slug false m (rw other at h))
      | inl same ↦ rw same (
          subst
            (λ x.
              (import_over host (get m.entries (host.normalize entry.legacy_id)) entry payload slug
                  m
                ≡ (ok (repeated x), m))
              × (x.record_id ≡ stable_record_id host entry.legacy_id))
            (ok_inj (rw same at h))
            (
              ap (λ o. import_over host o entry payload slug m) e
                  ∙ again_unchanged host prior entry payload slug m same,
              refl,
            ))
    ]

-- An import that goes through gives the record the identifier derived from its legacy identifier;
-- running it again returns the same entry and identifier, neither new nor changed, and changes
-- nothing in the ledger, the payloads or the redirects.
pub import_record_idempotent :
    (host : Host) (legacy_id : String) (payload : List ℕ) (mapping disposition : String)
    (secondary_only : Bool) (warnings : List String) (slug : Option String) (m : MigrationImporter)
    {r : Import}
    → (import_record host legacy_id payload mapping disposition secondary_only warnings slug m).0
      ≡ ok r
    → let m' =
        (import_record host legacy_id payload mapping disposition secondary_only warnings slug
          m).1 in
      (import_record host legacy_id payload mapping disposition secondary_only warnings slug m'
        ≡ (ok (repeated r), m'))
      × (r.record_id ≡ stable_record_id host legacy_id)
unfolding import_record new_entry
import_record_idempotent host legacy_id payload mapping disposition secondary_only warnings slug m
      h =
    again_over host (get m.entries (host.normalize legacy_id))
      (new_entry host legacy_id payload mapping disposition secondary_only warnings) payload slug m
      refl h
