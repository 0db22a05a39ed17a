-- ===== src/Jobs/Table.antt =====
-- What the statements keep of the rows: the order and the fixed columns of every row, unique keys,
-- and a change of state only along the table of the job machine.
use exposure_atlas.Base.{
  ap₂, ◌∙◌, all, elem, String, Bool, true, false, Option, none, some, List, [], ◌∷◌, ◌++◌, find, ok,
  map, ==_iff, text_eq_instance, ◌≡◌, ◌≢◌, ◌⊎◌, inl, inr, refl, sym, ap, arith, subst, Bool-cases,
}
use exposure_atlas.States.{transition}
use exposure_atlas.Jobs.{Job, update, lowest, lower}

-- A row after a call: the fixed columns stay, and the state stays or takes one step of the table.
pub record IsMove (j k : Job) : Type 0 where
  pub job_id : k.job_id ≡ j.job_id
  pub key : k.idempotency_key ≡ j.idempotency_key
  pub kind : k.kind ≡ j.kind
  pub payload : k.payload ≡ j.payload
  pub limit : k.max_attempts ≡ j.max_attempts
  pub legal : (k.state ≡ j.state) ⊎ (transition "job" j.state k.state ≡ ok k.state)

pub IsMove-refl : (j : Job) → IsMove j j
IsMove-refl j = record {
  job_id = refl;
  key = refl;
  kind = refl;
  payload = refl;
  limit = refl;
  legal = inl refl;
}

-- Every row has moved, in place; new rows stand behind the old ones.
abbrev pub IsMoved : List Job → List Job → Type 0
IsMoved [] rows = Unit
IsMoved (j ∷ js) [] = ⊥
IsMoved (j ∷ js) (k ∷ ks) = IsMove j k × IsMoved js ks

pub IsMoved-refl : (rows : List Job) → IsMoved rows rows
IsMoved-refl [] = tt
IsMoved-refl (j ∷ rows) = (IsMove-refl j, IsMoved-refl rows)

pub IsMoved-append : (rows more : List Job) → IsMoved rows (rows ++ more)
IsMoved-append [] more = tt
IsMoved-append (j ∷ rows) more = (IsMove-refl j, IsMoved-append rows more)

-- The values of a column, for its uniqueness.
abbrev pub AllApart : String → List String → Type 0
AllApart s [] = Unit
AllApart s (t ∷ ts) = (t ≢ s) × AllApart s ts

abbrev pub IsUnique : List String → Type 0
IsUnique [] = Unit
IsUnique (s ∷ ss) = AllApart s ss × IsUnique ss

abbrev pub ids : List Job → List String
ids rows = map (λ (j : Job). j.job_id) rows

-- A row of the table.
abbrev pub Holds : Job → List Job → Type 0
Holds r [] = ⊥
Holds r (j ∷ rows) = (j ≡ r) ⊎ Holds r rows

pub find-Holds :
    (p : Job → Bool) (rows : List Job) {r : Job}
    → find p rows ≡ some r
    → Holds r rows × (p r ≡ true)
find-Holds p [] h = cc
find-Holds p (j ∷ rows) {r} h = elim (Bool-cases (p j)) [
  | inl e ↦ let same : j ≡ r = cc (rw e at h) in (inl same, subst (λ x. p x ≡ true) same e)
  | inr e ↦ let (a, b) = find-Holds p rows (rw e at h) in (inr a, b)
]

lower-cases : (j : Job) (o : Option Job) {r : Job} → lower j o ≡ some r → (j ≡ r) ⊎ (o ≡ some r)
lower-cases j none h = ground arith
lower-cases j (some k) h = ground arith

pub lowest-Holds :
    (p : Job → Bool) (rows : List Job) {r : Job}
    → lowest p rows ≡ some r
    → Holds r rows × (p r ≡ true)
unfolding lowest
lowest-Holds p [] h = cc
lowest-Holds p (j ∷ rows) {r} h = elim (Bool-cases (p j)) [
  | inl e ↦ elim (lower-cases j (lowest p rows) (rw e at h)) [
    | inl same ↦ (inl same, subst (λ x. p x ≡ true) same e)
    | inr later ↦ let (a, b) = lowest-Holds p rows later in (inr a, b)
  ]
  | inr e ↦ let (a, b) = lowest-Holds p rows (rw e at h) in (inr a, b)
]

Holds-apart :
    (r : Job) (rows : List Job) {s : String} → AllApart s (ids rows) → Holds r rows → r.job_id ≢ s
Holds-apart r [] h m = absurd m
Holds-apart r (j ∷ rows) {s} h m = elim m [
  | inl e ↦ subst (λ (x : Job). x.job_id ≢ s) e h.0
  | inr later ↦ Holds-apart r rows h.1 later
]

-- Where ids are unique, one id is one row.
pub Holds-unique :
    (rows : List Job) (j r : Job)
    → IsUnique (ids rows)
    → Holds j rows
    → Holds r rows
    → j.job_id ≡ r.job_id
    → j ≡ r
Holds-unique [] j r u m n e = absurd m
Holds-unique (k ∷ rows) j r u m n e = elim m [
  | inl here ↦ elim n [
    | inl same ↦ sym here ∙ same
    | inr later ↦
        absurd (Holds-apart r rows u.0 later (sym e ∙ sym (ap (λ (x : Job). x.job_id) here)))
  ]
  | inr later ↦ elim n [
    | inl here ↦ absurd (Holds-apart j rows u.0 later (e ∙ sym (ap (λ (x : Job). x.job_id) here)))
    | inr also ↦ Holds-unique rows j r u.1 later also e
  ]
]

module _ (p : Job → Bool) (f : Job → Job) where
  pub update-IsMoved :
      (rows : List Job)
      → ((j : Job) → Holds j rows → p j ≡ true → IsMove j (f j))
      → IsMoved rows (update p f rows)
  unfolding update
  update-IsMoved [] h = tt
  update-IsMoved (j ∷ rows) h = elim (Bool-cases (p j)) [
    | inl e ↦ rw e (h j (inl refl) e, update-IsMoved rows (λ k m. h k (inr m)))
    | inr e ↦ rw e (IsMove-refl j, update-IsMoved rows (λ k m. h k (inr m)))
  ]

  -- a column that no change touches
  pub map-update :
      (g : Job → String) (rows : List Job)
      → ((j : Job) → Holds j rows → p j ≡ true → g (f j) ≡ g j)
      → map g (update p f rows) ≡ map g rows
  unfolding update
  map-update g [] h = refl
  map-update g (j ∷ rows) h = elim (Bool-cases (p j)) [
    | inl e ↦ rw e (
        ap₂ (λ (s : String) (ss : List String). s ∷ ss) (h j (inl refl) e)
          (map-update g rows (λ k m. h k (inr m))))
    | inr e ↦ rw e (ap (λ (ss : List String). g j ∷ ss) (map-update g rows (λ k m. h k (inr m))))
  ]

  pub all-update :
      (q : Job → Bool) (rows : List Job)
      → ((j : Job) → q j ≡ true → p j ≡ true → q (f j) ≡ true)
      → all q rows ≡ true
      → all q (update p f rows) ≡ true
  unfolding update
  all-update q [] h a = refl
  all-update q (j ∷ rows) h a = ground (arith, h j, all-update q rows h)

pub AllApart-append :
    (s t : String) (ss : List String) → AllApart s ss → t ≢ s → AllApart s (ss ++ t ∷ [])
AllApart-append s t [] h d = (d, tt)
AllApart-append s t (x ∷ ss) h d = (h.0, AllApart-append s t ss h.1 d)

pub IsUnique-append :
    (ss : List String) (t : String) → IsUnique ss → elem t ss ≡ false → IsUnique (ss ++ t ∷ [])
IsUnique-append [] t u h = (tt, tt)
IsUnique-append (s ∷ ss) t u h = (
  AllApart-append s t ss u.0 (ground (arith, ==_iff s t)),
  IsUnique-append ss t u.1 (ground arith),
)
