-- ===== src/Base/Dict.antt =====
-- A Python dict: the entries in insertion order. Assigning to a present key keeps its place.
use mathlib.Core.Path.{◌≡◌, refl}
use mathlib.Core.Bool.{Bool, true, false}
use mathlib.Core.Option.{Option, none, some}
use mathlib.Core.List.{List, [], ◌∷◌, map}
use native.Mathlib.Omega.{arith}
use exposure_atlas.Base.Tests.{if◌then◌else◌}
use exposure_atlas.Base.Lists.{all}
use exposure_atlas.Base.Equality.{Eq, ◌==◌, ==_iff, ==_refl}

abbrev pub Dict : Type 0 → Type 0 → Type 0
Dict K V = List (K × V)

module _ {K V : Type 0} where
  abbrev pub empty : Dict K V
  empty = []

  abbrev pub values : Dict K V → List V
  values d = map (λ e. e.1) d

  abbrev pub keys : Dict K V → List K
  keys d = map (λ e. e.0) d

module _ {K V : Type 0} ⦃e : Eq K⦄ where
  -- `d.get(k)`
  unfoldable pub get : Dict K V → K → Option V
  get [] k = none
  get ((j, v) ∷ d) k = if j == k then some v else get d k

  -- `k in d`
  abbrev pub has : Dict K V → K → Bool
  has d k = elim (get d k) [ none ↦ false | some _ ↦ true ]

  -- `d[k] = v`
  unfoldable pub put : Dict K V → K → V → Dict K V
  put [] k v = (k, v) ∷ []
  put ((j, w) ∷ d) k v = if j == k then (k, v) ∷ d else (j, w) ∷ put d k v

  -- `d.pop(k, None)`
  unfoldable pub remove : Dict K V → K → Dict K V
  remove [] k = []
  remove ((j, w) ∷ d) k = let rest = remove d k in if j == k then rest else (j, w) ∷ rest

  pub get-put :
      (d : Dict K V) (k j : K) (v : V) → get (put d k v) j ≡ (if k == j then some v else get d j)
  unfolding get put
  get-put [] k j v = refl
  get-put ((i, w) ∷ d) k j v = ground (arith, ==_iff k j, ==_iff i k, ==_iff i j, get-put d k j v)

  pub get-put_self : (d : Dict K V) (k : K) (v : V) → get (put d k v) k ≡ some v
  get-put_self d k v = rw (get-put d k k v, ==_refl k)

  pub get-remove :
      (d : Dict K V) (k j : K) → get (remove d k) j ≡ (if k == j then none else get d j)
  unfolding get remove
  get-remove [] k j = ground arith
  get-remove ((i, w) ∷ d) k j = ground (arith, ==_iff k j, ==_iff i k, ==_iff i j, get-remove d k j)

  -- What a test finds true of every entry is true of the entry that is found.
  pub all-get :
      (p : K × V → Bool) (d : Dict K V) (k : K) (v : V)
      → all p d ≡ true
      → get d k ≡ some v
      → p (k, v) ≡ true
  unfolding get
  all-get p [] k v h m = ground arith
  all-get p ((j, w) ∷ d) k v h m = ground (arith, ==_iff j k, all-get p d k v)

  pub ruleset dict_laws = (get-put, get-remove, ==_refl)
