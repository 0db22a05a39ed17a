-- ===== src/Base/Entries.antt =====
-- A dict that is built by assignments has each key once, and its entries are what it finds.
use mathlib.Core.Path.{◌≡◌, refl, sym, ◌∙◌, subst}
use mathlib.Core.Logic.{inl, inr}
use mathlib.Core.Bool.{true, false, false≢true}
use mathlib.Core.Option.{some}
use mathlib.Core.List.{[], ◌∷◌}
use native.Mathlib.Omega.{arith}
use exposure_atlas.Base.Tests.{Bool-cases}
use exposure_atlas.Base.Equality.{Eq, ◌==◌, ==_iff, ==_refl}
use exposure_atlas.Base.Lists.{elem, All, IsDistinct}
use exposure_atlas.Base.Dict.{Dict, keys, get, put}

module _ {K V : Type 0} ⦃e : Eq K⦄ where
  elem-put :
      (g : Dict K V) (m j : K) (z : V)
      → elem j (keys g) ≡ false
      → (m == j) ≡ false
      → elem j (keys (put g m z)) ≡ false
  unfolding put
  elem-put [] m j z h d = ground arith
  elem-put ((i, y) ∷ g) m j z h d =
      ground (arith, ==_iff i m, ==_iff i j, ==_iff m j, elem-put g m j z)

  pub put-IsDistinct :
      (g : Dict K V) (m : K) (z : V) → IsDistinct (keys g) → IsDistinct (keys (put g m z))
  unfolding put
  put-IsDistinct [] m z h = (refl, tt)
  put-IsDistinct ((i, y) ∷ g) m z h = elim (Bool-cases (i == m)) [
    | inl same ↦ rw same (subst (λ x. elem x (keys g) ≡ false) ((==_iff i m).0 same) h.0, h.1)
    | inr other ↦
        let back : (m == i) ≡ false = ground (arith, ==_iff m i, ==_iff i m) in
        rw other (elem-put g m i z h.0 back, put-IsDistinct g m z h.1)
  ]

  -- The entries of a part of a dict that has each key once are found.
  entries-get_part :
      (full g : Dict K V)
      → IsDistinct (keys g)
      → ((m : K) → elem m (keys g) ≡ true → get full m ≡ get g m)
      → All (λ (e : K × V). get full e.0 ≡ some e.1) g
  unfolding get
  entries-get_part full [] u agree = tt
  entries-get_part full ((j, y) ∷ g) u agree = (
    agree j (ground (arith, ==_refl j)) ∙ (rw (==_refl j) refl),
    entries-get_part full g u.1 (λ m h. elim (Bool-cases (j == m)) [
      | inl same ↦
          absurd (
            false≢true
              (sym u.0 ∙ subst (λ x. elem x (keys g) ≡ true) (sym ((==_iff j m).0 same)) h))
      | inr other ↦ agree m (ground arith) ∙ (rw other refl)
    ]),
  )

  pub entries-get :
      (g : Dict K V) → IsDistinct (keys g) → All (λ (e : K × V). get g e.0 ≡ some e.1) g
  entries-get g u = entries-get_part g g u (λ m h. refl)
