-- ===== src/Base/Sort.antt =====
-- Python's `sorted`, which is stable, as an insertion sort by an order test; `sorted(set(xs))`
-- over texts, which drops repetitions.
use mathlib.Core.Path.{◌≡◌}
use mathlib.Core.Logic.{inl, inr}
use mathlib.Core.Bool.{Bool, true, false}
use mathlib.Core.List.{List, [], ◌∷◌, Perm}
use mathlib.Core.List.Perm
use native.Mathlib.Omega.{arith}
use Prim.Native.String.{String}
use exposure_atlas.Base.Tests.{if◌then◌else◌, text_leb, Bool-cases}
use exposure_atlas.Base.Equality.{text_eq_instance}
use exposure_atlas.Base.Lists.{elem}

module _ {A : Type 0} (le : A → A → Bool) where
  -- In front of the first element that is strictly greater, so equals keep their order.
  pub insert_by : A → List A → List A
  insert_by a [] = a ∷ []
  insert_by a (x ∷ xs) = if le a x then a ∷ x ∷ xs else x ∷ insert_by a xs

  unfoldable pub sort_by : List A → List A
  unfolding insert_by
  sort_by [] = []
  sort_by (x ∷ xs) = insert_by x (sort_by xs)

  -- Each element is at most every later one.
  abbrev pub AllAbove : A → List A → Type 0
  AllAbove a [] = Unit
  AllAbove a (x ∷ xs) = (le a x ≡ true) × AllAbove a xs

  abbrev pub IsSorted : List A → Type 0
  IsSorted [] = Unit
  IsSorted (x ∷ xs) = AllAbove x xs × IsSorted xs

  insert_by-perm : (a : A) (xs : List A) → Perm (insert_by a xs) (a ∷ xs)
  unfolding insert_by
  insert_by-perm a [] = Perm.refl (a ∷ [])
  insert_by-perm a (x ∷ xs) = elim (Bool-cases (le a x)) [
    | inl e ↦ rw e (Perm.refl (a ∷ x ∷ xs))
    | inr e ↦ rw e (Perm.trans (Perm.cons x (insert_by-perm a xs)) (Perm.swap a x xs))
  ]

  -- Sorting keeps every element, as often as it stood there.
  pub sort_by-perm : (xs : List A) → Perm (sort_by xs) xs
  unfolding sort_by
  sort_by-perm [] = Perm.refl []
  sort_by-perm (x ∷ xs) = Perm.trans (insert_by-perm x (sort_by xs)) (Perm.cons x (sort_by-perm xs))

  module _ (total : (a b : A) → le a b ≡ false → le b a ≡ true)
      (trans : (a b c : A) → le a b ≡ true → le b c ≡ true → le a c ≡ true) where
    AllAbove-weaken : (a b : A) (xs : List A) → le a b ≡ true → AllAbove b xs → AllAbove a xs
    AllAbove-weaken a b [] h k = tt
    AllAbove-weaken a b (x ∷ xs) h k = (trans a b x h k.0, AllAbove-weaken a b xs h k.1)

    AllAbove-insert_by :
        (a b : A) (xs : List A) → le a b ≡ true → AllAbove a xs → AllAbove a (insert_by b xs)
    unfolding insert_by
    AllAbove-insert_by a b [] h k = (h, tt)
    AllAbove-insert_by a b (x ∷ xs) h k = ground (arith, AllAbove-insert_by a b xs h k.1)

    insert_by-IsSorted : (a : A) (xs : List A) → IsSorted xs → IsSorted (insert_by a xs)
    unfolding insert_by
    insert_by-IsSorted a [] h = (tt, tt)
    insert_by-IsSorted a (x ∷ xs) h = ground (
      arith,
      AllAbove-weaken a x xs,
      AllAbove-insert_by x a xs,
      insert_by-IsSorted a xs h.1,
      total a x,
    )

    pub sort_by-IsSorted : (xs : List A) → IsSorted (sort_by xs)
    unfolding sort_by
    sort_by-IsSorted [] = tt
    sort_by-IsSorted (x ∷ xs) = insert_by-IsSorted x (sort_by xs) (sort_by-IsSorted xs)

-- `sorted(texts)`
unfoldable pub sorted : List String → List String
unfolding sort_by
sorted xs = sort_by text_leb xs

-- `set(texts)`, in order of first appearance from the right
unfoldable pub distinct : List String → List String
distinct [] = []
distinct (x ∷ xs) = let rest = distinct xs in if elem x rest then rest else x ∷ rest
