-- ===== src/DecisionPack/Greedy.antt =====
-- The loop of `build_pack` against an independent account of a greedy selection.
use exposure_atlas.Base.{
  ℕ, ◌+◌, ◌≤◌, Bool, true, false, List, [], ◌∷◌, ◌&&◌, ltb, length, ◌≡◌, arith, Bool-cases, inl,
  inr,
}
use exposure_atlas.DecisionPack.{
  Item, Load, empty_load, count_if, over, counted, select_from, cap_review_minutes,
  cap_decision_cards, cap_record_reviews, cap_complex_decisions,
}

abbrev pub minutes_of : List Item → ℕ
minutes_of [] = 0
minutes_of (it ∷ items) = it.estimated_minutes + minutes_of items

abbrev pub count : (Item → Bool) → List Item → ℕ
count p [] = 0
count p (it ∷ items) = count_if (p it) + count p items

-- The items keep the caps, on top of what was counted before them.
abbrev pub IsWithin : Load → List Item → Type 0
IsWithin l items =
    (l.cards + length items ≤ cap_decision_cards)
    × (l.minutes + minutes_of items ≤ cap_review_minutes)
    × (l.complex_n + count (λ it. it.is_complex) items ≤ cap_complex_decisions)
    × (l.records + count (λ it. it.is_record_review) items ≤ cap_record_reviews)

count_if-le :
    (b : Bool) (n cap : ℕ) → n ≤ cap → (b && ltb cap (n + 1)) ≡ false → n + count_if b ≤ cap
count_if-le true n cap h k = ground arith
count_if-le false n cap h k = omega arith

counted-IsWithin :
    (l : Load) (it : Item) → IsWithin l [] → over l it ≡ false → IsWithin (counted l it) []
unfolding over counted
counted-IsWithin l it (a, b, c, d) h = (
  ground arith,
  ground arith,
  ground (arith, count_if-le it.is_complex l.complex_n 3),
  ground (arith, count_if-le it.is_record_review l.records 12),
)

IsWithin-include :
    (l : Load) (it : Item) (items : List Item)
    → IsWithin (counted l it) items
    → IsWithin l (it ∷ items)
unfolding counted
IsWithin-include l it items (a, b, c, d) = (omega arith, omega arith, omega arith, omega arith)

pub select_from-IsWithin :
    (l : Load) (items : List Item) → IsWithin l [] → IsWithin l (select_from l items).included
unfolding select_from
select_from-IsWithin l [] h = h
select_from-IsWithin l (it ∷ items) h = elim (Bool-cases (over l it)) [
  | inl full ↦ rw full (select_from-IsWithin l items h)
  | inr fits ↦ rw fits (
      IsWithin-include l it _
        (select_from-IsWithin (counted l it) items (counted-IsWithin l it h fits)))
]

-- The greedy selection of `items`, in their order, after `taken`: an item is chosen exactly where it keeps
-- the caps together with what was taken before it.
pub data IsGreedy : List Item → List Item → List Item → List Item → Type 0 where
  done : {taken : List Item} → IsGreedy taken [] [] []
  take :
      {taken items chosen excess : List Item} (it : Item)
      → IsWithin empty_load (it ∷ taken)
      → IsGreedy (it ∷ taken) items chosen excess
      → IsGreedy taken (it ∷ items) (it ∷ chosen) excess
  skip :
      {taken items chosen excess : List Item} (it : Item)
      → (IsWithin empty_load (it ∷ taken) → ⊥)
      → IsGreedy taken items chosen excess
      → IsGreedy taken (it ∷ items) chosen (it ∷ excess)

-- What the loop has counted is that of the items that it has taken.
abbrev Counts : Load → List Item → Type 0
Counts l taken =
    (l.cards ≡ length taken)
    × (l.minutes ≡ minutes_of taken)
    × (l.complex_n ≡ count (λ it. it.is_complex) taken)
    × (l.records ≡ count (λ it. it.is_record_review) taken)

counted-Counts :
    (l : Load) (it : Item) (taken : List Item) → Counts l taken → Counts (counted l it) (it ∷ taken)
unfolding counted
counted-Counts l it taken (a, b, c, d) = (omega arith, omega arith, omega arith, omega arith)

count_if-over : (b : Bool) (n cap : ℕ) → (b && ltb cap (n + 1)) ≡ true → count_if b + n ≤ cap → ⊥
count_if-over true n cap h k = ground arith
count_if-over false n cap h k = cc

over-not_within :
    (l : Load) (it : Item) (taken : List Item)
    → Counts l taken
    → over l it ≡ true
    → IsWithin empty_load (it ∷ taken)
    → ⊥
unfolding over
over-not_within l it taken (a, b, c, d) h (w, x, y, z) = ground (
  arith,
  count_if-over it.is_complex l.complex_n 3,
  count_if-over it.is_record_review l.records 12,
)

fits-IsWithin :
    (l : Load) (it : Item) (taken : List Item)
    → Counts l taken
    → IsWithin empty_load taken
    → over l it ≡ false
    → IsWithin empty_load (it ∷ taken)
unfolding over
fits-IsWithin l it taken (a, b, c, d) (w, x, y, z) h = (
  ground arith,
  ground arith,
  ground (arith, count_if-le it.is_complex l.complex_n 3),
  ground (arith, count_if-le it.is_record_review l.records 12),
)

pub select_from-IsGreedy :
    (l : Load) (items taken : List Item)
    → Counts l taken
    → IsWithin empty_load taken
    → IsGreedy taken items (select_from l items).included (select_from l items).excess
unfolding select_from
select_from-IsGreedy l [] taken c w = IsGreedy.done
select_from-IsGreedy l (it ∷ items) taken c w = elim (Bool-cases (over l it)) [
  | inl full ↦ rw full (
      IsGreedy.skip it (over-not_within l it taken c full) (select_from-IsGreedy l items taken c w))
  | inr fits ↦ rw fits (
      IsGreedy.take it (fits-IsWithin l it taken c w fits) (
        select_from-IsGreedy (counted l it) items (it ∷ taken) (counted-Counts l it taken c)
          (fits-IsWithin l it taken c w fits)))
]
