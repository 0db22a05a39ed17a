-- ===== src/DecisionPack/Caps.antt =====
-- A pack is the greedy selection of its items in order, within every cap, and loses no item.
use mathlib.Core.List.{Perm, perm_middle}
use mathlib.Core.List.Perm
use exposure_atlas.Base.{
  map, ◌<◌, ◌⊎◌, All, ◌==◌, text_eq_instance, if◌then◌else◌, ℕ, ◌+◌, ◌≤◌, String, Bool, true, false,
  List, [], ◌∷◌, ◌++◌, not, is_empty, ok, ok_inj, ◌≡◌, refl, arith, Bool-cases, inl, inr, subst,
  >>-eq-ok, >>=-eq-ok, raise_if,
}
use exposure_atlas.Base.Sort.{sort_by, IsSorted, AllAbove, sort_by-perm, sort_by-IsSorted}
use exposure_atlas.DecisionPack.Greedy.{
  minutes_of, IsWithin, IsGreedy, select_from-IsWithin, select_from-IsGreedy,
}
use exposure_atlas.Base.Dict.{get}
use exposure_atlas.DecisionPack.{
  pack_item, rank, Item, Load, PackItem, Pack, BuiltPack, DecisionPackError, empty_load, over,
  counted, before, select_from, pack_items, build_pack,
}

select_from-perm :
    (l : Load) (items : List Item)
    → Perm ((select_from l items).included ++ (select_from l items).excess) items
unfolding select_from
select_from-perm l [] = Perm.refl []
select_from-perm l (it ∷ items) = elim (Bool-cases (over l it)) [
  | inl full ↦ rw full (
      Perm.trans (perm_middle (select_from l items).included (select_from l items).excess)
        (Perm.cons it (select_from-perm l items)))
  | inr fits ↦ rw fits (Perm.cons it (select_from-perm (counted l it) items))
]

AllAbove-select_from :
    (b : Item) (l : Load) (items : List Item)
    → AllAbove before b items
    → AllAbove before b (select_from l items).included
unfolding select_from
AllAbove-select_from b l [] h = tt
AllAbove-select_from b l (it ∷ items) h = elim (Bool-cases (over l it)) [
  | inl full ↦ rw full (AllAbove-select_from b l items h.1)
  | inr fits ↦ rw fits (h.0, AllAbove-select_from b (counted l it) items h.1)
]

select_from-IsSorted :
    (l : Load) (items : List Item)
    → IsSorted before items
    → IsSorted before (select_from l items).included
unfolding select_from
select_from-IsSorted l [] h = tt
select_from-IsSorted l (it ∷ items) h = elim (Bool-cases (over l it)) [
  | inl full ↦ rw full (select_from-IsSorted l items h.1)
  | inr fits ↦ rw fits (
    AllAbove-select_from it (counted l it) items h.0,
    select_from-IsSorted (counted l it) items h.1,
  )
]

before_total : (a b : Item) → before a b ≡ false → before b a ≡ true
unfolding before
before_total a b h = ground arith

before_trans : (a b c : Item) → before a b ≡ true → before b c ≡ true → before a c ≡ true
unfolding before
before_trans a b c h k = ground arith

select_from-minutes :
    (l : Load) (items : List Item)
    → (select_from l items).load.minutes ≡ l.minutes + minutes_of (select_from l items).included
unfolding select_from counted
select_from-minutes l [] = omega arith
select_from-minutes l (it ∷ items) = elim (Bool-cases (over l it)) [
  | inl full ↦ rw full (select_from-minutes l items)
  | inr fits ↦ rw fits (omega (arith, select_from-minutes (counted l it) items))
]

-- The place of a priority; one that is not known counts as P3.
abbrev pub place : String → ℕ
place p = if "P0" == p then 0 else if "P1" == p then 1 else if "P2" == p then 2 else 3

-- The more urgent item first, then the older, then the one of more value.
abbrev pub InOrder : Item → Item → Type 0
InOrder a b =
    (place a.priority < place b.priority)
    ⊎ ((place a.priority ≡ place b.priority)
        × ((b.age_seconds < a.age_seconds)
            ⊎ ((a.age_seconds ≡ b.age_seconds) × (b.value ≤ a.value))))

abbrev pub IsOrdered : List Item → Type 0
IsOrdered [] = Unit
IsOrdered (a ∷ items) = All (InOrder a) items × IsOrdered items

rank-place : (it : Item) → rank it ≡ place it.priority
unfolding rank get
rank-place it = ground arith

before-InOrder : (a b : Item) → before a b ≡ true → InOrder a b
unfolding before
before-InOrder a b h = ground (arith, rank-place a, rank-place b)

AllAbove-InOrder : (a : Item) (items : List Item) → AllAbove before a items → All (InOrder a) items
AllAbove-InOrder a [] h = tt
AllAbove-InOrder a (b ∷ items) h = (before-InOrder a b h.0, AllAbove-InOrder a items h.1)

IsSorted-IsOrdered : (items : List Item) → IsSorted before items → IsOrdered items
IsSorted-IsOrdered [] h = tt
IsSorted-IsOrdered (a ∷ items) h = (AllAbove-InOrder a items h.0, IsSorted-IsOrdered items h.1)

-- The entry of a pack that stands for an item.
abbrev pub IsWritten : String → Item → PackItem → Type 0
IsWritten pack_id it d =
    (d.pack_id ≡ pack_id)
    × (d.question ≡ it.question)
    × (d.proposed_answer ≡ it.proposed_answer)
    × (d.restrictive_default ≡ it.restrictive_default)
    × (d.estimated_minutes ≡ it.estimated_minutes)
    × (d.input_hashes ≡ it.input_hashes)
    × (d.expiry ≡ it.expiry)

-- One entry for each item, in order.
abbrev pub AreWritten : String → List Item → List PackItem → Type 0
AreWritten pack_id [] [] = Unit
AreWritten pack_id (it ∷ items) (d ∷ docs) = IsWritten pack_id it d × AreWritten pack_id items docs
AreWritten pack_id _ _ = ⊥

pack_items-AreWritten :
    (item_ok : PackItem → Bool) (pack_id : String) (i : ℕ) (items : List Item)
    {docs : List PackItem}
    → pack_items item_ok pack_id i items ≡ ok docs
    → AreWritten pack_id items docs
unfolding pack_items pack_item
pack_items-AreWritten item_ok pack_id i [] h = subst (AreWritten pack_id []) (ok_inj h) tt
pack_items-AreWritten item_ok pack_id i (it ∷ items) h =
    let (_, h1) = >>-eq-ok (raise_if _ DecisionPackError.schema_error) _ h in
    let (docs, a, h2) = >>=-eq-ok (pack_items item_ok pack_id (i + 1) items) _ h1 in
    let first : IsWritten pack_id it (pack_item pack_id i it) =
      (refl, refl, refl, refl, refl, refl, refl) in
    let both : AreWritten pack_id (it ∷ items) (pack_item pack_id i it ∷ docs) =
      (first, pack_items-AreWritten item_ok pack_id (i + 1) items a) in
    subst (AreWritten pack_id (it ∷ items)) (ok_inj h2) both

-- What a pack holds: the greedy selection of the items in their order, each with its entry, and the rest
-- queued.
pub record IsCapped (items : List Item) (built : BuiltPack) : Type 0 where
  pub ordered : List Item
  pub complete : Perm ordered items
  pub sorted : IsOrdered ordered
  pub chosen : List Item
  pub greedy : IsGreedy [] ordered chosen built.excess
  pub capped : IsWithin empty_load chosen
  pub kept : Perm (chosen ++ built.excess) items
  pub upwards : IsOrdered chosen
  pub written : AreWritten built.pack.pack_id chosen built.items
  pub names_all : built.pack.item_ids ≡ map (λ d. d.item_id) built.items
  pub minutes : built.pack.estimated_review_minutes ≡ minutes_of chosen
  pub throttled : built.throttle_discovery ≡ not (is_empty built.excess)

-- A pack that is built goes through all the items in priority order, the oldest and then the most
-- valuable first, and chooses an item exactly where, with those chosen before it, it keeps the caps on
-- cards, minutes, complex decisions and record reviews. The chosen items are written in that order, each
-- with its question, answer, default, minutes, hashes and expiry; the pack lists them and states
-- their minutes; every other item stays queued, none is lost or repeated, and discovery is throttled
-- exactly when some stay queued.
pub build_pack-IsCapped :
    (digest12 : String → String) (item_ok : PackItem → Bool) (pack_ok : Pack → Bool)
    (items : List Item) (week created_at : String) {built : BuiltPack}
    → build_pack digest12 item_ok pack_ok items week created_at ≡ ok built
    → IsCapped items built
unfolding build_pack
build_pack-IsCapped digest12 item_ok pack_ok items week created_at h =
    let ordered = sort_by before items in
    let s = select_from empty_load ordered in
    let total : s.load.minutes ≡ minutes_of s.included =
      omega (arith, select_from-minutes empty_load ordered) in
    let untaken : IsWithin empty_load [] = (omega arith, omega arith, omega arith, omega arith) in
    let within : IsWithin empty_load s.included = select_from-IsWithin empty_load ordered untaken in
    let upwards : IsSorted before ordered =
      sort_by-IsSorted before before_total before_trans items in
    let (docs, a, h1) = >>=-eq-ok (pack_items item_ok _ 0 s.included) _ h in
    let (_, made) = >>-eq-ok (raise_if _ DecisionPackError.schema_error) _ h1 in
    subst (λ b. IsCapped items b) (ok_inj made)
      (record {
        ordered = ordered;
        complete = sort_by-perm before items;
        sorted = IsSorted-IsOrdered ordered upwards;
        chosen = s.included;
        greedy = select_from-IsGreedy empty_load ordered [] (refl, refl, refl, refl) untaken;
        capped = within;
        kept = Perm.trans (select_from-perm empty_load ordered) (sort_by-perm before items);
        upwards = IsSorted-IsOrdered s.included (select_from-IsSorted empty_load ordered upwards);
        written = pack_items-AreWritten item_ok _ 0 s.included a;
        names_all = refl;
        minutes = total;
        throttled = refl;
      })
