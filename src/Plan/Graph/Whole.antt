-- ===== src/Plan/Graph/Whole.antt =====
-- The start of the loop, and orders as long as the plan.
use exposure_atlas.Base.{
  ℕ, zero, suc, ◌+◌, ◌≤◌, String, true, false, some, List, [], ◌∷◌, ◌||◌, not, length, elem, all,
  All, text_eq_instance, ◌==◌, ==_iff, ==_refl, ◌≡◌, inl, inr, refl, sym, ap, ◌∙◌, subst, arith,
  Bool-cases, Option-cases,
}
use mathlib.Core.Bool.{false≢true}
use exposure_atlas.Base.Dict.{get, keys}
use exposure_atlas.Base.Entries.{entries-get}
use exposure_atlas.Base.{IsDistinct}
use exposure_atlas.Plan.{Task}
use exposure_atlas.Plan.Graph.{
  ℤ, is_zero, Degrees, Edge, zero_degrees, roots, edges, degrees, total, visited,
}
use exposure_atlas.Plan.Graph.Edges.{waiting, copies, one_if}
use exposure_atlas.Plan.Graph.Order.{IsRound, IsOrder, drain-IsOrder}
use exposure_atlas.Plan.Graph.Counted.{
  AllTo, get-count_edges, count_edges-none, zero_degrees-IsFresh, zero_degrees-IsDistinct,
  count_edges-IsDistinct, some_inj, absent,
}

-- What waits at the start: nodes of in-degree 0, each once.
abbrev IsQueue : Degrees → List String → Type 0
IsQueue full queue =
    ((m : String) → elem m queue ≡ true → get full m ≡ some (ℤ.pos 0)) × IsDistinct queue

zero_of : (z : ℤ) → is_zero z ≡ true → z ≡ ℤ.pos 0
zero_of (ℤ.pos zero) h = refl
zero_of (ℤ.pos (suc n)) h = cc
zero_of (ℤ.negsuc n) h = cc

roots-IsQueue :
    (full g : Degrees) (queue : List String)
    → IsDistinct (keys g)
    → All (λ (e : String × ℤ). get full e.0 ≡ some e.1) g
    → IsQueue full queue
    → ((m : String) → elem m (keys g) ≡ true → elem m queue ≡ false)
    → IsQueue full (roots g queue)
unfolding roots
roots-IsQueue full [] queue u found q apart = q
roots-IsQueue full ((i, z) ∷ g) queue u found q apart = elim (Bool-cases (is_zero z)) [
  | inr e ↦ rw e (roots-IsQueue full g queue u.1 found.1 q (λ m h. apart m (ground arith)))
  | inl e ↦ rw e (
      roots-IsQueue full g (i ∷ queue) u.1 found.1
        (
          (λ m h. elim (Bool-cases (i == m)) [
            | inl same ↦
                subst (λ x. get full x ≡ some (ℤ.pos 0)) ((==_iff i m).0 same)
                  (found.0 ∙ ap (λ x. some x) (zero_of z e))
            | inr other ↦ q.0 m (ground arith)
          ]),
          (apart i (ground (arith, ==_refl i)), q.1),
        )
        (λ m h. elim (Bool-cases (i == m)) [
          | inl same ↦ absurd (
              false≢true
                (sym u.0 ∙ subst (λ x. elem x (keys g) ≡ true) (sym ((==_iff i m).0 same)) h))
          | inr other ↦ rw other (apart m (ground arith))
        ]))
]

module _ (tasks : List Task) (names : List String)
    (listed : all (λ (t : Task). elem t.id names) tasks ≡ true)
    (known : AllTo (zero_degrees [] tasks) (edges tasks)) where
  start_degrees :
      (m : String) (z : ℤ)
      → get (degrees tasks) m ≡ some z
      → (z ≡ ℤ.pos (waiting [] m (edges tasks))) × (elem m names ≡ true)
  start_degrees m z h =
      let g = zero_degrees [] tasks in
      let fresh = zero_degrees-IsFresh names [] tasks listed (unfold get in λ j y e. cc) in
      elim (Option-cases (get g m)) [
        | inl e ↦ absurd (absent (sym (count_edges-none g (edges tasks) m e) ∙ h))
        | inr (y, e) ↦
            let (at, own) = fresh m y e in
            (
              some_inj (sym h ∙ get-count_edges g (edges tasks) m 0 known (e ∙ ap (λ x. some x) at))
                  ∙ ap (λ n. ℤ.pos n) (omega arith),
              own,
            )
      ]

  start-IsRound : IsRound names (edges tasks) [] (degrees tasks) (roots (degrees tasks) []) []
  start-IsRound =
      let g = degrees tasks in
      let unique =
        count_edges-IsDistinct (zero_degrees [] tasks) (edges tasks)
          (zero_degrees-IsDistinct [] tasks tt) in
      let (zeros, once) =
        roots-IsQueue g g [] unique (entries-get g unique) ((λ m h. cc), tt) (λ m h. refl) in
      record {
        enough = λ m z h.
            (waiting [] m (edges tasks), (start_degrees m z h).0, (unfold copies in omega arith));
        queued = zeros;
        left = λ m h. cc;
        apart = λ m h. refl;
        once = once;
        known = λ m z h. (start_degrees m z h).1;
      }

  pub visited-IsOrder :
      {order : List String} → visited tasks ≡ some order → IsOrder names (edges tasks) [] order
  unfolding visited
  visited-IsOrder h =
      drain-IsOrder (total (degrees tasks) + length (roots (degrees tasks) [])) names (edges tasks)
        [] (degrees tasks) (roots (degrees tasks) []) start-IsRound h

-- The names that are not in a list.
outside : List String → List String → ℕ
outside gone [] = 0
outside gone (m ∷ names) = one_if (not (elem m gone)) + outside gone names

leave : List String → List String → List String
leave gone [] = gone
leave gone (n ∷ order) = leave (n ∷ gone) order

outside-le : (n : String) (gone names : List String) → outside (n ∷ gone) names ≤ outside gone names
unfolding outside
outside-le n gone [] = omega arith
outside-le n gone (m ∷ names) = ground (arith, outside-le n gone names)

outside-lt :
    (n : String) (gone names : List String)
    → elem n names ≡ true
    → elem n gone ≡ false
    → outside (n ∷ gone) names + 1 ≤ outside gone names
unfolding outside
outside-lt n gone [] h out = cc
outside-lt n gone (m ∷ names) h out = elim (Bool-cases (m == n)) [
  | inl same ↦
      let less = outside-le n gone names in
      let here : elem m gone ≡ false =
        subst (λ x. elem x gone ≡ false) (sym ((==_iff m n).0 same)) out in
      let back : (n == m) ≡ true = (==_iff n m).1 (sym ((==_iff m n).0 same)) in
      rw (here, back) (omega arith)
  | inr other ↦ let ih = outside-lt n gone names (ground arith) out in ground arith
]

outside-leave :
    (names : List String) (es : List Edge) (order gone : List String)
    → IsOrder names es gone order
    → outside (leave gone order) names + length order ≤ outside gone names
unfolding leave
outside-leave names es [] gone h = omega arith
outside-leave names es (n ∷ order) gone (own, out, _, h) =
    omega (arith, outside-lt n gone names own out, outside-leave names es order (n ∷ gone) h)

outside_nothing : (names : List String) → outside [] names ≡ length names
unfolding outside
outside_nothing [] = refl
outside_nothing (m ∷ names) = omega (arith, outside_nothing names)

elem-leave :
    (order gone : List String) (m : String)
    → elem m (leave gone order) ≡ (elem m gone || elem m order)
unfolding leave
elem-leave [] gone m = ground arith
elem-leave (n ∷ order) gone m = ground (arith, elem-leave order (n ∷ gone) m)

all_inside :
    (names gone : List String) → outside gone names ≤ 0 → all (λ m. elem m gone) names ≡ true
unfolding outside
all_inside [] gone h = refl
all_inside (m ∷ names) gone h = ground (arith, all_inside names gone)

-- An order as long as the names has them all.
pub IsOrder-whole :
    (names : List String) (es : List Edge) (order : List String)
    → IsOrder names es [] order
    → length order ≡ length names
    → all (λ m. elem m order) names ≡ true
IsOrder-whole names es order h len =
    let rest : outside (leave [] order) names ≤ 0 =
      omega (arith, outside-leave names es order [] h, outside_nothing names) in
    moved names (all_inside names (leave [] order) rest)
  where
    moved :
        (ms : List String)
        → all (λ m. elem m (leave [] order)) ms ≡ true
        → all (λ m. elem m order) ms ≡ true
    moved [] a = refl
    moved (m ∷ ms) a = ground (arith, moved ms, elem-leave order [] m)
