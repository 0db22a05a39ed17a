-- ===== src/Plan/Graph/Ends.antt =====
-- The fuel and the keys of the loop.
use exposure_atlas.Base.{
  none, Option, if◌then◌else◌, ◌++◌, subst, sym, ℕ, zero, suc, ◌+◌, ◌≤◌, String, Option, some, List,
  [], ◌∷◌, length, text_eq_instance, ◌==◌, ◌≡◌, inl, inr, refl, ◌∙◌, arith, Bool-cases,
}
use exposure_atlas.Base.Dict.{Dict, get, put, get-put, get-put_self}
use exposure_atlas.Plan.Graph.{
  ℤ, next, pred, is_zero, Degrees, Edge, edges, edges_of, zero_degrees, bump, count_edge,
  count_edges, roots, or_nil, dependents_from, push_if, relax, drain, weight, total, degrees,
  visited,
}
use exposure_atlas.Plan.{Task}

abbrev pub IsKey : Degrees → String → Type 0
IsKey g m = (z : ℤ) × (get g m ≡ some z)

total-put :
    (g : Degrees) (m : String) (z w : ℤ)
    → get g m ≡ some z
    → total (put g m w) + weight z ≡ total g + weight w
unfolding total get put
total-put [] m z w h = cc
total-put ((j, y) ∷ g) m z w h = elim (Bool-cases (j == m)) [
  | inl e ↦ let same : y ≡ z = cc (rw (e, get) at h) in rw (e, same) (omega arith)
  | inr e ↦ let ih = total-put g m z w (rw (e, get) at h) in rw e (omega arith)
]

IsKey-put : (g : Degrees) (m k : String) (w : ℤ) → IsKey g k → IsKey (put g m w) k
IsKey-put g m k w (z, h) = elim (Bool-cases (m == k)) [
  | inl e ↦ (w, get-put g m k w ∙ (rw e refl))
  | inr e ↦ (z, get-put g m k w ∙ (rw e h))
]

-- Every name of a list has an in-degree.
abbrev AllKeys : Degrees → List String → Type 0
AllKeys g [] = Unit
AllKeys g (m ∷ ms) = IsKey g m × AllKeys g ms

AllKeys-put :
    (g : Degrees) (m : String) (w : ℤ) (ms : List String) → AllKeys g ms → AllKeys (put g m w) ms
AllKeys-put g m w [] h = tt
AllKeys-put g m w (k ∷ ms) h = (IsKey-put g m k w h.0, AllKeys-put g m w ms h.1)

-- A step down pays for the node that it may push.
step_down :
    (z : ℤ) (m : String) (queue : List String)
    → weight (pred z) + length (push_if (is_zero (pred z)) m queue) ≤ weight z + length queue
step_down (ℤ.pos zero) m queue = omega arith
step_down (ℤ.pos (suc zero)) m queue = omega arith
step_down (ℤ.pos (suc (suc n))) m queue = omega arith
step_down (ℤ.negsuc n) m queue = omega arith

-- What the inner loop leaves: the keys, and no more work than before.
record IsRelaxed (g : Degrees) (queue : List String) (r : Option (Degrees × List String))
    : Type 0 where
  after : Degrees
  left : List String
  ran : r ≡ some (after, left)
  keys : (k : String) → IsKey g k → IsKey after k
  less : total after + length left ≤ total g + length queue

relax-IsRelaxed :
    (g : Degrees) (queue ms : List String) → AllKeys g ms → IsRelaxed g queue (relax g queue ms)
unfolding relax
relax-IsRelaxed g queue [] h = record {
  after = g;
  left = queue;
  ran = refl;
  keys = λ k x. x;
  less = omega arith;
}
relax-IsRelaxed g queue (m ∷ ms) ((z, e), h) =
    let g' = put g m (pred z) in
    let queue' = push_if (is_zero (pred z)) m queue in
    let r = relax-IsRelaxed g' queue' ms (AllKeys-put g m (pred z) ms h) in
    let paid = total-put g m z (pred z) e in
    let down = step_down z m queue in
    let more = r.less in
    record {
      after = r.after;
      left = r.left;
      ran = rw (e, relax) r.ran;
      keys = λ k x. r.keys k (IsKey-put g m k (pred z) x);
      less = omega arith;
    }

-- Every dependent has an in-degree.
abbrev HasKeys : Degrees → Dict String (List String) → Type 0
HasKeys g dependents = (n : String) → AllKeys g (or_nil (get dependents n))

AllKeys-keep :
    (g g' : Degrees) (ms : List String)
    → ((k : String) → IsKey g k → IsKey g' k)
    → AllKeys g ms
    → AllKeys g' ms
AllKeys-keep g g' [] f h = tt
AllKeys-keep g g' (m ∷ ms) f h = (f m h.0, AllKeys-keep g g' ms f h.1)

drain_ends :
    (fuel : ℕ) (dependents : Dict String (List String)) (g : Degrees) (queue : List String)
    → HasKeys g dependents
    → total g + length queue ≤ fuel
    → (order : List String) × (drain fuel dependents g queue ≡ some order)
unfolding drain
drain_ends zero dependents g [] h fits = ([], refl)
drain_ends (suc fuel) dependents g [] h fits = ([], refl)
drain_ends zero dependents g (n ∷ queue) h fits = absurd (omega arith)
drain_ends (suc fuel) dependents g (n ∷ queue) h fits =
    let r = relax-IsRelaxed g queue (or_nil (get dependents n)) (h n) in
    let more = r.less in
    let (order, e) =
      drain_ends fuel dependents r.after r.left
        (λ k. AllKeys-keep g r.after (or_nil (get dependents k)) r.keys (h k)) (omega arith) in
    (n ∷ order, rw (r.ran, drain) (rw e refl))

-- Every edge starts at a node with an in-degree.
abbrev pub AllFrom : Degrees → List Edge → Type 0
AllFrom g [] = Unit
AllFrom g ((m, d) ∷ es) = IsKey g m × AllFrom g es

AllFrom-append :
    (g : Degrees) (xs ys : List Edge) → AllFrom g xs → AllFrom g ys → AllFrom g (xs ++ ys)
AllFrom-append g [] ys a b = b
AllFrom-append g ((m, d) ∷ xs) ys a b = (a.0, AllFrom-append g xs ys a.1 b)

AllFrom-keep :
    (g g' : Degrees) (es : List Edge)
    → ((k : String) → IsKey g k → IsKey g' k)
    → AllFrom g es
    → AllFrom g' es
AllFrom-keep g g' [] f h = tt
AllFrom-keep g g' ((m, d) ∷ es) f h = (f m h.0, AllFrom-keep g g' es f h.1)

AllFrom-edges_of :
    (g : Degrees) (id : String) (deps : List String) → IsKey g id → AllFrom g (edges_of id deps)
AllFrom-edges_of g id [] h = tt
AllFrom-edges_of g id (d ∷ deps) h = (h, AllFrom-edges_of g id deps h)

pub zero_degrees-keep :
    (g : Degrees) (tasks : List Task) (k : String) → IsKey g k → IsKey (zero_degrees g tasks) k
unfolding zero_degrees
zero_degrees-keep g [] k h = h
zero_degrees-keep g (t ∷ tasks) k h =
    zero_degrees-keep (put g t.id (ℤ.pos 0)) tasks k (IsKey-put g t.id k (ℤ.pos 0) h)

AllFrom-zero_degrees :
    (g : Degrees) (tasks : List Task) → AllFrom (zero_degrees g tasks) (edges tasks)
unfolding zero_degrees edges
AllFrom-zero_degrees g [] = tt
AllFrom-zero_degrees g (t ∷ tasks) =
    let start = put g t.id (ℤ.pos 0) in
    AllFrom-append (zero_degrees start tasks) (edges_of t.id t.depends_on) (edges tasks)
      (AllFrom-edges_of (zero_degrees start tasks) t.id t.depends_on
        (zero_degrees-keep start tasks t.id (ℤ.pos 0, get-put_self g t.id (ℤ.pos 0))))
      (AllFrom-zero_degrees start tasks)

bump-keep : (o : Option ℤ) (g : Degrees) (m k : String) → IsKey g k → IsKey (bump o g m) k
bump-keep none g m k h = h
bump-keep (some z) g m k h = IsKey-put g m k (next z) h

pub count_edge-keep :
    (o : Option ℤ) (g : Degrees) (m k : String) → IsKey g k → IsKey (count_edge o g m) k
count_edge-keep none g m k h = h
count_edge-keep (some _) g m k h = bump-keep (get g m) g m k h

count_edges-keep :
    (g : Degrees) (es : List Edge) (k : String) → IsKey g k → IsKey (count_edges g es) k
unfolding count_edges
count_edges-keep g [] k h = h
count_edges-keep g ((m, d) ∷ es) k h =
    count_edges-keep (count_edge (get g d) g m) es k (count_edge-keep (get g d) g m k h)

AllKeys-append :
    (g : Degrees) (ms : List String) (m : String)
    → AllKeys g ms
    → IsKey g m
    → AllKeys g (ms ++ m ∷ [])
AllKeys-append g [] m h k = (k, tt)
AllKeys-append g (x ∷ ms) m h k = (h.0, AllKeys-append g ms m h.1 k)

HasKeys-put :
    (g : Degrees) (ds : Dict String (List String)) (d m : String)
    → HasKeys g ds
    → IsKey g m
    → HasKeys g (put ds d (or_nil (get ds d) ++ m ∷ []))
HasKeys-put g ds d m h k n =
    let more = or_nil (get ds d) ++ m ∷ [] in
    let at : get (put ds d more) n ≡ (if d == n then some more else get ds n) =
      get-put ds d n more in
    subst (λ o. AllKeys g (or_nil o)) (sym at)
      (elim (Bool-cases (d == n)) [
        | inl e ↦ rw e (AllKeys-append g (or_nil (get ds d)) m (h d) k)
        | inr e ↦ rw e (h n)
      ])

HasKeys-dependents_from :
    (g : Degrees) (ds : Dict String (List String)) (es : List Edge)
    → HasKeys g ds
    → AllFrom g es
    → HasKeys g (dependents_from ds es)
unfolding dependents_from
HasKeys-dependents_from g ds [] h a = h
HasKeys-dependents_from g ds ((m, d) ∷ es) h a =
    HasKeys-dependents_from g (put ds d (or_nil (get ds d) ++ m ∷ [])) es
      (HasKeys-put g ds d m h a.0) a.1

-- The search for a cycle ends for every plan, with cycles, repeated ids and unknown dependencies too:
-- the fuel is enough and no in-degree is missing.
pub visited_ends : (tasks : List Task) → (order : List String) × (visited tasks ≡ some order)
unfolding visited
visited_ends tasks =
    let g = degrees tasks in
    let from =
      AllFrom-keep (zero_degrees [] tasks) g (edges tasks)
        (count_edges-keep (zero_degrees [] tasks) (edges tasks)) (AllFrom-zero_degrees [] tasks) in
    drain_ends (total g + length (roots g [])) (dependents_from [] (edges tasks)) g (roots g [])
      (HasKeys-dependents_from g [] (edges tasks) (unfold get in λ n. tt) from) (omega arith)
