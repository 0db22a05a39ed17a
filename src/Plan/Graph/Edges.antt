-- ===== src/Plan/Graph/Edges.antt =====
-- Counts of edges, and what leaving nodes change of them.
use exposure_atlas.Base.{
  ℕ, ◌+◌, ◌≤◌, String, Bool, true, false, some, List, [], ◌∷◌, ◌++◌, ◌&&◌, not, elem, if◌then◌else◌,
  text_eq_instance, ◌==◌, ==_iff, ◌≡◌, inl, inr, sym, ap, ◌∙◌, subst, arith, Bool-cases,
}
use exposure_atlas.Base.Dict.{Dict, get, put, get-put}
use exposure_atlas.Plan.Graph.{Edge, or_nil, dependents_from}

abbrev pub one_if : Bool → ℕ
one_if true = 1
one_if false = 0

-- The edges of a node to what has not left the queue.
unfoldable pub waiting : List String → String → List Edge → ℕ
waiting gone m [] = 0
waiting gone m ((j, d) ∷ es) = one_if (j == m && not (elem d gone)) + waiting gone m es

-- The edges of a node to one dependency.
unfoldable pub between : String → String → List Edge → ℕ
between n m [] = 0
between n m ((j, d) ∷ es) = one_if (j == m && d == n) + between n m es

unfoldable pub copies : String → List String → ℕ
copies m [] = 0
copies m (k ∷ ks) = one_if (k == m) + copies m ks

-- Every dependency of the node is in the list.
abbrev pub IsClear : List Edge → List String → String → Type 0
IsClear [] gone n = Unit
IsClear ((j, d) ∷ es) gone n = (j ≡ n → elem d gone ≡ true) × IsClear es gone n

pub waiting-IsClear :
    (gone : List String) (n : String) (es : List Edge) → waiting gone n es ≤ 0 → IsClear es gone n
unfolding waiting
waiting-IsClear gone n [] h = tt
waiting-IsClear gone n ((j, d) ∷ es) h =
    ((λ e. let own = (==_iff j n).1 e in ground arith), waiting-IsClear gone n es (omega arith))

pub waiting-gone :
    (gone : List String) (n m : String) (es : List Edge)
    → elem n gone ≡ false
    → waiting gone m es ≡ waiting (n ∷ gone) m es + between n m es
unfolding waiting between
waiting-gone gone n m [] h = omega arith
waiting-gone gone n m ((j, d) ∷ es) h =
    let ih = waiting-gone gone n m es h in
    elim (Bool-cases (n == d)) [
      | inl e ↦
          let same : n ≡ d = (==_iff n d).0 e in
          let here : elem d gone ≡ false = subst (λ x. elem x gone ≡ false) same h in
          let back : (d == n) ≡ true = (==_iff d n).1 (sym same) in
          rw (e, here, back) (ground arith)
      | inr e ↦
          let back : (d == n) ≡ false = ground (arith, ==_iff d n, ==_iff n d) in
          rw (e, back) (ground arith)
    ]

copies-append :
    (m k : String) (ks : List String) → copies m (ks ++ k ∷ []) ≡ copies m ks + one_if (k == m)
unfolding copies
copies-append m k [] = omega arith
copies-append m k (j ∷ ks) = omega (arith, copies-append m k ks)

pub copies-dependents_from :
    (n m : String) (ds : Dict String (List String)) (es : List Edge)
    → copies m (or_nil (get (dependents_from ds es) n))
      ≡ copies m (or_nil (get ds n)) + between n m es
unfolding dependents_from between
copies-dependents_from n m ds [] = omega arith
copies-dependents_from n m ds ((j, d) ∷ es) =
    let more = or_nil (get ds d) ++ j ∷ [] in
    let ih = copies-dependents_from n m (put ds d more) es in
    let at : get (put ds d more) n ≡ (if d == n then some more else get ds n) =
      get-put ds d n more in
    let step : copies m (or_nil (get (put ds d more) n))
        ≡ copies m (or_nil (get ds n)) + one_if (j == m && d == n) =
      ap (λ o. copies m (or_nil o)) at ∙ elim (Bool-cases (d == n)) [
        | inl e ↦
            let added = copies-append m j (or_nil (get ds d)) in
            let same : copies m (or_nil (get ds d)) ≡ copies m (or_nil (get ds n)) =
              ap (λ x. copies m (or_nil (get ds x))) ((==_iff d n).0 e) in
            rw e (ground arith)
        | inr e ↦ rw e (ground arith)
      ] in
    omega arith
