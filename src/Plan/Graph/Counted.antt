-- ===== src/Plan/Graph/Counted.antt =====
-- The in-degrees that the loop starts from.
use exposure_atlas.Base.{
  ℕ, suc, ◌+◌, String, true, false, Option, none, some, List, [], ◌∷◌, elem, all, text_eq_instance,
  ◌==◌, ==_iff, ◌≡◌, inl, inr, refl, sym, ap, ◌∙◌, subst, arith, Bool-cases,
}
use exposure_atlas.Base.Dict.{get, put, get-put, get-put_self, keys}
use exposure_atlas.Base.Entries.{put-IsDistinct}
use exposure_atlas.Base.{IsDistinct}
use exposure_atlas.Plan.{Task}
use exposure_atlas.Plan.Graph.{ℤ, next, Degrees, Edge, zero_degrees, bump, count_edge, count_edges}
use exposure_atlas.Plan.Graph.Ends.{IsKey, count_edge-keep}
use exposure_atlas.Plan.Graph.Edges.{waiting}

-- Every dependency of an edge has an in-degree.
abbrev pub AllTo : Degrees → List Edge → Type 0
AllTo g [] = Unit
AllTo g ((m, d) ∷ es) = IsKey g d × AllTo g es

AllTo-keep :
    (g g' : Degrees) (es : List Edge)
    → ((k : String) → IsKey g k → IsKey g' k)
    → AllTo g es
    → AllTo g' es
AllTo-keep g g' [] f h = tt
AllTo-keep g g' ((m, d) ∷ es) f h = (f d h.0, AllTo-keep g g' es f h.1)

bump_self :
    (g : Degrees) (m : String) (k : ℕ)
    → get g m ≡ some (ℤ.pos k)
    → get (bump (get g m) g m) m ≡ some (ℤ.pos (suc k))
bump_self g m k h = rw h (get-put_self g m (ℤ.pos (suc k)))

bump-other :
    (o : Option ℤ) (g : Degrees) (j m : String) → (j == m) ≡ false → get (bump o g j) m ≡ get g m
bump-other none g j m h = refl
bump-other (some z) g j m h = get-put g j m (next z) ∙ (rw h refl)

pub get-count_edges :
    (g : Degrees) (es : List Edge) (m : String) (k : ℕ)
    → AllTo g es
    → get g m ≡ some (ℤ.pos k)
    → get (count_edges g es) m ≡ some (ℤ.pos (k + waiting [] m es))
unfolding count_edges waiting
get-count_edges g [] m k a h = h ∙ ap (λ n. some (ℤ.pos n)) (omega arith)
get-count_edges g ((j, d) ∷ es) m k ((z, e), a) h =
    let g' = bump (get g j) g j in
    let counted : count_edge (get g d) g j ≡ g' = ap (λ o. count_edge o g j) e in
    let a' = AllTo-keep g (count_edge (get g d) g j) es (count_edge-keep (get g d) g j) a in
    elim (Bool-cases (j == m)) [
      | inl same ↦
          let at : get (count_edge (get g d) g j) m ≡ some (ℤ.pos (suc k)) =
            ap (λ x. get x m) counted
            ∙ subst (λ x. get (bump (get g x) g x) m ≡ some (ℤ.pos (suc k)))
                (sym ((==_iff j m).0 same)) (bump_self g m k h) in
          get-count_edges (count_edge (get g d) g j) es m (suc k) a' at
          ∙ (rw same (ap (λ n. some (ℤ.pos n)) (omega arith)))
      | inr other ↦
          let at : get (count_edge (get g d) g j) m ≡ some (ℤ.pos k) =
            ap (λ x. get x m) counted ∙ bump-other (get g j) g j m other ∙ h in
          get-count_edges (count_edge (get g d) g j) es m k a' at
          ∙ (rw other (ap (λ n. some (ℤ.pos n)) (omega arith)))
    ]

bump-none : (g : Degrees) (j m : String) → get g m ≡ none → get (bump (get g j) g j) m ≡ none
bump-none g j m h = elim (Bool-cases (j == m)) [
  | inl same ↦ subst (λ x. get (bump (get g x) g x) m ≡ none) (sym ((==_iff j m).0 same)) (rw h h)
  | inr other ↦ bump-other (get g j) g j m other ∙ h
]

count_edge-none :
    (o : Option ℤ) (g : Degrees) (j m : String) → get g m ≡ none → get (count_edge o g j) m ≡ none
count_edge-none none g j m h = h
count_edge-none (some _) g j m h = bump-none g j m h

pub count_edges-none :
    (g : Degrees) (es : List Edge) (m : String) → get g m ≡ none → get (count_edges g es) m ≡ none
unfolding count_edges
count_edges-none g [] m h = h
count_edges-none g ((j, d) ∷ es) m h =
    count_edges-none (count_edge (get g d) g j) es m (count_edge-none (get g d) g j m h)

-- Every in-degree starts at 0, and belongs to a task.
abbrev pub IsFresh : List String → Degrees → Type 0
IsFresh names g = (m : String) (z : ℤ) → get g m ≡ some z → (z ≡ ℤ.pos 0) × (elem m names ≡ true)

pub some_inj : {y z : ℤ} → ◌≡◌ {A = Option ℤ} (some y) (some z) → y ≡ z
some_inj h = cc

pub absent : {z : ℤ} → ◌≡◌ {A = Option ℤ} none (some z) → ⊥
absent h = cc

pub zero_degrees-IsFresh :
    (names : List String) (g : Degrees) (tasks : List Task)
    → all (λ (t : Task). elem t.id names) tasks ≡ true
    → IsFresh names g
    → IsFresh names (zero_degrees g tasks)
unfolding zero_degrees
zero_degrees-IsFresh names g [] a h = h
zero_degrees-IsFresh names g (t ∷ tasks) a h =
    zero_degrees-IsFresh names (put g t.id (ℤ.pos 0)) tasks (ground arith) (λ m z e.
      elim (Bool-cases (t.id == m)) [
        | inl same ↦
            let at : get (put g t.id (ℤ.pos 0)) m ≡ some (ℤ.pos 0) =
              get-put g t.id m (ℤ.pos 0) ∙ (rw same refl) in
            let own : elem t.id names ≡ true = ground arith in
            (some_inj (sym e ∙ at), subst (λ x. elem x names ≡ true) ((==_iff t.id m).0 same) own)
        | inr other ↦
            let at : get (put g t.id (ℤ.pos 0)) m ≡ get g m =
              get-put g t.id m (ℤ.pos 0) ∙ (rw other refl) in
            h m z (sym at ∙ e)
      ])

pub zero_degrees-IsDistinct :
    (g : Degrees) (tasks : List Task)
    → IsDistinct (keys g)
    → IsDistinct (keys (zero_degrees g tasks))
unfolding zero_degrees
zero_degrees-IsDistinct g [] h = h
zero_degrees-IsDistinct g (t ∷ tasks) h =
    zero_degrees-IsDistinct (put g t.id (ℤ.pos 0)) tasks (put-IsDistinct g t.id (ℤ.pos 0) h)

bump-IsDistinct :
    (o : Option ℤ) (g : Degrees) (m : String) → IsDistinct (keys g) → IsDistinct (keys (bump o g m))
bump-IsDistinct none g m h = h
bump-IsDistinct (some z) g m h = put-IsDistinct g m (next z) h

count_edge-IsDistinct :
    (o : Option ℤ) (g : Degrees) (m : String)
    → IsDistinct (keys g)
    → IsDistinct (keys (count_edge o g m))
count_edge-IsDistinct none g m h = h
count_edge-IsDistinct (some _) g m h = bump-IsDistinct (get g m) g m h

pub count_edges-IsDistinct :
    (g : Degrees) (es : List Edge) → IsDistinct (keys g) → IsDistinct (keys (count_edges g es))
unfolding count_edges
count_edges-IsDistinct g [] h = h
count_edges-IsDistinct g ((m, d) ∷ es) h =
    count_edges-IsDistinct (count_edge (get g d) g m) es (count_edge-IsDistinct (get g d) g m h)
