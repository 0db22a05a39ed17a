-- ===== src/Plan/Graph/Order.antt =====
-- The order in which the nodes leave the queue.
use exposure_atlas.Base.{
  ℕ, zero, suc, ◌+◌, ◌≤◌, String, true, false, Option, none, some, List, [], ◌∷◌, elem,
  text_eq_instance, ◌==◌, ==_iff, ==_refl, ◌≡◌, inl, inr, refl, sym, ap, ◌∙◌, subst, arith,
  Bool-cases, Option-cases,
}
use mathlib.Core.Bool.{false≢true}
use exposure_atlas.Base.Dict.{get, put, get-put}
use exposure_atlas.Plan.Graph.Edges.{
  one_if, waiting, between, copies, IsClear, waiting-IsClear, waiting-gone, copies-dependents_from,
}
use exposure_atlas.Base.{IsDistinct}
use exposure_atlas.Plan.Graph.{
  ℤ, is_zero, Degrees, Edge, or_nil, dependents_from, push_if, relax, and_node, drain,
}

-- Between two rounds, over the edges of the plan: an in-degree is at least the number of edges to
-- what has not left, what waits or has left has in-degree 0, and nothing waits twice or again. Inside
-- a round, `rest` are the dependents whose in-degree is still to go down.
pub record IsRound (names : List String) (es : List Edge) (gone : List String) (g : Degrees)
    (queue rest : List String) : Type 0 where
  pub enough :
      (m : String) (z : ℤ)
      → get g m ≡ some z
      → (k : ℕ) × (z ≡ ℤ.pos k) × (waiting gone m es + copies m rest ≤ k)
  pub queued : (m : String) → elem m queue ≡ true → get g m ≡ some (ℤ.pos 0)
  pub left : (m : String) → elem m gone ≡ true → get g m ≡ some (ℤ.pos 0)
  pub apart : (m : String) → elem m queue ≡ true → elem m gone ≡ false
  pub once : IsDistinct queue
  pub known : (m : String) (z : ℤ) → get g m ≡ some z → elem m names ≡ true

pos_inj : {n k : ℕ} → ℤ.pos n ≡ ℤ.pos k → n ≡ k
pos_inj h = cc

some_inj : {y z : ℤ} → ◌≡◌ {A = Option ℤ} (some y) (some z) → y ≡ z
some_inj h = cc

-- A node whose in-degree is not 0 neither waits nor has left.
stays_out :
    (g : Degrees) (m : String) (k : ℕ) (names : List String)
    → ((j : String) → elem j names ≡ true → get g j ≡ some (ℤ.pos 0))
    → get g m ≡ some (ℤ.pos (suc k))
    → elem m names ≡ false
stays_out g m k names zeros e = elim (Bool-cases (elem m names)) [
  | inr out ↦ out
  | inl there ↦ absurd (zero≢suc (pos_inj (some_inj (sym (zeros m there) ∙ e))))
]
  where
    zero≢suc : {n : ℕ} → 0 ≡ suc n → ⊥
    zero≢suc h = omega arith

put_other :
    (g : Degrees) (m : String) (z : ℤ) (names : List String)
    → elem m names ≡ false
    → (j : String) → elem j names ≡ true
    → get (put g m z) j ≡ get g j
put_other g m z names out j there = get-put g m j z ∙ (rw (differs) refl)
  where
    differs : (m == j) ≡ false
    differs = elim (Bool-cases (m == j)) [
      | inr e ↦ e
      | inl e ↦
          absurd
            (false≢true (sym out ∙ subst (λ x. elem x names ≡ true) (sym ((==_iff m j).0 e)) there))
    ]

put-enough :
    (names : List String) (es : List Edge) (gone : List String) (g : Degrees)
    (queue rest : List String) (m : String) (k : ℕ)
    → IsRound names es gone g queue (m ∷ rest)
    → get g m ≡ some (ℤ.pos (suc k))
    → (j : String) (z : ℤ) → get (put g m (ℤ.pos k)) j ≡ some z
    → (i : ℕ) × (z ≡ ℤ.pos i) × (waiting gone j es + copies j rest ≤ i)
unfolding copies
put-enough names es gone g queue rest m k r e j z h = elim (Bool-cases (m == j)) [
  | inl same ↦
      let at : get (put g m (ℤ.pos k)) j ≡ some (ℤ.pos k) =
        get-put g m j (ℤ.pos k) ∙ (rw same refl) in
      let (i, p, fits) = r.enough m (ℤ.pos (suc k)) e in
      let top : suc k ≡ i = pos_inj p in
      let own : one_if (m == m) ≡ 1 = ap one_if (==_refl m) in
      (
        k,
        some_inj (sym h ∙ at),
        subst (λ x. waiting gone x es + copies x rest ≤ k) ((==_iff m j).0 same) (omega arith),
      )
  | inr other ↦
      let at : get (put g m (ℤ.pos k)) j ≡ get g j = get-put g m j (ℤ.pos k) ∙ (rw other refl) in
      let (i, p, fits) = r.enough j z (sym at ∙ h) in (i, p, omega arith)
]

put-known :
    (names : List String) (g : Degrees) (m : String) (y : ℤ)
    → elem m names ≡ true
    → ((j : String) (z : ℤ) → get g j ≡ some z → elem j names ≡ true)
    → (j : String) (z : ℤ) → get (put g m y) j ≡ some z
    → elem j names ≡ true
put-known names g m y here known j z h = elim (Bool-cases (m == j)) [
  | inl same ↦ subst (λ x. elem x names ≡ true) ((==_iff m j).0 same) here
  | inr other ↦
      let at : get (put g m y) j ≡ get g j = get-put g m j y ∙ (rw other refl) in
      known j z (sym at ∙ h)
]

-- the step down of one dependent
put-IsRound :
    (names : List String) (es : List Edge) (gone : List String) (g : Degrees)
    (queue rest : List String) (m : String) (k : ℕ)
    → IsRound names es gone g queue (m ∷ rest)
    → get g m ≡ some (ℤ.pos (suc k))
    → IsRound names es gone (put g m (ℤ.pos k)) (push_if (is_zero (ℤ.pos k)) m queue) rest
put-IsRound names es gone g queue rest m (suc k) r e =
    let waits = stays_out g m (suc k) queue r.queued e in
    let went = stays_out g m (suc k) gone r.left e in
    let z = ℤ.pos (suc k) in
    record {
      enough = put-enough names es gone g queue rest m (suc k) r e;
      queued = λ j q. put_other g m z queue waits j q ∙ r.queued j q;
      left = λ j q. put_other g m z gone went j q ∙ r.left j q;
      apart = r.apart;
      once = r.once;
      known = put-known names g m z (r.known m (ℤ.pos (suc (suc k))) e) r.known;
    }
put-IsRound names es gone g queue rest m zero r e =
    let waits = stays_out g m 0 queue r.queued e in
    let went = stays_out g m 0 gone r.left e in
    let z = ℤ.pos 0 in
    record {
      enough = put-enough names es gone g queue rest m 0 r e;
      queued = λ j q. elim (Bool-cases (m == j)) [
        | inl same ↦ get-put g m j z ∙ (rw same refl)
        | inr other ↦
            let q' : elem j queue ≡ true = ground arith in
            put_other g m z queue waits j q' ∙ r.queued j q'
      ];
      left = λ j q. put_other g m z gone went j q ∙ r.left j q;
      apart = λ j q. elim (Bool-cases (m == j)) [
        | inl same ↦ subst (λ x. elem x gone ≡ false) ((==_iff m j).0 same) went
        | inr other ↦ r.apart j (ground arith)
      ];
      once = (waits, r.once);
      known = put-known names g m z (r.known m (ℤ.pos 1) e) r.known;
    }

relax-IsRound :
    (names : List String) (es : List Edge) (gone : List String) (g : Degrees)
    (queue rest : List String) {after : Degrees} {queue' : List String}
    → IsRound names es gone g queue rest
    → relax g queue rest ≡ some (after, queue')
    → IsRound names es gone after queue' []
unfolding relax
relax-IsRound names es gone g queue [] {after} {queue'} r h =
    let done : (g, queue) ≡ (after, queue') = pair_inj h in
    subst (λ (p : Degrees × List String). IsRound names es gone p.0 p.1 []) done r
  where
    pair_inj :
        {p q : Degrees × List String}
        → ◌≡◌ {A = Option (Degrees × List String)} (some p) (some q)
        → p ≡ q
    pair_inj h = cc
relax-IsRound names es gone g queue (m ∷ rest) r h = elim (Option-cases (get g m)) [
  | inl e ↦ absurd (nothing (rw (e, relax) at h))
  | inr (z, e) ↦
      let (k, p, fits) = r.enough m z e in
      let own : one_if (m == m) ≡ 1 = ap one_if (==_refl m) in
      let (i, s) = positive k (unfold copies in omega arith) in
      let at : z ≡ ℤ.pos (suc i) = p ∙ ap (λ x. ℤ.pos x) s in
      relax-IsRound names es gone (put g m (ℤ.pos i)) (push_if (is_zero (ℤ.pos i)) m queue) rest
        (put-IsRound names es gone g queue rest m i r (e ∙ ap (λ x. some x) at))
        (rw at at (rw (e, relax) at h))
]
  where
    nothing :
        {p : Degrees × List String} → ◌≡◌ {A = Option (Degrees × List String)} none (some p) → ⊥
    nothing h = cc

    positive : (k : ℕ) → 1 ≤ k → (i : ℕ) × (k ≡ suc i)
    positive zero h = absurd (omega arith)
    positive (suc i) h = (i, refl)

pop-IsRound :
    (names : List String) (es : List Edge) (gone : List String) (g : Degrees) (n : String)
    (queue : List String)
    → IsRound names es gone g (n ∷ queue) []
    → IsRound names es (n ∷ gone) g queue (or_nil (get (dependents_from [] es) n))
pop-IsRound names es gone g n queue r =
    let out = r.apart n (ground (arith, ==_refl n)) in
    record {
      enough = λ m z h.
          let (k, p, fits) = r.enough m z h in
          let split = waiting-gone gone n m es out in
          let rest : copies m (or_nil (get (dependents_from [] es) n)) ≡ between n m es =
            copies-dependents_from n m [] es ∙ (unfold get copies in omega arith) in
          (k, p, omega arith);
      queued = λ m q. r.queued m (ground arith);
      left = λ m q. elim (Bool-cases (n == m)) [
        | inl same ↦ r.queued m (ground arith)
        | inr other ↦ r.left m (ground arith)
      ];
      apart = λ m q. elim (Bool-cases (n == m)) [
        | inl same ↦ absurd (
            false≢true
              (sym r.once.0 ∙ subst (λ x. elem x queue ≡ true) (sym ((==_iff n m).0 same)) q))
        | inr other ↦ rw other (r.apart m (ground arith))
      ];
      once = r.once.1;
      known = r.known;
    }

-- No node leaves twice, and each leaves behind all of its dependencies.
abbrev pub IsOrder : List String → List Edge → List String → List String → Type 0
IsOrder names es gone [] = Unit
IsOrder names es gone (n ∷ order) =
    (elem n names ≡ true)
    × (elem n gone ≡ false)
    × IsClear es gone n
    × IsOrder names es (n ∷ gone) order

nodes_inj : {xs ys : List String} → ◌≡◌ {A = Option (List String)} (some xs) (some ys) → xs ≡ ys
nodes_inj h = cc

lost : {xs : List String} → ◌≡◌ {A = Option (List String)} none (some xs) → ⊥
lost h = cc

and_node-some :
    (n : String) (o : Option (List String)) {order : List String}
    → and_node n o ≡ some order
    → (rest : List String) × (o ≡ some rest) × (n ∷ rest ≡ order)
and_node-some n none h = absurd (lost h)
and_node-some n (some rest) h = (rest, refl, nodes_inj h)

pub drain-IsOrder :
    (fuel : ℕ) (names : List String) (es : List Edge) (gone : List String) (g : Degrees)
    (queue : List String) {order : List String}
    → IsRound names es gone g queue []
    → drain fuel (dependents_from [] es) g queue ≡ some order
    → IsOrder names es gone order
unfolding drain
drain-IsOrder fuel names es gone g [] r h = subst (IsOrder names es gone) (nodes_inj h) tt
drain-IsOrder zero names es gone g (n ∷ queue) r h = cc
drain-IsOrder (suc fuel) names es gone g (n ∷ queue) r h =
    elim (Option-cases (relax g queue (or_nil (get (dependents_from [] es) n)))) [
      | inl e ↦ absurd (lost (rw (e, drain) at h))
      | inr ((after, queue'), e) ↦
          let next_round =
            relax-IsRound names es (n ∷ gone) g queue (or_nil (get (dependents_from [] es) n))
              (pop-IsRound names es gone g n queue r) e in
          let (rest, ran, same) =
            and_node-some n (drain fuel (dependents_from [] es) after queue')
              (rw (e, drain) at h) in
          let first : elem n (n ∷ queue) ≡ true = ground (arith, ==_refl n) in
          let (k, p, fits) = r.enough n (ℤ.pos 0) (r.queued n first) in
          let none_left : 0 ≡ k = pos_inj p in
          subst (IsOrder names es gone) same (
            r.known n (ℤ.pos 0) (r.queued n first),
            r.apart n first,
            waiting-IsClear gone n es (omega arith),
            drain-IsOrder fuel names es (n ∷ gone) after queue' next_round ran,
          )
    ]
