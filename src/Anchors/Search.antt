-- ===== src/Anchors/Search.antt =====
-- The search loop of `create_anchor` finds every position at which the quote stands, in order.
use exposure_atlas.Base.{
  ℕ, zero, suc, ◌+◌, ◌-◌, ◌≤◌, ◌<◌, true, none, some, List, [], ◌∷◌, length, take, drop, get_elem?,
  ◌≡◌, refl, ap, ◌∙◌, sym, arith, Option-cases, inl, inr, Bool-cases, ==_iff, nat_eq, if◌then◌else◌,
}
use mathlib.Core.Option.{some-injective}
use exposure_atlas.Anchors.{Bytes, is_prefix, find_sub, find, collect, positions}

-- The positions, counted from `i`, at which `q` stands in the text.
pub occurrences : Bytes → Bytes → ℕ → List ℕ
occurrences q [] i = []
occurrences q (c ∷ cs) i =
    let later = occurrences q cs (i + 1) in if is_prefix q (c ∷ cs) then i ∷ later else later

find_sub-none :
    (b : ℕ) (bs xs : Bytes) (i : ℕ) → find_sub (b ∷ bs) xs i ≡ none → occurrences (b ∷ bs) xs i ≡ []
unfolding find_sub occurrences
find_sub-none b bs [] i h = refl
find_sub-none b bs (c ∷ cs) i h = ground (arith, find_sub-none b bs cs (i + 1))

find_sub-some :
    (b : ℕ) (bs xs : Bytes) (i j : ℕ)
    → find_sub (b ∷ bs) xs i ≡ some j
    → (k : ℕ) × (j ≡ i + k)
      × (occurrences (b ∷ bs) xs i ≡ j ∷ occurrences (b ∷ bs) (drop (suc k) xs) (suc j))
unfolding find_sub occurrences
find_sub-some b bs [] i j h = unfold is_prefix in cc
find_sub-some b bs (c ∷ cs) i j h = elim (Bool-cases (is_prefix (b ∷ bs) (c ∷ cs))) [
  | inl here ↦
      let e : i ≡ j = some-injective i j (rw here at h) in
      (
        0,
        omega arith,
        rw here (
            ap (λ (n : ℕ). n ∷ occurrences (b ∷ bs) cs (n + 1)) e
            ∙ ap (λ (n : ℕ). j ∷ occurrences (b ∷ bs) cs n) (omega arith)),
      )
  | inr later ↦
      let (k, e, rest) = find_sub-some b bs cs (i + 1) j (rw later at h) in
      (suc k, omega arith, rw later rest)
]

drop-nil : {A : Type 0} (n : ℕ) → drop {A = A} n [] ≡ []
drop-nil zero = refl
drop-nil (suc n) = refl

drop-drop : {A : Type 0} (n m : ℕ) (xs : List A) → drop m (drop n xs) ≡ drop (n + m) xs
drop-drop zero m xs = ap (λ k. drop k xs) (omega arith)
drop-drop (suc n) m [] = drop-nil m ∙ sym (drop-nil (suc n + m))
drop-drop (suc n) m (x ∷ xs) =
    drop-drop n m xs
    ∙ ap (λ k. drop k (x ∷ xs)) (let e : suc (n + m) ≡ suc n + m = omega arith in e)

drop_all : {A : Type 0} (n : ℕ) (xs : List A) → length xs ≤ n → drop n xs ≡ []
drop_all zero [] h = refl
drop_all zero (x ∷ xs) h = absurd (omega arith)
drop_all (suc n) [] h = refl
drop_all (suc n) (x ∷ xs) h = drop_all n xs (omega arith)

length-drop : {A : Type 0} (n : ℕ) (xs : List A) → length (drop n xs) ≡ length xs - n
length-drop zero xs = omega arith
length-drop (suc n) [] = omega arith
length-drop (suc n) (x ∷ xs) = omega (arith, length-drop n xs)

-- With more fuel than bytes are left, the loop collects every occurrence from `start` on.
collect-occurrences :
    (fuel : ℕ) (text : Bytes) (b : ℕ) (bs : Bytes) (start : ℕ)
    → length text < fuel + start
    → collect fuel text (b ∷ bs) start ≡ occurrences (b ∷ bs) (drop start text) start
unfolding collect occurrences
collect-occurrences zero text b bs start h =
    sym (ap (λ l. occurrences (b ∷ bs) l start) (drop_all start text (omega arith)))
collect-occurrences (suc fuel) text b bs start h = elim (Option-cases (find text (b ∷ bs) start)) [
  | inl none_left ↦
      rw (none_left, collect)
        (sym (find_sub-none b bs (drop start text) start (unfold find in none_left)))
  | inr (j, found) ↦
      let (k, e, rest) = find_sub-some b bs (drop start text) start j (unfold find in found) in
      rw (found, collect)
        (ap (λ l. j ∷ l)
            (collect-occurrences fuel text b bs (j + 1) (omega arith)
              ∙ ap (λ (n : ℕ). occurrences (b ∷ bs) (drop n text) n)
                  (let x : j + 1 ≡ suc j = omega arith in x)
              ∙ ap (λ l. occurrences (b ∷ bs) l (suc j))
                  (ap (λ n. drop n text) (let x : suc j ≡ start + suc k = omega arith in x)
                    ∙ sym (drop-drop start (suc k) text)))
          ∙ sym rest)
]

-- The search returns exactly the positions at which the quote stands, each once and in order: the
-- loop's fuel, one more than the bytes of the text, is enough.
pub positions-occurrences :
    (text : Bytes) (b : ℕ) (bs : Bytes) → positions text (b ∷ bs) ≡ occurrences (b ∷ bs) text 0
unfolding positions
positions-occurrences text b bs = collect-occurrences (suc (length text)) text b bs 0 (omega arith)

take-is_prefix : (q text : Bytes) → is_prefix q text ≡ true → take (length q) text ≡ q
unfolding is_prefix
take-is_prefix [] text h = refl
take-is_prefix (q ∷ qs) [] h = cc
take-is_prefix (q ∷ qs) (c ∷ cs) h = ground (arith, ==_iff q c, take-is_prefix qs cs)

-- The quote stands at distance `k` in the text, which begins at position `i`.
abbrev pub StandsAt : Bytes → Bytes → ℕ → ℕ → Type 0
StandsAt q text i j = (k : ℕ) × (j ≡ i + k) × (take (length q) (drop k text) ≡ q)

StandsAt-cons :
    (q : Bytes) (c : ℕ) (cs : Bytes) (i j : ℕ) → StandsAt q cs (i + 1) j → StandsAt q (c ∷ cs) i j
StandsAt-cons q c cs i j (k, e, t) = (suc k, omega arith, t)

pub occurrences_sound :
    (q text : Bytes) (i n j : ℕ) → get_elem? (occurrences q text i) n ≡ some j → StandsAt q text i j
unfolding occurrences
occurrences_sound q [] i n j h = cc
occurrences_sound q (c ∷ cs) i zero j h = elim (Bool-cases (is_prefix q (c ∷ cs))) [
  | inl here ↦
      let e : i ≡ j = some-injective i j (rw here at h) in
      (0, omega arith, take-is_prefix q (c ∷ cs) here)
  | inr later ↦ StandsAt-cons q c cs i j (occurrences_sound q cs (i + 1) zero j (rw later at h))
]
occurrences_sound q (c ∷ cs) i (suc n) j h = elim (Bool-cases (is_prefix q (c ∷ cs))) [
  | inl here ↦ StandsAt-cons q c cs i j (occurrences_sound q cs (i + 1) n j (rw here at h))
  | inr later ↦ StandsAt-cons q c cs i j (occurrences_sound q cs (i + 1) (suc n) j (rw later at h))
]
