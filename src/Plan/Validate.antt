-- ===== src/Plan/Validate.antt =====
-- `validate` (tools/atlas_plan.py): the faults of a plan, and what a plan without faults is.
use exposure_atlas.Base.{
  ℕ, String, Bool, true, false, Option, none, some, List, [], ◌∷◌, ◌++◌, ◌&&◌, ◌||◌, not, length,
  elem, any, all, map, if◌then◌else◌, text_eq_instance, nat_eq, ◌==◌, ==_iff, ==_refl, ◌≡◌, inl,
  inr, refl, sym, ◌∙◌, subst, arith, Bool-cases,
}
use exposure_atlas.Base.Dict.{put, get-put_self}
use exposure_atlas.Plan.{Task, Receipt, is_passed}
use exposure_atlas.Base.{IsDistinct}
use exposure_atlas.Plan.Graph.{ℤ, Degrees, Edge, edges, zero_degrees, visited}
use exposure_atlas.Plan.Graph.Ends.{IsKey, zero_degrees-keep, visited_ends}
use exposure_atlas.Plan.Graph.Counted.{AllTo}
use exposure_atlas.Plan.Graph.Order.{IsOrder}
use exposure_atlas.Plan.Graph.Whole.{visited-IsOrder, IsOrder-whole}

pub data Fault : Type 0 where
  schema_fault : (id message : String) → Fault
  duplicate_id done_without_evidence : String → Fault
  unknown_dependency : (id d : String) → Fault
  has_cycle : Fault

-- `schema_errors` are the messages of the schema about a task.
unfoldable pub task_faults : (Task → List String) → (ids : List String) → List Task → List Fault
task_faults schema_errors ids [] = []
task_faults schema_errors ids (t ∷ tasks) =
    map (Fault.schema_fault t.id) (schema_errors t)
    ++ ((if elem t.id ids then Fault.duplicate_id t.id ∷ [] else [])
        ++ task_faults schema_errors (t.id ∷ ids) tasks)

unfoldable pub dependency_faults : (ids : List String) → List Edge → List Fault
dependency_faults ids [] = []
dependency_faults ids ((m, d) ∷ es) =
    let rest = dependency_faults ids es in
    if elem d ids then rest else Fault.unknown_dependency m d ∷ rest

abbrev pub verifies : String → Receipt → Bool
verifies id r = r.task_id == id && not r.self_asserted && all is_passed r.criteria

unfoldable pub done_faults : List Receipt → List Task → List Fault
done_faults receipts [] = []
done_faults receipts (t ∷ tasks) =
    let rest = done_faults receipts tasks in
    if t.status == "done" && not (any (verifies t.id) receipts)
    then Fault.done_without_evidence t.id ∷ rest
    else rest

abbrev pub cycle_faults : ℕ → List String → List Fault
cycle_faults count order = if length order == count then [] else Fault.has_cycle ∷ []

abbrev pub task_ids : List Task → List String
task_ids tasks = map (λ (t : Task). t.id) tasks

abbrev pub with_cycle : List Fault → Option (List Fault) → List Fault → Option (List Fault)
with_cycle front none back = none
with_cycle front (some cycle) back = some (front ++ (cycle ++ back))

abbrev pub search_faults : ℕ → Option (List String) → Option (List Fault)
search_faults count none = none
search_faults count (some order) = some (cycle_faults count order)

-- The faults that are printed, in order; the exit code is 0 where there are none. `none` would be the
-- KeyError of the search.
unfoldable pub validate :
    (schema_errors : Task → List String) (tasks : List Task) (receipts : List Receipt)
    → Option (List Fault)
validate schema_errors tasks receipts =
    with_cycle
      (task_faults schema_errors [] tasks ++ dependency_faults (task_ids tasks) (edges tasks))
      (search_faults (length tasks) (visited tasks)) (done_faults receipts tasks)

append_empty : (xs ys : List Fault) → xs ++ ys ≡ [] → (xs ≡ []) × (ys ≡ [])
append_empty [] ys h = (refl, h)
append_empty (x ∷ xs) ys h = cc

filled : {x : Fault} {xs : List Fault} → x ∷ xs ≡ [] → ⊥
filled h = cc

-- no id of the tasks is in the list
abbrev all_new : List String → List Task → Bool
all_new ids tasks = all (λ (t : Task). not (elem t.id ids)) tasks

all_new-cons :
    (x : String) (ids : List String) (tasks : List Task)
    → all_new (x ∷ ids) tasks ≡ true
    → (elem x (task_ids tasks) ≡ false) × (all_new ids tasks ≡ true)
all_new-cons x ids [] h = (refl, refl)
all_new-cons x ids (t ∷ tasks) h =
    let (a, b) = all_new-cons x ids tasks (ground arith) in
    (ground (arith, ==_iff x t.id, ==_iff t.id x), ground arith)

unseen :
    (t : Task) (ids : List String)
    → (if elem t.id ids then Fault.duplicate_id t.id ∷ [] else []) ≡ []
    → elem t.id ids ≡ false
unseen t ids h = elim (Bool-cases (elem t.id ids)) [
  | inr e ↦ e
  | inl e ↦ absurd (filled (rw e at h))
]

task_faults-IsDistinct :
    (schema_errors : Task → List String) (ids : List String) (tasks : List Task)
    → task_faults schema_errors ids tasks ≡ []
    → IsDistinct (task_ids tasks) × (all_new ids tasks ≡ true)
unfolding task_faults
task_faults-IsDistinct schema_errors ids [] h = (tt, refl)
task_faults-IsDistinct schema_errors ids (t ∷ tasks) h =
    let (_, h1) = append_empty (map (Fault.schema_fault t.id) (schema_errors t)) _ h in
    let (dup, h2) =
      append_empty (if elem t.id ids then Fault.duplicate_id t.id ∷ [] else []) _ h1 in
    let (set, new) = task_faults-IsDistinct schema_errors (t.id ∷ ids) tasks h2 in
    let (apart, older) = all_new-cons t.id ids tasks new in
    let own = unseen t ids dup in ((apart, set), ground arith)

known_dependencies :
    (g : Degrees) (ids : List String) (es : List Edge)
    → ((d : String) → elem d ids ≡ true → IsKey g d)
    → dependency_faults ids es ≡ []
    → AllTo g es
unfolding dependency_faults
known_dependencies g ids [] f h = tt
known_dependencies g ids ((m, d) ∷ es) f h = elim (Bool-cases (elem d ids)) [
  | inl e ↦ (f d e, known_dependencies g ids es f (rw (e, dependency_faults) at h))
  | inr e ↦ absurd (filled (rw (e, dependency_faults) at h))
]

zero_degrees-IsKey :
    (g : Degrees) (tasks : List Task) (d : String)
    → elem d (task_ids tasks) ≡ true
    → IsKey (zero_degrees g tasks) d
unfolding zero_degrees
zero_degrees-IsKey g [] d h = cc
zero_degrees-IsKey g (t ∷ tasks) d h = elim (Bool-cases (t.id == d)) [
  | inl e ↦ zero_degrees-keep (put g t.id (ℤ.pos 0)) tasks d (
      subst (IsKey (put g t.id (ℤ.pos 0))) ((==_iff t.id d).0 e)
        (ℤ.pos 0, get-put_self g t.id (ℤ.pos 0)))
  | inr e ↦ zero_degrees-IsKey (put g t.id (ℤ.pos 0)) tasks d (ground arith)
]

own_ids :
    (tasks : List Task) (names : List String)
    → ((m : String) → elem m (task_ids tasks) ≡ true → elem m names ≡ true)
    → all (λ (t : Task). elem t.id names) tasks ≡ true
own_ids [] names f = refl
own_ids (t ∷ tasks) names f =
    let own = f t.id (ground (arith, ==_refl t.id)) in
    let rest = own_ids tasks names (λ m h. f m (ground arith)) in ground arith

length-task_ids : (tasks : List Task) → length (task_ids tasks) ≡ length tasks
length-task_ids [] = refl
length-task_ids (t ∷ tasks) = omega (arith, length-task_ids tasks)

no_cycle : (count : ℕ) (order : List String) → cycle_faults count order ≡ [] → length order ≡ count
no_cycle count order h = elim (Bool-cases (length order == count)) [
  | inl e ↦ (==_iff (length order) count).0 e
  | inr e ↦ absurd (filled (rw e at h))
]

done_verified :
    (receipts : List Receipt) (tasks : List Task)
    → done_faults receipts tasks ≡ []
    → all (λ (t : Task). not (t.status == "done") || any (verifies t.id) receipts) tasks ≡ true
unfolding done_faults
done_verified receipts [] h = refl
done_verified receipts (t ∷ tasks) h =
    elim (Bool-cases (t.status == "done" && not (any (verifies t.id) receipts))) [
      | inl e ↦ absurd (filled (rw (e, done_faults) at h))
      | inr e ↦ let rest = done_verified receipts tasks (rw (e, done_faults) at h) in ground arith
    ]

-- A plan that can be built: ids are unique, an order has every task behind all of its dependencies,
-- each once, and every task that is done has verified evidence.
pub record IsPlan (tasks : List Task) (receipts : List Receipt) : Type 0 where
  pub unique : IsDistinct (task_ids tasks)
  pub order : List String
  pub ordered : IsOrder (task_ids tasks) (edges tasks) [] order
  pub whole : all (λ m. elem m order) (task_ids tasks) ≡ true
  pub evidence :
      all (λ (t : Task). not (t.status == "done") || any (verifies t.id) receipts) tasks ≡ true

-- A plan in which `validate` finds no fault has unique ids, an order in which every task, once, comes
-- behind all of its dependencies, so that there is no cycle, and verified evidence for what is done.
pub validate-IsPlan :
    (schema_errors : Task → List String) (tasks : List Task) (receipts : List Receipt)
    → validate schema_errors tasks receipts ≡ some []
    → IsPlan tasks receipts
unfolding validate
validate-IsPlan schema_errors tasks receipts h =
    let (order, ends) = visited_ends tasks in
    let names = task_ids tasks in
    let front = task_faults schema_errors [] tasks ++ dependency_faults names (edges tasks) in
    let found : front ++ (cycle_faults (length tasks) order ++ done_faults receipts tasks) ≡ [] =
      faults_inj (rw (ends, validate) at h) in
    let (before, after) = append_empty front _ found in
    let (single, known) = append_empty (task_faults schema_errors [] tasks) _ before in
    let (acyclic, verified) = append_empty (cycle_faults (length tasks) order) _ after in
    let to =
      known_dependencies (zero_degrees [] tasks) names (edges tasks) (zero_degrees-IsKey [] tasks)
        known in
    let ordered = visited-IsOrder tasks names (own_ids tasks names (λ m here. here)) to ends in
    record {
      unique = (task_faults-IsDistinct schema_errors [] tasks single).0;
      order = order;
      ordered = ordered;
      whole =
          IsOrder-whole names (edges tasks) order ordered
            (no_cycle (length tasks) order acyclic ∙ sym (length-task_ids tasks));
      evidence = done_verified receipts tasks verified;
    }
  where
    faults_inj : {xs : List Fault} → ◌≡◌ {A = Option (List Fault)} (some xs) (some []) → xs ≡ []
    faults_inj h = cc
