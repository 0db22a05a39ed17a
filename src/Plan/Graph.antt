-- ===== src/Plan/Graph.antt =====
-- The search for a cycle in the dependencies of the plan (`validate`, tools/atlas_plan.py): Kahn's
-- algorithm over a dict of in-degrees. The nested loops over tasks and their dependencies run over
-- the pairs in the same order. The queue is read from its end, so its last element stands first here.
pub mod Ends
pub mod Edges
pub mod Order
pub mod Counted
pub mod Whole
use exposure_atlas.Base.{
  ℕ, zero, suc, ◌+◌, String, Bool, true, false, Option, none, some, List, [], ◌∷◌, ◌++◌, map,
  length, if◌then◌else◌, text_eq_instance,
}
use exposure_atlas.Base.Dict.{Dict, get, put}
use exposure_atlas.Plan.{Task}

-- Python's `int`: an in-degree goes down without a lower bound.
pub data ℤ : Type 0 where
  pos negsuc : ℕ → ℤ

abbrev pub next : ℤ → ℤ
next (ℤ.pos n) = ℤ.pos (suc n)
next (ℤ.negsuc zero) = ℤ.pos 0
next (ℤ.negsuc (suc n)) = ℤ.negsuc n

abbrev pub pred : ℤ → ℤ
pred (ℤ.pos (suc n)) = ℤ.pos n
pred (ℤ.pos zero) = ℤ.negsuc 0
pred (ℤ.negsuc n) = ℤ.negsuc (suc n)

abbrev pub is_zero : ℤ → Bool
is_zero (ℤ.pos zero) = true
is_zero _ = false

abbrev pub Degrees : Type 0
Degrees = Dict String ℤ

-- a task and one of its dependencies
abbrev pub Edge : Type 0
Edge = String × String

abbrev pub edges_of : String → List String → List Edge
edges_of id [] = []
edges_of id (d ∷ deps) = (id, d) ∷ edges_of id deps

unfoldable pub edges : List Task → List Edge
edges [] = []
edges (t ∷ tasks) = edges_of t.id t.depends_on ++ edges tasks

-- `{t["id"]: 0 for t in tasks}`
unfoldable pub zero_degrees : Degrees → List Task → Degrees
zero_degrees g [] = g
zero_degrees g (t ∷ tasks) = zero_degrees (put g t.id (ℤ.pos 0)) tasks

-- `d[k] += 1`; a missing key, which does not occur, would raise and is left alone here.
abbrev pub bump : Option ℤ → Degrees → String → Degrees
bump none g m = g
bump (some z) g m = put g m (next z)

abbrev pub count_edge : Option ℤ → Degrees → String → Degrees
count_edge none g m = g
count_edge (some _) g m = bump (get g m) g m

-- An edge counts where its dependency is a task.
unfoldable pub count_edges : Degrees → List Edge → Degrees
count_edges g [] = g
count_edges g ((m, d) ∷ es) = count_edges (count_edge (get g d) g m) es

unfoldable pub roots : Degrees → List String → List String
roots [] queue = queue
roots ((i, z) ∷ g) queue = roots g (if is_zero z then i ∷ queue else queue)

abbrev pub or_nil : Option (List String) → List String
or_nil none = []
or_nil (some ms) = ms

-- `dependents.setdefault(d, []).append(id)` for each edge
unfoldable pub dependents_from : Dict String (List String) → List Edge → Dict String (List String)
dependents_from ds [] = ds
dependents_from ds ((m, d) ∷ es) = dependents_from (put ds d (or_nil (get ds d) ++ m ∷ [])) es

abbrev pub push_if : Bool → String → List String → List String
push_if b m queue = if b then m ∷ queue else queue

-- The inner loop; `none` is the KeyError of a node without in-degree.
unfoldable pub relax : Degrees → List String → List String → Option (Degrees × List String)
relax g queue [] = some (g, queue)
relax g queue (m ∷ ms) = elim (get g m) [
  | none ↦ none
  | some z ↦ relax (put g m (pred z)) (push_if (is_zero (pred z)) m queue) ms
]

abbrev pub and_node : String → Option (List String) → Option (List String)
and_node n none = none
and_node n (some ns) = some (n ∷ ns)

-- The loop of the queue on fuel: the nodes in the order in which they leave it. `seen` is their number.
unfoldable pub drain : ℕ → Dict String (List String) → Degrees → List String → Option (List String)
drain fuel dependents g [] = some []
drain zero dependents g (n ∷ queue) = none
drain (suc fuel) dependents g (n ∷ queue) = elim (relax g queue (or_nil (get dependents n))) [
  | none ↦ none
  | some (g', queue') ↦ and_node n (drain fuel dependents g' queue')
]

abbrev pub weight : ℤ → ℕ
weight (ℤ.pos n) = n
weight (ℤ.negsuc n) = 0

unfoldable pub total : Degrees → ℕ
total [] = 0
total ((i, z) ∷ g) = weight z + total g

abbrev pub degrees : List Task → Degrees
degrees tasks = count_edges (zero_degrees [] tasks) (edges tasks)

-- The fuel is the number of edges that are counted and of nodes that start in the queue.
unfoldable pub visited : List Task → Option (List String)
visited tasks =
    let g = degrees tasks in
    let queue = roots g [] in
    drain (total g + length queue) (dependents_from [] (edges tasks)) g queue
