-- ===== src/States/Runs.antt =====
-- What holds of every machine of the table: targets are states again, and a state without
-- successors is final.
use exposure_atlas.Base.{
  String, ◌≡◌, ◌≢◌, refl, Bool, true, Option, none, some, List, ok, err, all, arith, all-elem,
  text_eq_instance,
}
use exposure_atlas.Base.Dict.{get, has, all-get}
use exposure_atlas.States.{TransitionError, Table, machines, step, in_table, transition}

-- Every target of a table is one of its states.
closed : Table → Bool
closed t = all (λ e. all (λ s. has t s) e.1) t

tables_closed : all (λ e. closed e.1) machines ≡ true
unfolding closed get
tables_closed = refl

-- In a closed table the step after a step meets a listed state.
step_again :
    (table : Table) (o : Option (List String)) (c t u : String) {s : String}
    → closed table ≡ true
    → get table c ≡ o
    → step o t ≡ ok s
    → step (get table t) u ≢ err TransitionError.unknown_state
unfolding closed step
step_again table none c t u h e k = cc
step_again table (some ts) c t u h e k = ground (
  arith,
  all-get (λ e. all (λ s. has table s) e.1) table c ts h e,
  all-elem (λ s. has table s) t ts,
)

in_table_again :
    (o : Option Table) (m c t u : String) {s : String}
    → get machines m ≡ o
    → in_table o c t ≡ ok s
    → (s ≡ t) × (in_table o t u ≢ err TransitionError.unknown_state)
unfolding in_table
in_table_again none m c t u e k = cc
in_table_again (some table) m c t u e k = (
  (unfold step in ground arith),
  step_again table (get table c) c t u (all-get (λ e. closed e.1) machines m table tables_closed e)
      refl k,
)

-- A step that a machine takes returns its target, and the target is a state of the same machine:
-- whatever is asked next, the machine does not call it unknown.
pub transition-closed :
    (m c t u : String) {s : String}
    → transition m c t ≡ ok s
    → (s ≡ t) × (transition m t u ≢ err TransitionError.unknown_state)
unfolding transition
transition-closed m c t u h = in_table_again (get machines m) m c t u refl h
