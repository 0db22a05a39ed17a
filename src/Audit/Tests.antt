-- ===== src/Audit/Tests.antt =====
-- A log of two events, hashed by their sequence number and their detail.
use exposure_atlas.Base.{String, ◌^^◌, Bool, true, List, [], ◌∷◌, ok, ◌≡◌, ◌⊎◌, refl, ℕ}
use exposure_atlas.Base.Text.{show_nat}
use exposure_atlas.Audit.{Event, append_event, verify_chain}
use exposure_atlas.Audit.Chain.{Collision, verify_chain-append_event, verify_chain_unique}

abbrev event_hash : Event → String
event_hash ev = show_nat ev.seq ^^ ev.detail

abbrev valid : Event → Bool
valid ev = true

abbrev appended : String → List Event → List Event
appended detail log = (append_event event_hash valid "Alexios" "propose" "2026-07-11" detail log).1

abbrev log : List Event
log = appended "p1" []

empty-verifies : verify_chain event_hash valid [] ≡ ok tt
unfolding verify_chain
empty-verifies = refl

verify_chain-append_event_example : verify_chain event_hash valid (appended "p2" log) ≡ ok tt
verify_chain-append_event_example =
    verify_chain-append_event event_hash valid log "Alexios" "propose" "2026-07-11" "p2" (
      verify_chain-append_event event_hash valid [] "Alexios" "propose" "2026-07-11" "p1"
        empty-verifies)

abbrev event : ℕ → String → String → Event
event n prev detail = record {
  seq = n;
  prev_hash = prev;
  actor = "Alexios";
  action = "propose";
  at = "2026-07-11";
  detail = detail;
}

abbrev one : Event
one = event 0 "genesis" "p1"

abbrev two : Event
two = event 1 "0p1" "p2"

chain-verifies : verify_chain event_hash valid (one ∷ two ∷ []) ≡ ok tt
unfolding verify_chain show_nat
chain-verifies = refl

verify_chain_unique_example : Collision event_hash valid ⊎ (one ∷ two ∷ [] ≡ one ∷ two ∷ [])
verify_chain_unique_example =
    verify_chain_unique event_hash valid (one ∷ []) (one ∷ []) two two refl chain-verifies
      chain-verifies refl
