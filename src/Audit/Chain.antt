-- ===== src/Audit/Chain.antt =====
-- What is appended to a log that verifies verifies, and two logs of one length that end in the same
-- hash are the same log, or show two events with one hash.
use exposure_atlas.Base.{
  ℕ, ◌+◌, String, Bool, true, false, List, [], ◌∷◌, ◌++◌, not, ◌&&◌, length, length-append, ok,
  >>-eq-ok, raise_if, raise_if-eq-ok, ◌==◌, ==_iff, ==_refl, text_eq_instance, nat_eq, ◌≡◌, ◌≢◌,
  ◌⊎◌, inl, inr, refl, ap, ap₂, ◌∙◌, sym, arith, Bool-cases,
}
use exposure_atlas.Audit.{
  Event, AuditError, last, next_seq, next_prev, next_event, append_event, verify_from, verify_chain,
}

same_event : Event → Event → Bool
same_event a b =
    a.seq == b.seq
    && a.prev_hash == b.prev_hash
    && a.actor == b.actor
    && a.action == b.action
    && a.at == b.at
    && a.detail == b.detail

event_cases : (a b : Event) → (a ≡ b) ⊎ (a ≢ b)
event_cases a b = elim (Bool-cases (same_event a b)) [
  | inl same ↦ inl (
      unfold same_event in
      ground (
        arith,
        ==_iff a.seq b.seq,
        ==_iff a.prev_hash b.prev_hash,
        ==_iff a.actor b.actor,
        ==_iff a.action b.action,
        ==_iff a.at b.at,
        ==_iff a.detail b.detail,
      ))
  | inr other ↦ inr (λ e. differs e other)
]
  where
    differs : {c d : Event} → c ≡ d → same_event c d ≡ false → ⊥
    differs {c} e other =
        unfold same_event in
        ground (
          arith,
          ==_refl c.seq,
          ==_refl c.prev_hash,
          ==_refl c.actor,
          ==_refl c.action,
          ==_refl c.at,
          ==_refl c.detail,
        )

module _ (event_hash : Event → String) (schema_ok : Event → Bool) where
  -- What one line must be.
  record IsLink (i : ℕ) (prev : String) (ev : Event) : Type 0 where
    valid : schema_ok ev ≡ true
    seq : ev.seq ≡ i
    behind : ev.prev_hash ≡ prev

  verify_from-cons :
      (i : ℕ) (prev : String) (ev : Event) (events : List Event)
      → verify_from event_hash schema_ok i prev (ev ∷ events) ≡ ok tt
      → IsLink i prev ev × (verify_from event_hash schema_ok (i + 1) (event_hash ev) events ≡ ok tt)
  unfolding verify_from
  verify_from-cons i prev ev events h =
      let (a, h1) = >>-eq-ok (raise_if (not (schema_ok ev)) AuditError.schema_error) _ h in
      let (b, h2) = >>-eq-ok (raise_if (not (ev.seq == i)) AuditError.sequence_break) _ h1 in
      let (c, h3) = >>-eq-ok (raise_if (not (ev.prev_hash == prev)) AuditError.hash_break) _ h2 in
      (
        record {
          valid = ground (arith, raise_if-eq-ok (not (schema_ok ev)) AuditError.schema_error a);
          seq = ground (arith, raise_if-eq-ok (not (ev.seq == i)) AuditError.sequence_break b);
          behind =
              (==_iff ev.prev_hash prev).0 (
                ground
                  (arith, raise_if-eq-ok (not (ev.prev_hash == prev)) AuditError.hash_break c));
        },
        h3,
      )

  verify_from-link :
      (i : ℕ) (prev : String) (ev : Event) (events : List Event)
      → IsLink i prev ev
      → verify_from event_hash schema_ok i prev (ev ∷ events)
        ≡ verify_from event_hash schema_ok (i + 1) (event_hash ev) events
  unfolding verify_from
  verify_from-link i prev ev events l = rw (l.valid, l.seq, l.behind) (rw (==_refl i, ==_refl prev))

  -- where the next line must stand, after the lines from `i` behind `prev`
  end_seq : ℕ → List Event → ℕ
  end_seq i [] = i
  end_seq i (ev ∷ events) = end_seq (i + 1) events

  end_hash : String → List Event → String
  end_hash prev [] = prev
  end_hash prev (ev ∷ events) = end_hash (event_hash ev) events

  verify_from-append :
      (events : List Event) (i : ℕ) (prev : String) (ev : Event)
      → verify_from event_hash schema_ok i prev events ≡ ok tt
      → IsLink (end_seq i events) (end_hash prev events) ev
      → verify_from event_hash schema_ok i prev (events ++ ev ∷ []) ≡ ok tt
  unfolding end_seq end_hash
  verify_from-append [] i prev ev h l =
      verify_from-link i prev ev [] l ∙ (unfold verify_from in refl)
  verify_from-append (e ∷ events) i prev ev h l =
      let (link, rest) = verify_from-cons i prev e events h in
      verify_from-link i prev e (events ++ ev ∷ []) link
      ∙ verify_from-append events (i + 1) (event_hash e) ev rest l

  -- the last line of a chain says where the next one stands
  end_of_chain :
      (events : List Event) (i : ℕ) (prev : String) (e : Event)
      → verify_from event_hash schema_ok i prev (e ∷ events) ≡ ok tt
      → (next_seq (last (e ∷ events)) ≡ end_seq i (e ∷ events))
        × (next_prev event_hash (last (e ∷ events)) ≡ end_hash prev (e ∷ events))
  unfolding end_seq end_hash last next_seq next_prev
  end_of_chain [] i prev e h =
      let (link, _) = verify_from-cons i prev e [] h in (ap (λ (n : ℕ). n + 1) link.seq, refl)
  end_of_chain (f ∷ events) i prev e h =
      end_of_chain events (i + 1) (event_hash e) f (verify_from-cons i prev e (f ∷ events) h).1

  next_event-IsLink :
      (log : List Event) (actor action at detail : String)
      → verify_chain event_hash schema_ok log ≡ ok tt
      → schema_ok (next_event event_hash log actor action at detail) ≡ true
      → IsLink
          (end_seq 0 log)
          (end_hash "genesis" log)
          (next_event event_hash log actor action at detail)
  unfolding verify_chain next_event
  next_event-IsLink [] actor action at detail h valid =
      unfold end_seq end_hash last next_seq next_prev in
      record { valid = valid; seq = refl; behind = refl }
  next_event-IsLink (e ∷ log) actor action at detail h valid = record {
    valid = valid;
    seq = (end_of_chain log 0 "genesis" e h).0;
    behind = (end_of_chain log 0 "genesis" e h).1;
  }

  -- Appending to a log that verifies leaves a log that verifies, whether the event is written or
  -- refused by its schema.
  pub verify_chain-append_event :
      (log : List Event) (actor action at detail : String)
      → verify_chain event_hash schema_ok log ≡ ok tt
      → verify_chain event_hash schema_ok
          (append_event event_hash schema_ok actor action at detail log).1
        ≡ ok tt
  verify_chain-append_event log actor action at detail h =
      elim (Bool-cases (schema_ok (next_event event_hash log actor action at detail))) [
        | inr bad ↦ unfold append_event in rw bad h
        | inl good ↦
            let link = next_event-IsLink log actor action at detail h good in
            (unfold append_event verify_chain in
              rw good (
                verify_from-append log 0 "genesis"
                  (next_event event_hash log actor action at detail) h link))
      ]

  end_hash-append :
      (prev : String) (xs : List Event) (x : Event) → end_hash prev (xs ++ x ∷ []) ≡ event_hash x
  unfolding end_hash
  end_hash-append prev [] x = refl
  end_hash-append prev (y ∷ xs) x = end_hash-append (event_hash y) xs x

  -- Two different events with one hash.
  abbrev pub Collision : Type 0
  Collision = (a : Event) × (b : Event) × (a ≢ b) × (event_hash a ≡ event_hash b)

  unique_from :
      (xs ys : List Event) (i : ℕ) (prev prev' : String)
      → length xs ≡ length ys
      → verify_from event_hash schema_ok i prev xs ≡ ok tt
      → verify_from event_hash schema_ok i prev' ys ≡ ok tt
      → end_hash prev xs ≡ end_hash prev' ys
      → Collision ⊎ ((xs ≡ ys) × (prev ≡ prev'))
  unfolding end_hash
  unique_from [] [] i prev prev' len hx hy e = inr (refl, e)
  unique_from [] (y ∷ ys) i prev prev' len hx hy e = absurd (omega arith)
  unique_from (x ∷ xs) [] i prev prev' len hx hy e = absurd (omega arith)
  unique_from (x ∷ xs) (y ∷ ys) i prev prev' len hx hy e =
      let (lx, rx) = verify_from-cons i prev x xs hx in
      let (ly, ry) = verify_from-cons i prev' y ys hy in
      elim (unique_from xs ys (i + 1) (event_hash x) (event_hash y) (omega arith) rx ry e) [
        | inl collision ↦ inl collision
        | inr (same, hash) ↦ elim (event_cases x y) [
          | inr differ ↦ inl (x, y, differ, hash)
          | inl one ↦ inr (
            ap₂ (λ (a : Event) (rest : List Event). a ∷ rest) one same,
            sym lx.behind ∙ ap (λ a. a.prev_hash) one ∙ ly.behind,
          )
        ]
      ]

  -- Two logs of one length that verify and whose last events have the same hash are equal, unless
  -- two different events have one hash: no line can be changed without changing the end.
  pub verify_chain_unique :
      (xs ys : List Event) (x y : Event)
      → length xs ≡ length ys
      → verify_chain event_hash schema_ok (xs ++ x ∷ []) ≡ ok tt
      → verify_chain event_hash schema_ok (ys ++ y ∷ []) ≡ ok tt
      → event_hash x ≡ event_hash y
      → Collision ⊎ (xs ++ x ∷ [] ≡ ys ++ y ∷ [])
  verify_chain_unique xs ys x y len hx hy e =
      elim (unique_from (xs ++ x ∷ []) (ys ++ y ∷ []) 0 "genesis" "genesis"
        (omega (arith, length-append xs (x ∷ []), length-append ys (y ∷ [])))
        (unfold verify_chain in hx) (unfold verify_chain in hy)
        (end_hash-append "genesis" xs x ∙ e ∙ sym (end_hash-append "genesis" ys y))) [
          | inl collision ↦ inl collision
          | inr (same, _) ↦ inr same
        ]
