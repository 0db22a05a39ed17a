-- ===== src/DecisionPack/Envelopes.antt =====
-- Draft envelopes, which are bound to the input hashes of their item, and the expiry of unanswered
-- items (packages/python/atlas/decision_pack.py: draft_envelope, envelope_valid, expire_unanswered).
use exposure_atlas.Base.{
  String, Bool, true, false, Option, none, some, List, [], ◌∷◌, ◌&&◌, all, Result, ok, ◌>>=◌, ◌==◌,
  ==_iff, text_eq_instance, if◌then◌else◌, ◌≡◌, refl, arith, sym, ap, Option-cases, inl, inr,
}
use exposure_atlas.Base.Dict.{Dict, get, all-get}
use exposure_atlas.DecisionPack.{PackItem, DecisionPackError, passed}

pub record Envelope : Type 0 where
  pub item_id : String
  pub action : String
  pub bound_input_hashes : Dict String String

unfoldable pub draft_envelope : PackItem → String → Envelope
draft_envelope item action = record {
  item_id = item.item_id;
  action = action;
  bound_input_hashes = item.input_hashes;
}

holds_value : Option String → String → Bool
holds_value none v = false
holds_value (some w) v = w == v

-- `a <= b` of two dicts, by their items
unfoldable pub included_in : Dict String String → Dict String String → Bool
unfolding holds_value
included_in d live = all (λ e. holds_value (get live e.0) e.1) d

-- `==` of two dicts, which forgets the order of the entries
unfoldable pub envelope_valid : Envelope → Dict String String → Bool
unfolding included_in
envelope_valid envelope live_input_hashes =
    included_in envelope.bound_input_hashes live_input_hashes
    && included_in live_input_hashes envelope.bound_input_hashes

pub record Disposition : Type 0 where
  pub item_id : String
  pub disposition : String

expired_first : PackItem → Bool → List Disposition → List Disposition
expired_first it late out =
    if late
    then record { item_id = it.item_id; disposition = it.restrictive_default } ∷ out
    else out

pub expire_unanswered : List PackItem → String → Result DecisionPackError (List Disposition)
unfolding expired_first
expire_unanswered [] now = ok []
expire_unanswered (it ∷ items) now = do
  late ← passed now it.expiry
  out ← expire_unanswered items now
  ok (expired_first it late out)

holds_value-some : (o : Option String) (v : String) → holds_value o v ≡ true → o ≡ some v
unfolding holds_value
holds_value-some none v h = cc
holds_value-some (some w) v h = ap some ((==_iff w v).0 h)

included_in-get :
    (d live : Dict String String) (k v : String)
    → included_in d live ≡ true
    → get d k ≡ some v
    → get live k ≡ some v
unfolding included_in
included_in-get d live k v h e =
    holds_value-some (get live k) v (all-get (λ x. holds_value (get live x.0) x.1) d k v h e)

same_value :
    (d live : Dict String String) (k : String) (o : Option String)
    → included_in d live ≡ true
    → included_in live d ≡ true
    → get live k ≡ o
    → get d k ≡ o
same_value d live k (some v) h g e = included_in-get live d k v g e
same_value d live k none h g e = elim (Option-cases (get d k)) [
  | inl missing ↦ missing
  | inr (v, present) ↦ absurd (apart (sym e) (included_in-get d live k v h present))
]
  where
    apart : {a : Option String} {v : String} → none ≡ a → a ≡ some v → ⊥
    apart x y = cc

-- A draft stays valid only while every input hash is the one that its item had when it was drafted:
-- a hash that is changed, added or removed invalidates it.
pub envelope_valid_bound :
    (item : PackItem) (action : String) (live : Dict String String) (key : String)
    → envelope_valid (draft_envelope item action) live ≡ true
    → get item.input_hashes key ≡ get live key
unfolding envelope_valid draft_envelope
envelope_valid_bound item action live key h =
    same_value item.input_hashes live key (get live key) (ground arith) (ground arith) refl
