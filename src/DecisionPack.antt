-- ===== src/DecisionPack.antt =====
-- The weekly decision pack and its transport (packages/python/atlas/decision_pack.py). `digest12`
-- and `digest16` are the first digits of SHA-256; minutes, ages and values are not negative.
mod Tests
pub mod Greedy
pub mod Caps
pub mod Links
pub mod Envelopes
use exposure_atlas.Base.{
  ℕ, zero, suc, ◌+◌, ◌/◌, ◌%◌, String, ◌^^◌, Bool, true, false, Option, none, some, List, [], ◌∷◌,
  ◌++◌, map, not, ◌&&◌, ◌||◌, leb, ltb, eqb, elem, is_empty, Result, ok, err, Exec, ◌>>=◌, ◌>>◌,
  raise_if, or_raise, ◌==◌, text_eq_instance, if◌then◌else◌,
}
use exposure_atlas.Base.Dict.{Dict, get, put}
use exposure_atlas.Base.Sort.{sort_by}
use exposure_atlas.Base.Text.{digit}
use exposure_atlas.Timestamp.{parse}
use exposure_atlas.ReviewCard.{Card, Summary, channel_safe_summary}

-- `CAPS`
abbrev pub cap_review_minutes : ℕ
cap_review_minutes = 240

abbrev pub cap_decision_cards : ℕ
cap_decision_cards = 25

abbrev pub cap_record_reviews : ℕ
cap_record_reviews = 12

abbrev pub cap_complex_decisions : ℕ
cap_complex_decisions = 3

abbrev pub priority_rank : Dict String ℕ
priority_rank = ("P0", 0) ∷ ("P1", 1) ∷ ("P2", 2) ∷ ("P3", 3) ∷ []

pub data DecisionPackError : Type 0 where
  unknown_link link_used link_expired schema_error bad_timestamp : DecisionPackError

pub record Item : Type 0 where
  pub priority : String
  pub age_seconds : ℕ
  pub value : ℕ
  pub question : String
  pub proposed_answer : Option String
  pub restrictive_default : String
  pub estimated_minutes : ℕ
  pub input_hashes : Dict String String
  pub expiry : String
  pub is_complex : Bool
  pub is_record_review : Bool

-- `_PRIORITY_RANK.get(p, 3)`
rank_or : Option ℕ → ℕ
rank_or none = 3
rank_or (some n) = n

pub rank : Item → ℕ
unfolding rank_or
rank it = rank_or (get priority_rank it.priority)

-- `_order_key(a) <= _order_key(b)`: the rank upwards, then the age and the value downwards
pub before : Item → Item → Bool
before a b =
    ltb (rank a) (rank b)
    || eqb (rank a) (rank b)
      && (ltb b.age_seconds a.age_seconds || eqb a.age_seconds b.age_seconds && leb b.value a.value)

-- What the loop has counted so far.
pub record Load : Type 0 where
  pub minutes : ℕ
  pub cards : ℕ
  pub complex_n : ℕ
  pub records : ℕ

abbrev pub empty_load : Load
empty_load = record { minutes = 0; cards = 0; complex_n = 0; records = 0 }

-- `int(b)`
abbrev pub count_if : Bool → ℕ
count_if true = 1
count_if false = 0

pub over : Load → Item → Bool
over l it =
    ltb cap_decision_cards (l.cards + 1)
    || ltb cap_review_minutes (l.minutes + it.estimated_minutes)
    || it.is_complex && ltb cap_complex_decisions (l.complex_n + 1)
    || it.is_record_review && ltb cap_record_reviews (l.records + 1)

pub counted : Load → Item → Load
counted l it = record {
  minutes = l.minutes + it.estimated_minutes;
  cards = l.cards + 1;
  complex_n = l.complex_n + count_if it.is_complex;
  records = l.records + count_if it.is_record_review;
}

pub record Selection : Type 0 where
  pub included : List Item
  pub excess : List Item
  pub load : Load

abbrev pub include : Item → Selection → Selection
include it s = record s { included = it ∷ s.included }

abbrev pub queue_up : Item → Selection → Selection
queue_up it s = record s { excess = it ∷ s.excess }

-- The loop over the ordered items, from what it has counted.
pub select_from : Load → List Item → Selection
unfolding over counted
select_from l [] = record { included = []; excess = []; load = l }
select_from l (it ∷ items) =
    let skipping = select_from l items in
    let taking = select_from (counted l it) items in
    if over l it then queue_up it skipping else include it taking

pub record PackItem : Type 0 where
  pub item_id : String
  pub pack_id : String
  pub question : String
  pub proposed_answer : Option String
  pub restrictive_default : String
  pub estimated_minutes : ℕ
  pub input_hashes : Dict String String
  pub expiry : String

pub record Pack : Type 0 where
  pub pack_id : String
  pub week : String
  pub created_at : String
  pub item_ids : List String
  pub estimated_review_minutes : ℕ

pub record BuiltPack : Type 0 where
  pub pack : Pack
  pub items : List PackItem
  pub excess : List Item
  pub throttle_discovery : Bool

-- `{i:03d}`, for a number below 1000
three_digits : ℕ → String
three_digits i = digit (i / 100 % 10) ^^ digit (i / 10 % 10) ^^ digit (i % 10)

pack_item : String → ℕ → Item → PackItem
unfolding three_digits
pack_item pack_id i it = record {
  item_id = pack_id ^^ "-" ^^ three_digits i;
  pack_id = pack_id;
  question = it.question;
  proposed_answer = it.proposed_answer;
  restrictive_default = it.restrictive_default;
  estimated_minutes = it.estimated_minutes;
  input_hashes = it.input_hashes;
  expiry = it.expiry;
}

pack_items : (PackItem → Bool) → String → ℕ → List Item → Result DecisionPackError (List PackItem)
unfolding pack_item
pack_items item_ok pack_id i [] = ok []
pack_items item_ok pack_id i (it ∷ items) = do
  raise_if (not (item_ok (pack_item pack_id i it))) DecisionPackError.schema_error
  docs ← pack_items item_ok pack_id (i + 1) items
  ok (pack_item pack_id i it ∷ docs)

pub build_pack :
    (String → String)
    → (PackItem → Bool)
    → (Pack → Bool)
    → List Item
    → String
    → String
    → Result DecisionPackError BuiltPack
unfolding pack_items
build_pack digest12 item_ok pack_ok items week created_at = do
  let pack_id = "pck_" ^^ digest12 (week ^^ "\n" ^^ created_at)
  let s = select_from empty_load (sort_by before items)
  docs ← pack_items item_ok pack_id 0 s.included
  let pack : Pack = record {
    pack_id = pack_id;
    week = week;
    created_at = created_at;
    item_ids = map (λ d. d.item_id) docs;
    estimated_review_minutes = s.load.minutes;
  }
  raise_if (not (pack_ok pack)) DecisionPackError.schema_error
  ok (record {
    pack = pack;
    items = docs;
    excess = s.excess;
    throttle_discovery = not (is_empty s.excess);
  })

-- `transport_payload`: the summary of each item's card, or its identifier where it has none
pub data ChannelEntry : Type 0 where
  card_summary : Summary → ChannelEntry
  item_only : String → ChannelEntry

channel_entry : String → Option Card → ChannelEntry
channel_entry item_id none = ChannelEntry.item_only item_id
channel_entry item_id (some card) = ChannelEntry.card_summary (channel_safe_summary card)

pub transport_payload : Pack → Dict String Card → List ChannelEntry
unfolding channel_entry
transport_payload pack cards_by_item =
    map (λ item_id. channel_entry item_id (get cards_by_item item_id)) pack.item_ids

pub record Link : Type 0 where
  pub item_id : String
  pub expires_at : String

pub record ViewLinkStore : Type 0 where
  pub issued : Dict String Link
  pub consumed : List String

pub issue :
    (String → String) → String → String → String → Exec ViewLinkStore DecisionPackError String
issue digest16 item_id expires_at salt s =
    let token = "vl_" ^^ digest16 (item_id ^^ "\n" ^^ expires_at ^^ "\n" ^^ salt) in
    (
      ok token,
      record s {
        issued = put s.issued token (record { item_id = item_id; expires_at = expires_at });
      },
    )

-- `_parse(now) >= _parse(expires_at)`
pub passed : String → String → Result DecisionPackError Bool
passed now expires_at = do
  at ← or_raise (parse now) DecisionPackError.bad_timestamp
  expiry ← or_raise (parse expires_at) DecisionPackError.bad_timestamp
  ok (leb expiry.instant at.instant)

open_link : String → String → Option Link → List String → Result DecisionPackError Link
open_link token now none used = err DecisionPackError.unknown_link
open_link token now (some info) used = do
  raise_if (elem token used) DecisionPackError.link_used
  late ← passed now info.expires_at
  raise_if late DecisionPackError.link_expired
  ok info

use_link : String → Result DecisionPackError Link → Exec ViewLinkStore DecisionPackError String
use_link token (err e) s = (err e, s)
use_link token (ok info) s = (ok info.item_id, record s { consumed = token ∷ s.consumed })

pub consume : String → String → Exec ViewLinkStore DecisionPackError String
unfolding open_link use_link
consume token now s = use_link token (open_link token now (get s.issued token) s.consumed) s
