-- ===== src/DecisionPack/Tests.antt =====
-- A pack of two items and a link to one of them.
use exposure_atlas.Base.{
  String, true, false, none, some, [], ◌∷◌, elem, ok, err, ◌≡◌, ◌<◌, refl, text_eq_instance,
}
use exposure_atlas.Base.Dict.{Dict, get}
use exposure_atlas.Base.Sort.{sort_by}
use exposure_atlas.Base.Text.{codes, digit}
use exposure_atlas.Timestamp.{Moment, parse}
use exposure_atlas.DecisionPack.{
  PackItem, Item, PackItem, BuiltPack, Link, ViewLinkStore, DecisionPackError, rank, before, over,
  counted, select_from, pack_item, pack_items, build_pack, passed, open_link, use_link, consume,
}
use exposure_atlas.DecisionPack.Caps.{IsCapped, build_pack-IsCapped}
use exposure_atlas.DecisionPack.Envelopes.{included_in, draft_envelope, envelope_valid}
use exposure_atlas.DecisionPack.Links.{consume_once}

abbrev item : String → Item
item priority = record {
  priority = priority;
  age_seconds = 60;
  value = 1;
  question = "q";
  proposed_answer = none;
  restrictive_default = "hold";
  estimated_minutes = 150;
  input_hashes = [];
  expiry = "2026-07-18T00:00:00Z";
  is_complex = false;
  is_record_review = false;
}

-- The second item would exceed the minutes.
abbrev built : BuiltPack
built = record {
  pack = record {
    pack_id = "pck_1";
    week = "2026-W28";
    created_at = "2026-07-11T00:00:00Z";
    item_ids = "pck_1-000" ∷ [];
    estimated_review_minutes = 150;
  };
  items =
      record {
        item_id = "pck_1-000";
        pack_id = "pck_1";
        question = "q";
        proposed_answer = none;
        restrictive_default = "hold";
        estimated_minutes = 150;
        input_hashes = [];
        expiry = "2026-07-18T00:00:00Z";
      }
      ∷ [];
  excess = item "P2" ∷ [];
  throttle_discovery = true;
}

pack-built :
    build_pack
      (λ s. "1")
      (λ d. true)
      (λ p. true)
      (item "P2" ∷ item "P0" ∷ [])
      "2026-W28"
      "2026-07-11T00:00:00Z"
    ≡ ok built
unfolding build_pack pack_items pack_item select_from sort_by before rank get digit over counted
pack-built = refl

build_pack-IsCapped_example : IsCapped (item "P2" ∷ item "P0" ∷ []) built
build_pack-IsCapped_example =
    build_pack-IsCapped (λ s. "1") (λ d. true) (λ p. true) (item "P2" ∷ item "P0" ∷ []) "2026-W28"
      "2026-07-11T00:00:00Z" pack-built

abbrev store : ViewLinkStore
store = record {
  issued = ("vl_1", record { item_id = "pck_1-000"; expires_at = "2026-07-12T00:00:00Z" }) ∷ [];
  consumed = [];
}

abbrev now : String
now = "2026-07-11T12:00:00Z"

link-opens : (consume "vl_1" now store).0 ≡ ok "pck_1-000"
unfolding consume open_link use_link passed get parse codes
link-opens = refl

consume_once_example :
    ((info : Link) × (t : Moment) × (e : Moment) × (get store.issued "vl_1" ≡ some info)
      × (info.item_id ≡ "pck_1-000")
      × (elem "vl_1" store.consumed ≡ false)
      × (parse now ≡ some t)
      × (parse info.expires_at ≡ some e)
      × (t.instant < e.instant))
    × ((later : String)
        → consume "vl_1" later (consume "vl_1" now store).1
          ≡ (err DecisionPackError.link_used, (consume "vl_1" now store).1))
consume_once_example = consume_once "vl_1" now store link-opens

abbrev drafted : PackItem
drafted = record {
  item_id = "pck_1-000";
  pack_id = "pck_1";
  question = "q";
  proposed_answer = none;
  restrictive_default = "hold";
  estimated_minutes = 150;
  input_hashes = ("source", "h1") ∷ ("policy", "h2") ∷ [];
  expiry = "2026-07-18T00:00:00Z";
}

-- The live hashes, in another order.
abbrev live : Dict String String
live = ("policy", "h2") ∷ ("source", "h1") ∷ []

draft-valid : envelope_valid (draft_envelope drafted "approve") live ≡ true
unfolding envelope_valid draft_envelope included_in get
draft-valid = refl
