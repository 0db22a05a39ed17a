-- ===== src/DecisionPack/Links.antt =====
-- A view link opens once, before it expires.
use exposure_atlas.Base.{
  String, false, Option, none, some, List, ◌∷◌, leb, elem, Result, ok, err, ok_inj, ==_refl,
  text_eq_instance, ◌≡◌, ◌<◌, refl, arith, sym, ap, ◌∙◌, >>-eq-ok, >>=-eq-ok, raise_if,
  raise_if-eq-ok, or_raise,
}
use exposure_atlas.Base.Dict.{get}
use exposure_atlas.Timestamp.{Moment, parse}
use exposure_atlas.DecisionPack.{
  Link, ViewLinkStore, DecisionPackError, passed, open_link, use_link, consume,
}

use_link-ok :
    (token : String) (r : Result DecisionPackError Link) (s : ViewLinkStore) {item : String}
    → (use_link token r s).0 ≡ ok item
    → (info : Link) × (r ≡ ok info)
      × (info.item_id ≡ item)
      × ((use_link token r s).1 ≡ record s { consumed = token ∷ s.consumed })
unfolding use_link
use_link-ok token (err e) s h = cc
use_link-ok token (ok info) s h = (info, refl, ok_inj h, refl)

passed-false :
    (now expires_at : String)
    → passed now expires_at ≡ ok false
    → (t : Moment) × (e : Moment) × (parse now ≡ some t)
      × (parse expires_at ≡ some e)
      × (t.instant < e.instant)
unfolding passed
passed-false now expires_at h =
    let (t, a, h1) = >>=-eq-ok (or_raise (parse now) DecisionPackError.bad_timestamp) _ h in
    let (e, b, h2) = >>=-eq-ok (or_raise (parse expires_at) DecisionPackError.bad_timestamp) _ h1 in
    let later : leb e.instant t.instant ≡ false = ok_inj h2 in
    (t, e, found (parse now) a, found (parse expires_at) b, ground (arith, later))
  where
    found :
        (o : Option Moment) {m : Moment}
        → or_raise o DecisionPackError.bad_timestamp ≡ ok m
        → o ≡ some m
    found none k = cc
    found (some m) k = cc

open_link-ok :
    (token now : String) (o : Option Link) (used : List String) {info : Link}
    → open_link token now o used ≡ ok info
    → (o ≡ some info) × (elem token used ≡ false) × (passed now info.expires_at ≡ ok false)
unfolding open_link
open_link-ok token now none used h = cc
open_link-ok token now (some i) used {info} h =
    let (a, h1) = >>-eq-ok (raise_if (elem token used) DecisionPackError.link_used) _ h in
    let (late, b, h2) = >>=-eq-ok (passed now i.expires_at) _ h1 in
    let (c, d) = >>-eq-ok (raise_if late DecisionPackError.link_expired) _ h2 in
    let same : i ≡ info = ok_inj d in
    (
      ap some same,
      raise_if-eq-ok (elem token used) DecisionPackError.link_used a,
      ap (λ x. passed now x.expires_at) (sym same)
          ∙ b
          ∙ ap ok (raise_if-eq-ok late DecisionPackError.link_expired c),
    )

used_refused :
    (token later : String) (s : ViewLinkStore) (info : Link)
    → get s.issued token ≡ some info
    → use_link token
        (open_link token later (get s.issued token) (token ∷ s.consumed))
        (record s { consumed = token ∷ s.consumed })
      ≡ (err DecisionPackError.link_used, record s { consumed = token ∷ s.consumed })
unfolding use_link open_link
used_refused token later s info issued = rw (issued, ==_refl token) refl

-- A link that is consumed was issued for the item that it returns, was not used before and has not
-- expired; from then on it is refused as used, at whatever time, and nothing changes.
pub consume_once :
    (token now : String) (s : ViewLinkStore) {item : String}
    → (consume token now s).0 ≡ ok item
    → let s' = (consume token now s).1 in
      ((info : Link) × (t : Moment) × (e : Moment) × (get s.issued token ≡ some info)
        × (info.item_id ≡ item)
        × (elem token s.consumed ≡ false)
        × (parse now ≡ some t)
        × (parse info.expires_at ≡ some e)
        × (t.instant < e.instant))
      × ((later : String) → consume token later s' ≡ (err DecisionPackError.link_used, s'))
unfolding consume
consume_once token now s {item} h =
    let (info, r, same, after) =
      use_link-ok token (open_link token now (get s.issued token) s.consumed) s h in
    let (issued, unused, fresh) = open_link-ok token now (get s.issued token) s.consumed r in
    let (t, e, a, b, c) = passed-false now info.expires_at fresh in
    (
      (info, t, e, issued, same, unused, a, b, c),
      λ later. rw after (used_refused token later s info issued),
    )
