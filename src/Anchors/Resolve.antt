-- ===== src/Anchors/Resolve.antt =====
-- An anchor that was created resolves: its range holds the quote, and every check passes.
use exposure_atlas.Base.{
  ℕ, ◌+◌, ◌-◌, String, false, Option, none, some, [], ◌∷◌, length, take, drop, get_elem?, is_empty,
  ok, >>-eq-ok, >>=-eq-ok, ok_inj, raise_if, raise_if-eq-ok, or_raise, ==_refl, text_eq_instance,
  nat_eq, list_eq, ◌≡◌, refl, ap, ◌∙◌, arith, subst,
}
use exposure_atlas.Anchors.{
  Bytes, AnchorError, Anchor, Artifact, encode, positions, slice, index, ambiguous_without,
  create_anchor, verify_anchor,
}
use exposure_atlas.Anchors.Search.{positions-occurrences, occurrences_sound}

-- Every position that the search returns holds the quote.
position_holds :
    (text q : Bytes) (n pos : ℕ)
    → is_empty q ≡ false
    → get_elem? (positions text q) n ≡ some pos
    → slice text pos (pos + length q) ≡ q
position_holds text [] n pos full h = cc
position_holds text (b ∷ bs) n pos full h =
    let (k, e, t) = occurrences_sound (b ∷ bs) text 0 n pos (rw positions-occurrences at h) in
    let at : pos ≡ k = omega arith in
    let len : pos + length (b ∷ bs) - pos ≡ length (b ∷ bs) = omega arith in
    ap (λ m. take m (drop pos text)) len ∙ ap (λ m. take (length (b ∷ bs)) (drop m text)) at ∙ t

module _ (sha256_hex : Bytes → String) (text : Bytes) (quote id artifact_id : String)
    (occurrence : Option ℕ) (label : Option String) (basis : String) where
  -- What a created anchor records.
  pub create_anchor-ok :
      {a : Anchor}
      → create_anchor sha256_hex text quote id artifact_id occurrence label basis ≡ ok a
      → (get_elem? (positions text (encode quote)) (index occurrence) ≡ some a.start_byte)
        × (ambiguous_without (positions text (encode quote)) occurrence ≡ false)
        × (slice text a.start_byte a.end_byte ≡ encode quote)
        × (a.quote ≡ quote)
        × (a.quote_sha256 ≡ sha256_hex (encode quote))
        × (a.text_artifact_id ≡ artifact_id)
  unfolding create_anchor
  create_anchor-ok {a} h =
      let (b, h1) = >>-eq-ok (raise_if (is_empty (encode quote)) AnchorError.empty_quote) _ h in
      let (c, h2) =
        >>-eq-ok (raise_if (is_empty (positions text (encode quote))) AnchorError.not_found) _ h1 in
      let (d, h3) =
        >>-eq-ok
          (raise_if (ambiguous_without (positions text (encode quote)) occurrence)
            AnchorError.ambiguous)
          _ h2 in
      let (pos, e, h4) =
        >>=-eq-ok
          (or_raise (get_elem? (positions text (encode quote)) (index occurrence))
            AnchorError.no_such_occurrence)
          _ h3 in
      let found = or_raise-some (get_elem? (positions text (encode quote)) (index occurrence)) e in
      let full = raise_if-eq-ok (is_empty (encode quote)) AnchorError.empty_quote b in
      let made = ok_inj h4 in
      subst
        (λ x.
          (get_elem? (positions text (encode quote)) (index occurrence) ≡ some x.start_byte)
          × (ambiguous_without (positions text (encode quote)) occurrence ≡ false)
          × (slice text x.start_byte x.end_byte ≡ encode quote)
          × (x.quote ≡ quote)
          × (x.quote_sha256 ≡ sha256_hex (encode quote))
          × (x.text_artifact_id ≡ artifact_id))
        made
        (
          found,
          raise_if-eq-ok (ambiguous_without (positions text (encode quote)) occurrence)
              AnchorError.ambiguous d,
          position_holds text (encode quote) (index occurrence) pos full found,
          refl,
          refl,
          refl,
        )
    where
      or_raise-some :
          (o : Option ℕ) {n : ℕ} → or_raise o AnchorError.no_such_occurrence ≡ ok n → o ≡ some n
      or_raise-some none h = cc
      or_raise-some (some n) h = cc

  -- An anchor that was created in a text verifies against the artifact of that text, whatever the
  -- hash is; a quote that stands more than once is only anchored with an occurrence.
  pub verify_anchor-create_anchor :
      {a : Anchor} (text_sha256 : String) (artifact : Artifact)
      → create_anchor sha256_hex text quote id artifact_id occurrence label basis ≡ ok a
      → artifact.text_artifact_id ≡ artifact_id
      → artifact.canonical_sha256 ≡ text_sha256
      → (verify_anchor sha256_hex text text_sha256 artifact a ≡ [])
        × (slice text a.start_byte a.end_byte ≡ encode quote)
        × (ambiguous_without (positions text (encode quote)) occurrence ≡ false)
  unfolding verify_anchor
  verify_anchor-create_anchor {a} text_sha256 artifact h same hash =
      let (_, one, holds, q, s, t) = create_anchor-ok h in
      (
        rw (t, same, hash, q, s, holds)
            (rw (
              ==_refl artifact_id,
              ==_refl text_sha256,
              ==_refl (encode quote),
              ==_refl (sha256_hex (encode quote)),
            )),
        holds,
        one,
      )
