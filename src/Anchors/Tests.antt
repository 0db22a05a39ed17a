-- ===== src/Anchors/Tests.antt =====
-- A quote that stands twice in a text, and overlaps itself.
use exposure_atlas.Base.{String, false, none, some, [], ◌∷◌, ok, ◌≡◌, refl}
use exposure_atlas.Base.Text.{codes}
use exposure_atlas.Anchors.{
  Bytes, Anchor, Artifact, encode, positions, slice, ambiguous_without, create_anchor,
  verify_anchor,
}
use exposure_atlas.Anchors.Resolve.{verify_anchor-create_anchor}

-- "aaab"
abbrev text : Bytes
text = 97 ∷ 97 ∷ 97 ∷ 98 ∷ []

abbrev digest : Bytes → String
digest q = "h"

abbrev second : Anchor
second = record {
  anchor_id = "anc_1";
  text_artifact_id = "txt_1";
  quote = "aa";
  quote_sha256 = "h";
  start_byte = 1;
  end_byte = 3;
  prefix = 97 ∷ [];
  suffix = 98 ∷ [];
  page_label = none;
  anchor_basis = "native_text";
}

abbrev artifact : Artifact
artifact = record {
  text_artifact_id = "txt_1";
  source_version_id = "ver_1";
  canonical_sha256 = "t";
}

second-created :
    create_anchor digest text "aa" "anc_1" "txt_1" (some 2) none "native_text" ≡ ok second
unfolding create_anchor encode positions codes
second-created = refl

verify_anchor-create_anchor_example :
    (verify_anchor digest text "t" artifact second ≡ [])
    × (slice text 1 3 ≡ encode "aa")
    × (ambiguous_without (positions text (encode "aa")) (some 2) ≡ false)
verify_anchor-create_anchor_example =
    verify_anchor-create_anchor digest text "aa" "anc_1" "txt_1" (some 2) none "native_text" "t"
      artifact second-created refl refl
