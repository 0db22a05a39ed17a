-- ===== src/Anchors.antt =====
-- Byte anchors into canonical text (packages/python/atlas/anchors.py). A text is its list of
-- bytes; `encode` is `str.encode("utf-8")`. An anchor keeps the bytes of its prefix and suffix,
-- which the source decodes for display. `sha256_hex` is an argument.
mod Tests
pub mod Search
pub mod Resolve
use exposure_atlas.Base.{
  ℕ, zero, suc, ◌+◌, ◌-◌, ◌*◌, ◌/◌, ◌%◌, String, Bool, true, false, Option, none, some, List, [],
  ◌∷◌, ◌++◌, not, ◌&&◌, ltb, length, take, drop, get_elem?, is_empty, Result, ok, err, ◌>>=◌, ◌>>◌,
  raise_if, or_raise, ◌==◌, text_eq_instance, nat_eq, list_eq, if◌then◌else◌,
}
use exposure_atlas.Base.Text.{codes}

abbrev pub Bytes : Type 0
Bytes = List ℕ

encode_code : ℕ → Bytes
encode_code c =
    if ltb c 128
    then c ∷ []
    else if ltb c 2048
    then (192 + c / 64) ∷ (128 + c % 64) ∷ []
    else if ltb c 65536
    then (224 + c / 4096) ∷ (128 + c / 64 % 64) ∷ (128 + c % 64) ∷ []
    else (240 + c / 262144) ∷ (128 + c / 4096 % 64) ∷ (128 + c / 64 % 64) ∷ (128 + c % 64) ∷ []

encode_codes : List ℕ → Bytes
encode_codes [] = []
encode_codes (c ∷ cs) = encode_code c ++ encode_codes cs

unfoldable pub encode : String → Bytes
unfolding encode_code encode_codes
encode s = encode_codes (codes s)

pub data AnchorError : Type 0 where
  empty_quote not_found ambiguous no_such_occurrence : AnchorError

pub record Anchor : Type 0 where
  pub anchor_id : String
  pub text_artifact_id : String
  pub quote : String
  pub quote_sha256 : String
  pub start_byte : ℕ
  pub end_byte : ℕ
  pub prefix : Bytes
  pub suffix : Bytes
  pub page_label : Option String
  pub anchor_basis : String

pub record Artifact : Type 0 where
  pub text_artifact_id : String
  pub source_version_id : String
  pub canonical_sha256 : String

abbrev pub prefix_len : ℕ
prefix_len = 32

unfoldable pub is_prefix : Bytes → Bytes → Bool
is_prefix [] text = true
is_prefix (q ∷ qs) [] = false
is_prefix (q ∷ qs) (c ∷ cs) = q == c && is_prefix qs cs

-- `bytes.find`, in the text from position `i` on
find_sub : Bytes → Bytes → ℕ → Option ℕ
find_sub q [] i = if is_prefix q [] then some i else none
find_sub q (c ∷ cs) i =
    let later = find_sub q cs (i + 1) in if is_prefix q (c ∷ cs) then some i else later

-- `text.find(qb, start)`; -1 is `none`
find : Bytes → Bytes → ℕ → Option ℕ
find text q start = find_sub q (drop start text) start

-- The `while True` loop: each find starts one byte behind the last.
collect : ℕ → Bytes → Bytes → ℕ → List ℕ
collect zero text q start = []
collect (suc fuel) text q start = elim (find text q start) [
  | none ↦ []
  | some idx ↦ idx ∷ collect fuel text q (idx + 1)
]

unfoldable pub positions : Bytes → Bytes → List ℕ
unfolding is_prefix find_sub find collect
positions text q = collect (suc (length text)) text q 0

-- `text[a:b]`
abbrev pub slice : Bytes → ℕ → ℕ → Bytes
slice text a b = take (b - a) (drop a text)

-- `occurrence or 1`, as an index; an occurrence is not negative
pub index : Option ℕ → ℕ
index none = 0
index (some n) = n - 1

pub ambiguous_without : List ℕ → Option ℕ → Bool
ambiguous_without found none = ltb 1 (length found)
ambiguous_without found (some _) = false

pub create_anchor :
    (Bytes → String)
    → Bytes
    → String
    → String
    → String
    → Option ℕ
    → Option String
    → String
    → Result AnchorError Anchor
unfolding index ambiguous_without
create_anchor sha256_hex text quote anchor_id artifact_id occurrence page_label basis = do
  let qb = encode quote
  raise_if (is_empty qb) AnchorError.empty_quote
  let found = positions text qb
  raise_if (is_empty found) AnchorError.not_found
  raise_if (ambiguous_without found occurrence) AnchorError.ambiguous
  pos ← or_raise (get_elem? found (index occurrence)) AnchorError.no_such_occurrence
  let end = pos + length qb
  ok (record {
    anchor_id = anchor_id;
    text_artifact_id = artifact_id;
    quote = quote;
    quote_sha256 = sha256_hex qb;
    start_byte = pos;
    end_byte = end;
    prefix = slice text (pos - prefix_len) pos;
    suffix = slice text end (end + prefix_len);
    page_label = page_label;
    anchor_basis = basis;
  })

pub data Failure : Type 0 where
  other_artifact text_hash_mismatch range_mismatch quote_hash_mismatch : Failure

-- `if b: fails.append(f)`
abbrev pub fails_if : Bool → Failure → List Failure
fails_if true f = f ∷ []
fails_if false f = []

unfoldable pub verify_anchor : (Bytes → String) → Bytes → String → Artifact → Anchor → List Failure
verify_anchor sha256_hex text text_sha256 artifact anchor =
    fails_if (not (anchor.text_artifact_id == artifact.text_artifact_id)) Failure.other_artifact
    ++ fails_if (not (artifact.canonical_sha256 == text_sha256)) Failure.text_hash_mismatch
    ++ fails_if (not (slice text anchor.start_byte anchor.end_byte == encode anchor.quote))
        Failure.range_mismatch
    ++ fails_if (not (sha256_hex (encode anchor.quote) == anchor.quote_sha256))
        Failure.quote_hash_mismatch
