-- ===== src/Identity.antt =====
-- Exact identity resolution (packages/python/atlas/identity.py). Identifier values and keys are
-- texts as lists of code points; letters and spaces are those of ASCII. A set is a list without
-- repetitions, in the order of insertion. The SHA-256 digits of a record id are a parameter.
pub mod Resolver
pub mod Stability
pub mod Repeats
mod Tests
use exposure_atlas.Base.{
  ℕ, ◌+◌, String, ◌^^◌, Bool, true, false, Option, none, some, List, [], ◌∷◌, ◌++◌, map, not, ◌&&◌,
  ◌||◌, leb, ltb, length, all, select, elem, is_empty, Result, ok, err, ◌>>=◌, ◌>>◌, raise_if,
  if◌then◌else◌, ◌==◌, text_eq_instance, nat_eq, list_eq, Eq, ◌-◌,
}
use exposure_atlas.Base.Dict.{Dict, get, put}
use exposure_atlas.Base.{Exec}
use exposure_atlas.Base.Text.{codes}
use exposure_atlas.Base.Sort.{sort_by, sorted}
use exposure_atlas.Anchors.{is_prefix}

abbrev pub Text : Type 0
Text = List ℕ

abbrev pub matter_id_kinds : List String
matter_id_kinds = "authoritative_id" ∷ "docket_id" ∷ "neutral_citation" ∷ []

abbrev pub artifact_kind : String
artifact_kind = "artifact_hash"

pub record Identifier : Type 0 where
  pub kind : String
  pub value : Text

-- `conflict` carries the record ids that the keys span.
pub data IdentityError : Type 0 where
  bad_artifact_hash unknown_kind no_matter_identifier schema_error : IdentityError
  conflict : List String → IdentityError

abbrev pub is_space : ℕ → Bool
is_space c = c == b' ' || (leb 9 c && leb c 13) || (leb 28 c && leb c 31)

-- `text.split()`, with the word that is being read
unfoldable pub words_from : Text → Text → List Text
words_from word [] = if is_empty word then [] else word ∷ []
words_from word (c ∷ cs) =
    let rest = words_from [] cs in
    let longer = words_from (word ++ c ∷ []) cs in
    if is_space c then (if is_empty word then rest else word ∷ rest) else longer

-- `" ".join(words)`
abbrev pub join_words : List Text → Text
join_words [] = []
join_words (w ∷ []) = w
join_words (w ∷ v ∷ ws) = w ++ b' ' ∷ join_words (v ∷ ws)

abbrev pub lower_code : ℕ → ℕ
lower_code c = if leb b'A' c && leb c b'Z' then c + 32 else c

abbrev pub upper_code : ℕ → ℕ
upper_code c = if leb b'a' c && leb c b'z' then c - 32 else c

abbrev pub without_spaces : Text → Text
without_spaces cs = select (λ c. not (c == b' ')) cs

abbrev pub is_hex : ℕ → Bool
is_hex c = (leb b'0' c && leb c b'9') || (leb b'a' c && leb c b'f')

abbrev pub hash_form : Text → Result IdentityError Text
hash_form h =
    if not (length h == 64) || not (all is_hex h) then err IdentityError.bad_artifact_hash else ok h

unfoldable pub normalize_identifier : (kind : String) (value : Text) → Result IdentityError Text
normalize_identifier kind value =
    let v = join_words (words_from [] value) in
    if kind == artifact_kind
    then hash_form (without_spaces (map lower_code v))
    else if kind == "neutral_citation"
    then ok (without_spaces (map upper_code v))
    else if kind == "docket_id"
    then ok (map lower_code v)
    else if kind == "authoritative_id"
    then ok (map lower_code v)
    else err IdentityError.unknown_kind

abbrev pub key_front : String → Text
key_front kind = codes kind ++ b':' ∷ []

unfoldable pub identity_key : (kind : String) (value : Text) → Result IdentityError Text
identity_key kind value = normalize_identifier kind value >>= λ v. ok (key_front kind ++ v)

-- `<=` on texts: by the code points, from the left
abbrev pub text_le : Text → Text → Bool
text_le [] t = true
text_le (c ∷ s) [] = false
text_le (c ∷ s) (d ∷ t) = ltb c d || (c == d && text_le s t)

-- The smallest key of the first kind that has one; `digest12` is the head of the hash of a key.
abbrev pub first_or :
    (Text → String) → List Text → Result IdentityError String → Result IdentityError String
first_or digest12 [] later = later
first_or digest12 (k ∷ ks) later = ok ("rec_" ^^ digest12 k)

unfoldable pub new_record_id_of :
    (digest12 : Text → String) (kinds : List String) → List Text → Result IdentityError String
new_record_id_of digest12 [] matter_keys = err IdentityError.no_matter_identifier
new_record_id_of digest12 (kind ∷ kinds) matter_keys =
    let later = new_record_id_of digest12 kinds matter_keys in
    first_or digest12 (sort_by text_le (select (is_prefix (key_front kind)) matter_keys)) later

abbrev pub new_record_id : (Text → String) → List Text → Result IdentityError String
new_record_id digest12 matter_keys = new_record_id_of digest12 matter_id_kinds matter_keys
