-- ===== src/Token/Grammar.antt =====
-- The functions of token.rs, and the pattern `\[[A-Z0-9_]+_[0-9a-f]{12}\]` as a scanner. Neither
-- class holds a bracket, so a match that begins at a bracket ends at the next closing one, and
-- two matches never overlap: the leftmost matches are all of them.
use zlau_de_r.Prelude.{ℕ, zero, suc, ◌+◌, ◌-◌, Bool, true, false, ◌&&◌, ◌||◌, ◌==◌, ltb, leb}
use zlau_de_r.Prelude.{if◌then◌else◌, Option, none, some, List, [], ◌∷◌, ◌++◌, length, take, drop}
use zlau_de_r.Prelude.{all, Text, codes, starts_with, is_upper, is_digit, is_alphanumeric, to_upper}
use zlau_de_r.Externals.{Externals, is_hex_lower}

abbrev pub token_hash_hex_len : ℕ
token_hash_hex_len = 12

-- `[` + entity (at most 48) + `_` + 12 hex + `]`.
abbrev pub max_token_len : ℕ
max_token_len = 1 + 48 + 1 + token_hash_hex_len + 1

abbrev pub broker_prefix : Text
broker_prefix = codes "BROKER__"

module _ (x : Externals) where
  unfoldable pub make_token : Text → Text → Text → Text
  make_token entity_type plaintext salt =
      let hex = x.blake3_hex (salt ++ (entity_type ++ (codes ":" ++ plaintext))) in
      let suffix = take token_hash_hex_len hex in
      codes "[" ++ (x.to_uppercase entity_type ++ (codes "_" ++ (suffix ++ codes "]")))

  unfoldable pub hash_value : Text → Text → Text
  hash_value entity_type plaintext =
      let suffix = take token_hash_hex_len (x.blake3_hex plaintext) in
      codes "[" ++ (x.to_uppercase entity_type ++ (codes ":" ++ (suffix ++ codes "]")))

  unfoldable pub make_hash_token : Text → Text → Text → Text
  make_hash_token entity_type plaintext salt =
      let hex = x.blake3_hex (salt ++ (entity_type ++ (codes ":" ++ plaintext))) in
      let suffix = take token_hash_hex_len hex in
      codes "[" ++ (x.to_uppercase entity_type ++ (codes ":" ++ (suffix ++ codes "]")))

unfoldable pub is_broker_token : Text → Bool
unfolding starts_with
is_broker_token token = starts_with (codes "[BROKER__") token

-- A byte that continues a UTF-8 sequence; the others begin a character.
abbrev pub is_continuation : ℕ → Bool
is_continuation b = leb 128 b && ltb b 192

-- The closure that `slugify` maps over the characters, at an ASCII character.
unfoldable pub slug_char : ℕ → ℕ
slug_char c = if is_alphanumeric c then to_upper c else b'_'

-- One character of the slug for each character of the name.
unfoldable pub slug_chars : Text → Text
slug_chars [] = []
slug_chars (b ∷ bs) =
    let rest = slug_chars bs in if is_continuation b then rest else slug_char b ∷ rest

abbrev pub max_slug : ℕ
max_slug = 32

unfoldable pub slugify : Text → Text
slugify name =
    let s = slug_chars name in
    let s' = if ltb max_slug (length s) then take max_slug s else s in
    if ltb 0 (length s') then s' else b'_' ∷ []

-- `[A-Z0-9_]`.
abbrev pub is_entity_char : ℕ → Bool
is_entity_char c = is_upper c || is_digit c || c == b'_'

abbrev pub head_is : ℕ → Text → Bool
head_is c [] = false
head_is c (d ∷ t) = c == d

-- The pattern between the brackets.
unfoldable pub is_token_body : Text → Bool
is_token_body body =
    let n = length body - 13 in
    ltb 13 (length body)
    && (all is_entity_char (take n body)
        && (head_is b'_' (drop n body) && all is_hex_lower (drop (n + 1) body)))

-- What stands before the first closing bracket, and what follows it.
unfoldable pub split_bracket : Text → Option (Text × Text)
split_bracket [] = none
split_bracket (c ∷ t) =
    let rest = split_bracket t in
    if c == b']'
    then some ([], t)
    else elim rest [ none ↦ none | some (body, after) ↦ some (c ∷ body, after) ]

-- A match that begins here: the token.
unfoldable pub match_at : Text → Option Text
match_at [] = none
match_at (c ∷ t) =
    if c == b'['
    then elim (split_bracket t) [
      | none ↦ none
      | some (body, after) ↦ if is_token_body body then some (b'[' ∷ (body ++ codes "]")) else none
    ]
    else none

-- A match, or one byte outside of the matches.
abbrev pub Piece : Type 0
Piece = record { is_match : Bool; bytes : Text }

-- The text cut into matches and single bytes between them; the first argument counts the bytes of
-- a match that are still to be passed over.
unfoldable pub scan : ℕ → Text → List Piece
scan n [] = []
scan (suc n) (c ∷ t) = scan n t
scan zero (c ∷ t) = elim (match_at (c ∷ t)) [
  | none ↦ record { is_match = false; bytes = c ∷ [] } ∷ scan zero t
  | some token ↦ record { is_match = true; bytes = token } ∷ scan (length token - 1) t
]

-- A match, with the offset at which it begins.
pub record Match : Type 0 where
  pub start : ℕ
  pub text : Text

abbrev pub match_end : Match → ℕ
match_end m = m.start + length m.text

unfoldable pub matches_from : ℕ → List Piece → List Match
matches_from i [] = []
matches_from i (p ∷ ps) =
    let rest = matches_from (i + length p.bytes) ps in
    if p.is_match then record { start = i; text = p.bytes } ∷ rest else rest

-- `token_regex().find_iter(text)`.
unfoldable pub find_iter : Text → List Match
find_iter text = matches_from 0 (scan 0 text)

-- `token_regex().is_match(text)`.
unfoldable pub is_match : Text → Bool
is_match text = elim (find_iter text) [ [] ↦ false | _ ∷ _ ↦ true ]
