-- ===== src/Proxy/Split.antt =====
-- The token-boundary core of the streaming relays (crates/zlauder-proxy/src/sse.rs, and again in
-- openai_chat.rs and openai_responses.rs): how much of a buffer can be sent on.
pub mod Pieces
pub mod Hold
use package.zlau_de_r.Prelude.{
  ℕ, Bool, true, false, not, ◌&&◌, ◌||◌, ◌==◌, ltb, if◌then◌else◌, Option, none,
}
use package.zlau_de_r.Prelude.{some, List, [], ◌∷◌, all, length, drop, Text, is_upper, is_digit}
use package.zlau_de_r.Token.{find_iter, max_token_len}
use package.zlau_de_r.Detect.{is_hexdigit}

pub data Classify : Type 0 where
  complete partial no : Classify

-- A possible byte behind the opening bracket.
abbrev pub is_tail_char : ℕ → Bool
is_tail_char c = is_upper c || (is_digit c || (c == b'_' || is_hexdigit c))

-- `token_regex().find(tail)` begins at 0.
unfoldable pub begins_with_token : Text → Bool
begins_with_token tail = elim (find_iter tail) [ [] ↦ false | m ∷ ms ↦ m.start == 0 ]

unfoldable pub classify : Text → Classify
classify tail =
    if begins_with_token tail
    then Classify.complete
    else (if ltb max_token_len (length tail)
        then Classify.no
        else (if all is_tail_char (drop 1 tail) then Classify.partial else Classify.no))

-- `buf.rfind('[')`, as the text before the bracket and the text from it on.
unfoldable pub rfind_bracket : Text → Option (Text × Text)
rfind_bracket [] = none
rfind_bracket (c ∷ t) =
    let rest = rfind_bracket t in
    elim rest [
      | some (before, tail) ↦ some (c ∷ before, tail)
      | none ↦ if c == b'[' then some ([], c ∷ t) else none
    ]

-- What is safe to emit, and what must be held.
unfoldable pub split_safe : Text → Text × Text
split_safe buf = elim (rfind_bracket buf) [
  | none ↦ (buf, [])
  | some (before, tail) ↦ elim (classify tail) [
    | Classify.partial ↦ (before, tail)
    | Classify.complete ↦ (buf, [])
    | Classify.no ↦ (buf, [])
  ]
]
