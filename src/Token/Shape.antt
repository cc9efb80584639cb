-- ===== src/Token/Shape.antt =====
-- The shape of what is minted: slugs, tokens, broker tokens, and the salted hashes of secrets.
use native.Mathlib.Numerals.{add-one}
use zlau_de_r.Prelude.{ℕ, ◌+◌, ◌-◌, ◌≤◌, ◌<◌, ◌≡◌, refl, sym, ap, ◌∙◌, arith}
use zlau_de_r.Prelude.{true, false, ◌||◌, ◌==◌, ltb, if◌then◌else◌, lt→ltb, ltb→lt}
use zlau_de_r.Prelude.{[], ◌∷◌, ◌++◌, map, length, take, all}
use zlau_de_r.Prelude.{Text, codes, Bool-cases, inl, inr, is_upper, is_lower, is_digit, to_upper}
use zlau_de_r.Prelude.{length-append, length-take, take-append, drop-append}
use mathlib.Core.Path.{ap₂}
use zlau_de_r.Prelude.{
  and_true, or_true, drop-append_suc, all-append, all-take, append_assoc, starts_with,
}
use zlau_de_r.Externals.{Externals, HexDigest, AsciiCase, is_hex_lower, is_ascii}
use zlau_de_r.Token.Grammar.{make_token, is_broker_token, slug_char, slug_chars, slugify}
use zlau_de_r.Token.Grammar.{is_entity_char, is_token_body, token_hash_hex_len, max_slug}
use zlau_de_r.Token.Grammar.{max_token_len, broker_prefix, is_continuation}
use zlau_de_r.Token.Scan.{IsToken}

slug_char_lower : (c : ℕ) → is_lower c ≡ true → is_upper (slug_char c) ≡ true
unfolding slug_char
slug_char_lower c h = ground arith

slug_char_other : (c : ℕ) → is_lower c ≡ false → is_entity_char (slug_char c) ≡ true
unfolding slug_char
slug_char_other c h = elim (Bool-cases (is_upper c)) [
  | inl u ↦ rw (slug_char, u, h) (ground arith)
  | inr u ↦ elim (Bool-cases (is_digit c)) [
    | inl d ↦ rw (slug_char, u, h, d) (ground arith)
    | inr d ↦ rw (slug_char, u, h, d) (ground arith)
  ]
]

slug_char_entity : (c : ℕ) → is_entity_char (slug_char c) ≡ true
slug_char_entity c = elim (Bool-cases (is_lower c)) [
  | inl l ↦ rw (slug_char_lower c l)
  | inr l ↦ slug_char_other c l
]

slug_chars-all : (name : Text) → all is_entity_char (slug_chars name) ≡ true
unfolding slug_chars
slug_chars-all [] = refl
slug_chars-all (b ∷ bs) = elim (Bool-cases (is_continuation b)) [
  | inl c ↦ rw (slug_chars, c) (slug_chars-all bs)
  | inr c ↦ rw (slug_chars, c, slug_char_entity b) (slug_chars-all bs)
]

abbrev cut_slug : Text → Text
cut_slug s = if ltb max_slug (length s) then take max_slug s else s

cut_slug_shape :
    (s : Text)
    → all is_entity_char s ≡ true
    → (length (cut_slug s) ≤ max_slug) × (all is_entity_char (cut_slug s) ≡ true)
cut_slug_shape s h = elim (Bool-cases (ltb max_slug (length s))) [
  | inl long ↦
      rw long
        (let n = length-take max_slug s in (omega arith, all-take is_entity_char max_slug s h))
  | inr short ↦ rw short (ground arith)
]

-- A slug is never empty, has at most 32 bytes, and holds only characters of the token grammar,
-- whatever the registered name holds.
pub slugify_shape :
    (name : Text)
    → (0 < length (slugify name))
      × (length (slugify name) ≤ max_slug)
      × (all is_entity_char (slugify name) ≡ true)
unfolding slugify
slugify_shape name =
    let (short, entity) = cut_slug_shape (slug_chars name) (slug_chars-all name) in
    elim (Bool-cases (ltb 0 (length (cut_slug (slug_chars name))))) [
      | inl some_left ↦ rw (slugify, some_left) (ltb→lt _ _ some_left, short, entity)
      | inr none_left ↦ rw (slugify, none_left) (omega arith, omega arith, refl)
    ]

token_body :
    (u s : Text)
    → all is_entity_char u ≡ true
    → 0 < length u
    → length s ≡ token_hash_hex_len
    → all is_hex_lower s ≡ true
    → is_token_body (u ++ (b'_' ∷ s)) ≡ true
unfolding is_token_body
token_body u s hu pos n hs =
    let total = length-append u (b'_' ∷ s) in
    let here : length (u ++ (b'_' ∷ s)) - 13 ≡ length u = omega arith in
    let long : ltb 13 (length (u ++ (b'_' ∷ s))) ≡ true = lt→ltb _ _ (omega arith) in
    rw (is_token_body, here, long)
      (rw (take-append, drop-append, add-one, drop-append_suc) (ground arith))

entity_char_upper : (c : ℕ) → is_entity_char c ≡ true → (to_upper c ≡ c) × (ltb c 128 ≡ true)
entity_char_upper c h = elim (or_true (is_upper c || is_digit c) (c == b'_') h) [
  | inl r ↦ elim (or_true (is_upper c) (is_digit c) r) [
    | inl u ↦ (ground arith, ground arith)
    | inr d ↦ (ground arith, ground arith)
  ]
  | inr e ↦ (ground arith, ground arith)
]

entity_upper : (s : Text) → all is_entity_char s ≡ true → (map to_upper s ≡ s) × (is_ascii s ≡ true)
entity_upper [] h = (refl, refl)
entity_upper (c ∷ s) h =
    let (hc, hs) = and_true (is_entity_char c) (all is_entity_char s) h in
    let (same, low) = entity_char_upper c hc in
    let (rest, ascii) = entity_upper s hs in (ap₂ ◌∷◌ same rest, rw (low, ascii))

module _ (x : Externals) (law : HexDigest x) (plaintext salt : Text) where
  pub digest-suffix :
      (t : Text)
      → (length (take token_hash_hex_len (x.blake3_hex t)) ≡ token_hash_hex_len)
        × (all is_hex_lower (take token_hash_hex_len (x.blake3_hex t)) ≡ true)
  digest-suffix t = (
    omega (arith, length-take token_hash_hex_len (x.blake3_hex t), law.width t),
    all-take is_hex_lower token_hash_hex_len (x.blake3_hex t) (law.digits t),
  )

  -- For an entity whose upper-case form is a word of the grammar, the minted token is found by the
  -- pattern that the unmasking scans for, and is 15 bytes longer than that form.
  pub make_token-IsToken :
      (entity_type : Text)
      → all is_entity_char (x.to_uppercase entity_type) ≡ true
      → 0 < length (x.to_uppercase entity_type)
      → IsToken (make_token x entity_type plaintext salt)
        × (length (make_token x entity_type plaintext salt)
            ≡ length (x.to_uppercase entity_type) + 15)
  unfolding make_token
  make_token-IsToken e he pos =
      let u = x.to_uppercase e in
      let s = take token_hash_hex_len (x.blake3_hex (salt ++ (e ++ (codes ":" ++ plaintext)))) in
      let (n, hs) = digest-suffix (salt ++ (e ++ (codes ":" ++ plaintext))) in
      (
        record {
          body = u ++ (b'_' ∷ s);
          grammar = token_body u s he pos n hs;
          shape = ap (◌∷◌ b'[') (sym (append_assoc u (b'_' ∷ s) (codes "]")));
        },
        omega
            (arith, length-append {0} u (b'_' ∷ (s ++ codes "]")), length-append {0} s (codes "]")),
      )

  -- Whatever name a broker secret is registered under, its token is found by the scanned pattern,
  -- is refused by prefix on the display path, and is no longer than the stream buffer holds.
  pub broker-IsToken_shape :
      AsciiCase x
      → (name : Text)
      → IsToken (make_token x (broker_prefix ++ slugify name) plaintext salt)
        × (is_broker_token (make_token x (broker_prefix ++ slugify name) plaintext salt) ≡ true)
        × (length (make_token x (broker_prefix ++ slugify name) plaintext salt) ≤ max_token_len)
  unfolding make_token is_broker_token starts_with
  broker-IsToken_shape case name =
      let (pos, short, entity) = slugify_shape name in
      let whole = all-append is_entity_char broker_prefix (slugify name) refl entity in
      let (same, ascii) = entity_upper (broker_prefix ++ slugify name) whole in
      let upper = case.upper (broker_prefix ++ slugify name) ascii ∙ same in
      let n = length-append broker_prefix (slugify name) in
      let (token, size) =
        make_token-IsToken (broker_prefix ++ slugify name) (rw upper whole)
          (rw upper (omega arith)) in
      let width = ap length upper in (token, rw upper, omega (arith, size, width))
