-- ===== src/Token/Scan.antt =====
-- The scanner: what it cuts a text into, and how a token is found inside of a longer text.
use native.Mathlib.Numerals.{add-one}
use zlau_de_r.Prelude.{ℕ, zero, suc, ◌-◌, ◌≤◌, ◌≡◌, refl, sym, ap, ◌∙◌, inl, inr}
use zlau_de_r.Prelude.{Bool, true, false, ◌||◌, ◌==◌, ==→≡, arith}
use zlau_de_r.Prelude.{
  Option, none, some, List, [], ◌∷◌, ◌++◌, length, take, drop, drop-append, all, append_assoc,
}
use zlau_de_r.Prelude.{Text, codes, Bool-cases, Option-cases, length-append}
use zlau_de_r.Externals.{is_hex_lower}
use zlau_de_r.Token.Grammar.{is_entity_char, head_is, is_token_body, split_bracket, match_at, Piece}
use zlau_de_r.Token.Grammar.{scan}

-- What may stand between the brackets of a token: no bracket.
abbrev pub is_body_char : ℕ → Bool
is_body_char c = is_entity_char c || is_hex_lower c

body_chars_at :
    (n : ℕ) (b : Text)
    → all is_entity_char (take n b) ≡ true
    → head_is b'_' (drop n b) ≡ true
    → all is_hex_lower (drop (suc n) b) ≡ true
    → all is_body_char b ≡ true
body_chars_at n [] h u x = refl
body_chars_at zero (c ∷ b) h u x = ground (arith, hex_body b x)
  where
    hex_body : (b : Text) → all is_hex_lower b ≡ true → all is_body_char b ≡ true
    hex_body [] x = refl
    hex_body (c ∷ b) x = ground (arith, hex_body b)
body_chars_at (suc n) (c ∷ b) h u x = ground (arith, body_chars_at n b)

pub is_token_body-chars : (b : Text) → is_token_body b ≡ true → all is_body_char b ≡ true
unfolding is_token_body
is_token_body-chars b h =
    body_chars_at (length b - 13) b (ground arith) (ground arith)
      ((ground (arith, add-one (length b - 13))))

-- A token of the grammar.
pub record IsToken (t : Text) : Type 0 where
  pub body : Text
  pub grammar : is_token_body body ≡ true
  pub shape : t ≡ b'[' ∷ (body ++ codes "]")

pub split_bracket_found :
    (b rest : Text)
    → all is_body_char b ≡ true
    → split_bracket (b ++ (b']' ∷ rest)) ≡ some (b, rest)
unfolding split_bracket
split_bracket_found [] rest h = refl
split_bracket_found (c ∷ b) rest h = ground (arith, split_bracket_found b rest)

pub match_at_token : (t rest : Text) → IsToken t → match_at (t ++ rest) ≡ some t
unfolding match_at
match_at_token t rest k =
    let whole : t ++ rest ≡ b'[' ∷ (k.body ++ (b']' ∷ rest)) =
      rw k.shape (ap (◌∷◌ b'[') (append_assoc k.body (codes "]") rest)) in
    let found = split_bracket_found k.body rest (is_token_body-chars k.body k.grammar) in
    rw whole (rw (match_at, found, k.grammar) (rw k.shape))

split_bracket_sound : (t b rest : Text) → split_bracket t ≡ some (b, rest) → t ≡ b ++ (b']' ∷ rest)
unfolding split_bracket
split_bracket_sound [] b rest h = cc
split_bracket_sound (c ∷ t) b rest h = elim (Bool-cases (c == b']')) [
  | inl e ↦ ground (arith, ==→≡ c b']')
  | inr e ↦ elim (Option-cases (split_bracket t)) [
    | inl fails ↦ absurd (ground arith)
    | inr ((b', r'), p) ↦ ground (arith, split_bracket_sound t b' r' p)
  ]
]

-- A match is a token, and begins the text.
pub record MatchAt (t token : Text) : Type 0 where
  pub rest : Text
  pub token_found : IsToken token
  pub begins : t ≡ token ++ rest

pub match_at_sound : (t token : Text) → match_at t ≡ some token → MatchAt t token
unfolding match_at
match_at_sound [] token h = absurd (ground arith)
match_at_sound (c ∷ t) token h = elim (Bool-cases (c == b'[')) [
  | inr e ↦ absurd (ground arith)
  | inl e ↦ elim (Option-cases (split_bracket t)) [
    | inl fails ↦ absurd (ground arith)
    | inr ((b, r), p) ↦ elim (Bool-cases (is_token_body b)) [
      | inr fails ↦ absurd (ground arith)
      | inl grammar ↦
          let shape : token ≡ b'[' ∷ (b ++ codes "]") = ground arith in
          record {
            rest = r;
            token_found = record { body = b; grammar = grammar; shape = shape };
            begins =
                rw shape
                  (rw (split_bracket_sound t b r p, ==→≡ c b'[' e, append_assoc b (codes "]") r));
          }
    ]
  ]
]

abbrev pub join : List Piece → Text
join [] = []
join (p ∷ ps) = p.bytes ++ join ps

abbrev pub byte_piece : ℕ → Piece
byte_piece c = record { is_match = false; bytes = c ∷ [] }

abbrev pub match_piece : Text → Piece
match_piece t = record { is_match = true; bytes = t }

pub scan-none :
    (c : ℕ) (t : Text) → match_at (c ∷ t) ≡ none → scan 0 (c ∷ t) ≡ byte_piece c ∷ scan 0 t
unfolding scan
scan-none c t e = rw (scan, e)

pub scan-some :
    (c : ℕ) (t token : Text)
    → match_at (c ∷ t) ≡ some token
    → scan 0 (c ∷ t) ≡ match_piece token ∷ scan (length token - 1) t
unfolding scan
scan-some c t token e = rw (scan, e)

-- A match begins with an opening bracket, and the text goes on with the rest of it.
pub record MatchHead (c : ℕ) (t token : Text) : Type 0 where
  pub tail : Text
  pub rest : Text
  pub opening : c ≡ b'['
  pub shape : token ≡ c ∷ tail
  pub follows : t ≡ tail ++ rest

pub match_head : (c : ℕ) (t token : Text) → match_at (c ∷ t) ≡ some token → MatchHead c t token
match_head c t token e =
    let m = match_at_sound (c ∷ t) token e in
    let body = m.token_found.body ++ codes "]" in
    let whole : c ∷ t ≡ b'[' ∷ (body ++ m.rest) =
      m.begins ∙ ap (λ (u : Text). u ++ m.rest) m.token_found.shape in
    record {
      tail = body;
      rest = m.rest;
      opening = cc;
      shape = cc (m.token_found.shape);
      follows = cc;
    }

scan_skip : (c : ℕ) (t token : Text) → (m : MatchHead c t token) → length token - 1 ≡ length m.tail
scan_skip c t token m = let e = ap length m.shape in omega arith

-- The pieces make up the text: the scanner loses nothing.
pub scan-join : (n : ℕ) (t : Text) → join (scan n t) ≡ drop n t
unfolding scan
scan-join zero [] = refl
scan-join (suc n) [] = refl
scan-join (suc n) (c ∷ t) = scan-join n t
scan-join zero (c ∷ t) = elim (Option-cases (match_at (c ∷ t))) [
  | inl e ↦ rw (scan-none c t e) (ap (◌∷◌ c) (scan-join zero t))
  | inr (token, e) ↦
      let m = match_head c t token e in
      let after : drop (length m.tail) t ≡ m.rest = rw m.follows (drop-append m.tail m.rest) in
      rw (scan-some c t token e, scan-join (length token - 1) t, scan_skip c t token m, after)
        (rw (m.shape, m.follows))
]

scan_pass : (a t : Text) → scan (length a) (a ++ t) ≡ scan 0 t
unfolding scan
scan_pass [] t = refl
scan_pass (c ∷ a) t = scan_pass a t

-- A token at the front is the first piece.
pub scan-token : (t rest : Text) → IsToken t → scan 0 (t ++ rest) ≡ match_piece t ∷ scan 0 rest
scan-token t rest k =
    let body = k.body ++ codes "]" in
    let found : match_at (b'[' ∷ (body ++ rest)) ≡ some t =
      ap (λ (u : Text). match_at (u ++ rest)) (sym k.shape) ∙ match_at_token t rest k in
    let size : length t - 1 ≡ length body = let e = ap length k.shape in omega arith in
    ap (λ (u : Text). scan 0 (u ++ rest)) k.shape
    ∙ scan-some b'[' (body ++ rest) t found
    ∙ ap (◌∷◌ (match_piece t)) (rw (size, scan_pass body rest))

-- Where a text goes on with an opening bracket, a closing bracket is found before that bracket, or
-- what is found holds that bracket.
data Cut (p q : Text) : Type 0 where
  beyond :
      split_bracket p ≡ none
      → ((b r : Text) → split_bracket (p ++ (b'[' ∷ q)) ≡ some (b, r) → all is_body_char b ≡ false)
      → Cut p q
  within :
      (b r : Text)
      → split_bracket p ≡ some (b, r)
      → split_bracket (p ++ (b'[' ∷ q)) ≡ some (b, r ++ (b'[' ∷ q))
      → Cut p q

Cut-step : (c : ℕ) (p q : Text) → (c == b']') ≡ false → Cut p q → Cut (c ∷ p) q
unfolding split_bracket
Cut-step c p q e (beyond n f) =
    beyond (rw (split_bracket, e, n)) (λ b r h. later b r (split_bracket (p ++ (b'[' ∷ q))) refl h)
  where
    later :
        (b r : Text) (o : Option (Text × Text))
        → split_bracket (p ++ (b'[' ∷ q)) ≡ o
        → split_bracket (c ∷ p ++ (b'[' ∷ q)) ≡ some (b, r)
        → all is_body_char b ≡ false
    later b r none o h = absurd (ground arith)
    later b r (some (b', r')) o h = let f' = f b' r' o in ground arith
Cut-step c p q e (within b r l m) =
    within (c ∷ b) r (rw (split_bracket, e, l)) (rw (split_bracket, e, m))

cut : (p q : Text) → Cut p q
unfolding split_bracket
cut [] q = beyond refl (λ b r h. opened b r (split_bracket q) refl h)
  where
    opened :
        (b r : Text) (o : Option (Text × Text))
        → split_bracket q ≡ o
        → split_bracket (b'[' ∷ q) ≡ some (b, r)
        → all is_body_char b ≡ false
    opened b r none o h = absurd (ground arith)
    opened b r (some (b', r')) o h = ground arith
cut (c ∷ p) q = elim (Bool-cases (c == b']')) [
  | inl e ↦ within [] p (rw (split_bracket, e)) (rw (split_bracket, e))
  | inr e ↦ Cut-step c p q e (cut p q)
]

pub not_token_body : (b : Text) → all is_body_char b ≡ false → is_token_body b ≡ false
not_token_body b h = elim (Bool-cases (is_token_body b)) [
  | inl t ↦ let chars = is_token_body-chars b t in absurd (cc)
  | inr f ↦ f
]

-- An opening bracket ends every match that begins before it.
match_at_cut : (p q : Text) (c : ℕ) → match_at (c ∷ p ++ (b'[' ∷ q)) ≡ match_at (c ∷ p)
unfolding match_at
match_at_cut p q c = cases (cut p q)
  where
    cases : Cut p q → match_at (c ∷ p ++ (b'[' ∷ q)) ≡ match_at (c ∷ p)
    cases (within b r l m) = rw (match_at, l, m)
    cases (beyond n f) = elim (Option-cases (split_bracket (p ++ (b'[' ∷ q)))) [
      | inl e ↦ rw (match_at, n, e)
      | inr ((b, r), e) ↦ rw (match_at, n, e) (ground (arith, not_token_body b (f b r e)))
    ]

match-length-le :
    (c : ℕ) (t token : Text) → match_at (c ∷ t) ≡ some token → length token - 1 ≤ length t
match-length-le c t token e =
    let m = match_head c t token e in
    let split = ap length m.follows ∙ length-append m.tail m.rest in
    omega (arith, scan_skip c t token m)

pub scan_cut :
    (n : ℕ) (p q : Text) → n ≤ length p → scan n (p ++ (b'[' ∷ q)) ≡ scan n p ++ scan 0 (b'[' ∷ q)
unfolding scan
scan_cut zero [] q h = refl
scan_cut (suc n) [] q h = absurd (omega arith)
scan_cut (suc n) (c ∷ p) q h = scan_cut n p q (omega arith)
scan_cut zero (c ∷ p) q h = elim (Option-cases (match_at (c ∷ p))) [
  | inl e ↦
      rw (scan-none c (p ++ (b'[' ∷ q)) (match_at_cut p q c ∙ e), scan-none c p e)
        (ap (◌∷◌ (byte_piece c)) (scan_cut zero p q (omega arith)))
  | inr (token, e) ↦
      rw (scan-some c (p ++ (b'[' ∷ q)) token (match_at_cut p q c ∙ e), scan-some c p token e)
        (ap (◌∷◌ (match_piece token))
          (scan_cut (length token - 1) p q (match-length-le c p token e)))
]

-- A token inside of a text is a piece of its own, whatever stands before it and after it.
pub scan-append-token :
    (p t rest : Text)
    → IsToken t
    → scan 0 (p ++ (t ++ rest)) ≡ scan 0 p ++ (match_piece t ∷ scan 0 rest)
scan-append-token p t rest k =
    let opened : t ++ rest ≡ b'[' ∷ (k.body ++ codes "]" ++ rest) =
      ap (λ (u : Text). u ++ rest) k.shape in
    rw opened (scan_cut zero p _ (omega arith))
    ∙ ap (λ (ps : List Piece). scan 0 p ++ ps) (ap (scan 0) (sym opened) ∙ scan-token t rest k)
