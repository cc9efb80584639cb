-- ===== src/Proxy/Split/Pieces.antt =====
-- What is sent on and what is held are cut into tokens as the whole is.
use zlau_de_r.Prelude.{
  ℕ, ◌≤◌, ◌<◌, ◌≡◌, refl, sym, ap, ◌∙◌, ◌⊎◌, inl, inr, arith, Bool, true, false,
}
use zlau_de_r.Prelude.{not, ◌==◌, ==→≡, none, some, List, [], ◌∷◌, ◌++◌, all}
use zlau_de_r.Prelude.{length, drop, Text, codes, Bool-cases, Option-cases, append_assoc, and_true}
use zlau_de_r.Prelude.{length-append, ltb, ltb→lt, ◌+◌}
use zlau_de_r.Token.{scan, match_at, find_iter, matches_from, Piece, max_token_len}
use zlau_de_r.Token.Scan.{IsToken, match_at_token, match_at_sound, scan-none, scan-token}
use zlau_de_r.Token.Scan.{match_piece, byte_piece, is_body_char, is_token_body-chars}
use zlau_de_r.Proxy.Split.{is_tail_char, begins_with_token, rfind_bracket}

abbrev pub not_open : ℕ → Bool
not_open c = not (c == b'[')

-- No token of the text is longer than the relay's bound.
pub record ShortTokens (t : Text) : Type 0 where
  pub bound :
      (p token q : Text) → IsToken token → t ≡ p ++ (token ++ q) → length token ≤ max_token_len

pub ShortTokens-drop : (p t : Text) → ShortTokens (p ++ t) → ShortTokens t
ShortTokens-drop p t s = record {
  bound = λ l token q k e.
      s.bound (p ++ l) token q k
        (ap (λ (u : Text). p ++ u) e ∙ sym (append_assoc p l (token ++ q)));
}

-- So of every text that is itself no longer.
pub ShortTokens-length : (t : Text) → length t ≤ max_token_len → ShortTokens t
ShortTokens-length t h = record {
  bound = λ p token q k e.
      let whole = ap length e ∙ length-append p (token ++ q) in
      let part = length-append token q in omega arith;
}

pub no_match_closed : (c : ℕ) (t : Text) → not_open c ≡ true → match_at (c ∷ t) ≡ none
unfolding match_at
no_match_closed c t h = ground arith

-- Without an opening bracket a text is cut into its bytes, whatever follows it.
pub scan_closed :
    (t more : Text) → all not_open t ≡ true → scan 0 (t ++ more) ≡ scan 0 t ++ scan 0 more
unfolding scan
scan_closed [] more h = refl
scan_closed (c ∷ t) more h =
    let (hc, ht) = and_true (not_open c) (all not_open t) h in
    scan-none c (t ++ more) (no_match_closed c (t ++ more) hc)
    ∙ ap (◌∷◌ (byte_piece c)) (scan_closed t more ht)
    ∙ ap (λ (ps : List Piece). ps ++ scan 0 more) (sym (scan-none c t (no_match_closed c t hc)))

-- The last opening bracket.
pub record LastBracket (buf before tail : Text) : Type 0 where
  pub rest : Text
  pub shape : tail ≡ b'[' ∷ rest
  pub whole : buf ≡ before ++ tail
  pub closed : all not_open rest ≡ true

pub rfind_bracket-none : (buf : Text) → rfind_bracket buf ≡ none → all not_open buf ≡ true
unfolding rfind_bracket
rfind_bracket-none [] h = refl
rfind_bracket-none (c ∷ t) h = elim (Option-cases (rfind_bracket t)) [
  | inl e ↦ ground (arith, rfind_bracket-none t e)
  | inr ((b, a), e) ↦ absurd (ground arith)
]

pub rfind_bracket-some :
    (buf before tail : Text) → rfind_bracket buf ≡ some (before, tail) → LastBracket buf before tail
unfolding rfind_bracket
rfind_bracket-some [] before tail h = cc
rfind_bracket-some (c ∷ t) before tail h = elim (Option-cases (rfind_bracket t)) [
  | inr ((b, a), e) ↦
      let l = rfind_bracket-some t b a e in
      let same : c ∷ b ≡ before = ground arith in
      let tails : a ≡ tail = ground arith in
      record {
        rest = l.rest;
        shape = sym tails ∙ l.shape;
        whole = rw (← same, ← tails) (ap (◌∷◌ c) l.whole);
        closed = l.closed;
      }
  | inl e ↦ elim (Bool-cases (c == b'[')) [
    | inr other ↦ absurd (ground arith)
    | inl this ↦
        let none_before : [] ≡ before = ground arith in
        let tails : c ∷ t ≡ tail = ground arith in
        record {
          rest = t;
          shape = sym tails ∙ ap (λ (d : ℕ). d ∷ t) (==→≡ c b'[' this);
          whole = rw (← none_before) tails;
          closed = rfind_bracket-none t e;
        }
  ]
]

pub split_both :
    (l r b a : Text)
    → l ++ r ≡ b ++ a
    → length b ≤ length l
    → (m : Text) × (l ≡ b ++ m) × (a ≡ m ++ r)
split_both l r [] a e h = (l, refl, sym e)
split_both [] r (c ∷ b) a e h = absurd (omega arith)
split_both (d ∷ l) r (c ∷ b) a e h =
    let (m, p, q) = split_both l r b a (ap (drop 1) e) (omega arith) in
    let heads : d ≡ c = cc in (m, rw heads (ap (◌∷◌ c) p), q)

body_tail_chars : (b : Text) → all is_body_char b ≡ true → all is_tail_char b ≡ true
body_tail_chars [] h = refl
body_tail_chars (c ∷ b) h =
    let (hc, hb) = and_true (is_body_char c) (all is_body_char b) h in
    let ok : is_tail_char c ≡ true = ground arith in rw ok (body_tail_chars b hb)

all_prefix : (p : ℕ → Bool) (u m : Text) → all p (u ++ m) ≡ true → all p u ≡ true
all_prefix p [] m h = refl
all_prefix p (c ∷ u) m h = ground (arith, all_prefix p u m)

-- A tail that holds a byte of no token, or is longer than the bound, begins no token of any
-- continuation.
pub no_later_match :
    (u more : Text)
    → match_at (b'[' ∷ u) ≡ none
    → (max_token_len < length (b'[' ∷ u)) ⊎ (all is_tail_char u ≡ false)
    → ShortTokens ((b'[' ∷ u) ++ more)
    → match_at ((b'[' ∷ u) ++ more) ≡ none
no_later_match u more clear why short = elim (Option-cases (match_at ((b'[' ∷ u) ++ more))) [
  | inl e ↦ e
  | inr (token, e) ↦
      let m = match_at_sound ((b'[' ∷ u) ++ more) token e in
      let k = m.token_found in
      let within : length token ≤ length (b'[' ∷ u) → ⊥ = λ le.
        let (rest, p, q) = split_both (b'[' ∷ u) more token m.rest m.begins le in
        let found = ap match_at p ∙ match_at_token token rest k in absurd (cc) in
      elim why [
        | inl long ↦
            absurd (let le = short.bound [] token m.rest k m.begins in within (omega arith))
        | inr bad ↦ absurd (within (beyond token m.rest k m.begins bad))
      ]
]
  where
    beyond :
        (token r : Text)
        → IsToken token
        → (b'[' ∷ u) ++ more ≡ token ++ r
        → all is_tail_char u ≡ false
        → length token ≤ length (b'[' ∷ u)
    beyond token r k e bad = elim (Bool-cases (ltb (length (b'[' ∷ u)) (length token))) [
      | inr le ↦ ground arith
      | inl lt ↦
          let less = ltb→lt (length (b'[' ∷ u)) (length token) lt in
          let (m, p, q) = split_both token r (b'[' ∷ u) more (sym e) (omega (arith, less)) in
          let body : k.body ++ codes "]" ≡ u ++ m = ap (drop 1) (sym k.shape ∙ p) in
          let size = ap length k.shape in
          let count = length-append k.body (codes "]") in
          let (n, inner, _) =
            split_both k.body (codes "]") u m body (omega (arith, less, size, count)) in
          let chars = body_tail_chars k.body (is_token_body-chars k.body k.grammar) in
          let ok = all_prefix is_tail_char u n (ap (all is_tail_char) (sym inner) ∙ chars) in
          absurd (cc)
    ]

matches_from_later :
    (i : ℕ) (ps : List Piece)
    → 0 < i
    → elim (matches_from i ps) [ [] ↦ false | m ∷ ms ↦ m.start == 0 ] ≡ false
unfolding matches_from
matches_from_later i [] h = refl
matches_from_later i (p ∷ ps) h = elim (Bool-cases p.is_match) [
  | inl m ↦ rw m (ground arith)
  | inr m ↦ rw m (matches_from_later (i + length p.bytes) ps (omega arith))
]

pub begins_with_token-none :
    (c : ℕ) (t : Text) → match_at (c ∷ t) ≡ none → begins_with_token (c ∷ t) ≡ false
unfolding begins_with_token find_iter matches_from
begins_with_token-none c t e =
    rw (begins_with_token, find_iter, scan-none c t e)
      (matches_from_later 1 (scan 0 t) (omega arith))

pub begins_with_token-some :
    (c : ℕ) (t token : Text) → match_at (c ∷ t) ≡ some token → begins_with_token (c ∷ t) ≡ true
unfolding begins_with_token find_iter matches_from
begins_with_token-some c t token e =
    let m = match_at_sound (c ∷ t) token e in
    let pieces : scan 0 (c ∷ t) ≡ match_piece token ∷ scan 0 m.rest =
      ap (scan 0) m.begins ∙ scan-token token m.rest m.token_found in
    rw (begins_with_token, find_iter, pieces) refl
