-- ===== src/Proxy/Split/Hold.antt =====
-- Cutting a buffer into what is sent on and what is held loses no token and splits none.
use zlau_de_r.Prelude.{ℕ, ◌<◌, ◌≡◌, refl, sym, ap, ◌∙◌, ◌⊎◌, inl, inr, arith, Bool, true, false}
use zlau_de_r.Prelude.{none, some, List, [], ◌∷◌, ◌++◌, all}
use zlau_de_r.Prelude.{length, drop, Text, Bool-cases, Option-cases, append_assoc, append-nil}
use zlau_de_r.Prelude.{ltb, ltb→lt, and_true, subst}
use zlau_de_r.Token.{scan, match_at, Piece, max_token_len}
use zlau_de_r.Token.Scan.{match_at_sound, scan-none, scan-token, scan_cut}
use zlau_de_r.Token.Scan.{byte_piece, match_piece}
use zlau_de_r.Engine.Unmask.Pieces.{render_pieces}
use zlau_de_r.Proxy.Split.{Classify, is_tail_char, classify, rfind_bracket, split_safe}
use zlau_de_r.Proxy.Split.Pieces.{
  no_match_closed, not_open, ShortTokens, ShortTokens-drop, scan_closed,
}
use zlau_de_r.Proxy.Split.Pieces.{rfind_bracket-none, rfind_bracket-some, no_later_match}
use zlau_de_r.Proxy.Split.Pieces.{begins_with_token-none, begins_with_token-some}

all_suffix : (p : ℕ → Bool) (u m : Text) → all p (u ++ m) ≡ true → all p m ≡ true
all_suffix p [] m h = h
all_suffix p (c ∷ u) m h = all_suffix p u m (and_true (p c) (all p (u ++ m)) h).1

-- A text that is sent on whole: what follows it changes none of its pieces.
abbrev pub Cuts : Text → Text → Type 0
Cuts buf more = scan 0 (buf ++ more) ≡ scan 0 buf ++ scan 0 more

Cuts-before : (before u more : Text) → Cuts (b'[' ∷ u) more → Cuts (before ++ (b'[' ∷ u)) more
Cuts-before before u more h =
    ap (scan 0) (append_assoc before (b'[' ∷ u) more)
    ∙ scan_cut 0 before (u ++ more) (omega arith)
    ∙ ap (λ (ps : List Piece). scan 0 before ++ ps) h
    ∙ sym (append_assoc (scan 0 before) (scan 0 (b'[' ∷ u)) (scan 0 more))
    ∙ ap (λ (ps : List Piece). ps ++ scan 0 more) (sym (scan_cut 0 before u (omega arith)))

Cuts-token :
    (u more token : Text)
    → all not_open u ≡ true
    → match_at (b'[' ∷ u) ≡ some token
    → Cuts (b'[' ∷ u) more
Cuts-token u more token closed e =
    let m = match_at_sound (b'[' ∷ u) token e in
    let k = m.token_found in
    let shape : u ≡ k.body ++ (b']' ∷ []) ++ m.rest =
      ap (drop 1) m.begins ∙ ap (λ (t : Text). drop 1 (t ++ m.rest)) k.shape in
    let after =
      all_suffix not_open (k.body ++ (b']' ∷ [])) m.rest (ap (all not_open) (sym shape) ∙ closed) in
    ap (λ (t : Text). scan 0 (t ++ more)) m.begins
    ∙ ap (scan 0) (append_assoc token m.rest more)
    ∙ scan-token token (m.rest ++ more) k
    ∙ ap (◌∷◌ (match_piece token)) (scan_closed m.rest more after)
    ∙ ap (λ (ps : List Piece). ps ++ scan 0 more)
        (sym (ap (scan 0) m.begins ∙ scan-token token m.rest k))

Cuts-none :
    (u more : Text)
    → all not_open u ≡ true
    → match_at (b'[' ∷ u) ≡ none
    → match_at ((b'[' ∷ u) ++ more) ≡ none
    → Cuts (b'[' ∷ u) more
Cuts-none u more closed e later =
    scan-none b'[' (u ++ more) later
    ∙ ap (◌∷◌ (byte_piece b'[')) (scan_closed u more closed)
    ∙ ap (λ (ps : List Piece). ps ++ scan 0 more) (sym (scan-none b'[' u e))

-- The verdict on the last bracket.
data Verdict (u : Text) : Type 0 where
  hold : classify (b'[' ∷ u) ≡ Classify.partial → match_at (b'[' ∷ u) ≡ none → Verdict u
  release_token :
      (token : Text)
      → classify (b'[' ∷ u) ≡ Classify.complete
      → match_at (b'[' ∷ u) ≡ some token
      → Verdict u
  release :
      classify (b'[' ∷ u) ≡ Classify.no
      → match_at (b'[' ∷ u) ≡ none
      → (max_token_len < length (b'[' ∷ u)) ⊎ (all is_tail_char u ≡ false)
      → Verdict u

verdict : (u : Text) → Verdict u
unfolding classify
verdict u = elim (Option-cases (match_at (b'[' ∷ u))) [
  | inr (token, e) ↦
      release_token token (rw (classify, begins_with_token-some b'[' u token e) refl) e
  | inl e ↦ elim (Bool-cases (ltb max_token_len (length (b'[' ∷ u)))) [
    | inl long ↦
        release (rw (classify, begins_with_token-none b'[' u e, long) refl) e
          (inl (ltb→lt max_token_len (length (b'[' ∷ u)) long))
    | inr fits ↦ elim (Bool-cases (all is_tail_char u)) [
      | inl chars ↦ hold (rw (classify, begins_with_token-none b'[' u e, fits, chars) refl) e
      | inr bad ↦
          release (rw (classify, begins_with_token-none b'[' u e, fits, bad) refl) e (inr bad)
    ]
  ]
]

-- What `split_safe` gives: the buffer in two parts, of which the first is cut as by itself.
pub record Parts (buf more safe held : Text) : Type 0 where
  pub whole : buf ≡ safe ++ held
  pub cuts : scan 0 (buf ++ more) ≡ scan 0 safe ++ scan 0 (held ++ more)
  pub plain : (res : Text → Text) → render_pieces res (scan 0 held) ≡ held

sent_whole : (buf more : Text) → Cuts buf more → Parts buf more buf []
unfolding scan
sent_whole buf more h = record { whole = sym (append-nil buf); cuts = h; plain = λ res. refl }

render_closed :
    (res : Text → Text) (t : Text) → all not_open t ≡ true → render_pieces res (scan 0 t) ≡ t
unfolding scan
render_closed res [] h = refl
render_closed res (c ∷ t) h =
    let (hc, ht) = and_true (not_open c) (all not_open t) h in
    ap (render_pieces res) (scan-none c t (no_match_closed c t hc))
    ∙ ap (◌∷◌ c) (render_closed res t ht)

split_tail :
    (before u more : Text)
    → all not_open u ≡ true
    → ShortTokens ((b'[' ∷ u) ++ more)
    → rfind_bracket (before ++ (b'[' ∷ u)) ≡ some (before, b'[' ∷ u)
    → let parts = split_safe (before ++ (b'[' ∷ u)) in
      Parts (before ++ (b'[' ∷ u)) more parts.0 parts.1
unfolding split_safe
split_tail before u more closed short found = elim (verdict u) [
  | hold v e ↦
      rw (split_safe, found, v)
        (record {
          whole = refl;
          cuts =
              ap (scan 0) (append_assoc before (b'[' ∷ u) more)
              ∙ scan_cut 0 before (u ++ more) (omega arith);
          plain = λ res.
              ap (render_pieces res) (scan-none b'[' u e)
              ∙ ap (◌∷◌ b'[') (render_closed res u closed);
        })
  | release_token token v e ↦
      rw (split_safe, found, v)
        (sent_whole (before ++ (b'[' ∷ u)) more
          (Cuts-before before u more (Cuts-token u more token closed e)))
  | release v e why ↦
      rw (split_safe, found, v)
        (sent_whole (before ++ (b'[' ∷ u)) more (
          Cuts-before before u more
            (Cuts-none u more closed e (no_later_match u more e why short))))
]

pub split_safe-Parts :
    (buf more : Text)
    → ShortTokens (buf ++ more)
    → Parts buf more (split_safe buf).0 (split_safe buf).1
unfolding split_safe
split_safe-Parts buf more short = elim (Option-cases (rfind_bracket buf)) [
  | inl e ↦
      rw (split_safe, e) (sent_whole buf more (scan_closed buf more (rfind_bracket-none buf e)))
  | inr ((before, tail), e) ↦
      let l = rfind_bracket-some buf before tail e in
      let whole : buf ≡ before ++ (b'[' ∷ l.rest) =
        l.whole ∙ ap (λ (t : Text). before ++ t) l.shape in
      let found : rfind_bracket (before ++ (b'[' ∷ l.rest)) ≡ some (before, b'[' ∷ l.rest) =
        ap rfind_bracket (sym whole) ∙ e ∙ ap (λ (t : Text). some (before, t)) l.shape in
      let short' : ShortTokens ((b'[' ∷ l.rest) ++ more) =
        ShortTokens-drop before ((b'[' ∷ l.rest) ++ more) (
          subst ShortTokens
            (ap (λ (t : Text). t ++ more) whole ∙ append_assoc before (b'[' ∷ l.rest) more)
            short) in
      subst (λ (b : Text). Parts b more (split_safe b).0 (split_safe b).1) (sym whole)
        (split_tail before l.rest more l.closed short' found)
]
