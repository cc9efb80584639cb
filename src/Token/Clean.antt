-- ===== src/Token/Clean.antt =====
-- Texts in which the token pattern matches nowhere.
use zlau_de_r.Prelude.{ℕ, ◌+◌, ◌≡◌, ◌≢◌, refl, sym, ap, ◌∙◌, arith, true}
use zlau_de_r.Prelude.{Bool-cases, Option-cases, inl, inr, none, some, List, [], ◌∷◌, ◌++◌}
use zlau_de_r.Prelude.{length, Text, append_assoc, append-nil}
use zlau_de_r.Token.Grammar.{Piece, match_at, scan, matches_from, find_iter, is_match}
use zlau_de_r.Token.Scan.{IsToken, match_at_token, match_at_sound, scan-append-token, match_piece}
use zlau_de_r.Token.Scan.{scan-none, byte_piece, scan-token}

-- No suffix of the text begins with a token.
pub record NoMatch (t : Text) : Type 0 where
  pub at : (p q : Text) → t ≡ p ++ q → match_at q ≡ none

matches_from_some :
    (i : ℕ) (ps qs : List Piece) (tok : Text) → matches_from i (ps ++ (match_piece tok ∷ qs)) ≢ []
unfolding matches_from
matches_from_some i [] qs tok e = cc
matches_from_some i (p ∷ ps) qs tok e = elim (Bool-cases p.is_match) [
  | inl m ↦ absurd (ground arith)
  | inr m ↦ matches_from_some (i + length p.bytes) ps qs tok (ground arith)
]

pub find_iter-NoMatch : (t : Text) → find_iter t ≡ [] → NoMatch t
unfolding find_iter
find_iter-NoMatch t h = record {
  at = λ p q e. elim (Option-cases (match_at q)) [
    | inl n ↦ n
    | inr (tok, found) ↦
        let m = match_at_sound q tok found in
        let pieces : scan 0 t ≡ scan 0 p ++ (match_piece tok ∷ scan 0 m.rest) =
          ap (scan 0) (e ∙ ap (λ (u : Text). p ++ u) m.begins)
          ∙ scan-append-token p tok m.rest m.token_found in
        absurd (
          matches_from_some 0 (scan 0 p) (scan 0 m.rest) tok (ap (matches_from 0) (sym pieces) ∙ h))
  ];
}

pub NoMatch-part : (t l g r : Text) → t ≡ l ++ (g ++ r) → NoMatch t → NoMatch g
NoMatch-part t l g r e n = record {
  at = λ p q h. elim (Option-cases (match_at q)) [
    | inl none_here ↦ none_here
    | inr (tok, found) ↦
        let m = match_at_sound q tok found in
        let longer : match_at (q ++ r) ≡ some tok =
          ap (λ (u : Text). match_at (u ++ r)) m.begins
          ∙ ap match_at (append_assoc tok m.rest r)
          ∙ match_at_token tok (m.rest ++ r) m.token_found in
        let whole : t ≡ (l ++ p) ++ (q ++ r) =
          e
          ∙ ap (λ (u : Text). l ++ (u ++ r)) h
          ∙ ap (λ (u : Text). l ++ u) (append_assoc p q r)
          ∙ sym (append_assoc l p (q ++ r)) in
        let clear = n.at (l ++ p) (q ++ r) whole in absurd (cc)
  ];
}

pub NoMatch-tail : (c : ℕ) (t : Text) → NoMatch (c ∷ t) → NoMatch t
NoMatch-tail c t n = record { at = λ p q e. n.at (c ∷ p) q (ap (◌∷◌ c) e) }

-- Such a text is scanned into its bytes.
pub scan-NoMatch : (c : ℕ) (t : Text) → NoMatch (c ∷ t) → scan 0 (c ∷ t) ≡ byte_piece c ∷ scan 0 t
scan-NoMatch c t n = scan-none c t (n.at [] (c ∷ t) refl)

-- A token by itself is a match.
pub is_match-token : (t : Text) → IsToken t → is_match t ≡ true
unfolding is_match find_iter matches_from
is_match-token t k =
    let pieces : scan 0 t ≡ match_piece t ∷ scan 0 [] =
      ap (scan 0) (sym (append-nil t)) ∙ scan-token t [] k in
    rw (is_match, find_iter, pieces)
