-- ===== src/Engine/Unmask/Pieces.antt =====
-- The loop over the matches, by offsets, against the rendering of the text piece by piece.
use zlau_de_r.Prelude.{ℕ, ◌+◌, ◌≡◌, refl, sym, ap, ◌∙◌, Bool, arith, Option, Bool-cases}
use zlau_de_r.Prelude.{inl, inr}
use zlau_de_r.Prelude.{if◌then◌else◌, List, [], ◌∷◌, ◌++◌, length, Text, append_assoc}
use zlau_de_r.Prelude.{length-append, take-append, drop-append}
use zlau_de_r.Externals.{Externals}
use zlau_de_r.Token.{Piece, scan, matches_from, find_iter}
use zlau_de_r.Token.Scan.{join, scan-join}
use zlau_de_r.Store.{SessionStore}
use zlau_de_r.Config.{RevealMarker}
use zlau_de_r.Detect.{slice}
use zlau_de_r.Manifest.{UnmaskManifest}
use zlau_de_r.Engine.Unmask.{restore, restore_loop}

-- The bytes between the matches as they are, and each match as `res` gives it.
abbrev pub render_pieces : (Text → Text) → List Piece → Text
render_pieces res [] = []
render_pieces res (p ∷ ps) = (if p.is_match then res p.bytes else p.bytes) ++ render_pieces res ps

pub render_pieces-append :
    (res : Text → Text) (ps qs : List Piece)
    → render_pieces res (ps ++ qs) ≡ render_pieces res ps ++ render_pieces res qs
render_pieces-append res [] qs = refl
render_pieces-append res (p ∷ ps) qs =
    rw (render_pieces-append res ps qs)
      (sym (append_assoc (if p.is_match then res p.bytes else p.bytes) _ _))

slice-append :
    (pre gap rest : Text)
    → slice (pre ++ (gap ++ rest)) (length pre) (length pre + length gap) ≡ gap
slice-append pre gap rest =
    rw (← append_assoc pre gap rest, ← length-append pre gap, take-append, drop-append)

module _ (x : Externals) (now : ℕ) (store : SessionStore) (manifest : UnmaskManifest)
    (marker : Option RevealMarker) (reveal_local : Bool) where
  abbrev res : Text → Text
  res = restore x now store manifest marker reveal_local

  restore_loop-eq :
      (text pre gap : Text) (ps : List Piece) (i last : ℕ) (out : Text)
      → text ≡ pre ++ (gap ++ join ps)
      → last ≡ length pre
      → i ≡ length pre + length gap
      → restore_loop x now store manifest marker reveal_local text (matches_from i ps) last out
        ≡ out ++ (gap ++ render_pieces res ps)
  unfolding restore_loop matches_from
  restore_loop-eq text pre gap [] i last out e l h = rw (e, l, drop-append)
  restore_loop-eq text pre gap (p ∷ ps) i last out e l h = elim (Bool-cases p.is_match) [
    | inr plain ↦
        rw (plain, matches_from)
          (restore_loop-eq text pre (gap ++ p.bytes) ps (i + length p.bytes) last out
              (e ∙ ap (λ (t : Text). pre ++ t) (sym (append_assoc gap p.bytes (join ps)))) l
              (omega (arith, length-append gap p.bytes))
            ∙ ap (λ (t : Text). out ++ t) (append_assoc gap p.bytes (render_pieces res ps)))
    | inl match ↦
        let cut : slice text last i ≡ gap =
          rw (e, l, h) (slice-append pre gap (p.bytes ++ join ps)) in
        rw (match, matches_from)
          (restore_loop-eq text (pre ++ (gap ++ p.bytes)) [] ps (i + length p.bytes)
              (i + length p.bytes) ((out ++ slice text last i) ++ res p.bytes)
              (e
                ∙ sym (
                    append_assoc pre (gap ++ p.bytes) (join ps)
                    ∙ ap (λ (t : Text). pre ++ t) (append_assoc gap p.bytes (join ps))))
              (omega (arith, length-append pre (gap ++ p.bytes), length-append gap p.bytes))
              (omega (arith, length-append pre (gap ++ p.bytes), length-append gap p.bytes))
            ∙ rw (cut, append_assoc, append_assoc))
  ]

  -- The loop of the unmasking, which works by byte offsets, is the piecewise rendering: what stands
  -- between the matches of the token pattern stays as it is, and each match is restored by itself.
  pub restore_loop-render :
      (text : Text)
      → restore_loop x now store manifest marker reveal_local text (find_iter text) 0 []
        ≡ render_pieces (restore x now store manifest marker reveal_local) (scan 0 text)
  unfolding find_iter
  restore_loop-render text =
      restore_loop-eq text [] [] (scan 0 text) 0 0 [] (sym (scan-join 0 text)) refl refl
