-- ===== src/Engine/Unmask/Gate.antt =====
-- What unmasking and the audit never give out.
use zlau_de_r.Prelude.{ℕ, ◌≡◌, refl, ap, ◌∙◌, inl, inr, arith, Bool, true, false}
use zlau_de_r.Prelude.{Option, none, some, [], ◌++◌, Text, get, Option-cases}
use zlau_de_r.Externals.{Externals}
use zlau_de_r.Token.{scan, find_iter, is_broker_token}
use zlau_de_r.Token.Scan.{IsToken, scan-append-token}
use zlau_de_r.Store.{
  SessionStore, TokenKind, Revealed, reveal, reveal_for, class_of, is_tool_promoted,
}
use zlau_de_r.Config.{RevealMarker, wrap}
use zlau_de_r.Manifest.{UnmaskManifest}
use zlau_de_r.Engine.Unmask.{
  restore, restore_loop, local_token, plain_of, RevealAudit, audit_class, reveal_audit,
}
use zlau_de_r.Engine.Unmask.Pieces.{render_pieces, render_pieces-append, restore_loop-render}

module _ (x : Externals) (now : ℕ) (store : SessionStore) (manifest : UnmaskManifest)
    (marker : Option RevealMarker) (before token after : Text) where
  -- A token is restored by itself, between the restored parts of the text.
  restore_loop-append :
      (reveal_local : Bool)
      → IsToken token
      → let loop = λ (t : Text).
        restore_loop x now store manifest marker reveal_local t (find_iter t) 0 [] in
        loop (before ++ (token ++ after))
        ≡ loop before ++ (restore x now store manifest marker reveal_local token ++ loop after)
  restore_loop-append reveal_local k =
      let res = restore x now store manifest marker reveal_local in
      let whole = restore_loop-render x now store manifest marker reveal_local in
      whole (before ++ (token ++ after))
      ∙ ap (render_pieces res) (scan-append-token before token after k)
      ∙ render_pieces-append res (scan 0 before) _
      ∙ rw (whole before, whole after) refl

  -- One that is not restored stays where it is.
  restore_loop-kept :
      (reveal_local : Bool)
      → IsToken token
      → restore x now store manifest marker reveal_local token ≡ token
      → let loop = λ (t : Text).
        restore_loop x now store manifest marker reveal_local t (find_iter t) 0 [] in
        loop (before ++ (token ++ after)) ≡ loop before ++ (token ++ loop after)
  restore_loop-kept reveal_local k same =
      let loop =
        λ (t : Text). restore_loop x now store manifest marker reveal_local t (find_iter t) 0 [] in
      restore_loop-append reveal_local k ∙ ap (λ (t : Text). loop before ++ (t ++ loop after)) same

  -- A broker token comes through the loop over the token matches unchanged, on both paths, whatever
  -- the manifest and the store hold for it, while the text around it is restored as by itself.
  pub restore_loop-broker :
      (reveal_local : Bool)
      → IsToken token
      → is_broker_token token ≡ true
      → let loop = λ (t : Text).
        restore_loop x now store manifest marker reveal_local t (find_iter t) 0 [] in
        loop (before ++ (token ++ after)) ≡ loop before ++ (token ++ loop after)
  unfolding restore
  restore_loop-broker reveal_local k b = restore_loop-kept reveal_local k (rw (restore, b) refl)

  -- An owner-reveal token that was not promoted comes through the loop over the token matches
  -- unchanged at the tool boundary, while the text around it is restored as by itself.
  pub restore_loop-local :
      IsToken token
      → local_token x now store manifest marker false token ≡ true
      → is_tool_promoted store token ≡ false
      → let loop =
          λ (t : Text). restore_loop x now store manifest marker false t (find_iter t) 0 [] in
        loop (before ++ (token ++ after)) ≡ loop before ++ (token ++ loop after)
  unfolding restore
  restore_loop-local k l p = restore_loop-kept false k (ground (arith, l, p))

-- What stands for a token whose audit is this, in a text that is shown.
abbrev decorated : Option RevealMarker → Text → Text
decorated none value = value
decorated (some m) value = wrap m value

abbrev pub shown : Option RevealMarker → Text → RevealAudit → Text
shown marker token (RevealAudit.pii value) = decorated marker value
shown marker token (RevealAudit.local value) = decorated marker value
shown marker token (RevealAudit.broker name) = token
shown marker token RevealAudit.unknown = token

-- The audit by what resolves, without the class: the display path, then the owner-reveal kind, then
-- the name of a live broker entry.
abbrev named : Option (TokenKind × Option Text) → RevealAudit
named (some (TokenKind.broker, name)) = RevealAudit.broker name
named _ = RevealAudit.unknown

abbrev owned : Option Revealed → Option (TokenKind × Option Text) → RevealAudit
owned (some r) class = RevealAudit.local r.value
owned none class = named class

abbrev pub resolved_audit : Externals → ℕ → SessionStore → Text → RevealAudit
resolved_audit x now s token = elim (reveal x now s token) [
  | some value ↦ RevealAudit.pii value
  | none ↦ owned (reveal_for x now s token TokenKind.local) (class_of x now s token)
]

reveal_audit-resolved :
    (x : Externals) (now : ℕ) (s : SessionStore) (token : Text)
    → reveal_audit x now s token ≡ resolved_audit x now s token
unfolding reveal_audit audit_class reveal reveal_for class_of
reveal_audit-resolved x now s token = elim (Option-cases (get token s.token_map)) [
  | inl e ↦ ground (arith, e)
  | inr (e, p) ↦ ground (arith, p)
]

restore-shown :
    (x : Externals) (now : ℕ) (s : SessionStore) (marker : Option RevealMarker) (token : Text)
    → is_broker_token token ≡ false
    → restore x now s [] marker true token ≡ shown marker token (reveal_audit x now s token)
unfolding reveal_audit audit_class restore plain_of reveal reveal_for class_of
restore-shown x now s marker token plain = elim (Option-cases (get token s.token_map)) [
  | inl e ↦ ground (arith, e)
  | inr (e, p) ↦ ground (arith, p)
]

-- The audit, which goes by the class of a token first, gives what resolving the token at each kind
-- in turn gives: the display path, then the owner-reveal kind, then the name of a live broker entry.
-- And what it shows of a token is what the display path puts in the place of that token in any text
-- when no manifest is at hand: its plaintext, decorated, and the token itself where the audit gives
-- a broker name or nothing, as long as the token is not in the form of a broker token.
pub reveal_audit-restore_loop :
    (x : Externals) (now : ℕ) (s : SessionStore) (marker : Option RevealMarker)
    (before token after : Text)
    → IsToken token
    → is_broker_token token ≡ false
    → let loop = λ (t : Text). restore_loop x now s [] marker true t (find_iter t) 0 [] in
      (reveal_audit x now s token ≡ resolved_audit x now s token)
      × (loop (before ++ (token ++ after))
          ≡ loop before ++ (shown marker token (reveal_audit x now s token) ++ loop after))
reveal_audit-restore_loop x now s marker before token after k plain =
    let loop = λ (t : Text). restore_loop x now s [] marker true t (find_iter t) 0 [] in
    (
      reveal_audit-resolved x now s token,
      restore_loop-append x now s [] marker before token after true k
          ∙ ap (λ (t : Text). loop before ++ (t ++ loop after))
              (restore-shown x now s marker token plain),
    )
