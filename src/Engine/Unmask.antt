-- ===== src/Engine/Unmask.antt =====
-- `MaskEngine::unmask_inner` and its callers (lib.rs).
pub mod Pieces
pub mod Gate
pub mod Masking
pub mod Roundtrip
use package.zlau_de_r.Prelude.{
  ℕ, ◌+◌, Bool, true, false, not, ◌&&◌, ◌||◌, if◌then◌else◌, Option, none,
}
use package.zlau_de_r.Prelude.{some, List, [], ◌∷◌, ◌++◌, drop, Text, replace}
use package.zlau_de_r.Externals.{Externals}
use package.zlau_de_r.Token.{Match, match_end, find_iter, is_match, is_broker_token}
use package.zlau_de_r.Store.{
  SessionStore, TokenKind, Revealed, reveal, reveal_for, is_local, class_of,
}
use package.zlau_de_r.Store.{is_tool_promoted}
use package.zlau_de_r.Config.{RevealMarker, is_active, wrap, contained_in, strip}
use package.zlau_de_r.Detect.{slice}
use package.zlau_de_r.Manifest.{ManifestEntry, UnmaskManifest, entry_of}

module _ (x : Externals) (now : ℕ) (store : SessionStore) (manifest : UnmaskManifest)
    (marker : Option RevealMarker) (reveal_local : Bool) where
  abbrev or_else : Option Text → Option Text → Option Text
  or_else (some v) o = some v
  or_else none o = o

  abbrev value_of : Option Revealed → Option Text
  value_of none = none
  value_of (some r) = some r.value

  -- The plaintext of a token from the manifest, else from the store.
  unfoldable pub plain_of : Text → Option Text
  plain_of tok = elim (entry_of manifest tok) [
    | some e ↦ some e.canonical_form
    | none ↦
        or_else (reveal x now store tok) (value_of (reveal_for x now store tok TokenKind.local))
  ]

  unfoldable pub local_token : Text → Bool
  local_token tok = elim (entry_of manifest tok) [ some e ↦ e.local | none ↦ is_local store tok ]

  abbrev show : Text → Text
  show p = elim marker [ some mk ↦ wrap mk p | none ↦ p ]

  -- What the loop pushes for one match.
  unfoldable pub restore : Text → Text
  restore tok =
      if is_broker_token tok
      then tok
      else (if local_token tok && (not reveal_local && not (is_tool_promoted store tok))
          then tok
          else elim (plain_of tok) [ some p ↦ show p | none ↦ tok ])

  -- `for m in re.find_iter(text)`, with the end of the last match.
  unfoldable pub restore_loop : Text → List Match → ℕ → Text → Text
  restore_loop text [] last out = out ++ drop last text
  restore_loop text (m ∷ ms) last out =
      restore_loop text ms (match_end m) ((out ++ slice text last m.start) ++ restore m.text)

  -- The second loop: the literal tokens that are outside of the token grammar.
  unfoldable pub literal_loop : List ManifestEntry → Text → Text
  literal_loop [] out = out
  literal_loop (e ∷ es) out = literal_loop es (
      if e.broker || e.local
      then out
      else (if not (is_match e.token_handle)
          then replace e.token_handle (show e.canonical_form) out
          else out))

  unfoldable pub unmask_inner : Text → Text
  unmask_inner text = literal_loop manifest (restore_loop text (find_iter text) 0 [])

-- The tool-input path.
unfoldable pub unmask : Externals → ℕ → SessionStore → UnmaskManifest → Text → Text
unmask x now store manifest text = unmask_inner x now store manifest none false text

-- The display path.
unfoldable pub unmask_assistant :
    Externals → ℕ → SessionStore → RevealMarker → UnmaskManifest → Text → Text
unmask_assistant x now store marker manifest text =
    unmask_inner x now store manifest (if is_active marker then some marker else none) true text

unfoldable pub strip_reveal_marker : RevealMarker → Text → Text
strip_reveal_marker marker text =
    if is_active marker && contained_in marker text then strip marker text else text

pub data RevealAudit : Type 0 where
  pii local : Text → RevealAudit
  broker : Option Text → RevealAudit
  unknown : RevealAudit

-- The class-aware answer for a live token.
unfoldable pub audit_class :
    Externals → ℕ → SessionStore → Text → TokenKind → Option Text → RevealAudit
audit_class x now store token TokenKind.broker name = RevealAudit.broker name
audit_class x now store token TokenKind.pii name = elim (reveal x now store token) [
  | none ↦ RevealAudit.unknown
  | some v ↦ RevealAudit.pii v
]
audit_class x now store token TokenKind.local name =
    elim (reveal_for x now store token TokenKind.local) [
      | none ↦ RevealAudit.unknown
      | some r ↦ RevealAudit.local r.value
    ]

unfoldable pub reveal_audit : Externals → ℕ → SessionStore → Text → RevealAudit
reveal_audit x now store token = elim (class_of x now store token) [
  | none ↦ RevealAudit.unknown
  | some (kind, secret_name) ↦ audit_class x now store token kind secret_name
]
