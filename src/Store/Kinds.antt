-- ===== src/Store/Kinds.antt =====
-- The kinds keep the paths apart.

use zlau_de_r.Prelude.{ℕ, ◌≡◌, inl, inr, true}
use zlau_de_r.Prelude.{arith, Option, none, some, Text, get, Option-cases}
use zlau_de_r.Externals.{Externals}
use zlau_de_r.Store.{SessionStore, StoreEntry, TokenKind, kind_eq, Revealed, live}
use zlau_de_r.Store.{reveal, reveal_for, class_of}

pub kind_eq→≡ : (a b : TokenKind) → kind_eq a b ≡ true → a ≡ b
kind_eq→≡ a b h = ground arith

-- What resolves has a live entry of the wanted kind, and the name stored with it.
pub reveal_for-entry :
    (x : Externals) (now : ℕ) (s : SessionStore) (token : Text) (want : TokenKind) (r : Revealed)
    → reveal_for x now s token want ≡ some r
    → (e : StoreEntry) × (get token s.token_map ≡ some e)
      × (e.kind ≡ want)
      × (live now e ≡ true)
      × (r.secret_name ≡ e.secret_name)
unfolding reveal_for
reveal_for-entry x now s token want r h = elim (Option-cases (get token s.token_map)) [
  | inl no_entry ↦ absurd (ground arith)
  | inr (e, p) ↦ (e, p, ground arith, ground arith, ground arith)
]

-- No token resolves at two kinds, whenever the two calls are made; and its class, as long as the
-- entry lives, is the kind at which it resolves, with the same registered name.
pub reveal_for_exclusive :
    (x : Externals) (now later : ℕ) (s : SessionStore) (token : Text) (want other : TokenKind)
    (r q : Revealed)
    → reveal_for x now s token want ≡ some r
    → reveal_for x later s token other ≡ some q
    → (want ≡ other) × (class_of x now s token ≡ some (want, r.secret_name))
unfolding class_of
reveal_for_exclusive x now later s token want other r q h k =
    let (e, p, kind, alive, name) = reveal_for-entry x now s token want r h in
    let (f, p', kind', _, _) = reveal_for-entry x later s token other q k in
    (ground arith, rw (class_of, p, alive, kind, name))

-- A token whose class is broker is never revealed on the display path, and its plaintext does not
-- come back at the owner-reveal kind either.
pub broker-reveal :
    (x : Externals) (now later : ℕ) (s : SessionStore) (token : Text) (name : Option Text)
    → class_of x now s token ≡ some (TokenKind.broker, name)
    → (reveal x later s token ≡ none) × (reveal_for x later s token TokenKind.local ≡ none)
unfolding class_of reveal reveal_for
broker-reveal x now later s token name h = elim (Option-cases (get token s.token_map)) [
  | inl e ↦ absurd (ground arith)
  | inr (e, p) ↦ (ground arith, ground arith)
]
