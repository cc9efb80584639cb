-- ===== src/Store.antt =====
-- The reversible session store (crates/zlauder-engine/src/store.rs): its state, and one function
-- for each method. A method that changes the store returns the new one. The clock and the nonce
-- that the operating system draws are arguments; the maps and sets are association lists and
-- lists. `local_pairs` reads the map in the order of that list.
pub mod Entries
pub mod Kinds
pub mod Tombstones
pub mod Validity
pub mod Reveal
use package.zlau_de_r.Prelude.{ℕ, ◌+◌, Bool, true, false, not, ◌&&◌, ◌||◌, ltb, if◌then◌else◌}
use package.mathlib.Core.Option
use package.zlau_de_r.Prelude.{Option, none, some, is_some, List, [], ◌∷◌, ◌++◌, length, retain}
use package.zlau_de_r.Prelude.{Text, contains, get, remove, insert, text_eq, ◌==◌}
use package.zlau_de_r.Externals.{Externals}
use package.zlau_de_r.Error.{EngineError, Result, ok, err, ◌>>=◌, ok_option}
use package.zlau_de_r.Token.{make_token, slugify, broker_prefix}

pub data TokenKind : Type 0 where
  pii broker local : TokenKind

-- The derived `PartialEq`.
abbrev pub kind_tag : TokenKind → ℕ
kind_tag TokenKind.pii = 0
kind_tag TokenKind.broker = 1
kind_tag TokenKind.local = 2

abbrev pub kind_eq : TokenKind → TokenKind → Bool
kind_eq a b = kind_tag a == kind_tag b

pub record Revealed : Type 0 where
  pub value : Text
  pub secret_name : Option Text

pub record StoreEntry : Type 0 where
  pub original_encrypted : Text
  pub nonce : Text
  pub kind : TokenKind
  pub secret_name : Option Text
  pub expires_at : Option ℕ

pub record SessionStore : Type 0 where
  pub session_key : Text
  pub salt : Text
  pub token_map : List (Text × StoreEntry)
  pub tombstoned : List Text
  pub tool_promoted : List Text

unfoldable pub with_key_and_salt : Text → Text → SessionStore
with_key_and_salt session_key salt = record {
  session_key = session_key;
  salt = salt;
  token_map = [];
  tombstoned = [];
  tool_promoted = [];
}

-- True iff the entry is live at `now`.
abbrev pub live : ℕ → StoreEntry → Bool
live now entry = elim entry.expires_at [ some deadline ↦ ltb now deadline | none ↦ true ]

module _ (x : Externals) where
  -- The cipher under a nonce from the operating system.
  unfoldable pub encrypt : SessionStore → Text → Text → Result (Text × Text)
  encrypt s nonce value = elim (x.aes_encrypt s.session_key nonce value) [
    | some ct ↦ ok (ct, nonce)
    | none ↦ err EngineError.encryption_failed
  ]

  unfoldable pub decrypt : SessionStore → Text → Text → Result Text
  decrypt s ct nonce = elim (x.aes_decrypt s.session_key nonce ct) [
    | some plain ↦ ok plain
    | none ↦ err EngineError.decryption_failed
  ]

  unfoldable pub insert_if_absent :
      Text → SessionStore → Text → Text → TokenKind → Option Text → Option ℕ → Result SessionStore
  unfolding encrypt
  insert_if_absent nonce s token plaintext kind secret_name expires_at =
      if contains s.tombstoned token || is_some (get token s.token_map) then ok s else (do
        (original_encrypted, nonce') ← encrypt s nonce plaintext
        ok (record s {
          token_map =
              insert token
                (record {
                  original_encrypted = original_encrypted;
                  nonce = nonce';
                  kind = kind;
                  secret_name = secret_name;
                  expires_at = expires_at;
                })
                s.token_map;
        }))

  unfoldable pub intern : Text → SessionStore → Text → Text → Result (SessionStore × Text)
  intern nonce s entity_type plaintext = do
    let token = make_token x entity_type plaintext s.salt
    s' ← insert_if_absent nonce s token plaintext TokenKind.pii none none
    ok (s', token)

  unfoldable pub intern_fixed : Text → SessionStore → Text → Text → Result SessionStore
  intern_fixed nonce s token plaintext =
      insert_if_absent nonce s token plaintext TokenKind.pii none none

  unfoldable pub intern_broker :
      ℕ → Text → SessionStore → Text → Text → Option ℕ → Result (SessionStore × Text)
  intern_broker now nonce s name plaintext ttl = do
    let entity = broker_prefix ++ slugify name
    let token = make_token x entity plaintext s.salt
    let expires_at = Option.map (λ (d : ℕ). now + d) ttl
    s' ← insert_if_absent nonce s token plaintext TokenKind.broker (some name) expires_at
    ok (s', token)

  unfoldable pub intern_local : Text → SessionStore → Text → Text → Result (SessionStore × Text)
  intern_local nonce s name plaintext = do
    let token = make_token x (slugify name) plaintext s.salt
    s' ← insert_if_absent nonce s token plaintext TokenKind.local none none
    ok (s', token)

  -- The plaintext of a live entry of the wanted kind.
  abbrev pub decrypt_entry : ℕ → SessionStore → TokenKind → StoreEntry → Option Text
  decrypt_entry now s want entry =
      if not (kind_eq entry.kind want) || not (live now entry)
      then none
      else ok_option (decrypt s entry.original_encrypted entry.nonce)

  -- The display path: PII only.
  unfoldable pub reveal : ℕ → SessionStore → Text → Option Text
  unfolding decrypt
  reveal now s token = elim (get token s.token_map) [
    | none ↦ none
    | some entry ↦ decrypt_entry now s TokenKind.pii entry
  ]

  unfoldable pub reveal_for : ℕ → SessionStore → Text → TokenKind → Option Revealed
  unfolding decrypt
  reveal_for now s token want = elim (get token s.token_map) [
    | none ↦ none
    | some entry ↦
        Option.map
          (λ (v : Text).
            let r : Revealed = record { value = v; secret_name = entry.secret_name } in r)
          (decrypt_entry now s want entry)
  ]

  unfoldable pub class_of : ℕ → SessionStore → Text → Option (TokenKind × Option Text)
  class_of now s token = elim (get token s.token_map) [
    | none ↦ none
    | some entry ↦ if live now entry then some (entry.kind, entry.secret_name) else none
  ]

  pairs_of : ℕ → SessionStore → List (Text × StoreEntry) → List (Text × Text)
  unfolding decrypt
  pairs_of now s [] = []
  pairs_of now s ((handle, e) ∷ m) =
      let rest = pairs_of now s m in
      elim (decrypt_entry now s TokenKind.local e) [
        | none ↦ rest
        | some plain ↦ (plain, handle) ∷ rest
      ]

  unfoldable pub local_pairs : ℕ → SessionStore → List (Text × Text)
  unfolding pairs_of
  local_pairs now s = pairs_of now s s.token_map

unfoldable pub is_local : SessionStore → Text → Bool
is_local s token = elim (get token s.token_map) [
  | none ↦ false
  | some e ↦ kind_eq e.kind TokenKind.local
]

unfoldable pub promote : SessionStore → Text → SessionStore
unfolding is_local
promote s token =
    if is_local s token then record s { tool_promoted = token ∷ s.tool_promoted } else s

unfoldable pub is_tool_promoted : SessionStore → Text → Bool
is_tool_promoted s token = contains s.tool_promoted token

unfoldable pub delete : SessionStore → Text → SessionStore × Bool
delete s token = (
  record s { token_map = remove token s.token_map; tombstoned = token ∷ s.tombstoned },
  is_some (get token s.token_map),
)

unfoldable pub tombstone : SessionStore → Text → SessionStore
tombstone s token = record s {
  token_map = remove token s.token_map;
  tombstoned = token ∷ s.tombstoned;
}

unfoldable pub len : SessionStore → ℕ
len s = length s.token_map
