-- ===== src/Store/Reveal.antt =====
-- What is interned resolves to what was interned, and minting again changes nothing.
use mathlib.Core.Option
use zlau_de_r.Prelude.{ℕ, ◌+◌, ◌≡◌, inl, inr, Bool, true, false}
use zlau_de_r.Prelude.{arith, ltb, if◌then◌else◌, ◌++◌, Option, none, some, Text, contains, get}
use zlau_de_r.Prelude.{◌&&◌, text_eq_refl, get-insert}
use zlau_de_r.Externals.{Externals, Cipher, Encrypts}
use zlau_de_r.Error.{ok, >>=-ok}
use zlau_de_r.Token.{make_token, slugify, broker_prefix}
use zlau_de_r.Store.{SessionStore, TokenKind, kind_eq, Revealed, decrypt, insert_if_absent}
use zlau_de_r.Store.{intern, intern_broker, reveal, reveal_for}
use zlau_de_r.Store.Entries.{intern-total, intern_broker-total, Inserted, insert_if_absent_cases}

abbrev before : ℕ → Option ℕ → Bool
before now deadline = elim deadline [ some d ↦ ltb now d | none ↦ true ]

module _ (x : Externals) (law : Cipher x) (nonce : Text) (s t : SessionStore)
    (token plaintext : Text) (kind : TokenKind) (name : Option Text) (deadline : Option ℕ) where
  Inserted-fresh :
      insert_if_absent x nonce s token plaintext kind name deadline ≡ ok t
      → contains s.tombstoned token ≡ false
      → get token s.token_map ≡ none
      → Inserted x nonce s token plaintext kind name deadline t
  Inserted-fresh h clear new =
      elim (insert_if_absent_cases x nonce s token plaintext kind name deadline t h) [
        | inl (_, old) ↦ absurd (ground arith)
        | inr i ↦ i
      ]

  -- The new entry resolves at its own kind and before its deadline.
  Inserted-resolves :
      Inserted x nonce s token plaintext kind name deadline t
      → (now : ℕ) (want : TokenKind)
      → reveal_for x now t token want ≡ (
          if kind_eq kind want && before now deadline
          then some (record { value = plaintext; secret_name = name })
          else none)
  unfolding reveal_for decrypt
  Inserted-resolves i now want =
      let present : get token t.token_map ≡ some i.entry =
        rw (i.result, get-insert, text_eq_refl token) in
      let plain : x.aes_decrypt t.session_key i.entry.nonce i.entry.original_encrypted
          ≡ some plaintext =
        rw (i.result, i.nonce_kept) (law.decrypts s.session_key nonce plaintext _ i.sealed) in
      ground (arith, present, plain, i.kind_kept, i.deadline_kept, i.name_kept)

-- The display path is the PII kind of the kind-gated one.
pub reveal-eq :
    (x : Externals) (now : ℕ) (s : SessionStore) (token : Text)
    → reveal x now s token
      ≡ Option.map (λ (r : Revealed). r.value) (reveal_for x now s token TokenKind.pii)
unfolding reveal reveal_for
reveal-eq x now s token = ground arith

module _ (x : Externals) (law : Cipher x) (nonce : Text) (s t : SessionStore) where
  intern_reveals :
      (entity_type plaintext token : Text)
      → intern x nonce s entity_type plaintext ≡ ok (t, token)
      → contains s.tombstoned token ≡ false
      → get token s.token_map ≡ none
      → (now : ℕ) → reveal x now t token ≡ some plaintext
  unfolding intern
  intern_reveals e p token h clear new now =
      let tok = make_token x e p s.salt in
      let (t', ins, done) = >>=-ok _ (λ (u : SessionStore). ok (u, tok)) h in
      let same : t' ≡ t = ground arith in
      let named : tok ≡ token = ground arith in
      let i =
        Inserted-fresh x law nonce s t token p TokenKind.pii none none (rw (same, named) at ins)
          clear new in
      rw (
        reveal-eq,
        Inserted-resolves x law nonce s t token p TokenKind.pii none none i now TokenKind.pii,
      )

  intern_broker_reveals :
      (minted : ℕ) (name plaintext : Text) (ttl : ℕ) (token : Text)
      → intern_broker x minted nonce s name plaintext (some ttl) ≡ ok (t, token)
      → contains s.tombstoned token ≡ false
      → get token s.token_map ≡ none
      → (now : ℕ)
      → (reveal_for x now t token TokenKind.broker ≡ (
          if ltb now (minted + ttl)
          then some (record { value = plaintext; secret_name = some name })
          else none))
        × (reveal x now t token ≡ none)
  unfolding intern_broker
  intern_broker_reveals minted name p ttl token h clear new now =
      let tok = make_token x (broker_prefix ++ slugify name) p s.salt in
      let (t', ins, done) = >>=-ok _ (λ (u : SessionStore). ok (u, tok)) h in
      let same : t' ≡ t = ground arith in
      let named : tok ≡ token = ground arith in
      let i =
        Inserted-fresh x law nonce s t token p TokenKind.broker (some name) (some (minted + ttl))
          (rw (same, named) at ins) clear new in
      let resolves =
        Inserted-resolves x law nonce s t token p TokenKind.broker (some name) (some (minted + ttl))
          i now in
      (resolves TokenKind.broker, rw (reveal-eq, resolves TokenKind.pii))

module _ (x : Externals) (law : Cipher x) (encrypts : Encrypts x) (nonce : Text) (s : SessionStore)
    (plaintext : Text) where
  -- The fresh token of a value resolves, on the display path, to that value: when the token is
  -- neither tombstoned nor present, minting succeeds, with the token and a store that reveals the
  -- value at any time.
  pub intern-reveal :
      (entity_type : Text)
      → let token = make_token x entity_type plaintext s.salt in
        contains s.tombstoned token ≡ false
        → get token s.token_map ≡ none
        → (t : SessionStore) × (intern x nonce s entity_type plaintext ≡ ok (t, token))
          × ((now : ℕ) → reveal x now t token ≡ some plaintext)
  intern-reveal e clear new =
      let (t, h) = intern-total x encrypts nonce s e plaintext in
      (t, h, intern_reveals x law nonce s t e plaintext _ h clear new)

  -- A fresh broker token is minted, and resolves at the tool boundary to the value and the exact
  -- registered name until its time to live is over, and on the display path never.
  pub intern_broker-reveal_for :
      (minted : ℕ) (name : Text) (ttl : ℕ)
      → let token = make_token x (broker_prefix ++ slugify name) plaintext s.salt in
        contains s.tombstoned token ≡ false
        → get token s.token_map ≡ none
        → (t : SessionStore) × (intern_broker x minted nonce s name plaintext (some ttl)
            ≡ ok (t, token))
          × ((now : ℕ)
              → (reveal_for x now t token TokenKind.broker ≡ (
                  if ltb now (minted + ttl)
                  then some (record { value = plaintext; secret_name = some name })
                  else none))
                × (reveal x now t token ≡ none))
  intern_broker-reveal_for minted name ttl clear new =
      let (t, h) = intern_broker-total x encrypts nonce s minted name plaintext (some ttl) in
      (t, h, intern_broker_reveals x law nonce s t minted name plaintext ttl _ h clear new)
