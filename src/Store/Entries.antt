-- ===== src/Store/Entries.antt =====
-- What an insertion does to the map: at most one new entry, under a key that had none and is not
-- tombstoned; all else stays.
use mathlib.Core.Option
use zlau_de_r.Prelude.{ℕ, ◌+◌, ◌≡◌, refl, ◌⊎◌, inl, inr, true, false, ◌||◌, arith}
use zlau_de_r.Prelude.{Option, none, some, is_some, Text, contains, get, insert, ◌++◌}
use zlau_de_r.Prelude.{text_eq_iff, get-insert, Bool-cases, Option-cases}
use zlau_de_r.Externals.{Encrypts, Externals}
use zlau_de_r.Error.{ok, >>=-ok}
use zlau_de_r.Token.{make_token, slugify, broker_prefix}
use zlau_de_r.Store.{SessionStore, StoreEntry, TokenKind, encrypt, insert_if_absent}
use zlau_de_r.Store.{intern, intern_fixed, intern_broker, intern_local}

-- `t` is `s` with at most one more entry.
pub record Grows (s t : SessionStore) : Type 0 where
  pub session_key : t.session_key ≡ s.session_key
  pub salt : t.salt ≡ s.salt
  pub tombstoned : t.tombstoned ≡ s.tombstoned
  pub tool_promoted : t.tool_promoted ≡ s.tool_promoted
  pub entries :
      (j : Text)
      → (get j t.token_map ≡ get j s.token_map)
        ⊎ (get j s.token_map ≡ none) × (contains s.tombstoned j ≡ false)

Grows-refl : (s : SessionStore) → Grows s s
Grows-refl s = record {
  session_key = refl;
  salt = refl;
  tombstoned = refl;
  tool_promoted = refl;
  entries = λ j. inl refl;
}

module _ (x : Externals) (nonce : Text) (s : SessionStore) (token plaintext : Text)
    (kind : TokenKind) (name : Option Text) (deadline : Option ℕ) where
  pub record Inserted (t : SessionStore) : Type 0 where
    pub entry : StoreEntry
    pub fresh : (contains s.tombstoned token || is_some (get token s.token_map)) ≡ false
    pub sealed : x.aes_encrypt s.session_key nonce plaintext ≡ some entry.original_encrypted
    pub nonce_kept : entry.nonce ≡ nonce
    pub kind_kept : entry.kind ≡ kind
    pub name_kept : entry.secret_name ≡ name
    pub deadline_kept : entry.expires_at ≡ deadline
    pub result : t ≡ record s { token_map = insert token entry s.token_map }

  -- A success leaves the store as it is, or inserts one entry under a fresh token.
  pub insert_if_absent_cases :
      (t : SessionStore)
      → insert_if_absent x nonce s token plaintext kind name deadline ≡ ok t
      → (t ≡ s) × ((contains s.tombstoned token || is_some (get token s.token_map)) ≡ true)
        ⊎ Inserted t
  unfolding insert_if_absent
  insert_if_absent_cases t h =
      elim (Bool-cases (contains s.tombstoned token || is_some (get token s.token_map))) [
        | inl old ↦ inl (ground arith, old)
        | inr new ↦ elim (Option-cases (x.aes_encrypt s.session_key nonce plaintext)) [
          | inl fails ↦ absurd (ground arith)
          | inr (ct, seals) ↦ inr (record {
            entry = record {
              original_encrypted = ct;
              nonce = nonce;
              kind = kind;
              secret_name = name;
              expires_at = deadline;
            };
            fresh = new;
            sealed = seals;
            nonce_kept = refl;
            kind_kept = refl;
            name_kept = refl;
            deadline_kept = refl;
            result = ground arith;
          })
        ]
      ]

  pub insert_if_absent-Grows :
      (t : SessionStore)
      → insert_if_absent x nonce s token plaintext kind name deadline ≡ ok t
      → Grows s t
  insert_if_absent-Grows t h = elim (insert_if_absent_cases t h) [
    | inl (same, _) ↦ rw same (Grows-refl s)
    | inr i ↦ rw i.result (record {
      session_key = refl;
      salt = refl;
      tombstoned = refl;
      tool_promoted = refl;
      entries =
          λ j. ground (arith, get-insert token j i.entry s.token_map, text_eq_iff token j, i.fresh);
    })
  ]

  -- A token that is present or tombstoned stays as it is.
  pub insert_if_absent_again :
      (contains s.tombstoned token || is_some (get token s.token_map)) ≡ true
      → insert_if_absent x nonce s token plaintext kind name deadline ≡ ok s
  unfolding insert_if_absent
  insert_if_absent_again h = rw h

module _ (x : Externals) (nonce : Text) (s : SessionStore) where
  pub intern-Grows :
      (entity_type plaintext : Text) (t : SessionStore) (token : Text)
      → intern x nonce s entity_type plaintext ≡ ok (t, token)
      → Grows s t × (token ≡ make_token x entity_type plaintext s.salt)
  unfolding intern
  intern-Grows e p t token h =
      let (t', ins, done) = >>=-ok _ (λ (u : SessionStore). ok (u, make_token x e p s.salt)) h in
      let same : t' ≡ t = ground arith in
      (
        insert_if_absent-Grows x nonce s _ p TokenKind.pii none none t (rw same at ins),
        ground arith,
      )

  pub intern_fixed-Grows :
      (token plaintext : Text) (t : SessionStore)
      → intern_fixed x nonce s token plaintext ≡ ok t
      → Grows s t
  unfolding intern_fixed
  intern_fixed-Grows token p t = insert_if_absent-Grows x nonce s token p TokenKind.pii none none t

  pub intern_broker-Grows :
      (now : ℕ) (name plaintext : Text) (ttl : Option ℕ) (t : SessionStore) (token : Text)
      → intern_broker x now nonce s name plaintext ttl ≡ ok (t, token)
      → Grows s t × (token ≡ make_token x (broker_prefix ++ slugify name) plaintext s.salt)
  unfolding intern_broker
  intern_broker-Grows now n p ttl t token h =
      let tok = make_token x (broker_prefix ++ slugify n) p s.salt in
      let (t', ins, done) = >>=-ok _ (λ (u : SessionStore). ok (u, tok)) h in
      let same : t' ≡ t = ground arith in
      (
        insert_if_absent-Grows x nonce s _ p TokenKind.broker (some n)
            (Option.map (λ (d : ℕ). now + d) ttl) t (rw same at ins),
        ground arith,
      )

  pub intern_local-Grows :
      (name plaintext : Text) (t : SessionStore) (token : Text)
      → intern_local x nonce s name plaintext ≡ ok (t, token)
      → Grows s t × (token ≡ make_token x (slugify name) plaintext s.salt)
  unfolding intern_local
  intern_local-Grows n p t token h =
      let tok = make_token x (slugify n) p s.salt in
      let (t', ins, done) = >>=-ok _ (λ (u : SessionStore). ok (u, tok)) h in
      let same : t' ≡ t = ground arith in
      (
        insert_if_absent-Grows x nonce s _ p TokenKind.local none none t (rw same at ins),
        ground arith,
      )

-- With a cipher that fails on no text, minting succeeds.
module _ (x : Externals) (law : Encrypts x) (nonce : Text) (s : SessionStore) where
  abbrev inserted : Text → Text → TokenKind → Option Text → Option ℕ → Text → SessionStore
  inserted token plaintext kind secret_name expires_at c = record s {
    token_map =
        insert token
          (record {
            original_encrypted = c;
            nonce = nonce;
            kind = kind;
            secret_name = secret_name;
            expires_at = expires_at;
          })
          s.token_map;
  }

  pub insert_if_absent-total :
      (token plaintext : Text) (kind : TokenKind) (secret_name : Option Text)
      (expires_at : Option ℕ)
      → (t : SessionStore) × (insert_if_absent x nonce s token plaintext kind secret_name expires_at
          ≡ ok t)
  unfolding insert_if_absent encrypt
  insert_if_absent-total token plaintext kind secret_name expires_at =
      let (c, e) = law.total s.session_key nonce plaintext in
      elim (Bool-cases (contains s.tombstoned token || is_some (get token s.token_map))) [
        | inl known ↦ (s, rw (insert_if_absent, known) refl)
        | inr new ↦ (
          inserted token plaintext kind secret_name expires_at c,
          rw (insert_if_absent, encrypt, new, e) refl,
        )
      ]

  pub intern-total :
      (entity_type plaintext : Text)
      → (t : SessionStore) × (intern x nonce s entity_type plaintext
          ≡ ok (t, make_token x entity_type plaintext s.salt))
  unfolding intern
  intern-total e p =
      let (t, h) = insert_if_absent-total (make_token x e p s.salt) p TokenKind.pii none none in
      (t, rw (intern, h) refl)

  pub intern_broker-total :
      (now : ℕ) (name plaintext : Text) (ttl : Option ℕ)
      → (t : SessionStore) × (intern_broker x now nonce s name plaintext ttl
          ≡ ok (t, make_token x (broker_prefix ++ slugify name) plaintext s.salt))
  unfolding intern_broker
  intern_broker-total now name p ttl =
      let (t, h) =
        insert_if_absent-total (make_token x (broker_prefix ++ slugify name) p s.salt) p
          TokenKind.broker (some name) (Option.map (λ (d : ℕ). now + d) ttl) in
      (t, rw (intern_broker, h) refl)
