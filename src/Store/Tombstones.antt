-- ===== src/Store/Tombstones.antt =====
-- Sequences of operations on one store: entries are stable, and what was deleted stays deleted.
use zlau_de_r.Prelude.{ℕ, ◌≡◌, refl, sym, ◌∙◌, ◌⊎◌, inl, inr, true, false, arith}
use zlau_de_r.Prelude.{Option, none, some, Text, contains, get}
use zlau_de_r.Prelude.{text_eq_refl, get-remove, Option-cases}
use zlau_de_r.Externals.{Externals}
use zlau_de_r.Error.{ok}
use zlau_de_r.Store.{SessionStore, StoreEntry, TokenKind, Revealed, intern, intern_fixed}
use zlau_de_r.Store.{intern_broker, intern_local, promote, is_local, delete, tombstone, decrypt}
use zlau_de_r.Store.{reveal, reveal_for, class_of}
use zlau_de_r.Store.Entries.{Grows, intern-Grows, intern_fixed-Grows, intern_broker-Grows}
use zlau_de_r.Store.Entries.{intern_local-Grows}

-- One successful call of an operation that changes the store, with any clock and nonce.
pub data Step (x : Externals) (s t : SessionStore) : Type 0 where
  interned : (nonce e p token : Text) → intern x nonce s e p ≡ ok (t, token) → Step x s t
  fixed : (nonce token p : Text) → intern_fixed x nonce s token p ≡ ok t → Step x s t
  brokered :
      (now : ℕ) (nonce n p : Text) (ttl : Option ℕ) (token : Text)
      → intern_broker x now nonce s n p ttl ≡ ok (t, token)
      → Step x s t
  localized : (nonce n p token : Text) → intern_local x nonce s n p ≡ ok (t, token) → Step x s t
  promoted : (token : Text) → t ≡ promote s token → Step x s t
  deleted : (token : Text) → t ≡ (delete s token).0 → Step x s t
  buried : (token : Text) → t ≡ tombstone s token → Step x s t

pub data Reach (x : Externals) (s : SessionStore) : SessionStore → Type 0 where
  fresh : Reach x s s
  after : {mid t : SessionStore} → Step x mid t → Reach x s mid → Reach x s t

-- What a step may do to one token.
pub record Keeps (s t : SessionStore) (j : Text) : Type 0 where
  pub session_key : t.session_key ≡ s.session_key
  pub dead : contains s.tombstoned j ≡ true → contains t.tombstoned j ≡ true
  pub entry :
      (get j t.token_map ≡ get j s.token_map)
      ⊎ (get j s.token_map ≡ none) × (contains s.tombstoned j ≡ false)
      ⊎ (get j t.token_map ≡ none) × (contains t.tombstoned j ≡ true)

Grows-Keeps : (s t : SessionStore) (j : Text) → Grows s t → Keeps s t j
Grows-Keeps s t j g = record {
  session_key = g.session_key;
  dead = λ d. rw g.tombstoned d;
  entry = ground (arith, g.entries j);
}

promote-Keeps : (s : SessionStore) (k j : Text) → Keeps s (promote s k) j
unfolding promote
promote-Keeps s k j = record {
  session_key = ground arith;
  dead = ground arith;
  entry = ground arith;
}

tombstone-Keeps : (s : SessionStore) (k j : Text) → Keeps s (tombstone s k) j
unfolding tombstone
tombstone-Keeps s k j = record {
  session_key = refl;
  dead = ground arith;
  entry = ground (arith, get-remove k j s.token_map);
}

Step-Keeps : {x : Externals} {s t : SessionStore} (j : Text) → Step x s t → Keeps s t j
unfolding delete tombstone
Step-Keeps {x} {s} {t} j (interned n e p k h) = Grows-Keeps s t j (intern-Grows x n s e p t k h).0
Step-Keeps {x} {s} {t} j (fixed n k p h) = Grows-Keeps s t j (intern_fixed-Grows x n s k p t h)
Step-Keeps {x} {s} {t} j (brokered now n m p ttl k h) =
    Grows-Keeps s t j (intern_broker-Grows x n s now m p ttl t k h).0
Step-Keeps {x} {s} {t} j (localized n m p k h) =
    Grows-Keeps s t j (intern_local-Grows x n s m p t k h).0
Step-Keeps {s = s} j (promoted k e) = rw e (promote-Keeps s k j)
Step-Keeps {s = s} j (deleted k e) = rw e (tombstone-Keeps s k j)
Step-Keeps {s = s} j (buried k e) = rw e (tombstone-Keeps s k j)

pub Reach-dead :
    {x : Externals} {s t : SessionStore} (j : Text)
    → Reach x s t
    → contains s.tombstoned j ≡ true
    → get j s.token_map ≡ none
    → (contains t.tombstoned j ≡ true) × (get j t.token_map ≡ none)
Reach-dead j fresh d n = (d, n)
Reach-dead j (after st r) d n =
    let (d', n') = Reach-dead j r d n in
    let k = Step-Keeps j st in (k.dead d', ground (arith, k.entry))

-- A deleted token resolves by no path and has no class, whatever interns, promotions, deletions and
-- tombstones follow, the interning of the same value included.
pub deleted_never_resolves :
    {x : Externals} (s : SessionStore) {t : SessionStore} (token : Text)
    → Reach x (delete s token).0 t
    → (now : ℕ) (want : TokenKind)
    → (reveal x now t token ≡ none)
      × (reveal_for x now t token want ≡ none)
      × (class_of x now t token ≡ none)
      × (is_local t token ≡ false)
unfolding delete reveal reveal_for class_of is_local
deleted_never_resolves {x} s {t} token r now want =
    let gone =
      (Reach-dead token r (rw (text_eq_refl token)) (rw (get-remove, text_eq_refl token))).1 in
    (rw (reveal, gone), rw (reveal_for, gone), rw (class_of, gone), rw (is_local, gone))

Reach-entry :
    {x : Externals} {s t : SessionStore} {e : StoreEntry} (j : Text)
    → Reach x s t
    → get j s.token_map ≡ some e
    → (t.session_key ≡ s.session_key)
      × ((get j t.token_map ≡ some e) ⊎ (contains t.tombstoned j ≡ true))
Reach-entry j fresh h = (refl, inl h)
Reach-entry {e = e} j (after {t} st r) h =
    let (key, kept) = Reach-entry j r h in
    let k = Step-Keeps j st in (k.session_key ∙ key, ground (arith, k.entry, k.dead, kept))

decrypt_key :
    (x : Externals) (s t : SessionStore) (ct nonce : Text)
    → t.session_key ≡ s.session_key
    → decrypt x t ct nonce ≡ decrypt x s ct nonce
unfolding decrypt
decrypt_key x s t ct nonce e = rw (e, decrypt)

-- Resolution reads the key and the entry of the token, and nothing else of the store.
pub reveal_for_cong :
    (x : Externals) (s t : SessionStore) (now : ℕ) (token : Text) (want : TokenKind)
    → t.session_key ≡ s.session_key
    → get token t.token_map ≡ get token s.token_map
    → reveal_for x now t token want ≡ reveal_for x now s token want
unfolding reveal_for
reveal_for_cong x s t now token want key same = elim (Option-cases (get token s.token_map)) [
  | inl e ↦ rw (reveal_for, same, e)
  | inr (e, p) ↦ ground (arith, decrypt_key x s t e.original_encrypted e.nonce key)
]

-- A token that resolves at some kind, to a value and a registered name, resolves to the same at the
-- same time of day after any operations on the store, unless it was tombstoned.
pub resolves_stable :
    {x : Externals} {s t : SessionStore} (now : ℕ) (token : Text) (want : TokenKind) (r : Revealed)
    → Reach x s t
    → reveal_for x now s token want ≡ some r
    → (reveal_for x now t token want ≡ some r) ⊎ (contains t.tombstoned token ≡ true)
unfolding reveal_for
resolves_stable {x} {s} {t} now token want r reach h = elim (Option-cases (get token s.token_map)) [
  | inl no_entry ↦ absurd (ground arith)
  | inr (e, present) ↦
      let (key, kept) = Reach-entry token reach present in
      elim kept [
        | inr dead ↦ inr dead
        | inl same ↦ inl (reveal_for_cong x s t now token want key (same ∙ sym present) ∙ h)
      ]
]
