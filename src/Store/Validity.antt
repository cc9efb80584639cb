-- ===== src/Store/Validity.antt =====
-- The invariant of the stores that a session reaches.
use zlau_de_r.Prelude.{◌≡◌, refl, ◌⊎◌, inl, inr, true, arith}
use zlau_de_r.Prelude.{none, ◌∷◌, Text, contains, get}
use zlau_de_r.Prelude.{text_eq_iff, get-remove, Bool-cases}
use zlau_de_r.Externals.{Externals}
use zlau_de_r.Store.{SessionStore}
use zlau_de_r.Store.{promote, is_local, delete, tombstone}
use zlau_de_r.Store.{with_key_and_salt}
use zlau_de_r.Store.Entries.{Grows, intern-Grows, intern_fixed-Grows, intern_broker-Grows}
use zlau_de_r.Store.Entries.{intern_local-Grows}
use zlau_de_r.Store.Tombstones.{
  Step, Reach, interned, fixed, brokered, localized, promoted, deleted, buried, fresh, after,
}

-- No token is both tombstoned and in the map, and a promoted token is an owner-reveal token or was
-- deleted since.
pub record IsValid (s : SessionStore) : Type 0 where
  pub apart : (j : Text) → contains s.tombstoned j ≡ true → get j s.token_map ≡ none
  pub promotable :
      (j : Text)
      → contains s.tool_promoted j ≡ true
      → (is_local s j ≡ true) ⊎ (contains s.tombstoned j ≡ true)

IsValid-start : (key salt : Text) → IsValid (with_key_and_salt key salt)
unfolding with_key_and_salt get
IsValid-start key salt = record { apart = λ j d. refl; promotable = λ j p. cc }

is_local_cong :
    (s t : SessionStore) (j : Text)
    → get j t.token_map ≡ get j s.token_map
    → is_local t j ≡ is_local s j
unfolding is_local
is_local_cong s t j e = rw (is_local, e)

Grows-IsValid : (s t : SessionStore) → Grows s t → IsValid s → IsValid t
unfolding is_local
Grows-IsValid s t g v = record {
  apart = λ j d. let d' = rw g.tombstoned at d in ground (arith, g.entries j, v.apart j);
  promotable = λ j p.
      let p' = rw g.tool_promoted at p in
      let same = is_local_cong s t j in
      rw g.tombstoned (ground (arith, g.entries j, v.promotable j, same));
}

promote-IsValid : (s : SessionStore) (k : Text) → IsValid s → IsValid (promote s k)
unfolding promote
promote-IsValid s k v = elim (Bool-cases (is_local s k)) [
  | inl l ↦
      rw (promote, l)
        (record {
          apart = v.apart;
          promotable = λ j p. ground (
            arith,
            text_eq_iff k j,
            v.promotable j,
            is_local_cong s (record s { tool_promoted = k ∷ s.tool_promoted }) j,
          );
        })
  | inr l ↦ rw (promote, l) v
]

tombstone-IsValid : (s : SessionStore) (k : Text) → IsValid s → IsValid (tombstone s k)
unfolding tombstone
tombstone-IsValid s k v = record {
  apart = λ j d. ground (arith, get-remove k j s.token_map, v.apart j);
  promotable = λ j p.
      ground (arith, get-remove k j s.token_map, v.promotable j, is_local_cong s (tombstone s k) j);
}

Step-IsValid : {x : Externals} {s t : SessionStore} → Step x s t → IsValid s → IsValid t
unfolding delete tombstone
Step-IsValid {x} {s} {t} (interned n e p k h) v =
    Grows-IsValid s t (intern-Grows x n s e p t k h).0 v
Step-IsValid {x} {s} {t} (fixed n k p h) v = Grows-IsValid s t (intern_fixed-Grows x n s k p t h) v
Step-IsValid {x} {s} {t} (brokered now n m p ttl k h) v =
    Grows-IsValid s t (intern_broker-Grows x n s now m p ttl t k h).0 v
Step-IsValid {x} {s} {t} (localized n m p k h) v =
    Grows-IsValid s t (intern_local-Grows x n s m p t k h).0 v
Step-IsValid {s = s} (promoted k e) v = rw e (promote-IsValid s k v)
Step-IsValid {s = s} (deleted k e) v = rw e (tombstone-IsValid s k v)
Step-IsValid {s = s} (buried k e) v = rw e (tombstone-IsValid s k v)

-- Every store that a fresh session reaches is valid: no token is both tombstoned and in the map,
-- and every promoted token is an owner-reveal token, or was deleted since its promotion.
pub Reach-IsValid :
    {x : Externals} (key salt : Text) {t : SessionStore}
    → Reach x (with_key_and_salt key salt) t
    → IsValid t
Reach-IsValid key salt fresh = IsValid-start key salt
Reach-IsValid key salt (after st r) = Step-IsValid st (Reach-IsValid key salt r)
