-- ===== src/Tests/Stores.antt =====
-- Instances of the theorems on the session store.
use zlau_de_r.Prelude.{
  ℕ, ◌≡◌, refl, true, false, ltb, if◌then◌else◌, Option, none, some, [], Text, codes,
}
use zlau_de_r.Prelude.{◌++◌, contains, get, text_eq, remove, insert, ◌⊎◌}
use zlau_de_r.Error.{ok}
use zlau_de_r.Token.{make_token, broker_prefix, slugify, slug_chars, slug_char}
use zlau_de_r.Store.{
  SessionStore, StoreEntry, TokenKind, Revealed, with_key_and_salt, intern, intern_broker,
  insert_if_absent,
}
use zlau_de_r.Store.{encrypt, decrypt, reveal, reveal_for, class_of, is_local, delete, tombstone}
use zlau_de_r.Store.Tombstones.{Step, Reach, deleted_never_resolves, resolves_stable}
use zlau_de_r.Store.Validity.{IsValid, Reach-IsValid}
use zlau_de_r.Store.Kinds.{reveal_for_exclusive, broker-reveal}
use zlau_de_r.Store.Reveal.{intern-reveal, intern_broker-reveal_for}
use zlau_de_r.Tests.Toy.{toy, toy-Cipher, toy-Encrypts, empty}

abbrev mail : Text
mail = codes "a@b.c"

abbrev mail_token : Text
mail_token = make_token toy (codes "EMAIL") mail (codes "s")

abbrev pub key_token : Text
key_token = make_token toy (broker_prefix ++ slugify (codes "gh")) (codes "hunter2") (codes "s")

abbrev sealed : Text → TokenKind → Option Text → Option ℕ → StoreEntry
sealed plain kind name deadline = record {
  original_encrypted = plain;
  nonce = codes "n";
  kind = kind;
  secret_name = name;
  expires_at = deadline;
}

-- The empty store after the interning of an address, and that of a broker secret for 9 seconds.
abbrev with_mail : SessionStore
with_mail = record empty { token_map = insert mail_token (sealed mail TokenKind.pii none none) [] }

abbrev pub with_key : SessionStore
with_key = record empty {
  token_map =
      insert key_token (sealed (codes "hunter2") TokenKind.broker (some (codes "gh")) (some 14)) [];
}

abbrev found : Text → Option Text → Revealed
found value name = record { value = value; secret_name = name }

mail-Step : Step toy empty with_mail
unfolding intern insert_if_absent encrypt make_token get insert text_eq
mail-Step = Step.interned (codes "n") (codes "EMAIL") mail mail_token refl

-- The address is deleted and interned again, in vain.
deleted_never_resolves_example :
    (reveal toy 3 (delete with_mail mail_token).0 mail_token ≡ none)
    × (reveal_for toy 3 (delete with_mail mail_token).0 mail_token TokenKind.pii ≡ none)
    × (class_of toy 3 (delete with_mail mail_token).0 mail_token ≡ none)
    × (is_local (delete with_mail mail_token).0 mail_token ≡ false)
unfolding intern insert_if_absent encrypt make_token get insert text_eq delete tombstone remove
deleted_never_resolves_example =
    deleted_never_resolves with_mail mail_token
      (Reach.after (Step.interned (codes "m") (codes "EMAIL") mail mail_token refl) Reach.fresh) 3
      TokenKind.pii

mail_resolves : reveal_for toy 3 with_mail mail_token TokenKind.pii ≡ some (found mail none)
unfolding reveal_for decrypt get insert text_eq make_token
mail_resolves = refl

resolves_stable_example :
    (reveal_for toy 3 (delete with_mail mail_token).0 mail_token TokenKind.pii
      ≡ some (found mail none))
    ⊎ (contains (delete with_mail mail_token).0.tombstoned mail_token ≡ true)
resolves_stable_example =
    resolves_stable 3 mail_token TokenKind.pii (found mail none)
      (Reach.after (Step.deleted mail_token refl) Reach.fresh) mail_resolves

Reach-IsValid_example : IsValid (delete with_mail mail_token).0
unfolding with_key_and_salt
Reach-IsValid_example =
    Reach-IsValid (codes "k") (codes "s")
      (Reach.after (Step.deleted mail_token refl) (Reach.after mail-Step Reach.fresh))

reveal_for_exclusive_example :
    (TokenKind.pii ≡ TokenKind.pii)
    × (class_of toy 3 with_mail mail_token ≡ some (TokenKind.pii, none))
reveal_for_exclusive_example =
    reveal_for_exclusive toy 3 3 with_mail mail_token TokenKind.pii TokenKind.pii (found mail none)
      (found mail none) mail_resolves mail_resolves

broker-reveal_example :
    (reveal toy 8 with_key key_token ≡ none)
    × (reveal_for toy 8 with_key key_token TokenKind.local ≡ none)
unfolding class_of get insert text_eq make_token slugify slug_chars slug_char
broker-reveal_example = broker-reveal toy 7 8 with_key key_token (some (codes "gh")) refl

intern-reveal_example :
    (t : SessionStore) × (intern toy (codes "n") empty (codes "EMAIL") mail ≡ ok (t, mail_token))
    × ((now : ℕ) → reveal toy now t mail_token ≡ some mail)
unfolding get
intern-reveal_example =
    intern-reveal toy toy-Cipher toy-Encrypts (codes "n") empty mail (codes "EMAIL") refl refl

intern_broker-reveal_for_example :
    (t : SessionStore) × (intern_broker toy 5
        (codes "n")
        empty
        (codes "gh")
        (codes "hunter2")
        (some 9)
      ≡ ok (t, key_token))
    × ((now : ℕ)
        → (reveal_for toy now t key_token TokenKind.broker
            ≡ (if ltb now 14 then some (found (codes "hunter2") (some (codes "gh"))) else none))
          × (reveal toy now t key_token ≡ none))
unfolding get
intern_broker-reveal_for_example =
    intern_broker-reveal_for toy toy-Cipher toy-Encrypts (codes "n") empty (codes "hunter2") 5
      (codes "gh") 9 refl refl
