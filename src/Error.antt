-- ===== src/Error.antt =====
-- `EngineError` (crates/zlauder-engine/src/error.rs), without the text of its messages, and the
-- result type of the fallible operations.
use zlau_de_r.Prelude.{◌≡◌, refl, ap, Option, none, some}

pub data EngineError : Type 0 where
  encryption_failed decryption_failed wrong_direction detection_failed : EngineError
  bad_custom_regex ml invalid_secret : EngineError

-- `Result<A, EngineError>`.
pub data Result {ℓ} (A : Type ℓ) : Type ℓ where
  err : EngineError → Result A
  ok : A → Result A

-- `Result::ok`.
abbrev pub ok_option {ℓ} : {A : Type ℓ} → Result A → Option A
ok_option (err e) = none
ok_option (ok a) = some a

-- The `?` operator.
infixl 5 ◌>>=◌
abbrev pub ◌>>=◌ {ℓ κ} : {A : Type ℓ} {B : Type κ} → Result A → (A → Result B) → Result B
err e >>= next = err e
ok a >>= next = next a

module _ {ℓ κ} {A : Type ℓ} {B : Type κ} where
  -- What a `?` that did not return early has seen.
  pub >>=-ok :
      (m : Result A) (next : A → Result B) {b : B}
      → (m >>= next) ≡ ok b
      → (a : A) × (m ≡ ok a) × (next a ≡ ok b)
  >>=-ok (err e) next h = cc
  >>=-ok (ok a) next h = (a, refl, h)

pub ok_injective {ℓ} : {A : Type ℓ} (a b : A) → ok a ≡ ok b → a ≡ b
ok_injective {A = A} a b h = ap (λ (r : Result A). elim r [ ok c ↦ c | err e ↦ a ]) h
