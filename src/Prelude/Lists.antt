-- ===== src/Prelude/Lists.antt =====
-- Lists measured and cut by native numbers, Boolean searches, and predicates by recursion.
use Prim.Native.Nat.{ℕ, zero, suc, ◌+◌, ◌-◌, min}
use mathlib.Core.Path.{◌≡◌, refl, ap}
use mathlib.Core.Logic.{◌⊎◌, inl, inr}
use mathlib.Core.Bool.{Bool, true, false, ◌&&◌, ◌||◌}
use mathlib.Core.List.{List, [], ◌∷◌, ◌++◌}
use mathlib.Core.Option.{Option, none, some}
use native.Mathlib.Omega.{arith}
use zlau_de_r.Prelude.Tests.{if◌then◌else◌, Bool-cases}

module _ {ℓ} {A : Type ℓ} where
  abbrev pub length : List A → ℕ
  length [] = 0
  length (x ∷ xs) = suc (length xs)

  abbrev pub take : ℕ → List A → List A
  take zero xs = []
  take (suc n) [] = []
  take (suc n) (x ∷ xs) = x ∷ take n xs

  abbrev pub drop : ℕ → List A → List A
  drop zero xs = xs
  drop (suc n) [] = []
  drop (suc n) (x ∷ xs) = drop n xs

  abbrev pub replicate : ℕ → A → List A
  replicate zero a = []
  replicate (suc n) a = a ∷ replicate n a

  abbrev pub any : (A → Bool) → List A → Bool
  any p [] = false
  any p (x ∷ xs) = p x || any p xs

  abbrev pub all : (A → Bool) → List A → Bool
  all p [] = true
  all p (x ∷ xs) = p x && all p xs

  abbrev pub find : (A → Bool) → List A → Option A
  find p [] = none
  find p (x ∷ xs) = if p x then some x else find p xs

  -- `Vec::retain` and `Iterator::filter`.
  abbrev pub retain : (A → Bool) → List A → List A
  retain p [] = []
  retain p (x ∷ xs) = if p x then x ∷ retain p xs else retain p xs

  pub length-append : (xs ys : List A) → length (xs ++ ys) ≡ length xs + length ys
  length-append [] ys = omega arith
  length-append (x ∷ xs) ys = omega (arith, length-append xs ys)

  pub take-append-drop : (n : ℕ) (xs : List A) → take n xs ++ drop n xs ≡ xs
  take-append-drop zero xs = refl
  take-append-drop (suc n) [] = refl
  take-append-drop (suc n) (x ∷ xs) = ap (◌∷◌ x) (take-append-drop n xs)

  pub drop-append : (xs ys : List A) → drop (length xs) (xs ++ ys) ≡ ys
  drop-append [] ys = refl
  drop-append (x ∷ xs) ys = drop-append xs ys

  pub take-append : (xs ys : List A) → take (length xs) (xs ++ ys) ≡ xs
  take-append [] ys = refl
  take-append (x ∷ xs) ys = ap (◌∷◌ x) (take-append xs ys)

  pub drop-append_suc : (xs ys : List A) (y : A) → drop (suc (length xs)) (xs ++ (y ∷ ys)) ≡ ys
  drop-append_suc [] ys y = refl
  drop-append_suc (x ∷ xs) ys y = drop-append_suc xs ys y

  pub all-append :
      (p : A → Bool) (xs ys : List A) → all p xs ≡ true → all p ys ≡ true → all p (xs ++ ys) ≡ true
  all-append p [] ys h k = k
  all-append p (x ∷ xs) ys h k = ground (arith, all-append p xs ys)

  pub all-take : (p : A → Bool) (n : ℕ) (xs : List A) → all p xs ≡ true → all p (take n xs) ≡ true
  all-take p zero xs h = refl
  all-take p (suc n) [] h = refl
  all-take p (suc n) (x ∷ xs) h = ground (arith, all-take p n xs)

  pub length-take : (n : ℕ) (xs : List A) → length (take n xs) ≡ min n (length xs)
  length-take zero xs = omega arith
  length-take (suc n) [] = omega arith
  length-take (suc n) (x ∷ xs) = omega (arith, length-take n xs)

  pub length-drop : (n : ℕ) (xs : List A) → length (drop n xs) ≡ length xs - n
  length-drop zero xs = omega arith
  length-drop (suc n) [] = omega arith
  length-drop (suc n) (x ∷ xs) = omega (arith, length-drop n xs)

  pub length-replicate : (n : ℕ) (a : A) → length (replicate n a) ≡ n
  length-replicate zero a = refl
  length-replicate (suc n) a = ap suc (length-replicate n a)

-- A predicate on every element; it computes to a tuple.
abbrev pub All {ℓ κ} : {A : Type ℓ} → (A → Type κ) → List A → Type κ
All P [] = Unit
All P (x ∷ xs) = P x × All P xs

pub All-append {ℓ κ} :
    {A : Type ℓ} (P : A → Type κ) (xs ys : List A) → All P xs → All P ys → All P (xs ++ ys)
All-append P [] ys hx hy = hy
All-append P (x ∷ xs) ys hx hy = (hx.0, All-append P xs ys hx.1 hy)

pub All-split {ℓ κ} :
    {A : Type ℓ} (P : A → Type κ) (xs ys : List A) → All P (xs ++ ys) → All P xs × All P ys
All-split P [] ys h = (tt, h)
All-split P (x ∷ xs) ys h = let (first, last) = All-split P xs ys h.1 in ((h.0, first), last)

pub All-map {ℓ κ} :
    {A : Type ℓ} (P Q : A → Type κ) (f : (a : A) → P a → Q a) (xs : List A) → All P xs → All Q xs
All-map P Q f [] h = tt
All-map P Q f (x ∷ xs) h = (f x h.0, All-map P Q f xs h.1)

module _ {A : Type 0} where
  -- Membership that keeps the position.
  infix 40 ◌∈◌
  abbrev pub ◌∈◌ : A → List A → Type 0
  a ∈ [] = ⊥
  a ∈ (x ∷ xs) = (a ≡ x) ⊎ (a ∈ xs)

  pub mem-retain : (p : A → Bool) (a : A) (xs : List A) → a ∈ retain p xs → (a ∈ xs) × (p a ≡ true)
  mem-retain p a [] h = absurd h
  mem-retain p a (x ∷ xs) h = elim (Bool-cases (p x)) [
    | inl t ↦ ground (arith, mem-retain p a xs)
    | inr t ↦ ground (arith, mem-retain p a xs)
  ]

  pub retain-mem : (p : A → Bool) (a : A) (xs : List A) → a ∈ xs → p a ≡ true → a ∈ retain p xs
  retain-mem p a [] h t = absurd h
  retain-mem p a (x ∷ xs) h t = ground (arith, retain-mem p a xs)

  pub any_mem : (p : A → Bool) (xs : List A) → any p xs ≡ true → (a : A) × (a ∈ xs) × (p a ≡ true)
  any_mem p [] h = cc
  any_mem p (x ∷ xs) h = elim (Bool-cases (p x)) [
    | inl t ↦ (x, inl refl, t)
    | inr t ↦ let (a, m, e) = any_mem p xs (ground arith) in (a, inr m, e)
  ]

  pub mem_any : (p : A → Bool) (a : A) (xs : List A) → a ∈ xs → p a ≡ true → any p xs ≡ true
  mem_any p a [] h t = absurd h
  mem_any p a (x ∷ xs) h t = ground (arith, mem_any p a xs)

  pub All_mem : (P : A → Type 0) (a : A) (xs : List A) → All P xs → a ∈ xs → P a
  All_mem P a [] h m = absurd m
  All_mem P a (x ∷ xs) h (inl e) = rw e h.0
  All_mem P a (x ∷ xs) h (inr m) = All_mem P a xs h.1 m

  pub mem_All : (P : A → Type 0) (xs : List A) → ((a : A) → a ∈ xs → P a) → All P xs
  mem_All P [] h = tt
  mem_All P (x ∷ xs) h = (h x (inl refl), mem_All P xs (λ a m. h a (inr m)))

  pub mem-snoc : (a d : A) (xs : List A) → a ∈ (xs ++ (d ∷ [])) → (a ∈ xs) ⊎ (a ≡ d)
  mem-snoc a d [] h = ground arith
  mem-snoc a d (k ∷ xs) h = ground (arith, mem-snoc a d xs)

  pub snoc-mem : (a d : A) (xs : List A) → (a ∈ xs) ⊎ (a ≡ d) → a ∈ (xs ++ (d ∷ []))
  snoc-mem a d [] h = ground arith
  snoc-mem a d (k ∷ xs) h = ground (arith, snoc-mem a d xs)
