-- ===== src/Prelude/Sort.antt =====
-- `slice::sort_by`: the stable sort by a comparison, as insertion sort, and its laws.
use Prim.Native.Nat.{Ordering}
use mathlib.Core.Path.{◌≡◌}
use mathlib.Core.Logic.{◌⊎◌, inl, inr}
use mathlib.Core.Bool.{Bool, true, false}
use mathlib.Core.List.{List, [], ◌∷◌}
use native.Mathlib.Omega.{arith}
use zlau_de_r.Prelude.Tests.{if◌then◌else◌, Bool-cases}
use zlau_de_r.Prelude.Lists.{◌∈◌}

-- `Ordering::then`.
abbrev pub cmp_then : Ordering → Ordering → Ordering
cmp_then Ordering.eq o = o
cmp_then Ordering.lt o = Ordering.lt
cmp_then Ordering.gt o = Ordering.gt

abbrev pub not_gt : Ordering → Bool
not_gt Ordering.gt = false
not_gt _ = true

module _ {A : Type 0} (cmp : A → A → Ordering) where
  -- An element goes before the first one that it need not come after.
  unfoldable pub insert_by : A → List A → List A
  insert_by x [] = x ∷ []
  insert_by x (y ∷ ys) = if not_gt (cmp x y) then x ∷ y ∷ ys else y ∷ insert_by x ys

  unfoldable pub sort_by : List A → List A
  unfolding insert_by
  sort_by [] = []
  sort_by (x ∷ xs) = insert_by x (sort_by xs)

module _ {A : Type 0} (cmp : A → A → Ordering) where
  pub mem-insert_by : (a x : A) (ys : List A) → a ∈ insert_by cmp x ys → (a ≡ x) ⊎ (a ∈ ys)
  unfolding insert_by
  mem-insert_by a x [] h = ground arith
  mem-insert_by a x (y ∷ ys) h = elim (Bool-cases (not_gt (cmp x y))) [
    | inl b ↦ ground arith
    | inr b ↦ ground (arith, mem-insert_by a x ys)
  ]

  insert_by-mem : (a x : A) (ys : List A) → (a ≡ x) ⊎ (a ∈ ys) → a ∈ insert_by cmp x ys
  unfolding insert_by
  insert_by-mem a x [] h = ground arith
  insert_by-mem a x (y ∷ ys) h = elim (Bool-cases (not_gt (cmp x y))) [
    | inl b ↦ ground arith
    | inr b ↦ ground (arith, insert_by-mem a x ys)
  ]

  pub mem-sort_by : (a : A) (xs : List A) → a ∈ sort_by cmp xs → a ∈ xs
  unfolding sort_by
  mem-sort_by a [] h = h
  mem-sort_by a (x ∷ xs) h = ground (arith, mem-insert_by a x (sort_by cmp xs), mem-sort_by a xs)

  pub sort_by-mem : (a : A) (xs : List A) → a ∈ xs → a ∈ sort_by cmp xs
  unfolding sort_by
  sort_by-mem a [] h = h
  sort_by-mem a (x ∷ xs) h = insert_by-mem a x (sort_by cmp xs) (ground (arith, sort_by-mem a xs))

  -- No element must come after a later one.
  abbrev pub IsSorted : List A → Type 0
  IsSorted [] = Unit
  IsSorted (x ∷ xs) = ((y : A) → y ∈ xs → not_gt (cmp x y) ≡ true) × IsSorted xs

  module _ (total : (a b : A) → not_gt (cmp a b) ≡ false → not_gt (cmp b a) ≡ true)
      (trans : (a b c : A)
        → not_gt (cmp a b) ≡ true
        → not_gt (cmp b c) ≡ true
        → not_gt (cmp a c) ≡ true) where
    insert_by-IsSorted : (x : A) (ys : List A) → IsSorted ys → IsSorted (insert_by cmp x ys)
    unfolding insert_by
    insert_by-IsSorted x [] h = (λ y m. absurd m, tt)
    insert_by-IsSorted x (y ∷ ys) h = elim (Bool-cases (not_gt (cmp x y))) [
      | inl b ↦ rw b (λ z. elim [ inl e ↦ rw e b | inr m ↦ trans x y z b (h.0 z m) ], h)
      | inr b ↦ rw b (
        λ z m. elim (mem-insert_by z x ys m) [ inl e ↦ rw e (total x y b) | inr k ↦ h.0 z k ],
        insert_by-IsSorted x ys h.1,
      )
    ]

    pub sort_by-IsSorted : (xs : List A) → IsSorted (sort_by cmp xs)
    unfolding sort_by
    sort_by-IsSorted [] = tt
    sort_by-IsSorted (x ∷ xs) = insert_by-IsSorted x (sort_by cmp xs) (sort_by-IsSorted xs)
