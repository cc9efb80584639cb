-- ===== src/Prelude/Maps.antt =====
-- Maps keyed by numbers, as association lists.
use Prim.Native.Nat.{ℕ}
use mathlib.Core.Path.{◌≡◌}
use mathlib.Core.Option.{Option, none, some}
use mathlib.Core.List.{List, [], ◌∷◌}
use native.Mathlib.Omega.{arith}
use zlau_de_r.Prelude.Tests.{◌==◌, if◌then◌else◌}

abbrev pub lookup {ℓ} : {A : Type ℓ} → ℕ → List (ℕ × A) → Option A
lookup k [] = none
lookup k ((j, v) ∷ m) = let rest = lookup k m in if j == k then some v else rest

abbrev pub remove {ℓ} : {A : Type ℓ} → ℕ → List (ℕ × A) → List (ℕ × A)
remove k [] = []
remove k ((j, v) ∷ m) = let rest = remove k m in if j == k then rest else (j, v) ∷ rest

abbrev pub insert {ℓ} : {A : Type ℓ} → ℕ → A → List (ℕ × A) → List (ℕ × A)
insert k v m = (k, v) ∷ remove k m

pub lookup-remove {ℓ} :
    {A : Type ℓ} (j k : ℕ) (m : List (ℕ × A))
    → lookup j (remove k m) ≡ (if k == j then none else lookup j m)
lookup-remove j k [] = ground arith
lookup-remove j k ((i, v) ∷ m) = ground (arith, lookup-remove j k m)

pub lookup-insert {ℓ} :
    {A : Type ℓ} (j k : ℕ) (v : A) (m : List (ℕ × A))
    → lookup j (insert k v m) ≡ (if k == j then some v else lookup j m)
lookup-insert j k v m = ground (arith, lookup-remove j k m)
