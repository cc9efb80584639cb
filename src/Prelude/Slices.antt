-- ===== src/Prelude/Slices.antt =====
-- Cutting a list at positions, and putting it together again.
use Prim.Native.Nat.{ℕ, zero, suc, ◌≤◌}
use mathlib.Core.Path.{◌≡◌, refl, sym, ap, ◌∙◌}
use mathlib.Core.List.{List, [], ◌∷◌, ◌++◌}
use native.Mathlib.Omega.{arith}
use zlau_de_r.Prelude.Lists.{length, take, drop, take-append-drop}

module _ {ℓ} {A : Type ℓ} where
  pub take-take : (t : List A) (p s : ℕ) → p ≤ s → take p (take s t) ≡ take p t
  take-take t zero s h = refl
  take-take t (suc p) zero h = absurd (omega arith)
  take-take [] (suc p) (suc s) h = refl
  take-take (c ∷ t) (suc p) (suc s) h = ap (◌∷◌ c) (take-take t p s (omega arith))

  pub drop_split : (t : List A) (p s : ℕ) → p ≤ s → drop p t ≡ drop p (take s t) ++ drop s t
  drop_split t zero s h = sym (take-append-drop s t)
  drop_split t (suc p) zero h = absurd (omega arith)
  drop_split [] (suc p) (suc s) h = refl
  drop_split (c ∷ t) (suc p) (suc s) h = drop_split t p s (omega arith)

  pub take_split : (t : List A) (p s : ℕ) → p ≤ s → take s t ≡ take p t ++ drop p (take s t)
  take_split t p s h =
      sym (take-append-drop p (take s t))
      ∙ ap (λ (u : List A). u ++ drop p (take s t)) (take-take t p s h)

  pub take_prefix :
      (t m : List A) (s e : ℕ) → s ≤ e → e ≤ length t → take s (take e t ++ m) ≡ take s t
  take_prefix t m zero e h l = refl
  take_prefix t m (suc s) zero h l = absurd (omega arith)
  take_prefix [] m (suc s) (suc e) h l = absurd (omega arith)
  take_prefix (c ∷ t) m (suc s) (suc e) h l =
      ap (◌∷◌ c) (take_prefix t m s e (omega arith) (omega arith))

  pub drop_prefix : (t m : List A) (e : ℕ) → e ≤ length t → drop e (take e t ++ m) ≡ m
  drop_prefix t m zero l = refl
  drop_prefix [] m (suc e) l = absurd (omega arith)
  drop_prefix (c ∷ t) m (suc e) l = drop_prefix t m e (omega arith)
