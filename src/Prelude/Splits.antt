-- ===== src/Prelude/Splits.antt =====
-- Splitting a text at the first occurrence of a pattern.
use Prim.Native.Nat.{ℕ, ◌≤◌}
use mathlib.Core.Path.{◌≡◌, refl, sym, ap, ◌∙◌}
use mathlib.Core.Logic.{inl, inr}
use mathlib.Core.Option.{none, some}
use mathlib.Core.List.{[], ◌∷◌, ◌++◌}
use native.Mathlib.Omega.{arith}
use zlau_de_r.Prelude.Tests.{◌==◌, Bool-cases, Option-cases}
use zlau_de_r.Prelude.Lists.{length, drop}
use zlau_de_r.Prelude.Strings.{Text, split_once, strip_prefix}

pub strip_prefix-eq : (pat t after : Text) → strip_prefix pat t ≡ some after → t ≡ pat ++ after
unfolding strip_prefix
strip_prefix-eq [] t after h = ground arith
strip_prefix-eq (p ∷ ps) [] after h = cc
strip_prefix-eq (p ∷ ps) (c ∷ t) after h = elim (Bool-cases (p == c)) [
  | inl e ↦ ground (arith, strip_prefix-eq ps t after)
  | inr e ↦ absurd (ground arith)
]

pub strip_prefix-append :
    (pat u v after : Text)
    → strip_prefix pat u ≡ some after
    → strip_prefix pat (u ++ v) ≡ some (after ++ v)
unfolding strip_prefix
strip_prefix-append [] u v after h = ground arith
strip_prefix-append (p ∷ ps) [] v after h = cc
strip_prefix-append (p ∷ ps) (c ∷ u) v after h = ground (arith, strip_prefix-append ps u v after)

pub split_once-eq :
    (pat t before after : Text)
    → split_once pat t ≡ some (before, after)
    → t ≡ before ++ (pat ++ after)
unfolding split_once
split_once-eq pat [] before after h = elim (Option-cases (strip_prefix pat [])) [
  | inl e ↦ absurd (ground arith)
  | inr (a, e) ↦ ground (arith, strip_prefix-eq pat [] a e)
]
split_once-eq pat (c ∷ t) before after h = elim (Option-cases (strip_prefix pat (c ∷ t))) [
  | inr (a, e) ↦ ground (arith, strip_prefix-eq pat (c ∷ t) a e)
  | inl e ↦ elim (Option-cases (split_once pat t)) [
    | inl f ↦ absurd (ground arith)
    | inr ((b, a), f) ↦
        let same : c ∷ b ≡ before = ground arith in
        let rest : a ≡ after = ground arith in
        rw (← same, ← rest) (ap (◌∷◌ c) (split_once-eq pat t b a f))
  ]
]

pub split_once-first :
    (p : ℕ) (pat t before after : Text)
    → split_once (p ∷ pat) t ≡ some (before, after)
    → split_once (p ∷ pat) before ≡ none
unfolding split_once strip_prefix
split_once-first p pat [] before after h = cc
split_once-first p pat (c ∷ t) before after h =
    elim (Option-cases (strip_prefix (p ∷ pat) (c ∷ t))) [
      | inr (a, e) ↦ let none_left : [] ≡ before = ground arith in rw (← none_left) refl
      | inl e ↦ elim (Option-cases (split_once (p ∷ pat) t)) [
        | inl f ↦ absurd (ground arith)
        | inr ((b, a), f) ↦
            let same : c ∷ b ≡ before = ground arith in
            let later = split_once-first p pat t b a f in
            let whole : c ∷ t ≡ (c ∷ b) ++ ((p ∷ pat) ++ a) =
              ap (◌∷◌ c) (split_once-eq (p ∷ pat) t b a f) in
            elim (Option-cases (strip_prefix (p ∷ pat) (c ∷ b))) [
              | inr (r, found) ↦
                  let earlier = strip_prefix-append (p ∷ pat) (c ∷ b) ((p ∷ pat) ++ a) r found in
                  let clash = sym e ∙ ap (strip_prefix (p ∷ pat)) whole ∙ earlier in absurd (cc)
              | inl clear ↦ rw (← same) (rw (split_once, clear, later) refl)
            ]
      ]
    ]

pub strip_prefix_self : (pat t : Text) → strip_prefix pat (pat ++ t) ≡ some t
unfolding strip_prefix
strip_prefix_self [] t = refl
strip_prefix_self (p ∷ ps) t = ground (arith, strip_prefix_self ps t)

-- What occurs is found, no later than it occurs.
pub split_once-found :
    (p : ℕ) (pat before after : Text)
    → (b : Text) × (a : Text) × (split_once (p ∷ pat) (before ++ ((p ∷ pat) ++ after))
        ≡ some (b, a))
      × (length b ≤ length before)
unfolding split_once
split_once-found p pat [] after =
    ([], after, rw (split_once, strip_prefix_self (p ∷ pat) after) refl, omega arith)
split_once-found p pat (c ∷ before) after =
    let t = before ++ ((p ∷ pat) ++ after) in
    let (b, a, found, le) = split_once-found p pat before after in
    elim (Option-cases (strip_prefix (p ∷ pat) (c ∷ t))) [
      | inr (r, e) ↦ ([], r, rw (split_once, e) refl, omega arith)
      | inl e ↦ (c ∷ b, a, rw (split_once, e, found) refl, omega arith)
    ]

-- Of two splits of one text, the earlier one's second part ends in the later one's.
pub split_suffix :
    (l b r a : Text) → l ++ r ≡ b ++ a → length b ≤ length l → (m : Text) × (a ≡ m ++ r)
split_suffix l [] r a e h = (l, sym e)
split_suffix [] (c ∷ b) r a e h = absurd (omega arith)
split_suffix (d ∷ l) (c ∷ b) r a e h = split_suffix l b r a (ap (drop 1) e) (omega arith)
