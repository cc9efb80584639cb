-- ===== src/Prelude/Strings.antt =====
-- A Rust `str` as the list of its UTF-8 bytes, and what the program uses of the standard library
-- on it: comparison, prefixes, ASCII classes, search, and a map with text keys.
use Prim.Native.Char.{code}
use Prim.Native.Nat.{ℕ, zero, suc, ◌+◌, ◌-◌}
use Prim.Native.String.{String}
use mathlib.Core.Path.{◌≡◌, refl}
use mathlib.Core.Bool.{Bool, true, false, ◌&&◌, ◌||◌}
use mathlib.Core.List.{List, [], ◌∷◌, ◌++◌}
use mathlib.Core.Logic.{◌↔◌, ◌≢◌}
use mathlib.Core.Option.{Option, none, some}
use native.Mathlib.Omega.{arith}
use zlau_de_r.Prelude.Tests.{◌==◌, leb, ltb, if◌then◌else◌, is_some}
use zlau_de_r.Prelude.Lists.{length}

abbrev pub Text : Type 0
Text = List ℕ

-- The bytes of an ASCII literal.
abbrev pub codes : String → Text
codes String.[] = []
codes (String.◌∷◌ c s) = code c ∷ codes s

unfoldable pub text_eq : Text → Text → Bool
text_eq [] [] = true
text_eq (x ∷ xs) (y ∷ ys) = x == y && text_eq xs ys
text_eq _ _ = false

pub text_eq_iff : (s t : Text) → (text_eq s t ≡ true) ↔ (s ≡ t)
unfolding text_eq
text_eq_iff [] [] = (λ _. refl, λ _. refl)
text_eq_iff [] (y ∷ ys) = (λ h. cc, λ h. cc)
text_eq_iff (x ∷ xs) [] = (λ h. cc, λ h. cc)
text_eq_iff (x ∷ xs) (y ∷ ys) =
    (λ h. ground (arith, (text_eq_iff xs ys).0), λ h. ground (arith, (text_eq_iff xs ys).1))

pub text_eq_refl : (s : Text) → text_eq s s ≡ true
text_eq_refl s = (text_eq_iff s s).1 refl

pub text_eq_ne : (s t : Text) → s ≢ t → text_eq s t ≡ false
text_eq_ne s t n = ground (arith, (text_eq_iff s t).0)

abbrev pub contains : List Text → Text → Bool
contains [] t = false
contains (s ∷ ss) t = text_eq s t || contains ss t

-- `str::starts_with` and `str::strip_prefix`.
unfoldable pub strip_prefix : Text → Text → Option Text
strip_prefix [] t = some t
strip_prefix (p ∷ ps) [] = none
strip_prefix (p ∷ ps) (c ∷ t) = if p == c then strip_prefix ps t else none

unfoldable pub starts_with : Text → Text → Bool
starts_with [] t = true
starts_with (p ∷ ps) [] = false
starts_with (p ∷ ps) (c ∷ t) = p == c && starts_with ps t

abbrev pub is_upper : ℕ → Bool
is_upper c = leb b'A' c && leb c b'Z'

abbrev pub is_lower : ℕ → Bool
is_lower c = leb b'a' c && leb c b'z'

abbrev pub is_digit : ℕ → Bool
is_digit c = leb b'0' c && leb c b'9'

abbrev pub is_alphanumeric : ℕ → Bool
is_alphanumeric c = is_upper c || is_lower c || is_digit c

-- `char::to_ascii_uppercase` and `char::to_ascii_lowercase`.
abbrev pub to_upper : ℕ → ℕ
to_upper c = if is_lower c then c - 32 else c

abbrev pub to_lower : ℕ → ℕ
to_lower c = if is_upper c then c + 32 else c

-- A map with text keys, as an association list without double keys.
module _ {ℓ} {V : Type ℓ} where
  unfoldable pub get : Text → List (Text × V) → Option V
  get k [] = none
  get k ((j, v) ∷ m) = if text_eq j k then some v else get k m

  unfoldable pub remove : Text → List (Text × V) → List (Text × V)
  remove k [] = []
  remove k ((j, v) ∷ m) = if text_eq j k then remove k m else (j, v) ∷ remove k m

  unfoldable pub insert : Text → V → List (Text × V) → List (Text × V)
  unfolding remove
  insert k v m = (k, v) ∷ remove k m

  pub get-remove :
      (k j : Text) (m : List (Text × V))
      → get j (remove k m) ≡ (if text_eq k j then none else get j m)
  unfolding get remove
  get-remove k j [] = ground arith
  get-remove k j ((i, w) ∷ m) =
      ground (arith, text_eq_iff k j, text_eq_iff i k, text_eq_iff i j, get-remove k j m)

  pub get-insert :
      (k j : Text) (v : V) (m : List (Text × V))
      → get j (insert k v m) ≡ (if text_eq k j then some v else get j m)
  unfolding insert get
  get-insert k j v m = ground (arith, get-remove k j m)

-- `str::replace`: the occurrences from the left that do not overlap. The number counts the bytes of
-- an occurrence that are still to be passed over.
unfoldable pub replace_from : Text → Text → ℕ → Text → Text
replace_from pat rep n [] = []
replace_from pat rep (suc n) (c ∷ t) = replace_from pat rep n t
replace_from pat rep zero (c ∷ t) = elim (starts_with pat (c ∷ t)) [
  | true ↦ rep ++ replace_from pat rep (length pat - 1) t
  | false ↦ c ∷ replace_from pat rep zero t
]

-- An empty pattern is found before every character and at the end.
unfoldable pub replace_empty : Text → Text → Text
replace_empty rep [] = rep
replace_empty rep (b ∷ bs) =
    let rest = replace_empty rep bs in
    if leb 128 b && ltb b 192 then b ∷ rest else rep ++ (b ∷ rest)

unfoldable pub replace : Text → Text → Text → Text
replace [] rep t = replace_empty rep t
replace (p ∷ pat) rep t = replace_from (p ∷ pat) rep 0 t

-- `str::find`, as the text before the first occurrence and the text behind it.
unfoldable pub split_once : Text → Text → Option (Text × Text)
split_once pat [] = elim (strip_prefix pat []) [ some after ↦ some ([], after) | none ↦ none ]
split_once pat (c ∷ t) =
    let rest = split_once pat t in
    elim (strip_prefix pat (c ∷ t)) [
      | some after ↦ some ([], after)
      | none ↦ elim rest [ none ↦ none | some (before, after) ↦ some (c ∷ before, after) ]
    ]

-- `str::contains` of a text.
unfoldable pub has_text : Text → Text → Bool
has_text pat t = is_some (split_once pat t)
