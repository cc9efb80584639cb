-- ===== src/Detect/Gate.antt =====
-- The plausibility gate on presidio's generic high-entropy matches (the end of detect.rs).
use zlau_de_r.Prelude.{ℕ, ◌+◌, ◌*◌, max, Bool, true, false, not, ◌&&◌, ◌||◌, ◌==◌, leb}
use zlau_de_r.Prelude.{if◌then◌else◌, [], ◌∷◌, any, all, Text, is_upper, is_lower, is_digit}
use zlau_de_r.Prelude.{to_lower}

abbrev pub is_alphabetic : ℕ → Bool
is_alphabetic c = is_upper c || is_lower c

abbrev pub is_hexdigit : ℕ → Bool
is_hexdigit c = is_digit c || (leb b'a' c && leb c b'f' || leb b'A' c && leb c b'F')

abbrev pub is_vowel : ℕ → Bool
is_vowel c = c == b'a' || (c == b'e' || (c == b'i' || (c == b'o' || c == b'u')))

-- The letters and the vowels of a text.
unfoldable pub count_letters : Text → ℕ × ℕ → ℕ × ℕ
count_letters [] n = n
count_letters (b ∷ bs) (letters, vowels) = count_letters bs (
    if is_alphabetic b
    then (letters + 1, if is_vowel (to_lower b) then vowels + 1 else vowels)
    else (letters, vowels))

-- `vowel_ratio(t) >= 0.30`, without the division: the rounded quotient of the counts is at least
-- the `f64` nearest to 3/10 exactly when the quotient is at least 3/10.
unfoldable pub vowel_ratio_high : Text → Bool
unfolding count_letters
vowel_ratio_high t =
    let (letters, vowels) = count_letters t (0, 0) in
    if letters == 0 then false else leb (3 * letters) (10 * vowels)

unfoldable pub lowercase_run : Text → ℕ → ℕ → ℕ
lowercase_run [] longest cur = longest
lowercase_run (b ∷ bs) longest cur =
    lowercase_run bs (if is_lower b then max longest (cur + 1) else longest)
      (if is_lower b then cur + 1 else 0)

unfoldable pub max_lowercase_run : Text → ℕ
unfolding lowercase_run
max_lowercase_run t = lowercase_run t 0 0

-- The first argument is the comparison of the Shannon entropy with 4.0 bits.
unfoldable pub plausible_generic_secret : (Text → Bool) → Text → Bool
unfolding vowel_ratio_high max_lowercase_run
plausible_generic_secret entropy_below_four t =
    if all is_hexdigit t
    then false
    else (if entropy_below_four t
        then false
        else (if not (any is_alphabetic t && any is_digit t)
            then false
            else (if vowel_ratio_high t && leb 6 (max_lowercase_run t) then false else true)))
