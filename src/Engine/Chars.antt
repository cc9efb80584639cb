-- ===== src/Engine/Chars.antt =====
-- Character boundaries of a UTF-8 text, and the `Mask` operator (the end of lib.rs).
use zlau_de_r.Prelude.{ℕ, zero, suc, ◌+◌, ◌-◌, ◌≤◌, min, max, ◌≡◌, refl, arith, Bool}
use zlau_de_r.Prelude.{true, false, not, if◌then◌else◌, inl, inr}
use zlau_de_r.Prelude.{Bool-cases, List, [], ◌∷◌, ◌++◌, length, drop, replicate, Text}
use zlau_de_r.Token.{is_continuation}

-- `str::is_char_boundary`.
unfoldable pub is_char_boundary : Text → ℕ → Bool
is_char_boundary text zero = true
is_char_boundary [] (suc i) = false
is_char_boundary (c ∷ []) (suc zero) = true
is_char_boundary (c ∷ d ∷ t) (suc zero) = not (is_continuation d)
is_char_boundary (c ∷ t) (suc (suc i)) = is_char_boundary t (suc i)

-- `while start > 0 && !text.is_char_boundary(start) { start -= 1 }`
unfoldable pub snap_down : Text → ℕ → ℕ
snap_down text zero = zero
snap_down text (suc n) =
    let lower = snap_down text n in if is_char_boundary text (suc n) then suc n else lower

-- `while end < text.len() && !text.is_char_boundary(end) { end += 1 }`, with the distance to the end
-- of the text as fuel.
unfoldable pub snap_up : Text → ℕ → ℕ → ℕ
snap_up text zero end = end
snap_up text (suc left) end =
    let higher = snap_up text left (end + 1) in if is_char_boundary text end then end else higher

unfoldable pub snap_to_char_boundary : Text → ℕ → ℕ → ℕ × ℕ
snap_to_char_boundary text start end =
    let s = min start (length text) in
    let e = max (min end (length text)) s in (snap_down text s, snap_up text (length text - e) e)

-- A text as its characters, each the list of its bytes.
abbrev push_byte : ℕ → List Text → List Text
push_byte b [] = (b ∷ []) ∷ []
push_byte b ([] ∷ gs) = (b ∷ []) ∷ gs
push_byte b ((c ∷ g) ∷ gs) = if is_continuation c then (b ∷ c ∷ g) ∷ gs else (b ∷ []) ∷ (c ∷ g) ∷ gs

unfoldable pub chars : Text → List Text
chars [] = []
chars (b ∷ bs) = push_byte b (chars bs)

abbrev pub concat : List Text → Text
concat [] = []
concat (t ∷ ts) = t ++ concat ts

unfoldable pub mask_value : Text → Text → ℕ → Text
mask_value slice ch from_end =
    let cs = chars slice in
    let n = length cs in
    let keep = min from_end n in concat (replicate (n - keep) ch) ++ concat (drop (n - keep) cs)

snap_down_bounds :
    (text : Text) (n : ℕ)
    → (snap_down text n ≤ n) × (is_char_boundary text (snap_down text n) ≡ true)
unfolding snap_down is_char_boundary
snap_down_bounds text zero = (omega arith, refl)
snap_down_bounds text (suc n) = elim (Bool-cases (is_char_boundary text (suc n))) [
  | inl b ↦ rw (snap_down, b) (omega arith, b)
  | inr b ↦ let (low, bound) = snap_down_bounds text n in rw (snap_down, b) (omega arith, bound)
]

boundary_at_end : (text : Text) → is_char_boundary text (length text) ≡ true
unfolding is_char_boundary
boundary_at_end [] = refl
boundary_at_end (c ∷ []) = refl
boundary_at_end (c ∷ d ∷ t) = boundary_at_end (d ∷ t)

snap_up_bounds :
    (text : Text) (left end : ℕ)
    → end + left ≡ length text
    → (end ≤ snap_up text left end)
      × (snap_up text left end ≤ length text)
      × (is_char_boundary text (snap_up text left end) ≡ true)
unfolding snap_up
snap_up_bounds text zero end h =
    let e : end ≡ length text = omega arith in rw e (omega arith, omega arith, boundary_at_end text)
snap_up_bounds text (suc left) end h = elim (Bool-cases (is_char_boundary text end)) [
  | inl b ↦ rw (snap_up, b) (omega arith, omega arith, b)
  | inr b ↦
      let (low, high, bound) = snap_up_bounds text left (end + 1) (omega arith) in
      rw (snap_up, b) (omega arith, omega arith, bound)
]

-- Whatever offsets a detector reports, the snapped span begins and ends at character boundaries of
-- the text, in order and inside of it, and covers every byte of the reported span that the text has.
pub snap_to_char_boundary_bounds :
    (text : Text) (start end : ℕ)
    → let span = snap_to_char_boundary text start end in
      (span.0 ≤ span.1)
      × (span.1 ≤ length text)
      × (is_char_boundary text span.0 ≡ true)
      × (is_char_boundary text span.1 ≡ true)
      × (span.0 ≤ start)
      × (min end (length text) ≤ span.1)
unfolding snap_to_char_boundary
snap_to_char_boundary_bounds text start end =
    let s = min start (length text) in
    let e = max (min end (length text)) s in
    let (down, low) = snap_down_bounds text s in
    let (up, inside, high) = snap_up_bounds text (length text - e) e (omega arith) in
    (omega arith, inside, low, high, omega arith, omega arith)
