-- ===== src/Engine/Bypass/Segments.antt =====
-- How a user message is cut at its bypass marks.
use zlau_de_r.Prelude.{ℕ, zero, suc, ◌≤◌, ◌≡◌, refl, sym, ap, ◌∙◌, inl, inr, arith, Bool, true}
use zlau_de_r.Prelude.{false, none, some, is_some, List, [], ◌∷◌, ◌++◌, length}
use zlau_de_r.Prelude.{Text, codes, split_once, strip_prefix, Option-cases, append_assoc}
use zlau_de_r.Prelude.{◌-◌, append-nil, length-append, All}
use zlau_de_r.Prelude.{split_once-eq, split_once-first, split_once-found}
use zlau_de_r.Prelude.{split_suffix}
use zlau_de_r.Engine.Bypass.{
  UserBypassSegment, start_mark, end_mark, finish, bypass_loop, user_bypass_segments,
}
use zlau_de_r.Engine.Bypass.{source_of, join_segments, IsCut}

-- With fuel for every byte, what the loop stops at is not cut any further.
rest_uncut :
    (n : ℕ) (rest : Text) → split_once start_mark rest ≡ none → bypass_loop n rest false [] ≡ none
unfolding bypass_loop
rest_uncut zero rest h = refl
rest_uncut (suc n) rest h = rw (bypass_loop, h) refl

unclosed :
    (n : ℕ) (rest before inner : Text)
    → split_once start_mark rest ≡ some (before, inner)
    → split_once end_mark inner ≡ none
    → bypass_loop n rest false [] ≡ none
unfolding bypass_loop
unclosed zero rest before inner h k = refl
unclosed (suc n) rest before inner h k = rw (bypass_loop, h, k) refl

join_segments-append :
    (ss ts : List UserBypassSegment)
    → join_segments (ss ++ ts) ≡ join_segments ss ++ join_segments ts
join_segments-append [] ts = refl
join_segments-append (s ∷ ss) ts =
    rw (join_segments-append ss ts)
      (sym (append_assoc (source_of s) (join_segments ss) (join_segments ts)))

-- What the loop adds to the segments that it has.
record Segmented (rest : Text) (segments out : List UserBypassSegment) : Type 0 where
  added : List UserBypassSegment
  result : out ≡ segments ++ added
  joined : join_segments added ≡ rest
  cut : All IsCut added

finish-Segmented :
    (rest : Text) (matched : Bool) (segments out : List UserBypassSegment)
    → user_bypass_segments rest ≡ none
    → finish rest matched segments ≡ some out
    → Segmented rest segments out
finish-Segmented rest true segments out uncut h = record {
  added = UserBypassSegment.mask rest ∷ [];
  result = ground arith;
  joined = append-nil rest;
  cut = (uncut, tt);
}
finish-Segmented rest false segments out uncut h = absurd (ground arith)

bypass_loop-Segmented :
    (n : ℕ) (rest : Text) (matched : Bool) (segments out : List UserBypassSegment)
    → length rest ≤ n
    → bypass_loop n rest matched segments ≡ some out
    → Segmented rest segments out
unfolding bypass_loop user_bypass_segments split_once strip_prefix
bypass_loop-Segmented zero [] matched segments out l h =
    finish-Segmented [] matched segments out refl h
bypass_loop-Segmented zero (c ∷ rest) matched segments out l h = absurd (omega arith)
bypass_loop-Segmented (suc n) rest matched segments out l h =
    elim (Option-cases (split_once start_mark rest)) [
      | inl e ↦
          finish-Segmented rest matched segments out (rest_uncut (length rest) rest e)
            (rw (bypass_loop, e) at h)
      | inr ((before, inner), e) ↦ elim (Option-cases (split_once end_mark inner)) [
        | inl f ↦
            finish-Segmented rest matched segments out
              (unclosed (length rest) rest before inner e f) (rw (bypass_loop, e, f) at h)
        | inr ((value, after), f) ↦
            let opened = split_once-eq start_mark rest before inner e in
            let closed = split_once-eq end_mark inner value after f in
            let whole : rest ≡ before ++ (start_mark ++ (value ++ (end_mark ++ after))) =
              opened ∙ ap (λ (t : Text). before ++ (start_mark ++ t)) closed in
            let size = ap length whole in
            let count = length-append before (start_mark ++ (value ++ (end_mark ++ after))) in
            let count' = length-append value (end_mark ++ after) in
            let two = UserBypassSegment.mask before ∷ UserBypassSegment.bypass value ∷ [] in
            let s =
              bypass_loop-Segmented n after true (segments ++ two) out (omega arith)
                (rw (bypass_loop, e, f) at h) in
            record {
              added = two ++ s.added;
              result = s.result ∙ append_assoc segments two s.added;
              joined = rw s.joined (
                  ap (λ (t : Text). before ++ (start_mark ++ t)) (append_assoc value end_mark after)
                  ∙ sym whole);
              cut = (
                rest_uncut (length before) before
                    (split_once-first b'>' (codes ">") rest before inner e),
                (split_once-first b'<' (codes "<") inner value after f, s.cut),
              );
            }
      ]
    ]

-- When a user message is cut, the segments with their marks are the message again, no masked
-- segment would be cut further when it is masked by itself, and a bypassed one holds no closing mark.
pub user_bypass_segments-join :
    (text : Text) (segments : List UserBypassSegment)
    → user_bypass_segments text ≡ some segments
    → (join_segments segments ≡ text) × All IsCut segments
unfolding user_bypass_segments
user_bypass_segments-join text segments h =
    let s = bypass_loop-Segmented (length text) text false [] segments (omega arith) h in
    rw s.result (s.joined, s.cut)

bypass_loop-some :
    (n : ℕ) (rest : Text) (segments : List UserBypassSegment)
    → is_some (bypass_loop n rest true segments) ≡ true
unfolding bypass_loop
bypass_loop-some zero rest segments = refl
bypass_loop-some (suc n) rest segments = elim (Option-cases (split_once start_mark rest)) [
  | inl e ↦ rw (bypass_loop, e) refl
  | inr ((before, inner), e) ↦ elim (Option-cases (split_once end_mark inner)) [
    | inl f ↦ rw (bypass_loop, e, f) refl
    | inr ((value, after), f) ↦
        rw (bypass_loop, e, f)
          (bypass_loop-some n after
            (segments ++ (UserBypassSegment.mask before ∷ UserBypassSegment.bypass value ∷ [])))
  ]
]

-- A user message that holds an opening mark and, after it, a closing one is cut, whatever else it
-- holds.
pub user_bypass_segments-marked :
    (before value after : Text)
    → is_some (user_bypass_segments (before ++ (start_mark ++ (value ++ (end_mark ++ after)))))
      ≡ true
unfolding user_bypass_segments bypass_loop
user_bypass_segments-marked before value after =
    let tail = value ++ (end_mark ++ after) in
    let text = before ++ (start_mark ++ tail) in
    let (b, inner, found, le) = split_once-found b'>' (codes ">") before tail in
    let opened = split_once-eq start_mark text b inner found in
    let size = length-append before (start_mark ++ tail) in
    let (m, ends) =
      split_suffix (before ++ start_mark) (b ++ start_mark) tail inner
        (append_assoc before start_mark tail ∙ opened ∙ sym (append_assoc b start_mark inner))
        (omega (arith, length-append before start_mark, length-append b start_mark)) in
    let (v, a, closed, _) = split_once-found b'<' (codes "<") (m ++ value) after in
    let closed' : split_once end_mark inner ≡ some (v, a) =
      ap (split_once end_mark) (ends ∙ sym (append_assoc m value (end_mark ++ after))) ∙ closed in
    let fuel : length text ≡ suc (length text - 1) = omega arith in
    rw fuel (
      rw (bypass_loop, found, closed')
        (bypass_loop-some (length text - 1) a
          (UserBypassSegment.mask b ∷ UserBypassSegment.bypass v ∷ [])))
