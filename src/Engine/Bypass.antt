-- ===== src/Engine/Bypass.antt =====
-- `user_bypass_segments` (crates/zlauder-engine/src/lib.rs): the text between `>>` and `<<` in a user
-- message is passed through.
pub mod Segments
use package.zlau_de_r.Prelude.{
  ℕ, zero, suc, ◌+◌, ◌≤◌, ◌<◌, ◌≡◌, refl, sym, ap, ◌∙◌, ◌⊎◌, inl, inr, arith, Bool, true,
}
use package.zlau_de_r.Prelude.{
  false, if◌then◌else◌, ◌&&◌, ◌==◌, Option, none, some, is_some, List, [], ◌∷◌, ◌++◌, length,
}
use package.zlau_de_r.Prelude.{
  Text, codes, split_once, strip_prefix, Option-cases, Bool-cases, append_assoc,
}
use package.zlau_de_r.Prelude.{drop, ◌-◌, append-nil, length-append, All, ◌∈◌}

pub data UserBypassSegment : Type 0 where
  mask bypass : Text → UserBypassSegment

abbrev pub start_mark : Text
start_mark = codes ">>"

abbrev pub end_mark : Text
end_mark = codes "<<"

abbrev pub finish : Text → Bool → List UserBypassSegment → Option (List UserBypassSegment)
finish rest matched segments =
    if matched then some (segments ++ (UserBypassSegment.mask rest ∷ [])) else none

-- The loop, on the text from the cursor on.
unfoldable pub bypass_loop :
    ℕ → Text → Bool → List UserBypassSegment → Option (List UserBypassSegment)
bypass_loop zero rest matched segments = finish rest matched segments
bypass_loop (suc n) rest matched segments = elim (split_once start_mark rest) [
  | none ↦ finish rest matched segments
  | some (before, inner) ↦ elim (split_once end_mark inner) [
    | none ↦ finish rest matched segments
    | some (value, after) ↦
        bypass_loop n after true
          (segments ++ (UserBypassSegment.mask before ∷ UserBypassSegment.bypass value ∷ []))
  ]
]

unfoldable pub user_bypass_segments : Text → Option (List UserBypassSegment)
user_bypass_segments text = bypass_loop (length text) text false []

-- The text that a segment was cut from.
abbrev pub source_of : UserBypassSegment → Text
source_of (UserBypassSegment.mask s) = s
source_of (UserBypassSegment.bypass s) = start_mark ++ (s ++ end_mark)

abbrev pub join_segments : List UserBypassSegment → Text
join_segments [] = []
join_segments (s ∷ ss) = source_of s ++ join_segments ss

-- Nothing is left to be cut from a segment that is masked, and a bypassed one ends at the first
-- closing mark.
abbrev pub IsCut : UserBypassSegment → Type 0
IsCut (UserBypassSegment.mask s) = user_bypass_segments s ≡ none
IsCut (UserBypassSegment.bypass s) = split_once end_mark s ≡ none
