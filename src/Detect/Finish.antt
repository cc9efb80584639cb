-- ===== src/Detect/Finish.antt =====
-- What the common tail of the detection keeps and removes.

use zlau_de_r.Prelude.{◌≤◌, ◌≡◌, ◌⊎◌, inl, inr, true, arith}
use zlau_de_r.Prelude.{◌&&◌, leb, List, [], ◌∷◌, retain}
use zlau_de_r.Prelude.{◌∈◌, mem_any, mem-retain, retain-mem}
use zlau_de_r.Prelude.{}
use zlau_de_r.Detect.{CachedDetection, Span, overlap_cmp, overlaps}
use zlau_de_r.Detect.{finish, survives, is_secret}
use zlau_de_r.Detect.Overlap.{Beats, resolve_overlaps-Resolution}

-- What has the best tier is only beaten by what has it too.
Beats-secret :
    (k d : CachedDetection) → Beats k d → is_secret d.source ≡ true → is_secret k.source ≡ true
unfolding overlap_cmp
Beats-secret k d b h = let n = b.no_worse in ground arith

-- Each detection of a registered secret is in the final list, or overlaps a detection of a registered
-- secret that is in the final list, whatever spans the allow-list covers.
pub finish_keeps_secrets :
    (dets : List CachedDetection) (allowed : List Span) (d : CachedDetection)
    → d ∈ dets
    → is_secret d.source ≡ true
    → (d ∈ finish dets allowed)
      ⊎ ((k : CachedDetection) × (k ∈ finish dets allowed)
          × (is_secret k.source ≡ true)
          × (overlaps d k ≡ true))
unfolding finish
finish_keeps_secrets dets [] d m h = elim ((resolve_overlaps-Resolution dets).best d m) [
  | inl n ↦ inl n
  | inr (k, n, b) ↦ inr (k, n, Beats-secret k d b h, b.meets)
]
finish_keeps_secrets dets (s ∷ ss) d m h =
    let kept = retain (survives (s ∷ ss)) dets in
    elim ((resolve_overlaps-Resolution kept).best d
      (retain-mem (survives (s ∷ ss)) d dets m (rw h))) [
        | inl n ↦ inl n
        | inr (k, n, b) ↦ inr (k, n, Beats-secret k d b h, b.meets)
      ]

-- No detection of the final list but a registered secret lies inside of an allow-listed span.
pub finish_allows :
    (dets : List CachedDetection) (allowed : List Span) (d : CachedDetection) (s : Span)
    → d ∈ finish dets allowed
    → s ∈ allowed
    → s.0 ≤ d.start
    → d.end ≤ s.1
    → is_secret d.source ≡ true
unfolding finish
finish_allows dets [] d s m n p q = absurd n
finish_allows dets (r ∷ rs) d s m n p q =
    let inside : (leb s.0 d.start && leb d.end s.1) ≡ true = ground arith in
    let hit = mem_any (λ (t : Span). leb t.0 d.start && leb d.end t.1) s (r ∷ rs) n inside in
    let old = (resolve_overlaps-Resolution (retain (survives (r ∷ rs)) dets)).from d m in
    let (_, kept) = mem-retain (survives (r ∷ rs)) d dets old in ground arith
