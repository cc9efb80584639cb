-- ===== src/Detect/Overlap.antt =====
-- What the overlap resolution returns: detections of its input, in order, pairwise apart, and for
-- each one that is dropped a kept one that overlaps it and is not worse.
use Prim.Native.Nat.{compare, Ordering}
use zlau_de_r.Prelude.{mem-snoc, snoc-mem}
use zlau_de_r.Prelude.{ℕ, ◌-◌, ◌≡◌, refl, ◌⊎◌, inl, inr, true, false, arith}
use zlau_de_r.Prelude.{List, [], ◌∷◌, ◌++◌, any}
use zlau_de_r.Prelude.{◌∈◌, Bool-cases, any_mem, mem_any, cmp_then, not_gt}
use zlau_de_r.Prelude.{
  insert_by, mem-insert_by, sort_by, mem-sort_by, sort_by-mem, IsSorted, sort_by-IsSorted,
}
use zlau_de_r.Detect.{CachedDetection, tier, overlap_cmp, start_cmp, overlaps}
use zlau_de_r.Detect.{keep_best, resolve_overlaps}

cmp_total : (a b : ℕ) → not_gt (compare a b) ≡ false → compare b a ≡ Ordering.lt
cmp_total a b h = ground arith

overlap_total :
    (a b : CachedDetection) → not_gt (overlap_cmp a b) ≡ false → not_gt (overlap_cmp b a) ≡ true
unfolding overlap_cmp
overlap_total a b h = ground arith

lex_trans :
    (a b c d e f g h i : ℕ)
    → not_gt (cmp_then (compare a b) (cmp_then (compare e d) (compare h g))) ≡ true
    → not_gt (cmp_then (compare b c) (cmp_then (compare f e) (compare i h))) ≡ true
    → not_gt (cmp_then (compare a c) (cmp_then (compare f d) (compare i g))) ≡ true
lex_trans a b c d e f g h i p q = ground arith

overlap_trans :
    (a b c : CachedDetection)
    → not_gt (overlap_cmp a b) ≡ true
    → not_gt (overlap_cmp b c) ≡ true
    → not_gt (overlap_cmp a c) ≡ true
unfolding overlap_cmp
overlap_trans a b c =
    lex_trans (tier a.source) (tier b.source) (tier c.source) a.score b.score c.score
      (a.end - a.start) (b.end - b.start) (c.end - c.start)

-- No two of the detections overlap.
abbrev pub Apart : List CachedDetection → Type 0
Apart [] = Unit
Apart (d ∷ ds) = ((k : CachedDetection) → k ∈ ds → overlaps d k ≡ false) × Apart ds

overlaps_comm : (d k : CachedDetection) → overlaps d k ≡ false → overlaps k d ≡ false
overlaps_comm d k h = ground arith

not_any :
    (d : CachedDetection) (ks : List CachedDetection)
    → any (overlaps d) ks ≡ false
    → (k : CachedDetection) → k ∈ ks
    → overlaps d k ≡ false
not_any d ks h k m = elim (Bool-cases (overlaps d k)) [
  | inl t ↦ let found = mem_any (overlaps d) k ks m t in absurd (cc)
  | inr f ↦ f
]

Apart-snoc :
    (d : CachedDetection) (ks : List CachedDetection)
    → Apart ks
    → ((k : CachedDetection) → k ∈ ks → overlaps d k ≡ false)
    → Apart (ks ++ (d ∷ []))
Apart-snoc d [] h f = (λ k m. absurd m, tt)
Apart-snoc d (k ∷ ks) h f = (
  λ j m. elim (mem-snoc j d ks m) [
    | inl old ↦ h.0 j old
    | inr e ↦ rw e (overlaps_comm d k (f k (inl refl)))
  ],
  Apart-snoc d ks h.1 (λ j m. f j (inr m)),
)

-- `k` overlaps `d` and does not come after it.
pub record Beats (k d : CachedDetection) : Type 0 where
  pub meets : overlaps d k ≡ true
  pub no_worse : not_gt (overlap_cmp k d) ≡ true

-- What the loop returns for the kept detections and those to come.
record Kept (kept ds out : List CachedDetection) : Type 0 where
  holds : (a : CachedDetection) → a ∈ kept → a ∈ out
  from : (a : CachedDetection) → a ∈ out → (a ∈ kept) ⊎ (a ∈ ds)
  apart : Apart out
  best :
      (d : CachedDetection) → d ∈ ds → (d ∈ out) ⊎ ((k : CachedDetection) × (k ∈ out) × Beats k d)

keep_best-Kept :
    (kept ds : List CachedDetection)
    → Apart kept
    → IsSorted overlap_cmp ds
    → ((k d : CachedDetection) → k ∈ kept → d ∈ ds → not_gt (overlap_cmp k d) ≡ true)
    → Kept kept ds (keep_best kept ds)
unfolding keep_best
keep_best-Kept kept [] apart sorted before = record {
  holds = λ a m. m;
  from = λ a m. inl m;
  apart = apart;
  best = λ d m. absurd m;
}
keep_best-Kept kept (d ∷ ds) apart sorted before = elim (Bool-cases (any (overlaps d) kept)) [
  | inl hit ↦
      let rest = keep_best-Kept kept ds apart sorted.1 (λ k e m n. before k e m (inr n)) in
      let (k, m, o) = any_mem (overlaps d) kept hit in
      rw hit (record {
        holds = rest.holds;
        from = λ a n. ground (arith, rest.from a n);
        apart = rest.apart;
        best = λ e. elim [
          | inl same ↦ inr (
            k,
            rest.holds k m,
            rw same (record { meets = o; no_worse = before k d m (inl refl) }),
          )
          | inr n ↦ rest.best e n
        ];
      })
  | inr clear ↦
      let rest =
        keep_best-Kept (kept ++ (d ∷ [])) ds (Apart-snoc d kept apart (not_any d kept clear))
          sorted.1
          (λ k e m n. elim (mem-snoc k d kept m) [
            | inl old ↦ before k e old (inr n)
            | inr same ↦ rw same (sorted.0 e n)
          ]) in
      rw clear (record {
        holds = λ a m. rest.holds a (snoc-mem a d kept (inl m));
        from = λ a n. ground (arith, rest.from a n, mem-snoc a d kept);
        apart = rest.apart;
        best = λ e. elim [
          | inl same ↦ inl (rest.holds e (snoc-mem e d kept (inr same)))
          | inr n ↦ rest.best e n
        ];
      })
]

insert_start-Apart :
    (d : CachedDetection) (ks : List CachedDetection)
    → ((k : CachedDetection) → k ∈ ks → overlaps d k ≡ false)
    → Apart ks
    → Apart (insert_by start_cmp d ks)
unfolding insert_by
insert_start-Apart d [] f h = (λ k m. absurd m, tt)
insert_start-Apart d (k ∷ ks) f h = elim (Bool-cases (not_gt (start_cmp d k))) [
  | inl b ↦ rw b (f, h)
  | inr b ↦ rw b (
    λ j m. elim (mem-insert_by start_cmp j d ks m) [
      | inl e ↦ rw e (overlaps_comm d k (f k (inl refl)))
      | inr n ↦ h.0 j n
    ],
    insert_start-Apart d ks (λ j m. f j (inr m)) h.1,
  )
]

sort_start-Apart : (ks : List CachedDetection) → Apart ks → Apart (sort_by start_cmp ks)
unfolding sort_by
sort_start-Apart [] h = tt
sort_start-Apart (k ∷ ks) h =
    insert_start-Apart k (sort_by start_cmp ks) (λ j m. h.0 j (mem-sort_by start_cmp j ks m))
      (sort_start-Apart ks h.1)

start_total :
    (a b : CachedDetection) → not_gt (start_cmp a b) ≡ false → not_gt (start_cmp b a) ≡ true
start_total a b h = ground arith

start_trans :
    (a b c : CachedDetection)
    → not_gt (start_cmp a b) ≡ true
    → not_gt (start_cmp b c) ≡ true
    → not_gt (start_cmp a c) ≡ true
start_trans a b c p q = ground arith

pub record Resolution (dets out : List CachedDetection) : Type 0 where
  pub from : (d : CachedDetection) → d ∈ out → d ∈ dets
  pub ordered : IsSorted start_cmp out
  pub apart : Apart out
  pub best :
      (d : CachedDetection) → d ∈ dets → (d ∈ out) ⊎ ((k : CachedDetection) × (k ∈ out) × Beats k d)

-- The resolution returns detections of its input, sorted by their start, no two of which overlap;
-- and each detection that it drops overlaps a returned one that does not come after it in the order
-- of tier, score and length.
pub resolve_overlaps-Resolution :
    (dets : List CachedDetection) → Resolution dets (resolve_overlaps dets)
unfolding resolve_overlaps
resolve_overlaps-Resolution dets =
    let sorted = sort_by overlap_cmp dets in
    let kept = keep_best [] sorted in
    let k =
      keep_best-Kept [] sorted tt (sort_by-IsSorted overlap_cmp overlap_total overlap_trans dets)
        (λ a b m. absurd m) in
    record {
      from = λ d m. elim (k.from d (mem-sort_by start_cmp d kept m)) [
        | inl nowhere ↦ absurd nowhere
        | inr n ↦ mem-sort_by overlap_cmp d dets n
      ];
      ordered = sort_by-IsSorted start_cmp start_total start_trans kept;
      apart = sort_start-Apart kept k.apart;
      best = λ d m. elim (k.best d (sort_by-mem overlap_cmp d dets m)) [
        | inl n ↦ inl (sort_by-mem start_cmp d kept n)
        | inr (j, n, b) ↦ inr (j, sort_by-mem start_cmp j kept n, b)
      ];
    }
