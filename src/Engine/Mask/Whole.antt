-- ===== src/Engine/Mask/Whole.antt =====
-- `mask` with its user bypass: how deep it calls itself, and what the cache changes.
use zlau_de_r.Prelude.{ℕ, zero, suc, ◌+◌, ◌≡◌, refl, ap, ◌∙◌, inl, inr}
use zlau_de_r.Prelude.{none, List, [], ◌∷◌, ◌++◌, Text, All}
use zlau_de_r.Prelude.{Bool-cases, Option-cases, List-cases}
use zlau_de_r.Externals.{Externals}
use zlau_de_r.Error.{EngineError, Result, ok, err}
use zlau_de_r.Surface.{Surface}
use zlau_de_r.Detect.{Analyzer}
use zlau_de_r.Manifest.{MaskOutcome, passthrough, no_stats, merge, merge_stats}
use zlau_de_r.Engine.Bypass.{UserBypassSegment, user_bypass_segments, IsCut}
use zlau_de_r.Engine.Bypass.Segments.{user_bypass_segments-join}
use zlau_de_r.Engine.Cache.{LruCache}
use zlau_de_r.Engine.Mask.{MaskEngine, secret_spans, apply_outcome}
use zlau_de_r.Engine.Mask.{mask_segments, mask, is_user_message, push_str}

module _ {L : Type 0} (lru : LruCache L) (x : Externals) (a : Analyzer) (now : ℕ)
    (to_string : EngineError → Text) where
  abbrev pub Masks : Type 0
  Masks = MaskEngine L → (ℕ → ℕ → Text) → Text → MaskEngine L × Result MaskOutcome

  abbrev pub masking : ℕ → Masks
  masking n e seeds s = mask lru x a now to_string n e seeds s Surface.user_message

  mask-cut :
      (n : ℕ) (e : MaskEngine L) (seeds : ℕ → ℕ → Text) (s : Text)
      → user_bypass_segments s ≡ none
      → masking n e seeds s ≡ masking 0 e seeds s
  unfolding mask
  mask-cut zero e seeds s cut = refl
  mask-cut (suc n) e seeds s cut = rw (mask, cut) refl

  -- How the outcome of a segment is added, with its statistics or without.
  abbrev pub with_outcome : MaskOutcome → MaskOutcome → MaskOutcome
  with_outcome out o = record {
    masked_text = out.masked_text ++ o.masked_text;
    manifest = merge out.manifest o.manifest;
    stats = merge_stats out.stats o.stats;
  }

  abbrev pub with_text : MaskOutcome → MaskOutcome → MaskOutcome
  with_text out o = record {
    masked_text = out.masked_text ++ o.masked_text;
    manifest = merge out.manifest o.manifest;
    stats = out.stats;
  }

  -- The rest of the segments after the outcome of one.
  abbrev pub after :
      Masks
      → (ℕ → ℕ → Text)
      → ℕ
      → List UserBypassSegment
      → (MaskOutcome → MaskOutcome)
      → MaskEngine L × Result MaskOutcome
      → MaskEngine L × Result MaskOutcome
  after masks seeds i rest add r = elim r.1 [
    | err er ↦ (r.0, err er)
    | ok o ↦ mask_segments lru x a now to_string masks r.0 seeds (suc i) rest (add o)
  ]

  after_same :
      (f g : Masks) (seeds : ℕ → ℕ → Text) (i : ℕ) (rest : List UserBypassSegment)
      (add : MaskOutcome → MaskOutcome)
      → ((e : MaskEngine L) (out : MaskOutcome)
          → mask_segments lru x a now to_string f e seeds (suc i) rest out
            ≡ mask_segments lru x a now to_string g e seeds (suc i) rest out)
      → (r : MaskEngine L × Result MaskOutcome)
      → after f seeds i rest add r ≡ after g seeds i rest add r
  after_same f g seeds i rest add same (e, err er) = refl
  after_same f g seeds i rest add same (e, ok o) = same e (add o)

  mask_segments-depth :
      (n : ℕ) (e : MaskEngine L) (seeds : ℕ → ℕ → Text) (i : ℕ) (segments : List UserBypassSegment)
      (out : MaskOutcome)
      → All IsCut segments
      → mask_segments lru x a now to_string (masking n) e seeds i segments out
        ≡ mask_segments lru x a now to_string (masking 0) e seeds i segments out
  unfolding mask_segments
  mask_segments-depth n e seeds i [] out h = refl
  mask_segments-depth n e seeds i (UserBypassSegment.mask [] ∷ rest) out h =
      mask_segments-depth n e seeds (suc i) rest out h.1
  mask_segments-depth n e seeds i (UserBypassSegment.mask (c ∷ s) ∷ rest) out h =
      ap
        (λ (r : MaskEngine L × Result MaskOutcome).
          after (masking n) seeds i rest (with_outcome out) r)
        (mask-cut n e (λ k. seeds (i + k)) (c ∷ s) h.0)
      ∙ after_same (masking n) (masking 0) seeds i rest (with_outcome out)
          (λ f o. mask_segments-depth n f seeds (suc i) rest o h.1)
          (masking 0 e (λ k. seeds (i + k)) (c ∷ s))
  mask_segments-depth n e seeds i (UserBypassSegment.bypass s ∷ rest) out h =
      elim (List-cases (secret_spans e.secrets s Surface.user_message)) [
        | inl p ↦
            rw (mask_segments, p) (mask_segments-depth n e seeds (suc i) rest (push_str out s) h.1)
        | inr (d, ds, p) ↦
            rw (mask_segments, p)
              (after_same (masking n) (masking 0) seeds i rest (with_text out)
                (λ f o. mask_segments-depth n f seeds (suc i) rest o h.1)
                (apply_outcome lru x a now to_string e (seeds i) s Surface.user_message (d ∷ ds)
                  no_stats))
      ]

  -- However deep `mask` is let call itself on the segments of a user message, it gives what it
  -- gives when it is let do so once: the calls on the segments make none.
  pub mask-depth :
      (n : ℕ) (e : MaskEngine L) (seeds : ℕ → ℕ → Text) (text : Text) (surface : Surface)
      → mask lru x a now to_string (suc n) e seeds text surface
        ≡ mask lru x a now to_string 1 e seeds text surface
  unfolding mask
  mask-depth n e seeds text surface = elim (Bool-cases (is_user_message surface)) [
    | inr other ↦ rw (mask, other) refl
    | inl user ↦ elim (Option-cases (user_bypass_segments text)) [
      | inl plain ↦ rw (mask, user, plain) refl
      | inr (segments, found) ↦
          rw (mask, user, found)
            (mask_segments-depth n e seeds 0 segments (passthrough [] no_stats)
              (user_bypass_segments-join text segments found).1)
    ]
  ]
