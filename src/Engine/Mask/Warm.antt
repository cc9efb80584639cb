-- ===== src/Engine/Mask/Warm.antt =====
-- The batch of `prewarm_batch` leaves a cache that agrees with the detection.
use zlau_de_r.Prelude.{ℕ, suc, ◌≡◌, refl, sym, ap, ◌∙◌, inl, inr, subst, not, ◌&&◌}
use zlau_de_r.Prelude.{◌||◌, Option, none, some, is_some, is_empty, List, [], ◌∷◌}
use zlau_de_r.Prelude.{map, any, Text, All, All-append, Bool-cases}
use zlau_de_r.Externals.{Externals}
use zlau_de_r.Error.{EngineError, ok}
use zlau_de_r.Surface.{Surface}
use zlau_de_r.Config.{surface_enabled}
use zlau_de_r.Detect.{Analyzer, CachedDetection, MlRecognizer}
use zlau_de_r.Detect.Passes.{run_detection, run_detection_batch}
use zlau_de_r.Detect.Batch.{BatchesOnly, EachLeaf, run_detection_batch-only}
use zlau_de_r.Ml.Slot.{Refusal}
use zlau_de_r.Engine.Bypass.{user_bypass_segments}
use zlau_de_r.Engine.Cache.{LruCache, LruLaws, DetectionCache, CacheKey, hash_text, get, insert}
use zlau_de_r.Engine.Mask.{MaskEngine, stripped_for_key, is_user_message, mask}
use zlau_de_r.Engine.Mask.Sound.{
  Settings, settings_of, detected, key, Sound, Sound-get, Sound-insert,
}
use zlau_de_r.Engine.Mask.Lookup.{Result-cases}
use zlau_de_r.Engine.Mask.Leaf.{view}
use zlau_de_r.Engine.Mask.Reference.{Seen, fresh, mask-fresh}
use zlau_de_r.Engine.Mask.Prewarm.{Planned, leaf_of, key_eq, plan_one, plan, recheck}
use zlau_de_r.Engine.Mask.Prewarm.{insert_all, prewarm_with, prewarm_batch, prewarm_ready}

module _ {L : Type 0} (lru : LruCache L) (laws : LruLaws lru) (x : Externals) (a : Analyzer)
    (seen : Text → Type 0)
    (apart : (t u : Text) → seen t → seen u → hash_text x t ≡ hash_text x u → t ≡ u) where
  -- A leaf that was seen, under its own key.
  abbrev Keyed : Settings → Planned → Type 0
  Keyed s p = (p.key ≡ key lru x a seen s p.text p.surface) × seen p.text

  -- The texts that `mask` will look up for the leaves.
  abbrev pub SeenLeaves : Settings → List (Text × Surface) → Type 0
  SeenLeaves s = All (λ (l : Text × Surface). seen (stripped_for_key s.policy l.0 l.1))

  abbrev Agrees : Settings → DetectionCache L → Type 0
  Agrees = Sound lru x a seen

  plan_one-Keyed :
      (s : Settings) (c : DetectionCache L) (keys : List CacheKey) (l : Text × Surface)
      → seen (stripped_for_key s.policy l.0 l.1)
      → Agrees s c
      → let one = plan_one lru x s.policy s.secrets s.ml_fp c keys l in
        Agrees s one.cache × All (Keyed s) one.leaf
  unfolding plan_one
  plan_one-Keyed s c keys (raw, surface) u h =
      let k = key lru x a seen s (stripped_for_key s.policy raw surface) surface in
      let after = Sound-get lru x a seen laws apart s c k h in
      elim (Bool-cases (not (surface_enabled s.policy.config surface))) [
        | inl off ↦ rw (plan_one, off) (h, tt)
        | inr on ↦
            elim (Bool-cases (is_user_message surface && is_some (user_bypass_segments raw))) [
              | inl cut ↦ rw (plan_one, on, cut) (h, tt)
              | inr whole ↦ elim (Bool-cases (is_some (get lru c k).1)) [
                | inl hit ↦ rw (plan_one, on, whole, hit) (after, tt)
                | inr missed ↦ elim (Bool-cases (any (key_eq k) keys)) [
                  | inl twice ↦ rw (plan_one, on, whole, missed, twice) (after, tt)
                  | inr once ↦ rw (plan_one, on, whole, missed, once) (after, ((refl, u), tt))
                ]
              ]
            ]
      ]

  plan-Keyed :
      (s : Settings) (c : DetectionCache L) (keys : List CacheKey) (ls : List (Text × Surface))
      → SeenLeaves s ls
      → Agrees s c
      → let p = plan lru x s.policy s.secrets s.ml_fp c keys ls in Agrees s p.0 × All (Keyed s) p.1
  unfolding plan
  plan-Keyed s c keys [] u h = (h, tt)
  plan-Keyed s c keys (l ∷ ls) u h =
      let one = plan_one lru x s.policy s.secrets s.ml_fp c keys l in
      let first = plan_one-Keyed s c keys l u.0 h in
      let rest = plan-Keyed s one.cache one.keys ls u.1 first.0 in
      (rest.0, All-append (Keyed s) one.leaf _ first.1 rest.1)

  recheck-Keyed :
      (s : Settings) (c : DetectionCache L) (ps : List Planned)
      → All (Keyed s) ps
      → Agrees s c
      → let p = recheck lru x c ps in Agrees s p.0 × All (Keyed s) p.1
  unfolding recheck
  recheck-Keyed s c [] u h = (h, tt)
  recheck-Keyed s c (p ∷ ps) u h =
      let rest =
        recheck-Keyed s (get lru c p.key).0 ps u.1
          (Sound-get lru x a seen laws apart s c p.key h) in
      elim (Bool-cases (is_some (get lru c p.key).1)) [
        | inl hit ↦ rw (recheck, hit) rest
        | inr missed ↦ rw (recheck, missed) (rest.0, (u.0, rest.1))
      ]

  insert_all-Agrees :
      (s : Settings) (m : MlRecognizer) (c : DetectionCache L) (ps : List Planned)
      (ds : List (List CachedDetection))
      → s.recognizer ≡ some m
      → EachLeaf x a s.policy.config s.policy.customs s.secrets.compiled m (map leaf_of ps) ds
      → All (Keyed s) ps
      → Agrees s c
      → Agrees s (insert_all lru x c ps ds)
  unfolding insert_all
  insert_all-Agrees s m c [] ds q e u h = h
  insert_all-Agrees s m c (p ∷ ps) [] q e u h = h
  insert_all-Agrees s m c (p ∷ ps) (d ∷ ds) q e u h =
      let run : detected lru x a seen s p.text p.surface ≡ ok d =
        ap
          (λ (r : Option MlRecognizer).
            run_detection x a s.policy.config s.policy.customs s.secrets.compiled r p.text
              p.surface)
          q
        ∙ e.0 in
      let stored = Sound-insert lru x a seen laws apart s c p.text p.surface d u.0.1 run h in
      insert_all-Agrees s m (insert lru c p.key d) ps ds q e.1 u.1
        (subst (λ (k : CacheKey). Agrees s (insert lru c k d)) (sym u.0.0) stored)

  prewarm_with-Agrees :
      (e : MaskEngine L) (m : MlRecognizer) (leaves : List (Text × Surface))
      → (settings_of e).recognizer ≡ some m
      → BatchesOnly m
      → SeenLeaves (settings_of e) leaves
      → Agrees (settings_of e) e.cache
      → Agrees (settings_of e) (prewarm_with lru x a e m (settings_of e).ml_fp leaves)
  unfolding prewarm_with
  prewarm_with-Agrees e m leaves q law u h =
      let s = settings_of e in
      let planned = plan lru x s.policy s.secrets s.ml_fp e.cache [] leaves in
      let (h_planned, u_planned) = plan-Keyed s e.cache [] leaves u h in
      let pending = recheck lru x planned.0 planned.1 in
      let (h_pending, u_pending) = recheck-Keyed s planned.0 planned.1 u_planned h_planned in
      let batch =
        run_detection_batch x a s.policy.config s.policy.customs s.secrets.compiled m
          (map leaf_of pending.1) in
      elim (Bool-cases (is_empty planned.1)) [
        | inl none_planned ↦ rw (prewarm_with, none_planned) h_planned
        | inr some_planned ↦ elim (Bool-cases (is_empty pending.1)) [
          | inl none_pending ↦ rw (prewarm_with, some_planned, none_pending) h_pending
          | inr some_pending ↦ elim (Result-cases batch) [
            | inl (er, fails) ↦ rw (prewarm_with, some_planned, some_pending, fails) h_pending
            | inr (ds, runs) ↦
                rw (prewarm_with, some_planned, some_pending, runs)
                  (insert_all-Agrees s m pending.0 pending.1 ds q
                    (run_detection_batch-only x a s.policy.config s.policy.customs
                      s.secrets.compiled m law (map leaf_of pending.1) ds runs)
                    u_pending h_pending)
          ]
        ]
      ]

  prewarm_ready-Agrees :
      (e : MaskEngine L) (ml : Option MlRecognizer) (refusal : Option Refusal)
      (leaves : List (Text × Surface))
      → (settings_of e).recognizer ≡ ml
      → ((m : MlRecognizer) → (settings_of e).recognizer ≡ some m → BatchesOnly m)
      → SeenLeaves (settings_of e) leaves
      → Agrees (settings_of e) e.cache
      → let f = prewarm_ready lru x a e ml (settings_of e).ml_fp refusal leaves in
        (f.store ≡ e.store) × (settings_of f ≡ settings_of e) × Agrees (settings_of e) f.cache
  prewarm_ready-Agrees e none refusal leaves q law u h = (refl, refl, h)
  prewarm_ready-Agrees e (some m) (some reason) leaves q law u h = (refl, refl, h)
  prewarm_ready-Agrees e (some m) none leaves q law u h =
      (refl, refl, prewarm_with-Agrees e m leaves q (law m q) u h)

  pub prewarm_batch-Agrees :
      (e : MaskEngine L) (leaves : List (Text × Surface))
      → ((m : MlRecognizer) → (settings_of e).recognizer ≡ some m → BatchesOnly m)
      → SeenLeaves (settings_of e) leaves
      → Agrees (settings_of e) e.cache
      → let f = prewarm_batch lru x a e leaves in
        (f.store ≡ e.store) × (settings_of f ≡ settings_of e) × Agrees (settings_of e) f.cache
  unfolding prewarm_batch
  prewarm_batch-Agrees e leaves law u h =
      elim (Bool-cases (is_empty leaves || not e.policy.config.enabled)) [
        | inl off ↦ rw (prewarm_batch, off) (refl, refl, h)
        | inr on ↦
            rw (prewarm_batch, on)
              (prewarm_ready-Agrees e (settings_of e).recognizer (settings_of e).refused leaves refl
                law u h)
      ]

  -- Whatever leaves a request is prewarmed with, and whether the batch succeeds or fails, `mask`
  -- gives the text, the manifest, the session store and the error that it would have given
  -- without, and the cache still agrees with the detection; where a batch of the recognizer has one
  -- result for each text, these must be its single results.
  pub prewarm_batch-mask :
      (now : ℕ) (to_string : EngineError → Text) (n : ℕ) (e : MaskEngine L)
      (leaves : List (Text × Surface)) (seeds : ℕ → ℕ → Text) (text : Text) (surface : Surface)
      → ((m : MlRecognizer) → (settings_of e).recognizer ≡ some m → BatchesOnly m)
      → SeenLeaves (settings_of e) leaves
      → Seen lru laws x a now to_string seen apart (settings_of e) text surface
      → Agrees (settings_of e) e.cache
      → let f = prewarm_batch lru x a e leaves in
        (view (mask lru x a now to_string (suc n) f seeds text surface)
          ≡ view (mask lru x a now to_string (suc n) e seeds text surface))
        × Agrees (settings_of e) f.cache
  prewarm_batch-mask now to_string n e leaves seeds text surface law u w h =
      let f = prewarm_batch lru x a e leaves in
      let (stored, same, agrees) = prewarm_batch-Agrees e leaves law u h in
      let cold = mask-fresh lru laws x a now to_string seen apart n e seeds text surface w h in
      let warm =
        mask-fresh lru laws x a now to_string seen apart n f seeds text surface
          (subst (λ (s : Settings). Seen lru laws x a now to_string seen apart s text surface)
            (sym same) w)
          (subst (λ (s : Settings). Agrees s f.cache) (sym same) agrees) in
      (
        warm.0
            ∙ (λ i.
                fresh lru laws x a now to_string seen apart (same i) (stored i) seeds text surface)
            ∙ sym cold.0,
        agrees,
      )
