-- ===== src/Engine/Mask/Prewarm.antt =====
-- `MaskEngine::prewarm_batch` (lib.rs): the leaves of a request are detected in one batch and stored
-- in the detection cache, under the keys that `mask` will look up.
use zlau_de_r.Prelude.{Bool, not, ◌&&◌, ◌||◌, if◌then◌else◌, Option, none, some}
use zlau_de_r.Prelude.{is_some, is_empty, List, [], ◌∷◌, ◌++◌, map, any, Text, text_eq}
use zlau_de_r.Externals.{Externals}
use zlau_de_r.Error.{ok, err}
use zlau_de_r.Surface.{Surface, surface_eq}
use zlau_de_r.Config.{surface_enabled}
use zlau_de_r.Detect.{Analyzer, CachedDetection, MlRecognizer}
use zlau_de_r.Detect.Passes.{run_detection_batch}
use zlau_de_r.Ml.Slot.{Refusal, ml_for_mask}
use zlau_de_r.Engine.Bypass.{user_bypass_segments}
use zlau_de_r.Engine.Cache.{LruCache, DetectionCache, CacheKey, get, insert}
use zlau_de_r.Engine.Mask.{Policy, SecretSet, MaskEngine, stripped_for_key, key_of, is_user_message}

-- The derived `PartialEq` of the key.
abbrev pub key_eq : CacheKey → CacheKey → Bool
key_eq k j =
    text_eq k.text_hash j.text_hash
    && (surface_eq k.surface j.surface
        && (text_eq k.policy_fp j.policy_fp
            && (text_eq k.ml_fp j.ml_fp && text_eq k.secrets_fp j.secrets_fp)))

-- A leaf that is to be detected.
pub record Planned : Type 0 where
  pub key : CacheKey
  pub text : Text
  pub surface : Surface

-- The cache, the keys that were planned, and the leaf, if it is to be detected.
pub record Plan (L : Type 0) : Type 0 where
  pub cache : DetectionCache L
  pub keys : List CacheKey
  pub leaf : List Planned

abbrev pub leaf_of : Planned → Text × Surface
leaf_of p = (p.text, p.surface)

module _ {L : Type 0} (lru : LruCache L) (x : Externals) where
  -- One round of the planning loop.
  unfoldable pub plan_one :
      Policy → SecretSet → Text → DetectionCache L → List CacheKey → Text × Surface → Plan L
  plan_one policy secrets ml_fp cache keys (raw, surface) =
      if not (surface_enabled policy.config surface)
      then record { cache = cache; keys = keys; leaf = [] }
      else (if is_user_message surface && is_some (user_bypass_segments raw)
          then record { cache = cache; keys = keys; leaf = [] }
          else let text = stripped_for_key policy raw surface in
            let key = key_of x policy secrets ml_fp text surface in
            let r = get lru cache key in
            if is_some r.1
            then record { cache = r.0; keys = keys; leaf = [] }
            else (if any (key_eq key) keys
                then record { cache = r.0; keys = keys; leaf = [] }
                else record {
                  cache = r.0;
                  keys = key ∷ keys;
                  leaf = record { key = key; text = text; surface = surface } ∷ [];
                }))

  unfoldable pub plan :
      Policy
      → SecretSet
      → Text
      → DetectionCache L
      → List CacheKey
      → List (Text × Surface)
      → DetectionCache L × List Planned
  plan policy secrets ml_fp cache keys [] = (cache, [])
  plan policy secrets ml_fp cache keys (l ∷ ls) =
      let one = plan_one policy secrets ml_fp cache keys l in
      let rest = plan policy secrets ml_fp one.cache one.keys ls in (rest.0, one.leaf ++ rest.1)

  -- The second lookup, under the gate.
  unfoldable pub recheck : DetectionCache L → List Planned → DetectionCache L × List Planned
  recheck cache [] = (cache, [])
  recheck cache (p ∷ ps) =
      let r = get lru cache p.key in
      let rest = recheck r.0 ps in (rest.0, if is_some r.1 then rest.1 else p ∷ rest.1)

  -- `for ((key, _, _), dets) in pending.into_iter().zip(det_lists)`.
  unfoldable pub insert_all :
      DetectionCache L → List Planned → List (List CachedDetection) → DetectionCache L
  insert_all cache [] lists = cache
  insert_all cache (p ∷ ps) [] = cache
  insert_all cache (p ∷ ps) (d ∷ ds) = insert_all (insert lru cache p.key d) ps ds

  -- The batch, with the recognizer.
  unfoldable pub prewarm_with :
      Analyzer → MaskEngine L → MlRecognizer → Text → List (Text × Surface) → DetectionCache L
  prewarm_with a e m ml_fp leaves =
      let planned = plan e.policy e.secrets ml_fp e.cache [] leaves in
      let pending = recheck planned.0 planned.1 in
      if is_empty planned.1
      then planned.0
      else (if is_empty pending.1
          then pending.0
          else elim (run_detection_batch x a e.policy.config e.policy.customs e.secrets.compiled m
              (map leaf_of pending.1)) [
                | ok det_lists ↦ insert_all pending.0 pending.1 det_lists
                | err er ↦ pending.0
              ])

  abbrev pub prewarm_ready :
      Analyzer
      → MaskEngine L
      → Option MlRecognizer
      → Text
      → Option Refusal
      → List (Text × Surface)
      → MaskEngine L
  prewarm_ready a e (some m) ml_fp none leaves = record e {
    cache = prewarm_with a e m ml_fp leaves;
  }
  prewarm_ready a e (some m) ml_fp (some reason) leaves = e
  prewarm_ready a e none ml_fp refusal leaves = e

  unfoldable pub prewarm_batch : Analyzer → MaskEngine L → List (Text × Surface) → MaskEngine L
  prewarm_batch a e leaves =
      if is_empty leaves || not e.policy.config.enabled
      then e
      else (let slot = ml_for_mask e.ml in prewarm_ready a e slot.0 slot.1 slot.3 leaves)
