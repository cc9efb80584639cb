-- ===== src/Engine/Mask.antt =====
-- `MaskEngine::mask` (lib.rs): the user bypass, the policy's switches, the recognizer slot, the
-- detection cache and the splicing of the tokens. The locks are left out: a call runs by itself.
pub mod Prewarm
pub mod Sound
pub mod Lookup
pub mod Leaf
pub mod Whole
pub mod Reference
pub mod Warm
use package.zlau_de_r.Prelude.{
  ℕ, zero, suc, ◌+◌, Bool, true, false, not, ◌&&◌, ◌||◌, if◌then◌else◌, Option, none, some,
}
use package.zlau_de_r.Prelude.{is_some, is_empty, List, [], ◌∷◌, ◌++◌, Text}
use package.zlau_de_r.Externals.{Externals}
use package.zlau_de_r.Error.{EngineError, Result, ok, err}
use package.zlau_de_r.Surface.{Surface}
use package.zlau_de_r.Store.{SessionStore}
use package.zlau_de_r.Config.{EngineConfig, is_active, contained_in, strip, surface_enabled}
use package.zlau_de_r.Detect.{Analyzer, CachedDetection, CompiledCustom, CompiledSecret}
use package.zlau_de_r.Detect.{MlRecognizer, detect_secrets, resolve_overlaps}
use package.zlau_de_r.Detect.Passes.{run_detection}
use package.zlau_de_r.Manifest.{MaskOutcome, MaskStats, passthrough, disabled_stats, no_stats}
use package.zlau_de_r.Manifest.{merge, merge_stats}
use package.zlau_de_r.Ml.Slot.{MlRuntime, ml_for_mask, ml_clear_runtime_failure}
use package.zlau_de_r.Ml.Slot.{ml_note_runtime_failure}
use package.zlau_de_r.Engine.Apply.{Applied, apply, apply_store}
use package.zlau_de_r.Engine.Bypass.{UserBypassSegment, user_bypass_segments}
use package.zlau_de_r.Engine.Cache.{LruCache, DetectionCache, CacheKey, hash_text, get, insert}

-- `policy_fp` is the fingerprint of what the detection depends on in the configuration.
pub record Policy : Type 0 where
  pub config : EngineConfig
  pub customs : List CompiledCustom
  pub policy_fp : Text

-- The snapshot of the registered secrets.
pub record SecretSet : Type 0 where
  pub compiled : List CompiledSecret
  pub secrets_fp : Text

pub record MaskEngine (L : Type 0) : Type 0 where
  pub policy : Policy
  pub secrets : SecretSet
  pub ml : MlRuntime
  pub cache : DetectionCache L
  pub store : SessionStore

abbrev pub is_user_message : Surface → Bool
is_user_message Surface.user_message = true
is_user_message _ = false

abbrev pub is_assistant_text : Surface → Bool
is_assistant_text Surface.assistant_text = true
is_assistant_text _ = false

-- The text without the reveal marks that an earlier answer carried.
unfoldable pub stripped_for_key : Policy → Text → Surface → Text
stripped_for_key policy text surface =
    let marker = policy.config.reveal_marker in
    if is_assistant_text surface && (is_active marker && contained_in marker text)
    then strip marker text
    else text

-- The registered secrets of a text, apart.
unfoldable pub secret_spans : SecretSet → Text → Surface → List CachedDetection
secret_spans secrets text surface =
    if is_empty secrets.compiled
    then []
    else resolve_overlaps (detect_secrets secrets.compiled text surface)

abbrev pub push_str : MaskOutcome → Text → MaskOutcome
push_str o t = record o { masked_text = o.masked_text ++ t }

abbrev pub key_of : Externals → Policy → SecretSet → Text → Text → Surface → CacheKey
key_of x policy secrets ml_fp text surface = record {
  text_hash = hash_text x text;
  surface = surface;
  policy_fp = policy.policy_fp;
  ml_fp = ml_fp;
  secrets_fp = secrets.secrets_fp;
}

-- The time, the analyzer and the message of an error are the same for a whole call.
module _ {L : Type 0} (lru : LruCache L) (x : Externals) (a : Analyzer) (now : ℕ)
    (to_string : EngineError → Text) where
  -- The run of `apply`, and the outcome around it.
  unfoldable pub apply_outcome :
      MaskEngine L
      → (ℕ → Text)
      → Text
      → Surface
      → List CachedDetection
      → MaskStats
      → MaskEngine L × Result MaskOutcome
  apply_outcome e nonces text surface dets stats =
      elim (apply x nonces now e.store text surface e.policy.config dets) [
        | err er ↦ (
          record e { store = apply_store x nonces now e.store text surface e.policy.config dets },
          err er,
        )
        | ok applied ↦ (
          record e { store = applied.store },
          ok (record { masked_text = applied.out; manifest = applied.manifest; stats = stats }),
        )
      ]

  unfoldable pub detect_and_cache :
      MaskEngine L
      → Option MlRecognizer
      → ℕ
      → Text
      → Surface
      → CacheKey
      → MaskStats
      → MaskEngine L × Result (List CachedDetection × MaskStats)
  detect_and_cache e ml generation text surface key stats =
      let ran = if is_some ml then record stats { ml_ran = 1 } else stats in
      elim (run_detection x a e.policy.config e.policy.customs e.secrets.compiled ml text surface) [
        | ok d ↦ (
          record e {
            ml = if is_some ml then ml_clear_runtime_failure e.ml generation else e.ml;
            cache = insert lru e.cache key d;
          },
          ok (d, record ran { fresh_miss = 1 }),
        )
        | err er ↦ (
          record e {
            ml =
                if is_some ml then ml_note_runtime_failure e.ml generation (to_string er) else e.ml;
          },
          err er,
        )
      ]

  -- The lookup under the gate, where a recognizer is to run.
  unfoldable pub gated :
      MaskEngine L
      → Option MlRecognizer
      → ℕ
      → Text
      → Surface
      → CacheKey
      → MaskStats
      → MaskEngine L × Result (List CachedDetection × MaskStats)
  gated e none generation text surface key stats =
      detect_and_cache e none generation text surface key stats
  gated e (some m) generation text surface key stats =
      let r = get lru e.cache key in
      elim r.1 [
        | some hit ↦ (record e { cache = r.0 }, ok (hit, record stats { hit = 1 }))
        | none ↦
            detect_and_cache (record e { cache = r.0 }) (some m) generation text surface key stats
      ]

  -- The detections of a text: from the cache, or of a run.
  unfoldable pub resolve :
      MaskEngine L
      → Option MlRecognizer
      → ℕ
      → Text
      → Surface
      → CacheKey
      → MaskStats
      → MaskEngine L × Result (List CachedDetection × MaskStats)
  resolve e ml generation text surface key stats =
      let r = get lru e.cache key in
      elim r.1 [
        | some hit ↦ (record e { cache = r.0 }, ok (hit, record stats { hit = 1 }))
        | none ↦ gated (record e { cache = r.0 }) ml generation text surface key stats
      ]

  -- A surface or an engine that is switched off: the registered secrets alone.
  unfoldable pub mask_disabled :
      MaskEngine L → (ℕ → Text) → Text → Surface → MaskEngine L × Result MaskOutcome
  mask_disabled e nonces text surface =
      let dets = secret_spans e.secrets text surface in
      if is_empty dets
      then (e, ok (passthrough text disabled_stats))
      else apply_outcome e nonces text surface dets disabled_stats

  -- What follows the switches, on the text without its reveal marks.
  unfoldable pub mask_stripped :
      MaskEngine L → (ℕ → Text) → Text → Surface → MaskEngine L × Result MaskOutcome
  mask_stripped e nonces text surface =
      let (ml, ml_fp, generation, refusal) = ml_for_mask e.ml in
      elim refusal [
        | some reason ↦ (e, err EngineError.ml)
        | none ↦
            let r =
              resolve e ml generation text surface (key_of x e.policy e.secrets ml_fp text surface)
                (record no_stats { leaves = 1 }) in
            elim r.1 [
              | err er ↦ (r.0, err er)
              | ok (dets, stats) ↦ apply_outcome r.0 nonces text surface dets stats
            ]
      ]

  abbrev pub switched_off : MaskEngine L → Surface → Bool
  switched_off e surface =
      not e.policy.config.enabled || not (surface_enabled e.policy.config surface)

  -- `mask` on a text that is not cut at bypass marks.
  unfoldable pub mask_leaf :
      MaskEngine L → (ℕ → Text) → Text → Surface → MaskEngine L × Result MaskOutcome
  mask_leaf e nonces text surface =
      if switched_off e surface
      then mask_disabled e nonces text surface
      else mask_stripped e nonces (stripped_for_key e.policy text surface) surface

  -- The segments of a user message, given the masking of one.
  unfoldable pub mask_segments :
      (MaskEngine L → (ℕ → ℕ → Text) → Text → MaskEngine L × Result MaskOutcome)
      → MaskEngine L
      → (ℕ → ℕ → Text)
      → ℕ
      → List UserBypassSegment
      → MaskOutcome
      → MaskEngine L × Result MaskOutcome
  mask_segments masks e seeds n [] out = (e, ok out)
  mask_segments masks e seeds n (UserBypassSegment.mask [] ∷ rest) out =
      mask_segments masks e seeds (suc n) rest out
  mask_segments masks e seeds n (UserBypassSegment.mask (c ∷ s) ∷ rest) out =
      let r = masks e (λ k. seeds (n + k)) (c ∷ s) in
      elim r.1 [
        | err er ↦ (r.0, err er)
        | ok o ↦ mask_segments masks r.0 seeds (suc n) rest (record {
          masked_text = out.masked_text ++ o.masked_text;
          manifest = merge out.manifest o.manifest;
          stats = merge_stats out.stats o.stats;
        })
      ]
  mask_segments masks e seeds n (UserBypassSegment.bypass s ∷ rest) out =
      let dets = secret_spans e.secrets s Surface.user_message in
      elim dets [
        | [] ↦ mask_segments masks e seeds (suc n) rest (push_str out s)
        | d ∷ ds ↦
            let r = apply_outcome e (seeds n) s Surface.user_message (d ∷ ds) no_stats in
            elim r.1 [
              | err er ↦ (r.0, err er)
              | ok o ↦ mask_segments masks r.0 seeds (suc n) rest (record {
                masked_text = out.masked_text ++ o.masked_text;
                manifest = merge out.manifest o.manifest;
                stats = out.stats;
              })
            ]
      ]

  -- `mask`, which masks the segments of a user message by calls of itself; the fuel bounds the
  -- depth of the calls.
  unfoldable pub mask :
      ℕ → MaskEngine L → (ℕ → ℕ → Text) → Text → Surface → MaskEngine L × Result MaskOutcome
  mask zero e seeds text surface = mask_leaf e (seeds 0) text surface
  mask (suc fuel) e seeds text surface =
      if is_user_message surface
      then elim (user_bypass_segments text) [
        | none ↦ mask_leaf e (seeds 0) text surface
        | some segments ↦
            mask_segments (λ e' seeds' s. mask fuel e' seeds' s Surface.user_message) e seeds 0
              segments (passthrough [] no_stats)
      ]
      else mask_leaf e (seeds 0) text surface
