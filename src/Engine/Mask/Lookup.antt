-- ===== src/Engine/Mask/Lookup.antt =====
-- The detections that `mask` looks up or computes, against a run of the detection.
use zlau_de_r.Prelude.{ℕ, ◌≡◌, refl, sym, ◌⊎◌, inl, inr, subst, Bool, true, false}
use zlau_de_r.Prelude.{if◌then◌else◌, Option, none, some, is_some, List, Text}
use zlau_de_r.Prelude.{not, ◌||◌, ◌==◌, Bool-cases, Option-cases}
use zlau_de_r.Externals.{Externals}
use zlau_de_r.Error.{EngineError, Result, ok, err}
use zlau_de_r.Surface.{Surface}
use zlau_de_r.Store.{SessionStore}
use zlau_de_r.Detect.{Analyzer, CachedDetection, MlRecognizer}
use zlau_de_r.Manifest.{MaskStats}
use zlau_de_r.Ml.Slot.{MlRuntime, ml_for_mask, ml_clear_runtime_failure, ml_note_runtime_failure}
use zlau_de_r.Engine.Cache.{LruCache, LruLaws, DetectionCache, CacheKey, hash_text, get, insert}
use zlau_de_r.Engine.Mask.{MaskEngine, resolve, gated}
use zlau_de_r.Engine.Mask.{detect_and_cache}
use zlau_de_r.Engine.Mask.Sound.{settings_of, detected, key, Sound, Sound-get, Sound-insert}

pub Result-cases {ℓ} :
    {A : Type ℓ} (r : Result A) → ((e : EngineError) × (r ≡ err e)) ⊎ ((a : A) × (r ≡ ok a))
Result-cases (err e) = inl (e, refl)
Result-cases (ok a) = inr (a, refl)

abbrev pub first : {A B : Type 0} → Result (A × B) → Result A
first (err er) = err er
first (ok (a, b)) = ok a

ml_for_mask-cleared :
    (ml : MlRuntime) (g : ℕ) → ml_for_mask (ml_clear_runtime_failure ml g) ≡ ml_for_mask ml
unfolding ml_for_mask ml_clear_runtime_failure
ml_for_mask-cleared ml g =
    elim (Bool-cases (not (ml.generation == g) || not (is_some ml.last_runtime_error))) [
      | inl e ↦ rw (ml_clear_runtime_failure, e) refl
      | inr e ↦ rw (ml_clear_runtime_failure, e) refl
    ]

ml_for_mask-noted :
    (ml : MlRuntime) (g : ℕ) (msg : Text)
    → ml_for_mask (ml_note_runtime_failure ml g msg) ≡ ml_for_mask ml
unfolding ml_for_mask ml_note_runtime_failure
ml_for_mask-noted ml g msg = elim (Bool-cases (not (ml.generation == g))) [
  | inl e ↦ rw (ml_note_runtime_failure, e) refl
  | inr e ↦ rw (ml_note_runtime_failure, e) refl
]

settings_of-slot :
    {L : Type 0} (e : MaskEngine L) (ml : MlRuntime) (c : DetectionCache L) (s : SessionStore)
    → ml_for_mask ml ≡ ml_for_mask e.ml
    → settings_of (record e { ml = ml; cache = c; store = s }) ≡ settings_of e
settings_of-slot e ml c s h i = record {
  policy = e.policy;
  secrets = e.secrets;
  recognizer = (h i).0;
  ml_fp = (h i).1;
  refused = (h i).3;
}

module _ {L : Type 0} (lru : LruCache L) (laws : LruLaws lru) (x : Externals) (a : Analyzer)
    (now : ℕ) (to_string : EngineError → Text) (seen : Text → Type 0)
    (apart : (t u : Text) → seen t → seen u → hash_text x t ≡ hash_text x u → t ≡ u) where
  -- What a step leaves: the settings, and a cache that agrees with them.
  pub record Kept (e f : MaskEngine L) : Type 0 where
    pub settings : settings_of f ≡ settings_of e
    pub sound : Sound lru x a seen (settings_of e) f.cache

  -- The detections that a step gives are those of a run, and it leaves the store.
  pub record Resolved (e : MaskEngine L) (text : Text) (surface : Surface)
      (r : MaskEngine L × Result (List CachedDetection × MaskStats)) : Type 0 where
    pub kept : Kept e r.0
    pub store : r.0.store ≡ e.store
    pub result : first r.1 ≡ detected lru x a seen (settings_of e) text surface

  abbrev pub key_for : MaskEngine L → Text → Surface → CacheKey
  key_for e text surface = key lru x a seen (settings_of e) text surface

  pub detect_and_cache-Resolved :
      (e : MaskEngine L) (g : ℕ) (text : Text) (surface : Surface) (stats : MaskStats)
      → seen text
      → Sound lru x a seen (settings_of e) e.cache
      → Resolved e text surface (
          detect_and_cache lru x a now to_string e
            (settings_of e).recognizer
            g
            text
            surface
            (key_for e text surface)
            stats)
  unfolding detect_and_cache
  detect_and_cache-Resolved e g text surface stats u sound =
      let s = settings_of e in
      elim (Result-cases (detected lru x a seen s text surface)) [
        | inl (er, fails) ↦
            rw (detect_and_cache, fails)
              (record {
                kept = record {
                  settings = settings_of-slot e _ e.cache e.store (noted (is_some s.recognizer) er);
                  sound = sound;
                };
                store = refl;
                result = sym fails;
              })
        | inr (d, runs) ↦
            rw (detect_and_cache, runs)
              (record {
                kept = record {
                  settings =
                      settings_of-slot e _ (insert lru e.cache (key_for e text surface) d) e.store
                        (cleared (is_some s.recognizer));
                  sound =
                      Sound-insert lru x a seen laws apart s e.cache text surface d u runs sound;
                };
                store = refl;
                result = sym runs;
              })
      ]
    where
      noted :
          (b : Bool) (er : EngineError)
          → ml_for_mask (if b then ml_note_runtime_failure e.ml g (to_string er) else e.ml)
            ≡ ml_for_mask e.ml
      noted true er = ml_for_mask-noted e.ml g (to_string er)
      noted false er = refl

      cleared :
          (b : Bool)
          → ml_for_mask (if b then ml_clear_runtime_failure e.ml g else e.ml) ≡ ml_for_mask e.ml
      cleared true = ml_for_mask-cleared e.ml g
      cleared false = refl

  abbrev looked_up : MaskEngine L → CacheKey → MaskEngine L
  looked_up e k = record e { cache = (get lru e.cache k).0 }

  after_lookup :
      (e : MaskEngine L) (k : CacheKey) (text : Text) (surface : Surface)
      (r : MaskEngine L × Result (List CachedDetection × MaskStats))
      → Resolved (looked_up e k) text surface r
      → Resolved e text surface r
  after_lookup e k text surface r h = record {
    kept = record { settings = h.kept.settings; sound = h.kept.sound };
    store = h.store;
    result = h.result;
  }

  hit_Resolved :
      (e : MaskEngine L) (text : Text) (surface : Surface) (stats : MaskStats)
      (hit : List CachedDetection)
      → seen text
      → Sound lru x a seen (settings_of e) e.cache
      → (get lru e.cache (key_for e text surface)).1 ≡ some hit
      → Resolved e text surface (looked_up e (key_for e text surface), ok (hit, stats))
  hit_Resolved e text surface stats hit u sound found = record {
    kept = record {
      settings = refl;
      sound =
          Sound-get lru x a seen laws apart (settings_of e) e.cache (key_for e text surface) sound;
    };
    store = refl;
    result = sym (sound.agrees text surface hit u found);
  }

  gated-Resolved :
      (e : MaskEngine L) (m : Option MlRecognizer) (g : ℕ) (text : Text) (surface : Surface)
      (stats : MaskStats)
      → (settings_of e).recognizer ≡ m
      → seen text
      → Sound lru x a seen (settings_of e) e.cache
      → Resolved e text surface
          (gated lru x a now to_string e m g text surface (key_for e text surface) stats)
  unfolding gated
  gated-Resolved e none g text surface stats q u sound =
      subst
        (λ (m : Option MlRecognizer). Resolved e text surface (
          detect_and_cache lru x a now to_string e m g text surface (key_for e text surface) stats))
        q (detect_and_cache-Resolved e g text surface stats u sound)
  gated-Resolved e (some m) g text surface stats q u sound =
      elim (Option-cases (get lru e.cache (key_for e text surface)).1) [
        | inr (hit, found) ↦
            rw (gated, found)
              (hit_Resolved e text surface (record stats { hit = 1 }) hit u sound found)
        | inl missed ↦
            let k = key_for e text surface in
            rw (gated, missed)
              (after_lookup e k text surface _ (
                subst
                  (λ (r : Option MlRecognizer). Resolved (looked_up e k) text surface (
                    detect_and_cache lru x a now to_string (looked_up e k) r g text surface k
                      stats))
                  q
                  (detect_and_cache-Resolved (looked_up e k) g text surface stats u
                    (Sound-get lru x a seen laws apart (settings_of e) e.cache k sound))))
      ]

  pub resolve-Resolved :
      (e : MaskEngine L) (g : ℕ) (text : Text) (surface : Surface) (stats : MaskStats)
      → seen text
      → Sound lru x a seen (settings_of e) e.cache
      → Resolved e text surface (
          resolve lru x a now to_string e
            (settings_of e).recognizer
            g
            text
            surface
            (key_for e text surface)
            stats)
  unfolding resolve
  resolve-Resolved e g text surface stats u sound =
      let k = key_for e text surface in
      elim (Option-cases (get lru e.cache k).1) [
        | inr (hit, found) ↦
            rw (resolve, found)
              (hit_Resolved e text surface (record stats { hit = 1 }) hit u sound found)
        | inl missed ↦
            rw (resolve, missed)
              (after_lookup e k text surface _ (
                gated-Resolved (looked_up e k) (settings_of e).recognizer g text surface stats refl
                  u (Sound-get lru x a seen laws apart (settings_of e) e.cache k sound)))
      ]
