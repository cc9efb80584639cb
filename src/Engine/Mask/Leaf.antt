-- ===== src/Engine/Mask/Leaf.antt =====
-- The masking of one text with a sound cache, against a run without a cache.
use zlau_de_r.Prelude.{ℕ, ◌≡◌, refl, sym, ap, ◌∙◌, inl, inr, subst}
use zlau_de_r.Prelude.{if◌then◌else◌, none, some, is_empty, List, [], Text}
use zlau_de_r.Prelude.{not, ◌||◌, Bool-cases, Option-cases}
use zlau_de_r.Externals.{Externals}
use zlau_de_r.Error.{EngineError, Result, ok, err, ◌>>=◌}
use zlau_de_r.Surface.{Surface}
use zlau_de_r.Store.{SessionStore}
use zlau_de_r.Config.{surface_enabled}
use zlau_de_r.Detect.{Analyzer, CachedDetection}
use zlau_de_r.Manifest.{MaskOutcome, MaskStats, passthrough, no_stats, disabled_stats}
use zlau_de_r.Ml.Slot.{ml_for_mask}
use zlau_de_r.Engine.Apply.{Applied, apply}
use zlau_de_r.Engine.Cache.{LruCache, LruLaws, hash_text}
use zlau_de_r.Engine.Mask.{MaskEngine, stripped_for_key, secret_spans, apply_outcome}
use zlau_de_r.Engine.Mask.{mask_disabled, mask_stripped, mask_leaf, switched_off}
use zlau_de_r.Engine.Mask.Sound.{Settings, settings_of, detected, Sound}
use zlau_de_r.Engine.Mask.Lookup.{Result-cases, Kept, Resolved, resolve-Resolved}

-- What a caller sees: the text, the manifest and the session store, or the error.
abbrev pub view : {L : Type 0} → MaskEngine L × Result MaskOutcome → Result Applied
view (e, err er) = err er
view (e, ok o) = ok (record { out = o.masked_text; manifest = o.manifest; store = e.store })

module _ {L : Type 0} (lru : LruCache L) (laws : LruLaws lru) (x : Externals) (a : Analyzer)
    (now : ℕ) (to_string : EngineError → Text) (seen : Text → Type 0)
    (apart : (t u : Text) → seen t → seen u → hash_text x t ≡ hash_text x u → t ≡ u) where
  -- A run without a cache: what `mask` gives for the settings and the store.
  abbrev pub fresh_stripped : Settings → SessionStore → (ℕ → Text) → Text → Surface → Result Applied
  fresh_stripped s store nonces text surface = elim s.refused [
    | some reason ↦ err EngineError.ml
    | none ↦ detected lru x a seen s text surface >>= λ (dets : List CachedDetection).
        apply x nonces now store text surface s.policy.config dets
  ]

  -- What a step that masks leaves and gives.
  pub record Fresh (e : MaskEngine L) (want : Result Applied)
      (r : MaskEngine L × Result MaskOutcome) : Type 0 where
    pub kept : Kept lru laws x a now to_string seen apart e r.0
    pub result : view r ≡ want

  pub apply_outcome-Fresh :
      (e : MaskEngine L) (nonces : ℕ → Text) (text : Text) (surface : Surface)
      (dets : List CachedDetection) (stats : MaskStats)
      → Sound lru x a seen (settings_of e) e.cache
      → Fresh e
          (apply x nonces now e.store text surface e.policy.config dets)
          (apply_outcome lru x a now to_string e nonces text surface dets stats)
  unfolding apply_outcome
  apply_outcome-Fresh e nonces text surface dets stats sound =
      elim (Result-cases (apply x nonces now e.store text surface e.policy.config dets)) [
        | inl (er, fails) ↦
            rw (apply_outcome, fails)
              (record { kept = record { settings = refl; sound = sound }; result = refl })
        | inr (done, runs) ↦
            rw (apply_outcome, runs)
              (record { kept = record { settings = refl; sound = sound }; result = refl })
      ]

  mask_stripped-Fresh :
      (e : MaskEngine L) (nonces : ℕ → Text) (text : Text) (surface : Surface)
      → seen text
      → Sound lru x a seen (settings_of e) e.cache
      → Fresh e
          (fresh_stripped (settings_of e) e.store nonces text surface)
          (mask_stripped lru x a now to_string e nonces text surface)
  unfolding mask_stripped
  mask_stripped-Fresh e nonces text surface u sound = elim (Option-cases (settings_of e).refused) [
    | inr (reason, p) ↦
        rw (mask_stripped, p)
          (record { kept = record { settings = refl; sound = sound }; result = refl })
    | inl p ↦
        let g = (ml_for_mask e.ml).2 in
        let stats = record no_stats { leaves = 1 } in
        rw (mask_stripped, p)
          (looked e nonces text surface _
            (resolve-Resolved lru laws x a now to_string seen apart e g text surface stats u sound))
  ]
    where
      looked :
          (e : MaskEngine L) (nonces : ℕ → Text) (text : Text) (surface : Surface)
          (r : MaskEngine L × Result (List CachedDetection × MaskStats))
          → Resolved lru laws x a now to_string seen apart e text surface r
          → Fresh e
              (detected lru x a seen (settings_of e) text surface
                >>= λ (dets : List CachedDetection).
                    apply x nonces now e.store text surface e.policy.config dets)
              (elim r.1 [
                | err er ↦ (r.0, err er)
                | ok (dets, stats) ↦
                    apply_outcome lru x a now to_string r.0 nonces text surface dets stats
              ])
      looked e nonces text surface (f, err er) h =
          rw (← h.result) (record { kept = h.kept; result = refl })
      looked e nonces text surface (f, ok (dets, stats)) h =
          let same = ap (λ (s : Settings). s.policy.config) h.kept.settings in
          let out = apply_outcome lru x a now to_string f nonces text surface dets stats in
          let done = apply_outcome-Fresh f nonces text surface dets stats (
            subst (λ (s : Settings). Sound lru x a seen s f.cache) (sym h.kept.settings)
              h.kept.sound) in
          record {
            kept = record {
              settings = done.kept.settings ∙ h.kept.settings;
              sound =
                  subst (λ (s : Settings). Sound lru x a seen s out.0.cache) h.kept.settings
                    done.kept.sound;
            };
            result =
                done.result
                ∙ (λ i. apply x nonces now (h.store i) text surface (same i) dets)
                ∙ ap
                    (λ (d : Result (List CachedDetection)). d >>= λ (ds : List CachedDetection).
                      apply x nonces now e.store text surface e.policy.config ds)
                    h.result;
          }

  abbrev pub fresh_disabled : Settings → SessionStore → (ℕ → Text) → Text → Surface → Result Applied
  fresh_disabled s store nonces text surface =
      let dets = secret_spans s.secrets text surface in
      if is_empty dets
      then ok (record { out = text; manifest = []; store = store })
      else apply x nonces now store text surface s.policy.config dets

  mask_disabled-Fresh :
      (e : MaskEngine L) (nonces : ℕ → Text) (text : Text) (surface : Surface)
      → Sound lru x a seen (settings_of e) e.cache
      → Fresh e
          (fresh_disabled (settings_of e) e.store nonces text surface)
          (mask_disabled lru x a now to_string e nonces text surface)
  unfolding mask_disabled passthrough
  mask_disabled-Fresh e nonces text surface sound =
      let dets = secret_spans e.secrets text surface in
      elim (Bool-cases (is_empty dets)) [
        | inl p ↦
            rw (mask_disabled, p)
              (record { kept = record { settings = refl; sound = sound }; result = refl })
        | inr p ↦
            rw (mask_disabled, p)
              (apply_outcome-Fresh e nonces text surface dets disabled_stats sound)
      ]

  -- `mask` on one text, without a cache.
  abbrev pub fresh_leaf : Settings → SessionStore → (ℕ → Text) → Text → Surface → Result Applied
  fresh_leaf s store nonces text surface =
      if not s.policy.config.enabled || not (surface_enabled s.policy.config surface)
      then fresh_disabled s store nonces text surface
      else fresh_stripped s store nonces (stripped_for_key s.policy text surface) surface

  pub mask_leaf-Fresh :
      (e : MaskEngine L) (nonces : ℕ → Text) (text : Text) (surface : Surface)
      → seen (stripped_for_key e.policy text surface)
      → Sound lru x a seen (settings_of e) e.cache
      → Fresh e
          (fresh_leaf (settings_of e) e.store nonces text surface)
          (mask_leaf lru x a now to_string e nonces text surface)
  unfolding mask_leaf
  mask_leaf-Fresh e nonces text surface u sound =
      elim (Bool-cases (switched_off lru x a now to_string e surface)) [
        | inl off ↦ rw (mask_leaf, off) (mask_disabled-Fresh e nonces text surface sound)
        | inr on ↦
            rw (mask_leaf, on)
              (mask_stripped-Fresh e nonces (stripped_for_key e.policy text surface) surface u
                sound)
      ]
