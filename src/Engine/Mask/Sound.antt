-- ===== src/Engine/Mask/Sound.antt =====
-- When the detection cache agrees with the detection.
use zlau_de_r.Prelude.{◌≡◌, refl, sym, ap, ◌∙◌, ◌⊎◌, inl, inr, Bool, true, false}
use zlau_de_r.Prelude.{if◌then◌else◌, Option, some, List, length, Text, Bool-cases, ◌==◌, ltb, not}
use zlau_de_r.Externals.{Externals}
use zlau_de_r.Error.{Result, ok}
use zlau_de_r.Surface.{Surface}
use zlau_de_r.Detect.{Analyzer, CachedDetection, MlRecognizer}
use zlau_de_r.Detect.Passes.{run_detection}
use zlau_de_r.Ml.Slot.{Refusal, ml_for_mask}
use zlau_de_r.Engine.Cache.{LruCache, LruLaws, DetectionCache, CacheKey, hash_text, get, insert}
use zlau_de_r.Engine.Cache.{max_cached_detections}
use zlau_de_r.Engine.Mask.{Policy, SecretSet, MaskEngine, key_of}

-- What the detection of a text depends on, and what a call of `mask` leaves alone.
pub record Settings : Type 0 where
  pub policy : Policy
  pub secrets : SecretSet
  pub recognizer : Option MlRecognizer
  pub ml_fp : Text
  pub refused : Option Refusal

abbrev pub settings_of : {L : Type 0} → MaskEngine L → Settings
settings_of e =
    let slot = ml_for_mask e.ml in
    record {
      policy = e.policy;
      secrets = e.secrets;
      recognizer = slot.0;
      ml_fp = slot.1;
      refused = slot.3;
    }

module _ {L : Type 0} (lru : LruCache L) (x : Externals) (a : Analyzer) (seen : Text → Type 0) where
  abbrev pub detected : Settings → Text → Surface → Result (List CachedDetection)
  detected s text surface =
      run_detection x a s.policy.config s.policy.customs s.secrets.compiled s.recognizer text
        surface

  abbrev pub key : Settings → Text → Surface → CacheKey
  key s text surface = key_of x s.policy s.secrets s.ml_fp text surface

  -- What the cache has of the texts that were seen, under the settings, is what a run would give.
  pub record Sound (s : Settings) (c : DetectionCache L) : Type 0 where
    pub agrees :
        (text : Text) (surface : Surface) (dets : List CachedDetection)
        → seen text
        → (get lru c (key s text surface)).1 ≡ some dets
        → detected s text surface ≡ ok dets

  -- The settings and the agreement of the cache with them.
  pub record SoundEngine (e : MaskEngine L) : Type 0 where
    pub sound : Sound (settings_of e) e.cache

  module _ (laws : LruLaws lru)
      (apart : (t u : Text) → seen t → seen u → hash_text x t ≡ hash_text x u → t ≡ u) where
    get-get :
        (c : DetectionCache L) (k j : CacheKey) → (get lru (get lru c k).0 j).1 ≡ (get lru c j).1
    unfolding get
    get-get c k j = elim (Bool-cases (c.cap == 0)) [
      | inl off ↦ rw (get, off) (rw off refl)
      | inr on ↦
          rw (get, on)
            (rw on (
              laws.get_peek (lru.lru_get c.inner k).0 j
              ∙ laws.get_keeps c.inner k j
              ∙ sym (laws.get_peek c.inner j)))
    ]

    pub Sound-get :
        (s : Settings) (c : DetectionCache L) (k : CacheKey) → Sound s c → Sound s (get lru c k).0
    Sound-get s c k h = record {
      agrees = λ text surface dets u found.
          h.agrees text surface dets u (sym (get-get c k (key s text surface)) ∙ found);
    }

    get-peek :
        (c : DetectionCache L) (j : CacheKey)
        → (c.cap == 0) ≡ false
        → (get lru c j).1 ≡ lru.peek c.inner j
    unfolding get
    get-peek c j on = rw (get, on) (laws.get_peek c.inner j)

    peek-resized :
        (b : Bool) (c : DetectionCache L) (j : CacheKey) (w : List CachedDetection)
        → lru.peek (if b then lru.resize c.inner c.cap else c.inner) j ≡ some w
        → lru.peek c.inner j ≡ some w
    peek-resized true c j w h = laws.resize_drops c.inner c.cap j w h
    peek-resized false c j w h = h

    get-insert :
        (c : DetectionCache L) (k j : CacheKey) (v w : List CachedDetection)
        → (get lru (insert lru c k v) j).1 ≡ some w
        → ((j ≡ k) × (w ≡ v)) ⊎ ((get lru c j).1 ≡ some w)
    unfolding insert
    get-insert c k j v w found = elim (Bool-cases (ltb max_cached_detections (length v))) [
      | inl long ↦ inr (rw (insert, long) at found)
      | inr short ↦ elim (Bool-cases (c.cap == 0)) [
        | inl off ↦ inr (rw (insert, short, off) at found)
        | inr on ↦
            let resized = not (lru.capacity c.inner == c.cap) in
            let inner = if resized then lru.resize c.inner c.cap else c.inner in
            let next : DetectionCache L = record { inner = lru.lru_put inner k v; cap = c.cap } in
            let stored : insert lru c k v ≡ next = rw (insert, short, on) refl in
            let peeked =
              sym (get-peek next j on)
              ∙ ap (λ (d : DetectionCache L). (get lru d j).1) (sym stored)
              ∙ found in
            elim (laws.put_adds inner k j v w peeked) [
              | inl this ↦ inl this
              | inr before ↦ inr (get-peek c j on ∙ peek-resized resized c j w before)
            ]
      ]
    ]

    pub Sound-insert :
        (s : Settings) (c : DetectionCache L) (text : Text) (surface : Surface)
        (dets : List CachedDetection)
        → seen text
        → detected s text surface ≡ ok dets
        → Sound s c
        → Sound s (insert lru c (key s text surface) dets)
    Sound-insert s c text surface dets u run h = record {
      agrees = λ t f ds v found.
          elim (get-insert c (key s text surface) (key s t f) dets ds found) [
            | inr before ↦ h.agrees t f ds v before
            | inl (same, value) ↦
                let texts = apart t text v u (ap (λ (k : CacheKey). k.text_hash) same) in
                let surfaces = ap (λ (k : CacheKey). k.surface) same in
                rw (texts, surfaces, value) run
          ];
    }
