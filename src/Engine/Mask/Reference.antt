-- ===== src/Engine/Mask/Reference.antt =====
-- `mask` with its cache against a reference that has none.
use zlau_de_r.Prelude.{ℕ, suc, ◌+◌, ◌≡◌, refl, sym, ap, ◌∙◌, inl, inr, subst, Bool, true, false}
use zlau_de_r.Prelude.{if◌then◌else◌, Option, none, some, List, [], ◌∷◌, ◌++◌, Text, All}
use zlau_de_r.Prelude.{List-cases}
use zlau_de_r.Externals.{Externals}
use zlau_de_r.Error.{EngineError, Result, ok, err, ◌>>=◌}
use zlau_de_r.Surface.{Surface}
use zlau_de_r.Store.{SessionStore}
use zlau_de_r.Detect.{Analyzer}
use zlau_de_r.Manifest.{MaskOutcome, passthrough, no_stats, merge}
use zlau_de_r.Engine.Apply.{Applied, apply}
use zlau_de_r.Engine.Bypass.{UserBypassSegment, user_bypass_segments}
use zlau_de_r.Engine.Cache.{LruCache, LruLaws, hash_text}
use zlau_de_r.Engine.Mask.{MaskEngine, stripped_for_key, secret_spans}
use zlau_de_r.Engine.Mask.{mask_segments, mask, is_user_message, push_str}
use zlau_de_r.Engine.Mask.Lookup.{Kept}
use zlau_de_r.Engine.Mask.Leaf.{view, Fresh, apply_outcome-Fresh, fresh_leaf, mask_leaf-Fresh}
use zlau_de_r.Engine.Mask.Sound.{Settings, settings_of, Sound}
use zlau_de_r.Engine.Mask.Whole.{masking, with_outcome, with_text, after, mask-depth}

module _ {L : Type 0} (lru : LruCache L) (laws : LruLaws lru) (x : Externals) (a : Analyzer)
    (now : ℕ) (to_string : EngineError → Text) (seen : Text → Type 0)
    (apart : (t u : Text) → seen t → seen u → hash_text x t ≡ hash_text x u → t ≡ u) where
  -- The text of a segment that is masked, of a leaf, and of the leaves of a message.
  abbrev SeenSegment : UserBypassSegment → Type 0
  SeenSegment (UserBypassSegment.mask s) = seen s
  SeenSegment (UserBypassSegment.bypass s) = Unit

  abbrev pub Seen : Settings → Text → Surface → Type 0
  Seen s text surface =
      seen (stripped_for_key s.policy text surface)
      × ((segments : List UserBypassSegment)
          → user_bypass_segments text ≡ some segments
          → All SeenSegment segments)

  abbrev leaf : Settings → SessionStore → (ℕ → Text) → Text → Surface → Result Applied
  leaf = fresh_leaf lru laws x a now to_string seen apart

  -- What a run without a cache gives for the segments of a user message.
  abbrev pub fresh_segments :
      Settings → (ℕ → ℕ → Text) → ℕ → List UserBypassSegment → Applied → Result Applied
  fresh_segments s seeds n [] done = ok done
  fresh_segments s seeds n (UserBypassSegment.mask [] ∷ rest) done =
      fresh_segments s seeds (suc n) rest done
  fresh_segments s seeds n (UserBypassSegment.mask (c ∷ t) ∷ rest) done =
      leaf s done.store (seeds (n + 0)) (c ∷ t) Surface.user_message >>= λ (o : Applied).
      fresh_segments s seeds (suc n) rest (record {
        out = done.out ++ o.out;
        manifest = merge done.manifest o.manifest;
        store = o.store;
      })
  fresh_segments s seeds n (UserBypassSegment.bypass t ∷ rest) done =
      elim (secret_spans s.secrets t Surface.user_message) [
        | [] ↦ fresh_segments s seeds (suc n) rest (record done { out = done.out ++ t })
        | d ∷ ds ↦
            apply x (seeds n) now done.store t Surface.user_message s.policy.config (d ∷ ds)
            >>= λ (o : Applied). fresh_segments s seeds (suc n) rest (record {
              out = done.out ++ o.out;
              manifest = merge done.manifest o.manifest;
              store = o.store;
            })
      ]

  -- `mask` without a cache, as a function of the settings and the session store.
  abbrev pub fresh : Settings → SessionStore → (ℕ → ℕ → Text) → Text → Surface → Result Applied
  fresh s store seeds text surface =
      if is_user_message surface
      then elim (user_bypass_segments text) [
        | none ↦ leaf s store (seeds 0) text surface
        | some segments ↦
            fresh_segments s seeds 0 segments (record { out = []; manifest = []; store = store })
      ]
      else leaf s store (seeds 0) text surface

  abbrev KeptHere : MaskEngine L → MaskEngine L → Type 0
  KeptHere = Kept lru laws x a now to_string seen apart

  abbrev FreshHere : MaskEngine L → Result Applied → MaskEngine L × Result MaskOutcome → Type 0
  FreshHere = Fresh lru laws x a now to_string seen apart

  -- A step, and what follows it.
  Fresh-after :
      (e : MaskEngine L) (want : Result Applied) (r : MaskEngine L × Result MaskOutcome)
      (seeds : ℕ → ℕ → Text) (i : ℕ) (rest : List UserBypassSegment)
      (add : MaskOutcome → MaskOutcome) (step : Applied → Result Applied)
      → FreshHere e want r
      → ((f : MaskEngine L) (o : MaskOutcome)
          → KeptHere e f
          → FreshHere f
              (step (record { out = o.masked_text; manifest = o.manifest; store = f.store }))
              (mask_segments lru x a now to_string
                (masking lru x a now to_string 0)
                f
                seeds
                (suc i)
                rest
                (add o)))
      → FreshHere e
          (want >>= step)
          (after lru x a now to_string (masking lru x a now to_string 0) seeds i rest add r)
  Fresh-after e want (f, err er) seeds i rest add step h next = record {
    kept = h.kept;
    result = ap (λ (w : Result Applied). w >>= step) h.result;
  }
  Fresh-after e want (f, ok o) seeds i rest add step h next =
      let n = next f o h.kept in
      let last =
        mask_segments lru x a now to_string (masking lru x a now to_string 0) f seeds (suc i) rest
          (add o) in
      record {
        kept = record {
          settings = n.kept.settings ∙ h.kept.settings;
          sound =
              subst (λ (s : Settings). Sound lru x a seen s last.0.cache) h.kept.settings
                n.kept.sound;
        };
        result = n.result ∙ ap (λ (w : Result Applied). w >>= step) h.result;
      }

  -- The agreement of the cache after a step that kept the settings.
  Kept-Sound : (e f : MaskEngine L) → KeptHere e f → Sound lru x a seen (settings_of f) f.cache
  Kept-Sound e f k = subst (λ (s : Settings). Sound lru x a seen s f.cache) (sym k.settings) k.sound

  Fresh-settings :
      (f : MaskEngine L) (s : Settings) (want : Settings → Result Applied)
      (r : MaskEngine L × Result MaskOutcome)
      → settings_of f ≡ s
      → FreshHere f (want (settings_of f)) r
      → FreshHere f (want s) r
  Fresh-settings f s want r same h = record { kept = h.kept; result = h.result ∙ ap want same }

  abbrev done : MaskEngine L → MaskOutcome → Applied
  done e o = record { out = o.masked_text; manifest = o.manifest; store = e.store }

  mask_segments-Fresh :
      (e : MaskEngine L) (seeds : ℕ → ℕ → Text) (i : ℕ) (segments : List UserBypassSegment)
      (out : MaskOutcome)
      → All SeenSegment segments
      → Sound lru x a seen (settings_of e) e.cache
      → FreshHere e (fresh_segments (settings_of e) seeds i segments (done e out)) (
          mask_segments lru x a now to_string
            (masking lru x a now to_string 0)
            e
            seeds
            i
            segments
            out)
  unfolding mask_segments mask stripped_for_key
  mask_segments-Fresh e seeds i [] out u sound = record {
    kept = record { settings = refl; sound = sound };
    result = refl;
  }
  mask_segments-Fresh e seeds i (UserBypassSegment.mask [] ∷ rest) out u sound =
      mask_segments-Fresh e seeds (suc i) rest out u.1 sound
  mask_segments-Fresh e seeds i (UserBypassSegment.mask (c ∷ t) ∷ rest) out u sound =
      Fresh-after e _ _ seeds i rest (with_outcome lru x a now to_string out)
        (λ o. fresh_segments (settings_of e) seeds (suc i) rest (record {
          out = out.masked_text ++ o.out;
          manifest = merge out.manifest o.manifest;
          store = o.store;
        }))
        (mask_leaf-Fresh lru laws x a now to_string seen apart e (seeds (i + 0)) (c ∷ t)
          Surface.user_message u.0 sound)
        (λ f o k.
          Fresh-settings f (settings_of e)
            (λ s.
              fresh_segments s seeds (suc i) rest
                (done f (with_outcome lru x a now to_string out o)))
            _ k.settings
            (mask_segments-Fresh f seeds (suc i) rest (with_outcome lru x a now to_string out o) u.1
              (Kept-Sound e f k)))
  mask_segments-Fresh e seeds i (UserBypassSegment.bypass t ∷ rest) out u sound =
      elim (List-cases (secret_spans e.secrets t Surface.user_message)) [
        | inl p ↦
            rw (mask_segments, fresh_segments, p)
              (mask_segments-Fresh e seeds (suc i) rest (push_str out t) u.1 sound)
        | inr (d, ds, p) ↦
            rw (mask_segments, fresh_segments, p)
              (Fresh-after e _ _ seeds i rest (with_text lru x a now to_string out)
                (λ o. fresh_segments (settings_of e) seeds (suc i) rest (record {
                  out = out.masked_text ++ o.out;
                  manifest = merge out.manifest o.manifest;
                  store = o.store;
                }))
                (apply_outcome-Fresh lru laws x a now to_string seen apart e (seeds i) t
                  Surface.user_message (d ∷ ds) no_stats sound)
                (λ f o k.
                  Fresh-settings f (settings_of e)
                    (λ s.
                      fresh_segments s seeds (suc i) rest
                        (done f (with_text lru x a now to_string out o)))
                    _ k.settings
                    (mask_segments-Fresh f seeds (suc i) rest
                      (with_text lru x a now to_string out o) u.1 (Kept-Sound e f k))))
      ]

  -- Where what the cache holds of the texts that were seen is what a run of the detection would
  -- give, and no two of these texts have one hash, `mask` gives the text, the manifest, the session
  -- store and the error that a run with no cache at all gives, however deep it is let call itself;
  -- and the policy, the registered secrets and the recognizer stay, and the cache still agrees.
  pub mask-fresh :
      (n : ℕ) (e : MaskEngine L) (seeds : ℕ → ℕ → Text) (text : Text) (surface : Surface)
      → Seen (settings_of e) text surface
      → Sound lru x a seen (settings_of e) e.cache
      → let r = mask lru x a now to_string (suc n) e seeds text surface in
        (view r ≡ fresh (settings_of e) e.store seeds text surface)
        × (settings_of r.0 ≡ settings_of e)
        × Sound lru x a seen (settings_of e) r.0.cache
  unfolding mask passthrough
  mask-fresh n e seeds text surface u sound =
      let h = once (is_user_message surface) (user_bypass_segments text) refl refl in
      let same = mask-depth lru x a now to_string n e seeds text surface in
      subst
        (λ (r : MaskEngine L × Result MaskOutcome).
          (view r ≡ fresh (settings_of e) e.store seeds text surface)
          × (settings_of r.0 ≡ settings_of e)
          × Sound lru x a seen (settings_of e) r.0.cache)
        (sym same) (h.result, h.kept.settings, h.kept.sound)
    where
      once :
          (b : Bool) (cut : Option (List UserBypassSegment))
          → is_user_message surface ≡ b
          → user_bypass_segments text ≡ cut
          → FreshHere e
              (fresh (settings_of e) e.store seeds text surface)
              (mask lru x a now to_string 1 e seeds text surface)
      once false cut p q =
          rw (mask, p)
            (mask_leaf-Fresh lru laws x a now to_string seen apart e (seeds 0) text surface u.0
              sound)
      once true none p q =
          rw (mask, p, q)
            (mask_leaf-Fresh lru laws x a now to_string seen apart e (seeds 0) text surface u.0
              sound)
      once true (some segments) p q =
          rw (mask, p, q)
            (mask_segments-Fresh e seeds 0 segments (passthrough [] no_stats) (u.1 segments q)
              sound)
