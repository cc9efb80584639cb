-- ===== src/Proxy/Body/Prewarmed.antt =====
-- A request that is prewarmed and then masked, against one that is only masked
-- (crates/zlauder-proxy/src/walk.rs).
use zlau_de_r.Prelude.{ℕ, ◌≡◌, refl, sym, ap, ◌∙◌, inl, inr, subst, not, none, some, [], Text}
use zlau_de_r.Prelude.{All-map, Bool-cases, Option, Option-cases}
use zlau_de_r.Externals.{Externals}
use zlau_de_r.Error.{EngineError, Result, ok, err, ok_injective, ◌>>=◌}
use zlau_de_r.Store.{SessionStore}
use zlau_de_r.Detect.{Analyzer, MlRecognizer}
use zlau_de_r.Detect.Batch.{BatchesOnly}
use zlau_de_r.Manifest.{UnmaskManifest}
use zlau_de_r.Ml.Slot.{ml_active}
use zlau_de_r.Engine.Cache.{LruCache, LruLaws, hash_text}
use zlau_de_r.Engine.Mask.{MaskEngine}
use zlau_de_r.Engine.Mask.Sound.{Settings, settings_of, Sound}
use zlau_de_r.Engine.Mask.Prewarm.{prewarm_batch}
use zlau_de_r.Engine.Mask.Warm.{prewarm_batch-Agrees}
use zlau_de_r.Proxy.Wire.{ApiRequest}
use zlau_de_r.Proxy.Walk.{MaskWalker, request, walker, collected, prewarm_request}
use zlau_de_r.Proxy.Walk.Leaves.{request_leaves}
use zlau_de_r.Proxy.Walk.Collect.{request-leaves}
use zlau_de_r.Proxy.Body.{Serde, MaskError, MaskReply, finish, mask_typed, mask_request}
use zlau_de_r.Proxy.Walk.Alike.{AllSeen, AlikeRun, request-Alike}

-- What a caller sees of a walk: the request that is sent, the manifest for its reply and the session
-- store, or the error.
abbrev pub sent :
    {L : Type 0}
    → MaskWalker L × Result ApiRequest
    → Result (ApiRequest × UnmaskManifest × SessionStore)
sent (w, err e) = err e
sent (w, ok r) = ok (r, w.manifest, w.engine.store)

-- The same of a masked body.
abbrev pub reply_of : {L : Type 0} → MaskEngine L × MaskReply → MaskReply × Option SessionStore
reply_of (e, MaskReply.masked bytes manifest) = (MaskReply.masked bytes manifest, some e.store)
reply_of (e, MaskReply.failed er) = (MaskReply.failed er, none)

abbrev stored : UnmaskManifest → SessionStore → Option Text → MaskReply × Option SessionStore
stored manifest store (some bytes) = (MaskReply.masked bytes manifest, some store)
stored manifest store none = (MaskReply.failed MaskError.json, none)

-- The reply, from what is seen of the walk.
abbrev reply_of_sent :
    (ApiRequest → Option Text)
    → Result (ApiRequest × UnmaskManifest × SessionStore)
    → MaskReply × Option SessionStore
reply_of_sent print (err e) = (MaskReply.failed (MaskError.engine e), none)
reply_of_sent print (ok (r, manifest, store)) = stored manifest store (print r)

reply_of-finish :
    {L : Type 0} (print : ApiRequest → Option Text) (r : MaskWalker L × Result ApiRequest)
    → reply_of (finish print r) ≡ reply_of_sent print (sent r)
reply_of-finish print (w, err e) = refl
reply_of-finish print (w, ok r) = elim (Option-cases (print r)) [
  | inl p ↦ rw (finish, p) refl
  | inr (bytes, p) ↦ rw (finish, p) refl
]

module _ {L : Type 0} (lru : LruCache L) (laws : LruLaws lru) (x : Externals) (a : Analyzer)
    (now : ℕ) (to_string : EngineError → Text) (seeds : ℕ → ℕ → ℕ → Text) (seen : Text → Type 0)
    (apart : (t u : Text) → seen t → seen u → hash_text x t ≡ hash_text x u → t ≡ u) where
  abbrev SeenRequest : Settings → ApiRequest → Type 0
  SeenRequest s r = AllSeen lru laws x a now to_string seeds seen apart s (request_leaves r)

  abbrev Agrees : Settings → MaskEngine L → Type 0
  Agrees s e = Sound lru x a seen s e.cache

  abbrev Kept : MaskEngine L → MaskEngine L → Type 0
  Kept e f = (f.store ≡ e.store) × (settings_of f ≡ settings_of e) × Agrees (settings_of e) f

  -- The batch after the walk in collect mode.
  abbrev batch_of : MaskWalker L × Result ApiRequest → MaskEngine L
  batch_of r = elim r.1 [
    | err e ↦ r.0.engine
    | ok done ↦ prewarm_batch lru x a r.0.engine (collected lru x a now to_string seeds r.0.collect)
  ]

  prewarm_request-Agrees :
      (e : MaskEngine L) (r : ApiRequest)
      → ((m : MlRecognizer) → (settings_of e).recognizer ≡ some m → BatchesOnly m)
      → SeenRequest (settings_of e) r
      → Agrees (settings_of e) e
      → Kept e (prewarm_request lru x a now to_string seeds e r)
  unfolding prewarm_request
  prewarm_request-Agrees e r law u h =
      let from = walker lru x a now to_string seeds e (some []) in
      let walked : request lru x a now to_string seeds r from
          ≡ (record from { collect = some (request_leaves r) }, ok r) =
        request-leaves lru x a now to_string seeds r from [] in
      elim (Bool-cases (not (ml_active e.ml))) [
        | inl off ↦ rw (prewarm_request, off) (refl, refl, h)
        | inr on ↦
            rw (prewarm_request, on)
              (subst (λ (w : MaskWalker L × Result ApiRequest). Kept e (batch_of w)) (sym walked)
                (prewarm_batch-Agrees lru laws x a seen apart e (request_leaves r) law
                  (All-map _ _ (λ l both. both.0) (request_leaves r) u) h))
      ]

  sent-Alike :
      (s : Settings) (r q : MaskWalker L × Result ApiRequest)
      → AlikeRun lru laws x a now to_string seeds seen apart s r q
      → sent r ≡ sent q
  sent-Alike s (w, err e) (v, err f) h =
      ap (λ (d : Result ApiRequest). d >>= λ (g : ApiRequest). err EngineError.ml) h.result
  sent-Alike s (w, err e) (v, ok q) h = let same = h.result in absurd (cc)
  sent-Alike s (w, ok r) (v, err e) h = let same = h.result in absurd (cc)
  sent-Alike s (w, ok r) (v, ok q) h =
      λ i. ok (ok_injective r q h.result i, h.walkers.manifest i, h.walkers.store i)

  request-prewarmed :
      (e : MaskEngine L) (r : ApiRequest)
      → ((m : MlRecognizer) → (settings_of e).recognizer ≡ some m → BatchesOnly m)
      → SeenRequest (settings_of e) r
      → Agrees (settings_of e) e
      → sent (
          request lru x a now to_string seeds r (
            walker lru x a now to_string seeds
              (prewarm_request lru x a now to_string seeds e r)
              none))
        ≡ sent (request lru x a now to_string seeds r (walker lru x a now to_string seeds e none))
  request-prewarmed e r law u h =
      let s = settings_of e in
      let (stored, same, agrees) = prewarm_request-Agrees e r law u h in
      sent-Alike s _ _ (
        request-Alike lru laws x a now to_string seeds seen apart s r _ _ u (record {
          left = record { settings = same; sound = agrees; masks = refl };
          right = record { settings = refl; sound = h; masks = refl };
          store = stored;
          manifest = refl;
          calls = refl;
        }))

  -- A body that parses as a request gives the bytes, the manifest, the session store and the error
  -- of the masking pass alone, whether the batch of the prewarming succeeds or fails: where the
  -- cache agrees with the detection of the texts of the request, no two of these texts have one
  -- hash, and a batch of the recognizer has, if it has one result for each text, its single results.
  pub mask_request-prewarmed :
      (serde : Serde) (e : MaskEngine L) (body : Text) (r : ApiRequest)
      → serde.parse_request body ≡ some r
      → ((m : MlRecognizer) → (settings_of e).recognizer ≡ some m → BatchesOnly m)
      → SeenRequest (settings_of e) r
      → Agrees (settings_of e) e
      → reply_of (mask_request lru x a now to_string seeds serde e body)
        ≡ reply_of (mask_typed lru x a now to_string seeds serde e r)
  unfolding mask_request mask_typed
  mask_request-prewarmed serde e body r parsed law u h =
      let walk = λ (f : MaskEngine L).
        request lru x a now to_string seeds r (walker lru x a now to_string seeds f none) in
      let warm = walk (prewarm_request lru x a now to_string seeds e r) in
      rw (mask_request, parsed)
        (reply_of-finish serde.print_request warm
          ∙ ap (reply_of_sent serde.print_request) (request-prewarmed e r law u h)
          ∙ sym (reply_of-finish serde.print_request (walk e)))
