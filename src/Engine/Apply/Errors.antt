-- ===== src/Engine/Apply/Errors.antt =====
-- The session store after the splicing of `MaskEngine::apply` (lib.rs), also where an error ended it.
use zlau_de_r.Prelude.{ℕ, ◌≡◌, refl, ap, List, [], ◌∷◌, Text}
use zlau_de_r.Externals.{Externals}
use zlau_de_r.Error.{ok, ok_injective, >>=-ok}
use zlau_de_r.Surface.{Surface}
use zlau_de_r.Store.{SessionStore}
use zlau_de_r.Config.{EngineConfig}
use zlau_de_r.Detect.{CachedDetection}
use zlau_de_r.Engine.Apply.{Applied, apply_rev, store_after, apply, apply_store}

module _ (x : Externals) (nonces : ℕ → Text) (now : ℕ) (surface : Surface) (cfg : EngineConfig)
    (salt text : Text) where
  store_after-ok :
      (ds : List CachedDetection) (a b : Applied)
      → apply_rev x nonces now surface cfg salt text ds a ≡ ok b
      → store_after x nonces now surface cfg salt text ds a ≡ b.store
  unfolding apply_rev store_after
  store_after-ok [] a b h = ap (λ (c : Applied). c.store) (ok_injective a b h)
  store_after-ok (d ∷ ds) a b h =
      let (c, first, last) = >>=-ok (apply_rev x nonces now surface cfg salt text ds a) _ h in
      rw (store_after, first, last) refl

-- Where the loop succeeds, this is the store that it gives.
apply_store-ok :
    (x : Externals) (nonces : ℕ → Text) (now : ℕ) (store : SessionStore) (text : Text)
    (surface : Surface) (cfg : EngineConfig) (dets : List CachedDetection) (done : Applied)
    → apply x nonces now store text surface cfg dets ≡ ok done
    → apply_store x nonces now store text surface cfg dets ≡ done.store
unfolding apply apply_store
apply_store-ok x nonces now store text surface cfg dets done =
    store_after-ok x nonces now surface cfg store.salt text dets
      (record { out = text; manifest = []; store = store }) done
