-- ===== src/Engine/Apply.antt =====
-- `MaskEngine::apply` (lib.rs): splice the replacements of the detections into the text, from the
-- back, and record what was minted. A nonce is given for each offset at which a token is minted.
pub mod Errors
use package.zlau_de_r.Prelude.{
  ℕ, ◌+◌, ◌≡◌, refl, ap, Bool, true, false, if◌then◌else◌, none, some, is_some, List,
}
use package.zlau_de_r.Prelude.{[], ◌∷◌, ◌++◌, length, take, drop, Text, codes}
use package.zlau_de_r.Externals.{Externals}
use package.zlau_de_r.Error.{Result, ok, err, ◌>>=◌}
use package.zlau_de_r.Surface.{Surface}
use package.zlau_de_r.Token.{hash_value, make_hash_token}
use package.zlau_de_r.Store.{SessionStore, intern, intern_fixed, intern_local, intern_broker}
use package.zlau_de_r.Config.{EngineConfig, Operator}
use package.zlau_de_r.Detect.{CachedDetection, resolve_operator, slice}
use package.zlau_de_r.Manifest.{ManifestEntry, UnmaskManifest, push}
use package.zlau_de_r.Engine.Chars.{snap_to_char_boundary, mask_value}

-- The loop's state: the text so far, the manifest, and the shared store.
pub record Applied : Type 0 where
  pub out : Text
  pub manifest : UnmaskManifest
  pub store : SessionStore

-- `String::replace_range`.
unfoldable pub replace_range : Text → ℕ → ℕ → Text → Text
replace_range out start end replacement = take start out ++ (replacement ++ drop end out)

abbrev pub entry : Text → Text → CachedDetection → Surface → ℕ → Bool → Bool → ManifestEntry
entry plain token d surface start broker local = record {
  canonical_form = plain;
  token_handle = token;
  entity_kind = d.entity_type;
  arrow_origin = surface;
  exposed_at = some (start, start + length token);
  broker = broker;
  local = local;
}

module _ (x : Externals) (nonces : ℕ → Text) (now : ℕ) (surface : Surface) (cfg : EngineConfig)
    (salt text : Text) where
  abbrev pub splice : Applied → ℕ → ℕ → Text → Applied
  splice a start end replacement = record a { out = replace_range a.out start end replacement }

  abbrev pub minted :
      Applied → CachedDetection → ℕ → ℕ → Bool → Bool → SessionStore → Text → Applied
  minted a d start end broker local store token = record {
    out = replace_range a.out start end token;
    manifest = push a.manifest (entry (slice text start end) token d surface start broker local);
    store = store;
  }

  -- The `Token` operator: a fixed token of a literal rule, or a minted one.
  unfoldable pub apply_token : CachedDetection → ℕ → ℕ → Applied → Result Applied
  apply_token d start end a = elim d.fixed_token [
    | some fixed ↦ do
      store ← intern_fixed x (nonces start) a.store fixed (slice text start end)
      ok (minted a d start end false false store fixed)
    | none ↦ do
      (store, token) ← intern x (nonces start) a.store d.entity_type (slice text start end)
      ok (minted a d start end false false store token)
  ]

  abbrev pub render : Operator → CachedDetection → ℕ → ℕ → Applied → Result Applied
  render Operator.keep d start end a = ok a
  render Operator.redact d start end a = ok (splice a start end (codes "[REDACTED]"))
  render (Operator.mask ch from_end) d start end a =
      ok (splice a start end (mask_value (slice text start end) ch from_end))
  render Operator.hash d start end a = ok (
      splice a start end (
        if is_some d.secret_op
        then make_hash_token x d.entity_type (slice text start end) salt
        else hash_value x d.entity_type (slice text start end)))
  render Operator.token d start end a = apply_token d start end a
  render Operator.local d start end a = do
    (store, token) ← intern_local x (nonces start) a.store d.entity_type (slice text start end)
    ok (minted a d start end false true store token)
  render Operator.broker d start end a = do
    (store, token) ←
        intern_broker x now (nonces start) a.store d.entity_type (slice text start end) none
    ok (minted a d start end true false store token)

  -- One round of the loop.
  unfoldable pub apply_one : CachedDetection → Applied → Result Applied
  apply_one d a =
      let (start, end) = snap_to_char_boundary text d.start d.end in
      render (resolve_operator cfg d) d start end a

  -- `for d in dets.iter().rev()`.
  unfoldable pub apply_rev : List CachedDetection → Applied → Result Applied
  apply_rev [] a = ok a
  apply_rev (d ∷ ds) a = do b ← apply_rev ds a; apply_one d b

  -- The shared store after the loop, which keeps what was interned before an error.
  unfoldable pub store_after : List CachedDetection → Applied → SessionStore
  store_after [] a = a.store
  store_after (d ∷ ds) a = elim (apply_rev ds a) [
    | err e ↦ store_after ds a
    | ok b ↦ elim (apply_one d b) [ err e ↦ b.store | ok c ↦ c.store ]
  ]

unfoldable pub apply :
    Externals
    → (ℕ → Text)
    → ℕ
    → SessionStore
    → Text
    → Surface
    → EngineConfig
    → List CachedDetection
    → Result Applied
apply x nonces now store text surface cfg dets =
    apply_rev x nonces now surface cfg store.salt text dets
      (record { out = text; manifest = []; store = store })

unfoldable pub apply_store :
    Externals
    → (ℕ → Text)
    → ℕ
    → SessionStore
    → Text
    → Surface
    → EngineConfig
    → List CachedDetection
    → SessionStore
apply_store x nonces now store text surface cfg dets =
    store_after x nonces now surface cfg store.salt text dets
      (record { out = text; manifest = []; store = store })
