-- ===== src/Proxy/Body.antt =====
-- The masking of a request body (crates/zlauder-proxy/src/walk.rs, `mask_request`). The parser and
-- the printer of JSON are the crate serde_json, and parameters here; the log lines are left out.
pub mod Prewarmed
use package.zlau_de_r.Prelude.{ℕ, Option, none, some, Text}
use package.zlau_de_r.Externals.{Externals}
use package.zlau_de_r.Error.{EngineError, Result, ok, err}
use package.zlau_de_r.Surface.{Surface}
use package.zlau_de_r.Json.{Value}
use package.zlau_de_r.Detect.{Analyzer}
use package.zlau_de_r.Manifest.{UnmaskManifest}
use package.zlau_de_r.Engine.Cache.{LruCache}
use package.zlau_de_r.Engine.Mask.{MaskEngine}
use package.zlau_de_r.Proxy.Wire.{ApiRequest}
use package.zlau_de_r.Proxy.Walk.Fallback.{value_safe}
use package.zlau_de_r.Proxy.Walk.{MaskWalker, request, walker, prewarm_request}

-- `serde_json::from_slice` and `serde_json::to_vec`, at the typed request and at any value.
pub record Serde : Type 0 where
  pub parse_request : Text → Option ApiRequest
  pub parse_value : Text → Option Value
  pub print_request : ApiRequest → Option Text
  pub print_value : Value → Option Text

pub data MaskError : Type 0 where
  json : MaskError
  engine : EngineError → MaskError

pub data MaskReply : Type 0 where
  masked : Text → UnmaskManifest → MaskReply
  failed : MaskError → MaskReply

abbrev printed : UnmaskManifest → Option Text → MaskReply
printed manifest (some bytes) = MaskReply.masked bytes manifest
printed manifest none = MaskReply.failed MaskError.json

-- What follows the walk.
abbrev pub finish :
    {L A : Type 0} → (A → Option Text) → MaskWalker L × Result A → MaskEngine L × MaskReply
finish print (w, err e) = (w.engine, MaskReply.failed (MaskError.engine e))
finish print (w, ok v) = (w.engine, printed w.manifest (print v))

module _ {L : Type 0} (lru : LruCache L) (x : Externals) (a : Analyzer) (now : ℕ)
    (to_string : EngineError → Text) (seeds : ℕ → ℕ → ℕ → Text) (serde : Serde) where
  -- The masking pass over a request that parsed.
  unfoldable pub mask_typed : MaskEngine L → ApiRequest → MaskEngine L × MaskReply
  mask_typed e r =
      finish serde.print_request
        (request lru x a now to_string seeds r (walker lru x a now to_string seeds e none))

  -- The walk over a body that does not fit the schema.
  unfoldable pub mask_untyped : MaskEngine L → Text → MaskEngine L × MaskReply
  mask_untyped e body = elim (serde.parse_value body) [
    | none ↦ (e, MaskReply.failed MaskError.json)
    | some v ↦ finish serde.print_value (
        value_safe lru x a now to_string seeds Surface.user_message v
          (walker lru x a now to_string seeds e none))
  ]

  unfoldable pub mask_request : MaskEngine L → Text → MaskEngine L × MaskReply
  mask_request e body = elim (serde.parse_request body) [
    | some r ↦ mask_typed (prewarm_request lru x a now to_string seeds e r) r
    | none ↦ mask_untyped e body
  ]
