-- ===== src/Proxy/Walk.antt =====
-- The walk over the body of a request (crates/zlauder-proxy/src/walk.rs): each of its texts is masked,
-- or, in collect mode, noted for the batch of the prewarming. An error ends the walk.
pub mod Leaves
pub mod Rules
pub mod Request
pub mod Prepass
pub mod Collect
pub mod Fallback
pub mod Alike
use package.zlau_de_r.Prelude.{
  ℕ, suc, Bool, true, false, not, ◌&&◌, ◌||◌, if◌then◌else◌, Option, none, some, List, [], ◌∷◌,
  ◌++◌,
}
use package.zlau_de_r.Prelude.{Text, codes, text_eq, contains}
use package.zlau_de_r.Externals.{Externals}
use package.zlau_de_r.Error.{EngineError, Result, ok, err}
use package.zlau_de_r.Surface.{Surface}
use package.zlau_de_r.Json.{Value, Items, Fields}
use package.zlau_de_r.Detect.{Analyzer}
use package.zlau_de_r.Manifest.{UnmaskManifest, MaskStats, merge, merge_stats, no_stats}
use package.zlau_de_r.Ml.Slot.{ml_active}
use package.zlau_de_r.Engine.Cache.{LruCache}
use package.zlau_de_r.Engine.Mask.{MaskEngine, mask}
use package.zlau_de_r.Engine.Mask.Prewarm.{prewarm_batch}
use package.zlau_de_r.Proxy.Wire.{SystemBlock, SystemContent, ApiImageSource, ApiDocumentSource}
use package.zlau_de_r.Proxy.Wire.{ToolResultBlock, ToolResultContent, ApiContentBlock, Message}
use package.zlau_de_r.Proxy.Wire.{Tool, ApiRequest}

-- `calls` counts the texts that were masked, for the nonces of each.
pub record MaskWalker (L : Type 0) : Type 0 where
  pub engine : MaskEngine L
  pub manifest : UnmaskManifest
  pub stats : MaskStats
  pub collect : Option (List (Text × Surface))
  pub calls : ℕ

-- A method of the walker.
abbrev pub Walk : Type 0 → Type 0 → Type 0
Walk L A = MaskWalker L → MaskWalker L × Result A

abbrev pub return : {L A : Type 0} → A → Walk L A
return a w = (w, ok a)

infixl 5 ◌>>=◌
abbrev pub ◌>>=◌ : {L A B : Type 0} → Walk L A → (A → Walk L B) → Walk L B
(m >>= next) w = let r = m w in elim r.1 [ err e ↦ (r.0, err e) | ok a ↦ next a r.0 ]

abbrev protocol_keys : List Text
protocol_keys =
    codes "type"
    ∷ codes "keep"
    ∷ codes "trigger"
    ∷ codes "clear_at_least"
    ∷ codes "clear_tool_inputs"
    ∷ codes "exclude_tools"
    ∷ []

unfoldable pub is_context_management_protocol_key : Text → Bool
is_context_management_protocol_key key = contains protocol_keys key

unfoldable pub surface_for_role : Text → Surface
surface_for_role role =
    if text_eq role (codes "assistant") then Surface.assistant_text else Surface.user_message

module _ {L : Type 0} (lru : LruCache L) (x : Externals) (a : Analyzer) (now : ℕ)
    (to_string : EngineError → Text) (seeds : ℕ → ℕ → ℕ → Text) where
  -- The sink of every text.
  unfoldable pub str : Text → Surface → Walk L Text
  str text surface w = elim w.collect [
    | some leaves ↦ (record w { collect = some (leaves ++ ((text, surface) ∷ [])) }, ok text)
    | none ↦
        let r = mask lru x a now to_string 1 w.engine (seeds w.calls) text surface in
        elim r.1 [
          | err e ↦ (record w { engine = r.0 }, err e)
          | ok o ↦ (
            record w {
              engine = r.0;
              manifest = merge w.manifest o.manifest;
              stats = merge_stats w.stats o.stats;
              calls = suc w.calls;
            },
            ok o.masked_text,
          )
        ]
  ]

  -- `for item in list.iter_mut()`.
  unfoldable pub each : {A : Type 0} → (A → Walk L A) → List A → Walk L (List A)
  each f [] = return []
  each f (b ∷ bs) = do c ← f b; cs ← each f bs; return (c ∷ cs)

  unfoldable mutual
    pub value : Surface → Value → Walk L Value
    value surface (Value.string s) = do t ← str s surface; return (Value.string t)
    value surface (Value.array v) = do w ← value_items surface v; return (Value.array w)
    value surface (Value.object o) = do w ← value_fields surface o; return (Value.object w)
    value surface Value.null = return Value.null
    value surface (Value.boolean b) = return (Value.boolean b)
    value surface (Value.number n) = return (Value.number n)

    pub value_items : Surface → Items → Walk L Items
    value_items surface Items.no_items = return Items.no_items
    value_items surface (Items.item v vs) = do
      w ← value surface v
      ws ← value_items surface vs
      return (Items.item w ws)

    pub value_fields : Surface → Fields → Walk L Fields
    value_fields surface Fields.no_fields = return Fields.no_fields
    value_fields surface (Fields.field k v o) = do
      w ← value surface v
      ws ← value_fields surface o
      return (Fields.field k w ws)

  unfoldable mutual
    pub value_skipping_protocol_keys : Surface → Value → Walk L Value
    value_skipping_protocol_keys surface (Value.string s) = do
      t ← str s surface
      return (Value.string t)
    value_skipping_protocol_keys surface (Value.array v) = do
      w ← skipping_items surface v
      return (Value.array w)
    value_skipping_protocol_keys surface (Value.object o) = do
      w ← skipping_fields surface o
      return (Value.object w)
    value_skipping_protocol_keys surface Value.null = return Value.null
    value_skipping_protocol_keys surface (Value.boolean b) = return (Value.boolean b)
    value_skipping_protocol_keys surface (Value.number n) = return (Value.number n)

    pub skipping_items : Surface → Items → Walk L Items
    skipping_items surface Items.no_items = return Items.no_items
    skipping_items surface (Items.item v vs) = do
      w ← value_skipping_protocol_keys surface v
      ws ← skipping_items surface vs
      return (Items.item w ws)

    pub skipping_fields : Surface → Fields → Walk L Fields
    skipping_fields surface Fields.no_fields = return Fields.no_fields
    skipping_fields surface (Fields.field k v o) =
        let walked = value_skipping_protocol_keys surface v in
        do
          w ← if is_context_management_protocol_key k then return v else walked
          ws ← skipping_fields surface o
          return (Fields.field k w ws)

  unfoldable pub context_management : Value → Walk L Value
  context_management v = value_skipping_protocol_keys Surface.system_prompt v

  unfoldable pub image : Surface → ApiImageSource → Walk L ApiImageSource
  image surface (ApiImageSource.image_url url) = do
    t ← str url surface
    return (ApiImageSource.image_url t)
  image surface (ApiImageSource.image_other s) = return (ApiImageSource.image_other s)

  unfoldable pub document : Surface → ApiDocumentSource → Walk L ApiDocumentSource
  document surface (ApiDocumentSource.document_url url) = do
    t ← str url surface
    return (ApiDocumentSource.document_url t)
  document surface (ApiDocumentSource.document_other s) =
      return (ApiDocumentSource.document_other s)

  unfoldable pub tool_result_block : ToolResultBlock → Walk L ToolResultBlock
  tool_result_block (ToolResultBlock.result_text t) = do
    u ← str t Surface.tool_result
    return (ToolResultBlock.result_text u)
  tool_result_block (ToolResultBlock.result_image s) = do
    u ← image Surface.tool_result s
    return (ToolResultBlock.result_image u)
  tool_result_block (ToolResultBlock.result_document s) = do
    u ← document Surface.tool_result s
    return (ToolResultBlock.result_document u)
  tool_result_block (ToolResultBlock.result_other o) = return (ToolResultBlock.result_other o)

  unfoldable pub tool_result : ToolResultContent → Walk L ToolResultContent
  tool_result (ToolResultContent.content_text t) = do
    u ← str t Surface.tool_result
    return (ToolResultContent.content_text u)
  tool_result (ToolResultContent.content_blocks bs) = do
    cs ← each tool_result_block bs
    return (ToolResultContent.content_blocks cs)
  tool_result (ToolResultContent.content_other o) = return (ToolResultContent.content_other o)

  -- A block; thinking stays as it is.
  unfoldable pub block : Text → ApiContentBlock → Walk L ApiContentBlock
  block role (ApiContentBlock.text t) = do
    u ← str t (surface_for_role role)
    return (ApiContentBlock.text u)
  block role (ApiContentBlock.tool_use input) = do
    u ← value Surface.tool_use_input input
    return (ApiContentBlock.tool_use u)
  block role (ApiContentBlock.tool_result content) = do
    u ← tool_result content
    return (ApiContentBlock.tool_result u)
  block role (ApiContentBlock.image source) = do
    u ← image Surface.user_message source
    return (ApiContentBlock.image u)
  block role (ApiContentBlock.document source) = do
    u ← document Surface.user_message source
    return (ApiContentBlock.document u)
  block role (ApiContentBlock.compaction content) = do
    u ← str content Surface.assistant_text
    return (ApiContentBlock.compaction u)
  block role (ApiContentBlock.thinking t) = return (ApiContentBlock.thinking t)
  block role (ApiContentBlock.redacted_thinking t) = return (ApiContentBlock.redacted_thinking t)
  block role (ApiContentBlock.block_other t) = return (ApiContentBlock.block_other t)

  unfoldable pub optional : {A : Type 0} → (A → Walk L A) → Option A → Walk L (Option A)
  optional f none = return none
  optional f (some b) = do c ← f b; return (some c)

  unfoldable pub system_block : SystemBlock → Walk L SystemBlock
  system_block b = do t ← str b.text Surface.system_prompt; return (record b { text = t })

  unfoldable pub system_content : SystemContent → Walk L SystemContent
  system_content (SystemContent.system_text t) = do
    u ← str t Surface.system_prompt
    return (SystemContent.system_text u)
  system_content (SystemContent.system_blocks bs) = do
    cs ← each system_block bs
    return (SystemContent.system_blocks cs)
  system_content (SystemContent.system_other t) = return (SystemContent.system_other t)

  unfoldable pub message : Message → Walk L Message
  message m = do cs ← each (block m.role) m.content; return (record m { content = cs })

  unfoldable pub tool : Tool → Walk L Tool
  tool t = do d ← str t.description Surface.system_prompt; return (record t { description = d })

  -- The fields of `metadata`, but `user_id`.
  unfoldable pub metadata_fields : Fields → Walk L Fields
  metadata_fields Fields.no_fields = return Fields.no_fields
  metadata_fields (Fields.field k v o) = do
    w ← if text_eq k (codes "user_id") then return v else value Surface.user_message v
    ws ← metadata_fields o
    return (Fields.field k w ws)

  unfoldable pub metadata : Value → Walk L Value
  metadata (Value.object o) = do w ← metadata_fields o; return (Value.object w)
  metadata (Value.string s) = value Surface.user_message (Value.string s)
  metadata (Value.array v) = value Surface.user_message (Value.array v)
  metadata (Value.number n) = value Surface.user_message (Value.number n)
  metadata (Value.boolean b) = value Surface.user_message (Value.boolean b)
  metadata Value.null = value Surface.user_message Value.null

  unfoldable pub request : ApiRequest → Walk L ApiRequest
  request r = do
    system ← optional system_content r.system
    messages ← each message r.messages
    tools ← optional (each tool) r.tools
    meta ← optional metadata r.metadata
    ctx ← optional context_management r.context_management
    return (record {
      system = system;
      messages = messages;
      tools = tools;
      metadata = meta;
      context_management = ctx;
      extra = r.extra;
    })

  abbrev pub walker : MaskEngine L → Option (List (Text × Surface)) → MaskWalker L
  walker e collect = record {
    engine = e;
    manifest = [];
    stats = no_stats;
    collect = collect;
    calls = 0;
  }

  abbrev pub collected : Option (List (Text × Surface)) → List (Text × Surface)
  collected none = []
  collected (some leaves) = leaves

  -- The prewarming, while a recognizer is live.
  unfoldable pub prewarm_request : MaskEngine L → ApiRequest → MaskEngine L
  prewarm_request e req =
      if not (ml_active e.ml)
      then e
      else (let r = request req (walker e (some [])) in
          elim r.1 [
            | err er ↦ r.0.engine
            | ok done ↦ prewarm_batch lru x a r.0.engine (collected r.0.collect)
          ])
