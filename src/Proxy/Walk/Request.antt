-- ===== src/Proxy/Walk/Request.antt =====
-- What the walk over a request collects.
use zlau_de_r.Prelude.{ℕ, Bool, false, if◌then◌else◌}
use zlau_de_r.Prelude.{[], Text}
use zlau_de_r.Externals.{Externals}
use zlau_de_r.Error.{EngineError}
use zlau_de_r.Surface.{Surface}
use zlau_de_r.Json.{Value, Items, Fields}
use zlau_de_r.Detect.{Analyzer}
use zlau_de_r.Engine.Cache.{LruCache}
use zlau_de_r.Proxy.Wire.{ApiImageSource, ApiDocumentSource}
use zlau_de_r.Proxy.Wire.{ToolResultBlock, ToolResultContent, ApiContentBlock}
use zlau_de_r.Proxy.Walk.{return, each, surface_for_role}
use zlau_de_r.Proxy.Walk.{is_context_management_protocol_key, value, value_items, value_fields}
use zlau_de_r.Proxy.Walk.{value_skipping_protocol_keys, skipping_items, skipping_fields}
use zlau_de_r.Proxy.Walk.{image, document, tool_result_block, tool_result, block}
use zlau_de_r.Proxy.Walk.Leaves.{each_leaves, value_leaves, items_leaves}
use zlau_de_r.Proxy.Walk.Leaves.{fields_leaves, image_leaves, document_leaves, result_block_leaves}
use zlau_de_r.Proxy.Walk.Leaves.{result_leaves, block_leaves}
use zlau_de_r.Proxy.Walk.Rules.{WalkRule, Holds, Holds-return, Holds-map, Holds-pair}
use zlau_de_r.Proxy.Walk.Rules.{Holds-if, Holds-leaf, Holds-each}
use zlau_de_r.Proxy.Walk.{str}

module _ {L : Type 0} (lru : LruCache L) (x : Externals) (an : Analyzer) (now : ℕ)
    (to_string : EngineError → Text) (seeds : ℕ → ℕ → ℕ → Text)
    (rule : WalkRule (str lru x an now to_string seeds)) where
  mutual
    unfolding value value_leaves

    pub value-Holds :
        (surface : Surface) (v : Value)
        → Holds rule
            (value lru x an now to_string seeds surface v)
            v
            (value_leaves (λ k. false) surface v)
    value-Holds surface (Value.string s) =
        Holds-leaf lru x an now to_string seeds rule s surface Value.string
    value-Holds surface (Value.array v) =
        Holds-map rule (value_items lru x an now to_string seeds surface v) Value.array v
          (items_leaves (λ k. false) surface v) (items-Holds surface v)
    value-Holds surface (Value.object o) =
        Holds-map rule (value_fields lru x an now to_string seeds surface o) Value.object o
          (fields_leaves (λ k. false) surface o) (fields-Holds surface o)
    value-Holds surface Value.null = Holds-return rule Value.null
    value-Holds surface (Value.boolean b) = Holds-return rule (Value.boolean b)
    value-Holds surface (Value.number n) = Holds-return rule (Value.number n)

    items-Holds :
        (surface : Surface) (v : Items)
        → Holds rule
            (value_items lru x an now to_string seeds surface v)
            v
            (items_leaves (λ k. false) surface v)
    items-Holds surface Items.no_items = Holds-return rule Items.no_items
    items-Holds surface (Items.item v vs) =
        Holds-pair rule (value lru x an now to_string seeds surface v)
          (value_items lru x an now to_string seeds surface vs) Items.item v vs
          (value_leaves (λ k. false) surface v) (items_leaves (λ k. false) surface vs)
          (value-Holds surface v) (items-Holds surface vs)

    fields-Holds :
        (surface : Surface) (o : Fields)
        → Holds rule
            (value_fields lru x an now to_string seeds surface o)
            o
            (fields_leaves (λ k. false) surface o)
    fields-Holds surface Fields.no_fields = Holds-return rule Fields.no_fields
    fields-Holds surface (Fields.field k v o) =
        Holds-pair rule (value lru x an now to_string seeds surface v)
          (value_fields lru x an now to_string seeds surface o) (Fields.field k) v o
          (value_leaves (λ k. false) surface v) (fields_leaves (λ k. false) surface o)
          (value-Holds surface v) (fields-Holds surface o)

  abbrev skip : Text → Bool
  skip = is_context_management_protocol_key

  mutual
    unfolding value_skipping_protocol_keys value_leaves

    pub skipping-Holds :
        (surface : Surface) (v : Value)
        → Holds rule
            (value_skipping_protocol_keys lru x an now to_string seeds surface v)
            v
            (value_leaves skip surface v)
    skipping-Holds surface (Value.string s) =
        Holds-leaf lru x an now to_string seeds rule s surface Value.string
    skipping-Holds surface (Value.array v) =
        Holds-map rule (skipping_items lru x an now to_string seeds surface v) Value.array v
          (items_leaves skip surface v) (skipping-items surface v)
    skipping-Holds surface (Value.object o) =
        Holds-map rule (skipping_fields lru x an now to_string seeds surface o) Value.object o
          (fields_leaves skip surface o) (skipping-fields surface o)
    skipping-Holds surface Value.null = Holds-return rule Value.null
    skipping-Holds surface (Value.boolean b) = Holds-return rule (Value.boolean b)
    skipping-Holds surface (Value.number n) = Holds-return rule (Value.number n)

    skipping-items :
        (surface : Surface) (v : Items)
        → Holds rule
            (skipping_items lru x an now to_string seeds surface v)
            v
            (items_leaves skip surface v)
    skipping-items surface Items.no_items = Holds-return rule Items.no_items
    skipping-items surface (Items.item v vs) =
        Holds-pair rule (value_skipping_protocol_keys lru x an now to_string seeds surface v)
          (skipping_items lru x an now to_string seeds surface vs) Items.item v vs
          (value_leaves skip surface v) (items_leaves skip surface vs) (skipping-Holds surface v)
          (skipping-items surface vs)

    skipping-fields :
        (surface : Surface) (o : Fields)
        → Holds rule
            (skipping_fields lru x an now to_string seeds surface o)
            o
            (fields_leaves skip surface o)
    skipping-fields surface Fields.no_fields = Holds-return rule Fields.no_fields
    skipping-fields surface (Fields.field k v o) =
        let walked = value_skipping_protocol_keys lru x an now to_string seeds surface v in
        Holds-pair rule (if skip k then return v else walked)
          (skipping_fields lru x an now to_string seeds surface o) (Fields.field k) v o
          (if skip k then [] else value_leaves skip surface v) (fields_leaves skip surface o)
          (Holds-if rule (skip k) walked v (value_leaves skip surface v) (skipping-Holds surface v))
          (skipping-fields surface o)

  image-Holds :
      (surface : Surface) (s : ApiImageSource)
      → Holds rule (image lru x an now to_string seeds surface s) s (image_leaves surface s)
  unfolding image
  image-Holds surface (ApiImageSource.image_url url) =
      Holds-leaf lru x an now to_string seeds rule url surface ApiImageSource.image_url
  image-Holds surface (ApiImageSource.image_other s) =
      Holds-return rule (ApiImageSource.image_other s)

  document-Holds :
      (surface : Surface) (s : ApiDocumentSource)
      → Holds rule (document lru x an now to_string seeds surface s) s (document_leaves surface s)
  unfolding document
  document-Holds surface (ApiDocumentSource.document_url url) =
      Holds-leaf lru x an now to_string seeds rule url surface ApiDocumentSource.document_url
  document-Holds surface (ApiDocumentSource.document_other s) =
      Holds-return rule (ApiDocumentSource.document_other s)

  result_block-Holds :
      (b : ToolResultBlock)
      → Holds rule (tool_result_block lru x an now to_string seeds b) b (result_block_leaves b)
  unfolding tool_result_block
  result_block-Holds (ToolResultBlock.result_text t) =
      Holds-leaf lru x an now to_string seeds rule t Surface.tool_result ToolResultBlock.result_text
  result_block-Holds (ToolResultBlock.result_image s) =
      Holds-map rule (image lru x an now to_string seeds Surface.tool_result s)
        ToolResultBlock.result_image s (image_leaves Surface.tool_result s)
        (image-Holds Surface.tool_result s)
  result_block-Holds (ToolResultBlock.result_document s) =
      Holds-map rule (document lru x an now to_string seeds Surface.tool_result s)
        ToolResultBlock.result_document s (document_leaves Surface.tool_result s)
        (document-Holds Surface.tool_result s)
  result_block-Holds (ToolResultBlock.result_other o) =
      Holds-return rule (ToolResultBlock.result_other o)

  tool_result-Holds :
      (c : ToolResultContent)
      → Holds rule (tool_result lru x an now to_string seeds c) c (result_leaves c)
  unfolding tool_result
  tool_result-Holds (ToolResultContent.content_text t) =
      Holds-leaf lru x an now to_string seeds rule t Surface.tool_result
        ToolResultContent.content_text
  tool_result-Holds (ToolResultContent.content_blocks bs) =
      Holds-map rule
        (each lru x an now to_string seeds (tool_result_block lru x an now to_string seeds) bs)
        ToolResultContent.content_blocks bs (each_leaves result_block_leaves bs)
        (Holds-each lru x an now to_string seeds rule
          (tool_result_block lru x an now to_string seeds) result_block_leaves result_block-Holds
          bs)
  tool_result-Holds (ToolResultContent.content_other o) =
      Holds-return rule (ToolResultContent.content_other o)

  pub block-Holds :
      (role : Text) (b : ApiContentBlock)
      → Holds rule (block lru x an now to_string seeds role b) b (block_leaves role b)
  unfolding block
  block-Holds role (ApiContentBlock.text t) =
      Holds-leaf lru x an now to_string seeds rule t (surface_for_role role) ApiContentBlock.text
  block-Holds role (ApiContentBlock.tool_use v) =
      Holds-map rule (value lru x an now to_string seeds Surface.tool_use_input v)
        ApiContentBlock.tool_use v (value_leaves (λ k. false) Surface.tool_use_input v)
        (value-Holds Surface.tool_use_input v)
  block-Holds role (ApiContentBlock.tool_result c) =
      Holds-map rule (tool_result lru x an now to_string seeds c) ApiContentBlock.tool_result c
        (result_leaves c) (tool_result-Holds c)
  block-Holds role (ApiContentBlock.image s) =
      Holds-map rule (image lru x an now to_string seeds Surface.user_message s)
        ApiContentBlock.image s (image_leaves Surface.user_message s)
        (image-Holds Surface.user_message s)
  block-Holds role (ApiContentBlock.document s) =
      Holds-map rule (document lru x an now to_string seeds Surface.user_message s)
        ApiContentBlock.document s (document_leaves Surface.user_message s)
        (document-Holds Surface.user_message s)
  block-Holds role (ApiContentBlock.compaction t) =
      Holds-leaf lru x an now to_string seeds rule t Surface.assistant_text
        ApiContentBlock.compaction
  block-Holds role (ApiContentBlock.thinking t) = Holds-return rule (ApiContentBlock.thinking t)
  block-Holds role (ApiContentBlock.redacted_thinking t) =
      Holds-return rule (ApiContentBlock.redacted_thinking t)
  block-Holds role (ApiContentBlock.block_other t) =
      Holds-return rule (ApiContentBlock.block_other t)
