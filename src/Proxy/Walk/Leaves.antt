-- ===== src/Proxy/Walk/Leaves.antt =====
-- The texts of a request that are masked, each with its surface, in order.
use zlau_de_r.Prelude.{
  Bool, false, if◌then◌else◌, Option, none, some, List, [], ◌∷◌, ◌++◌, Text, codes, text_eq,
}
use zlau_de_r.Surface.{Surface}
use zlau_de_r.Json.{Value, Items, Fields}
use zlau_de_r.Proxy.Wire.{SystemBlock, SystemContent, ApiImageSource, ApiDocumentSource}
use zlau_de_r.Proxy.Wire.{ToolResultBlock, ToolResultContent, ApiContentBlock, Message}
use zlau_de_r.Proxy.Wire.{Tool, ApiRequest}
use zlau_de_r.Proxy.Walk.{surface_for_role, is_context_management_protocol_key}

abbrev pub Leaves : Type 0
Leaves = List (Text × Surface)

abbrev pub leaf : Surface → Text → Leaves
leaf surface t = (t, surface) ∷ []

abbrev pub each_leaves : {A : Type 0} → (A → Leaves) → List A → Leaves
each_leaves f [] = []
each_leaves f (b ∷ bs) = f b ++ each_leaves f bs

abbrev pub optional_leaves : {A : Type 0} → (A → Leaves) → Option A → Leaves
optional_leaves f none = []
optional_leaves f (some b) = f b

-- Every string of a value, but those below a key that is skipped.
unfoldable mutual
  pub value_leaves : (Text → Bool) → Surface → Value → Leaves
  value_leaves skip surface (Value.string s) = leaf surface s
  value_leaves skip surface (Value.array v) = items_leaves skip surface v
  value_leaves skip surface (Value.object o) = fields_leaves skip surface o
  value_leaves skip surface Value.null = []
  value_leaves skip surface (Value.boolean b) = []
  value_leaves skip surface (Value.number n) = []

  pub items_leaves : (Text → Bool) → Surface → Items → Leaves
  items_leaves skip surface Items.no_items = []
  items_leaves skip surface (Items.item v vs) =
      value_leaves skip surface v ++ items_leaves skip surface vs

  pub fields_leaves : (Text → Bool) → Surface → Fields → Leaves
  fields_leaves skip surface Fields.no_fields = []
  fields_leaves skip surface (Fields.field k v o) =
      let here = value_leaves skip surface v in
      (if skip k then [] else here) ++ fields_leaves skip surface o

abbrev pub image_leaves : Surface → ApiImageSource → Leaves
image_leaves surface (ApiImageSource.image_url url) = leaf surface url
image_leaves surface (ApiImageSource.image_other s) = []

abbrev pub document_leaves : Surface → ApiDocumentSource → Leaves
document_leaves surface (ApiDocumentSource.document_url url) = leaf surface url
document_leaves surface (ApiDocumentSource.document_other s) = []

abbrev pub result_block_leaves : ToolResultBlock → Leaves
result_block_leaves (ToolResultBlock.result_text t) = leaf Surface.tool_result t
result_block_leaves (ToolResultBlock.result_image s) = image_leaves Surface.tool_result s
result_block_leaves (ToolResultBlock.result_document s) = document_leaves Surface.tool_result s
result_block_leaves (ToolResultBlock.result_other o) = []

abbrev pub result_leaves : ToolResultContent → Leaves
result_leaves (ToolResultContent.content_text t) = leaf Surface.tool_result t
result_leaves (ToolResultContent.content_blocks bs) = each_leaves result_block_leaves bs
result_leaves (ToolResultContent.content_other o) = []

-- No text of a thinking block.
abbrev pub block_leaves : Text → ApiContentBlock → Leaves
block_leaves role (ApiContentBlock.text t) = leaf (surface_for_role role) t
block_leaves role (ApiContentBlock.tool_use input) =
    value_leaves (λ k. false) Surface.tool_use_input input
block_leaves role (ApiContentBlock.tool_result content) = result_leaves content
block_leaves role (ApiContentBlock.image source) = image_leaves Surface.user_message source
block_leaves role (ApiContentBlock.document source) = document_leaves Surface.user_message source
block_leaves role (ApiContentBlock.compaction content) = leaf Surface.assistant_text content
block_leaves role (ApiContentBlock.thinking t) = []
block_leaves role (ApiContentBlock.redacted_thinking t) = []
block_leaves role (ApiContentBlock.block_other t) = []

abbrev pub system_leaves : SystemContent → Leaves
system_leaves (SystemContent.system_text t) = leaf Surface.system_prompt t
system_leaves (SystemContent.system_blocks bs) =
    each_leaves (λ (b : SystemBlock). leaf Surface.system_prompt b.text) bs
system_leaves (SystemContent.system_other t) = []

-- Of the metadata all but the top-level `user_id`.
abbrev pub metadata_field_leaves : Fields → Leaves
metadata_field_leaves Fields.no_fields = []
metadata_field_leaves (Fields.field k v o) =
    (if text_eq k (codes "user_id") then [] else value_leaves (λ k. false) Surface.user_message v)
    ++ metadata_field_leaves o

abbrev pub metadata_leaves : Value → Leaves
metadata_leaves (Value.object o) = metadata_field_leaves o
metadata_leaves v = value_leaves (λ k. false) Surface.user_message v

abbrev pub request_leaves : ApiRequest → Leaves
request_leaves r =
    optional_leaves system_leaves r.system
    ++ (each_leaves (λ (m : Message). each_leaves (block_leaves m.role) m.content) r.messages
        ++ (optional_leaves (each_leaves (λ (t : Tool). leaf Surface.system_prompt t.description))
              r.tools
            ++ (optional_leaves metadata_leaves r.metadata
                ++ optional_leaves
                    (value_leaves is_context_management_protocol_key Surface.system_prompt)
                    r.context_management)))
