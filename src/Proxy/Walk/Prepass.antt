-- ===== src/Proxy/Walk/Prepass.antt =====
-- The pass over a whole request that only notes its texts.
use zlau_de_r.Prelude.{ℕ, false, if◌then◌else◌, Option}
use zlau_de_r.Prelude.{List, [], Text, codes, text_eq}
use zlau_de_r.Externals.{Externals}
use zlau_de_r.Error.{EngineError}
use zlau_de_r.Surface.{Surface}
use zlau_de_r.Json.{Value, Fields}
use zlau_de_r.Detect.{Analyzer}
use zlau_de_r.Engine.Cache.{LruCache}
use zlau_de_r.Proxy.Wire.{SystemBlock, SystemContent, Message, Tool, ApiRequest}
use zlau_de_r.Proxy.Walk.{return, ◌>>=◌, each, optional, value, context_management}
use zlau_de_r.Proxy.Walk.{is_context_management_protocol_key, block}
use zlau_de_r.Proxy.Walk.{system_block, system_content, message, tool, metadata_fields, metadata}
use zlau_de_r.Proxy.Walk.{request}
use zlau_de_r.Proxy.Walk.Leaves.{Leaves, leaf, each_leaves, value_leaves}
use zlau_de_r.Proxy.Walk.Leaves.{block_leaves, system_leaves, metadata_field_leaves}
use zlau_de_r.Proxy.Walk.Leaves.{metadata_leaves, request_leaves}
use zlau_de_r.Proxy.Walk.Request.{value-Holds, skipping-Holds, block-Holds}
use zlau_de_r.Proxy.Walk.Rules.{WalkRule, Holds, Holds-return, Holds-bind, Holds-map, Holds-pair}
use zlau_de_r.Proxy.Walk.Rules.{Holds-if, Holds-leaf, Holds-each, Holds-optional}
use zlau_de_r.Proxy.Walk.{str}

abbrev rebuilt :
    ApiRequest
    → Option SystemContent
    → List Message
    → Option (List Tool)
    → Option Value
    → Option Value
    → ApiRequest
rebuilt r system messages tools meta ctx = record {
  system = system;
  messages = messages;
  tools = tools;
  metadata = meta;
  context_management = ctx;
  extra = r.extra;
}

module _ {L : Type 0} (lru : LruCache L) (x : Externals) (an : Analyzer) (now : ℕ)
    (to_string : EngineError → Text) (seeds : ℕ → ℕ → ℕ → Text)
    (rule : WalkRule (str lru x an now to_string seeds)) where
  abbrev prompt_leaf : Text → Leaves
  prompt_leaf = leaf Surface.system_prompt

  system_block-Holds :
      (b : SystemBlock)
      → Holds rule (system_block lru x an now to_string seeds b) b (prompt_leaf b.text)
  unfolding system_block
  system_block-Holds b =
      Holds-leaf lru x an now to_string seeds rule b.text Surface.system_prompt
        (λ t. record b { text = t })

  system_content-Holds :
      (s : SystemContent)
      → Holds rule (system_content lru x an now to_string seeds s) s (system_leaves s)
  unfolding system_content
  system_content-Holds (SystemContent.system_text t) =
      Holds-leaf lru x an now to_string seeds rule t Surface.system_prompt SystemContent.system_text
  system_content-Holds (SystemContent.system_blocks bs) =
      Holds-map rule
        (each lru x an now to_string seeds (system_block lru x an now to_string seeds) bs)
        SystemContent.system_blocks bs (each_leaves (λ (b : SystemBlock). prompt_leaf b.text) bs)
        (Holds-each lru x an now to_string seeds rule (system_block lru x an now to_string seeds)
          (λ (b : SystemBlock). prompt_leaf b.text) system_block-Holds bs)
  system_content-Holds (SystemContent.system_other t) =
      Holds-return rule (SystemContent.system_other t)

  abbrev message_leaves : Message → Leaves
  message_leaves m = each_leaves (block_leaves m.role) m.content

  message-Holds :
      (m : Message) → Holds rule (message lru x an now to_string seeds m) m (message_leaves m)
  unfolding message
  message-Holds m =
      Holds-map rule
        (each lru x an now to_string seeds (block lru x an now to_string seeds m.role) m.content)
        (λ cs. record m { content = cs }) m.content (message_leaves m)
        (Holds-each lru x an now to_string seeds rule (block lru x an now to_string seeds m.role)
          (block_leaves m.role) (block-Holds lru x an now to_string seeds rule m.role) m.content)

  tool-Holds :
      (t : Tool) → Holds rule (tool lru x an now to_string seeds t) t (prompt_leaf t.description)
  unfolding tool
  tool-Holds t =
      Holds-leaf lru x an now to_string seeds rule t.description Surface.system_prompt
        (λ d. record t { description = d })

  metadata_fields-Holds :
      (o : Fields)
      → Holds rule (metadata_fields lru x an now to_string seeds o) o (metadata_field_leaves o)
  unfolding metadata_fields
  metadata_fields-Holds Fields.no_fields = Holds-return rule Fields.no_fields
  metadata_fields-Holds (Fields.field k v o) =
      let walked = value lru x an now to_string seeds Surface.user_message v in
      let here = value_leaves (λ k. false) Surface.user_message v in
      let skip = text_eq k (codes "user_id") in
      Holds-pair rule (if skip then return v else walked)
        (metadata_fields lru x an now to_string seeds o) (Fields.field k) v o
        (if skip then [] else here) (metadata_field_leaves o)
        (Holds-if rule skip walked v here
          (value-Holds lru x an now to_string seeds rule Surface.user_message v))
        (metadata_fields-Holds o)

  abbrev other_metadata :
      (v : Value)
      → Holds rule
          (value lru x an now to_string seeds Surface.user_message v)
          v
          (value_leaves (λ k. false) Surface.user_message v)
  other_metadata v = value-Holds lru x an now to_string seeds rule Surface.user_message v

  metadata-Holds :
      (v : Value) → Holds rule (metadata lru x an now to_string seeds v) v (metadata_leaves v)
  unfolding metadata
  metadata-Holds (Value.object o) =
      Holds-map rule (metadata_fields lru x an now to_string seeds o) Value.object o
        (metadata_field_leaves o) (metadata_fields-Holds o)
  metadata-Holds (Value.string s) = other_metadata (Value.string s)
  metadata-Holds (Value.array a) = other_metadata (Value.array a)
  metadata-Holds (Value.number n) = other_metadata (Value.number n)
  metadata-Holds (Value.boolean b) = other_metadata (Value.boolean b)
  metadata-Holds Value.null = other_metadata Value.null

  context_management-Holds :
      (v : Value)
      → Holds rule
          (context_management lru x an now to_string seeds v)
          v
          (value_leaves is_context_management_protocol_key Surface.system_prompt v)
  unfolding context_management
  context_management-Holds v =
      skipping-Holds lru x an now to_string seeds rule Surface.system_prompt v

  pub request-Holds :
      (r : ApiRequest) → Holds rule (request lru x an now to_string seeds r) r (request_leaves r)
  unfolding request
  request-Holds r =
      let sys =
        optional lru x an now to_string seeds (system_content lru x an now to_string seeds)
          r.system in
      let msgs =
        each lru x an now to_string seeds (message lru x an now to_string seeds) r.messages in
      let each_tool = each lru x an now to_string seeds (tool lru x an now to_string seeds) in
      let tool_leaves = each_leaves (λ (t : Tool). prompt_leaf t.description) in
      let tls = optional lru x an now to_string seeds each_tool r.tools in
      let met =
        optional lru x an now to_string seeds (metadata lru x an now to_string seeds) r.metadata in
      let ctx =
        optional lru x an now to_string seeds (context_management lru x an now to_string seeds)
          r.context_management in
      let ctx_leaves = value_leaves is_context_management_protocol_key Surface.system_prompt in
      let last = λ (s : Option SystemContent) (ms : List Message) (t : Option (List Tool)).
        Holds-pair rule met ctx (rebuilt r s ms t) r.metadata r.context_management _ _
          (Holds-optional lru x an now to_string seeds rule (metadata lru x an now to_string seeds)
            metadata_leaves metadata-Holds r.metadata)
          (Holds-optional lru x an now to_string seeds rule
            (context_management lru x an now to_string seeds) ctx_leaves context_management-Holds
            r.context_management) in
      let third = λ (s : Option SystemContent) (ms : List Message).
        Holds-bind rule tls (λ t. met >>= λ me. ctx >>= λ c. return (rebuilt r s ms t me c)) r.tools
          (λ t. rebuilt r s ms t r.metadata r.context_management) _ _
          (Holds-optional lru x an now to_string seeds rule each_tool tool_leaves
            (Holds-each lru x an now to_string seeds rule (tool lru x an now to_string seeds)
              (λ (t : Tool). prompt_leaf t.description) tool-Holds)
            r.tools)
          (last s ms) in
      let second = λ (s : Option SystemContent).
        Holds-bind rule msgs
          (λ ms. tls >>= λ t. met >>= λ me. ctx >>= λ c. return (rebuilt r s ms t me c)) r.messages
          (λ ms. rebuilt r s ms r.tools r.metadata r.context_management) _ _
          (Holds-each lru x an now to_string seeds rule (message lru x an now to_string seeds)
            message_leaves message-Holds r.messages)
          (third s) in
      Holds-bind rule sys
        (λ s. msgs >>= λ ms. tls >>= λ t. met >>= λ me. ctx >>= λ c. return (rebuilt r s ms t me c))
        r.system (λ s. rebuilt r s r.messages r.tools r.metadata r.context_management) _ _
        (Holds-optional lru x an now to_string seeds rule
          (system_content lru x an now to_string seeds) system_leaves system_content-Holds r.system)
        second
