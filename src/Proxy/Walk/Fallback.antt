-- ===== src/Proxy/Walk/Fallback.antt =====
-- `value_safe` (walk.rs): the walk over a request that does not fit the schema.
use zlau_de_r.Prelude.{ℕ, Bool, false, not, ◌&&◌, ◌||◌, if◌then◌else◌, List, [], ◌∷◌}
use zlau_de_r.Prelude.{Text, codes, text_eq, contains}
use zlau_de_r.Externals.{Externals}
use zlau_de_r.Error.{EngineError}
use zlau_de_r.Surface.{Surface}
use zlau_de_r.Json.{Value, Items, Fields}
use zlau_de_r.Detect.{Analyzer}
use zlau_de_r.Engine.Cache.{LruCache}
use zlau_de_r.Proxy.Walk.{Walk, return, ◌>>=◌, str, context_management}

abbrev contract_keys : List Text
contract_keys =
    codes "model"
    ∷ codes "tool_choice"
    ∷ codes "thinking"
    ∷ codes "output_config"
    ∷ codes "format"
    ∷ codes "json_schema"
    ∷ codes "schema"
    ∷ codes "input_schema"
    ∷ codes "cache_control"
    ∷ codes "id"
    ∷ codes "tool_use_id"
    ∷ codes "signature"
    ∷ codes "data"
    ∷ codes "media_type"
    ∷ codes "type"
    ∷ []

unfoldable pub preserves_contract_key : Text → Bool
preserves_contract_key key = contains contract_keys key

-- `o.get("type").and_then(Value::as_str) == Some("base64")`.
abbrev is_base64_type : Value → Bool
is_base64_type (Value.string s) = text_eq s (codes "base64")
is_base64_type _ = false

unfoldable pub is_base64 : Fields → Bool
is_base64 Fields.no_fields = false
is_base64 (Fields.field k v o) =
    let rest = is_base64 o in if text_eq k (codes "type") then is_base64_type v else rest

module _ {L : Type 0} (lru : LruCache L) (x : Externals) (a : Analyzer) (now : ℕ)
    (to_string : EngineError → Text) (seeds : ℕ → ℕ → ℕ → Text) where
  -- The fields of a tool are walked on the surface of the system prompt, and so is a `tools` that is
  -- no array.
  unfoldable mutual
    pub value_safe : Surface → Value → Walk L Value
    value_safe surface (Value.string s) = do
      t ← str lru x a now to_string seeds s surface
      return (Value.string t)
    value_safe surface (Value.array v) = do w ← safe_items surface v; return (Value.array w)
    value_safe surface (Value.object o) = do
      w ← safe_fields surface (is_base64 o) o
      return (Value.object w)
    value_safe surface Value.null = return Value.null
    value_safe surface (Value.boolean b) = return (Value.boolean b)
    value_safe surface (Value.number n) = return (Value.number n)

    pub safe_items : Surface → Items → Walk L Items
    safe_items surface Items.no_items = return Items.no_items
    safe_items surface (Items.item v vs) = do
      w ← value_safe surface v
      ws ← safe_items surface vs
      return (Items.item w ws)

    pub safe_fields : Surface → Bool → Fields → Walk L Fields
    safe_fields surface base64 Fields.no_fields = return Fields.no_fields
    safe_fields surface base64 (Fields.field k v o) =
        let walked = value_safe surface v in
        let tools = tools_value_safe v in
        do
          w ←
              if base64 && text_eq k (codes "data")
              then return v
              else (if text_eq k (codes "context_management")
                  then context_management lru x a now to_string seeds v
                  else (if text_eq k (codes "tools")
                      then tools
                      else (if preserves_contract_key k then return v else walked)))
          ws ← safe_fields surface base64 o
          return (Fields.field k w ws)

    pub tools_value_safe : Value → Walk L Value
    tools_value_safe (Value.array v) = do w ← tools_items v; return (Value.array w)
    tools_value_safe (Value.string s) = do
      t ← str lru x a now to_string seeds s Surface.system_prompt
      return (Value.string t)
    tools_value_safe (Value.object o) = do
      w ← safe_fields Surface.system_prompt (is_base64 o) o
      return (Value.object w)
    tools_value_safe Value.null = return Value.null
    tools_value_safe (Value.boolean b) = return (Value.boolean b)
    tools_value_safe (Value.number n) = return (Value.number n)

    pub tools_items : Items → Walk L Items
    tools_items Items.no_items = return Items.no_items
    tools_items (Items.item v vs) = do
      w ← tool_value_safe v
      ws ← tools_items vs
      return (Items.item w ws)

    pub tool_value_safe : Value → Walk L Value
    tool_value_safe (Value.object o) = do w ← tool_fields o; return (Value.object w)
    tool_value_safe (Value.string s) = do
      t ← str lru x a now to_string seeds s Surface.system_prompt
      return (Value.string t)
    tool_value_safe (Value.array v) = do
      w ← safe_items Surface.system_prompt v
      return (Value.array w)
    tool_value_safe Value.null = return Value.null
    tool_value_safe (Value.boolean b) = return (Value.boolean b)
    tool_value_safe (Value.number n) = return (Value.number n)

    -- `input_schema`, `cache_control`, `name` and the keys of the contract stay.
    pub tool_fields : Fields → Walk L Fields
    tool_fields Fields.no_fields = return Fields.no_fields
    tool_fields (Fields.field k v o) =
        let walked = value_safe Surface.system_prompt v in
        do
          w ←
              if not (text_eq k (codes "description"))
                && (text_eq k (codes "name") || preserves_contract_key k)
              then return v
              else walked
          ws ← tool_fields o
          return (Fields.field k w ws)
