-- ===== src/Proxy/Unmasked.antt =====
-- The walk that unmasks a response (crates/zlauder-proxy/src/walk.rs).
use zlau_de_r.Prelude.{Text}
use zlau_de_r.Json.{Value, Items, Fields}

-- `unmask_value`, over the unmasking of one string.
unfoldable mutual
  pub unmask_value : (Text → Text) → Value → Value
  unmask_value unmask (Value.string s) = Value.string (unmask s)
  unmask_value unmask (Value.array a) = Value.array (unmask_items unmask a)
  unmask_value unmask (Value.object o) = Value.object (unmask_map unmask o)
  unmask_value unmask Value.null = Value.null
  unmask_value unmask (Value.boolean b) = Value.boolean b
  unmask_value unmask (Value.number n) = Value.number n

  pub unmask_items : (Text → Text) → Items → Items
  unmask_items unmask Items.no_items = Items.no_items
  unmask_items unmask (Items.item v a) = Items.item (unmask_value unmask v) (unmask_items unmask a)

  pub unmask_map : (Text → Text) → Fields → Fields
  unmask_map unmask Fields.no_fields = Fields.no_fields
  unmask_map unmask (Fields.field k v o) =
      Fields.field k (unmask_value unmask v) (unmask_map unmask o)
