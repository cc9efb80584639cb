-- ===== src/Json.antt =====
-- The JSON values of `serde_json`, as the walks of the engine and of the proxy see them.
use zlau_de_r.Prelude.{Bool, Text}

-- A number is its text. The fields of an object stand in the order in which they are visited.
mutual
  pub data Value : Type 0 where
    null : Value
    boolean : Bool → Value
    number : Text → Value
    string : Text → Value
    array : Items → Value
    object : Fields → Value

  pub data Items : Type 0 where
    no_items : Items
    item : Value → Items → Items

  pub data Fields : Type 0 where
    no_fields : Fields
    field : Text → Value → Fields → Fields
