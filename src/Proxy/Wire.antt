-- ===== src/Proxy/Wire.antt =====
-- The request of the Anthropic API, as far as the walk of the proxy looks into it: the types of the
-- `anthropic_wire` crate with the fields that are read or written. What is passed through whole is
-- one opaque text, or a JSON value.
use zlau_de_r.Prelude.{Option, List, Text}
use zlau_de_r.Json.{Value, Fields}

pub record SystemBlock : Type 0 where
  pub text : Text
  pub extra : Fields

pub data SystemContent : Type 0 where
  system_text : Text → SystemContent
  system_blocks : List SystemBlock → SystemContent
  system_other : Text → SystemContent

pub data ApiImageSource : Type 0 where
  image_url : Text → ApiImageSource
  image_other : Text → ApiImageSource

pub data ApiDocumentSource : Type 0 where
  document_url : Text → ApiDocumentSource
  document_other : Text → ApiDocumentSource

pub data ToolResultBlock : Type 0 where
  result_text : Text → ToolResultBlock
  result_image : ApiImageSource → ToolResultBlock
  result_document : ApiDocumentSource → ToolResultBlock
  result_other : Text → ToolResultBlock

pub data ToolResultContent : Type 0 where
  content_text : Text → ToolResultContent
  content_blocks : List ToolResultBlock → ToolResultContent
  content_other : Text → ToolResultContent

pub data ApiContentBlock : Type 0 where
  text compaction thinking redacted_thinking block_other : Text → ApiContentBlock
  tool_use : Value → ApiContentBlock
  tool_result : ToolResultContent → ApiContentBlock
  image : ApiImageSource → ApiContentBlock
  document : ApiDocumentSource → ApiContentBlock

pub record Message : Type 0 where
  pub role : Text
  pub content : List ApiContentBlock
  pub extra : Fields

pub record Tool : Type 0 where
  pub name : Text
  pub description : Text
  pub input_schema : Value
  pub extra : Fields

pub record ApiRequest : Type 0 where
  pub system : Option SystemContent
  pub messages : List Message
  pub tools : Option (List Tool)
  pub metadata : Option Value
  pub context_management : Option Value
  pub extra : Fields
