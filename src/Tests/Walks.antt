-- ===== src/Tests/Walks.antt =====
-- An instance of the theorem on the walk over a request.
use zlau_de_r.Prelude.{ℕ, ◌≡◌, refl, List, none, some, [], ◌∷◌, ◌++◌, Text, codes, text_eq}
use zlau_de_r.Error.{ok}
use zlau_de_r.Json.{Value, Fields}
use zlau_de_r.Proxy.Wire.{SystemContent, ApiContentBlock, Message, ApiRequest}
use zlau_de_r.Proxy.Walk.{MaskWalker, request, walker, surface_for_role}
use zlau_de_r.Proxy.Walk.Leaves.{request_leaves}
use zlau_de_r.Proxy.Walk.Collect.{request-leaves}
use zlau_de_r.Tests.Toy.{toy}
use zlau_de_r.Tests.Batches.{analyzer}
use zlau_de_r.Proxy.Body.{Serde, mask_typed, mask_request}
use zlau_de_r.Proxy.Body.Prewarmed.{reply_of, mask_request-prewarmed}
use zlau_de_r.Tests.Engines.{greeting}
use zlau_de_r.Tests.Masks.{Slot, slot, slot-LruLaws, engine, message, IsGreeting, apart}
use zlau_de_r.Tests.Masks.{engine-Sound, greeting-Seen, quiet_only}

abbrev draws : ℕ → ℕ → ℕ → Text
draws c n k = c ∷ n ∷ k ∷ []

abbrev asked : ApiRequest
asked = record {
  system = some (SystemContent.system_text (codes "Be brief"));
  messages =
      record {
        role = codes "user";
        content =
            ApiContentBlock.text (codes "Hi Ada") ∷ ApiContentBlock.thinking (codes "hm") ∷ [];
        extra = Fields.no_fields;
      }
      ∷ [];
  tools = none;
  metadata = some (
      Value.object (
        Fields.field (codes "user_id") (Value.string (codes "u1"))
          (Fields.field (codes "note") (Value.string (codes "n")) Fields.no_fields)));
  context_management = none;
  extra = Fields.no_fields;
}

abbrev begun : MaskWalker Slot
begun = walker slot toy analyzer 0 message draws engine (some [])

request-leaves_example :
    request slot toy analyzer 0 message draws asked begun
    ≡ (record begun { collect = some ([] ++ request_leaves asked) }, ok asked)
request-leaves_example = request-leaves slot toy analyzer 0 message draws asked begun []

abbrev greeted : ApiRequest
greeted = record asked {
  system = none;
  messages =
      record {
        role = codes "user";
        content = ApiContentBlock.text greeting ∷ [];
        extra = Fields.no_fields;
      }
      ∷ [];
  metadata = none;
}

-- A parser that reads `greeted`, and a printer of the texts of the user.
abbrev texts : List ApiContentBlock → Text
texts [] = []
texts (ApiContentBlock.text t ∷ bs) = t ++ texts bs
texts (_ ∷ bs) = texts bs

abbrev printed_texts : List Message → Text
printed_texts [] = []
printed_texts (m ∷ ms) = texts m.content ++ printed_texts ms

abbrev serde : Serde
serde = record {
  parse_request = λ (body : Text). some greeted;
  parse_value = λ (body : Text). none;
  print_request = λ (r : ApiRequest). some (printed_texts r.messages);
  print_value = λ (v : Value). none;
}

mask_request-prewarmed_example :
    reply_of (mask_request slot toy analyzer 0 message draws serde engine greeting)
    ≡ reply_of (mask_typed slot toy analyzer 0 message draws serde engine greeted)
unfolding surface_for_role text_eq
mask_request-prewarmed_example =
    mask_request-prewarmed slot slot-LruLaws toy analyzer 0 message draws IsGreeting apart serde
      engine greeting greeted refl quiet_only (greeting-Seen, tt) engine-Sound
