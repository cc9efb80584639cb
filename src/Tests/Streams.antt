-- ===== src/Tests/Streams.antt =====
-- Instances of the theorems on the relays.
use zlau_de_r.Prelude.{◌≡◌, refl, arith, true, false, none, [], ◌∷◌, ◌++◌, List, Text, codes}
use zlau_de_r.Surface.{Surface}
use zlau_de_r.Token.{
  is_match, find_iter, matches_from, scan, match_at, split_bracket, is_token_body,
}
use zlau_de_r.Config.{RevealMarker}
use zlau_de_r.Manifest.{UnmaskManifest}
use zlau_de_r.Proxy.Split.Pieces.{ShortTokens-length}
use zlau_de_r.Proxy.Sse.{StreamEvent, ContentBlockDelta, HeldKind, new, relay, unmask_as, wrap_of}
use zlau_de_r.Proxy.Sse.Stream.{text_as}
use zlau_de_r.Proxy.Sse.Blocks.{relay-unmask_as}
use zlau_de_r.Tests.Toy.{toy, empty}

abbrev ada : Text
ada = codes "[PERSON_777777777777]"

abbrev entries : UnmaskManifest
entries =
    record {
      canonical_form = codes "Ada";
      token_handle = ada;
      entity_kind = codes "PERSON";
      arrow_origin = Surface.user_message;
      exposed_at = none;
      broker = false;
      local = false;
    }
    ∷ []

abbrev marked : RevealMarker
marked = record { enabled = true; prefix = codes "<"; suffix = codes ">" }

-- A token that is cut in two, with a delta of another block in between.
abbrev arrived : List StreamEvent
arrived =
    StreamEvent.block_delta 1 (ContentBlockDelta.text_delta (codes "hi [PERSON_77"))
    ∷ StreamEvent.block_delta 2 (ContentBlockDelta.input_json_delta (codes "{}"))
    ∷ StreamEvent.block_delta 1 (ContentBlockDelta.text_delta (codes "7777777777]!"))
    ∷ []

entries_in_grammar : is_match ada ≡ true
unfolding is_match find_iter matches_from scan match_at split_bracket is_token_body
entries_in_grammar = refl

abbrev sent : List StreamEvent → Text
sent ending =
    text_as 1 HeldKind.text
      (relay toy 0 empty marked entries new (StreamEvent.block_start 1 [] ∷ (arrived ++ ending)))

abbrev unmasked : Text
unmasked =
    unmask_as toy 0 empty marked entries (wrap_of HeldKind.text) (text_as 1 HeldKind.text arrived)

relay-unmask_as_example : (sent (StreamEvent.block_stop 1 ∷ []) ≡ unmasked) × (sent [] ≡ unmasked)
relay-unmask_as_example =
    relay-unmask_as toy 0 empty marked entries (entries_in_grammar, tt) 1 HeldKind.text new []
      arrived refl (ShortTokens-length _ (omega arith))
