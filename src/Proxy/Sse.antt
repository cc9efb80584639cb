-- ===== src/Proxy/Sse.antt =====
-- The relay of an Anthropic event stream (crates/zlauder-proxy/src/sse.rs): the unmasking of text
-- that arrives in pieces. The wire types of the `anthropic_wire` crate are kept as far as the relay
-- looks into them: a content block and an event that it passes on are one opaque text.
pub mod Stream
pub mod Relay
pub mod Blocks
pub mod Ends
use package.zlau_de_r.Prelude.{
  ℕ, Bool, true, false, not, ◌&&◌, ◌==◌, if◌then◌else◌, Option, none, some,
}
use package.zlau_de_r.Prelude.{List, [], ◌∷◌, ◌++◌, Text, is_empty}
use package.zlau_de_r.Prelude.Maps.{lookup, remove, insert}
use package.zlau_de_r.Externals.{Externals}
use package.zlau_de_r.Store.{SessionStore}
use package.zlau_de_r.Config.{RevealMarker}
use package.zlau_de_r.Manifest.{UnmaskManifest}
use package.zlau_de_r.Engine.Unmask.{unmask, unmask_assistant}
use package.zlau_de_r.Json.{Value}
use package.zlau_de_r.Proxy.Unmasked.{unmask_value}
use package.zlau_de_r.Proxy.Split.{split_safe}

pub data ContentBlockDelta : Type 0 where
  text_delta compaction_delta input_json_delta : Text → ContentBlockDelta
  citations_delta : Value → ContentBlockDelta
  other_delta : Text → ContentBlockDelta

pub data StreamEvent : Type 0 where
  block_start : ℕ → Text → StreamEvent
  block_delta : ℕ → ContentBlockDelta → StreamEvent
  block_stop : ℕ → StreamEvent
  other_event : Text → StreamEvent

-- What the upstream gives: an event, a frame whose payload does not parse and is relayed verbatim, or
-- an error.
pub data Arrival : Type 0 where
  parsed : StreamEvent → Arrival
  unparsed : Text → Arrival
  failed : Arrival

-- Whether an unmasked delta is decorated with the reveal marker.
pub data Wrap : Type 0 where
  reveal_marked plain : Wrap

-- The delta kind of a content block.
pub data HeldKind : Type 0 where
  text compaction input_json : HeldKind

unfoldable pub wrap_of : HeldKind → Wrap
wrap_of HeldKind.text = Wrap.reveal_marked
wrap_of HeldKind.compaction = Wrap.plain
wrap_of HeldKind.input_json = Wrap.plain

-- A delta of this kind around the text.
unfoldable pub delta_of : HeldKind → Text → ContentBlockDelta
delta_of HeldKind.text t = ContentBlockDelta.text_delta t
delta_of HeldKind.compaction t = ContentBlockDelta.compaction_delta t
delta_of HeldKind.input_json t = ContentBlockDelta.input_json_delta t

-- The held tail and the delta kind of each block index.
pub record SseUnmasker : Type 0 where
  pub carry : List (ℕ × Text)
  pub held_kind : List (ℕ × HeldKind)

abbrev pub new : SseUnmasker
new = record { carry = []; held_kind = [] }

abbrev pub or_empty : Option Text → Text
or_empty none = []
or_empty (some t) = t

abbrev pub or_text : Option HeldKind → HeldKind
or_text none = HeldKind.text
or_text (some k) = k

-- The event that carries an unmasked text, or none for an empty text.
abbrev pub emit : ℕ → HeldKind → Text → List StreamEvent
emit index kind [] = []
emit index kind (c ∷ t) = StreamEvent.block_delta index (delta_of kind (c ∷ t)) ∷ []

-- The engine, with the clock and the session store that a response is unmasked under.
module _ (x : Externals) (now : ℕ) (store : SessionStore) (marker : RevealMarker)
    (manifest : UnmaskManifest) where
  unfoldable pub unmask_as : Wrap → Text → Text
  unmask_as Wrap.reveal_marked t = unmask_assistant x now store marker manifest t
  unmask_as Wrap.plain t = unmask x now store manifest t

  unfoldable pub buffered : SseUnmasker → ℕ → Text → HeldKind → SseUnmasker × List StreamEvent
  buffered s index incoming kind =
      let buf = or_empty (lookup index s.carry) ++ incoming in
      let parts = split_safe buf in
      (
        record { carry = insert index parts.1 s.carry; held_kind = insert index kind s.held_kind },
        emit index kind (unmask_as (wrap_of kind) parts.0),
      )

  unfoldable pub delta : SseUnmasker → ℕ → ContentBlockDelta → SseUnmasker × List StreamEvent
  delta s index (ContentBlockDelta.text_delta t) = buffered s index t HeldKind.text
  delta s index (ContentBlockDelta.compaction_delta t) = buffered s index t HeldKind.compaction
  delta s index (ContentBlockDelta.input_json_delta t) = buffered s index t HeldKind.input_json
  delta s index (ContentBlockDelta.citations_delta citation) = (
    s,
    StreamEvent.block_delta index
          (ContentBlockDelta.citations_delta (unmask_value (unmask x now store manifest) citation))
        ∷ [],
  )
  delta s index (ContentBlockDelta.other_delta d) =
      (s, StreamEvent.block_delta index (ContentBlockDelta.other_delta d) ∷ [])

  -- The held tail of a block, unmasked without decoration and in the block's own kind.
  unfoldable pub flush : SseUnmasker → ℕ → Text → List StreamEvent
  flush s index held =
      if is_empty held
      then []
      else emit index (or_text (lookup index s.held_kind)) (unmask x now store manifest held)

  unfoldable pub process : SseUnmasker → StreamEvent → SseUnmasker × List StreamEvent
  process s (StreamEvent.block_start index content_block) = (
    record { carry = insert index [] s.carry; held_kind = s.held_kind },
    StreamEvent.block_start index content_block ∷ [],
  )
  process s (StreamEvent.block_stop index) = (
    record { carry = remove index s.carry; held_kind = remove index s.held_kind },
    flush s index (or_empty (lookup index s.carry)) ++ (StreamEvent.block_stop index ∷ []),
  )
  process s (StreamEvent.block_delta index d) = delta s index d
  process s (StreamEvent.other_event e) = (s, StreamEvent.other_event e ∷ [])

  -- `drain`, and what the body builder emits of it when the upstream ends.
  unfoldable pub drain : SseUnmasker → List (ℕ × Text) → List StreamEvent
  drain s [] = []
  drain s ((index, held) ∷ rest) = flush s index held ++ drain s rest

  -- The events that the body sends on for the events that arrive, when the upstream ends without an
  -- error.
  unfoldable pub relay : SseUnmasker → List StreamEvent → List StreamEvent
  relay s [] = drain s s.carry
  relay s (ev ∷ evs) = let r = process s ev in r.1 ++ relay r.0 evs

  -- The body of the response: it ends at an upstream error, without the held tails.
  unfoldable pub unmask_sse_body : SseUnmasker → List Arrival → List StreamEvent
  unmask_sse_body s [] = drain s s.carry
  unmask_sse_body s (Arrival.parsed ev ∷ rest) =
      let r = process s ev in r.1 ++ unmask_sse_body r.0 rest
  unmask_sse_body s (Arrival.unparsed frame ∷ rest) =
      StreamEvent.other_event frame ∷ unmask_sse_body s rest
  unmask_sse_body s (Arrival.failed ∷ rest) = []
