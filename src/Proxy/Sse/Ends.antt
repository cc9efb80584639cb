-- ===== src/Proxy/Sse/Ends.antt =====
-- How the body of a relayed response ends (crates/zlauder-proxy/src/sse.rs).
use zlau_de_r.Prelude.{ℕ, ◌≡◌, refl, ap, ◌∙◌, List, [], ◌∷◌, ◌++◌, map}
use zlau_de_r.Prelude.{All, append_assoc}
use zlau_de_r.Externals.{Externals}
use zlau_de_r.Store.{SessionStore}
use zlau_de_r.Config.{RevealMarker}
use zlau_de_r.Manifest.{UnmaskManifest}
use zlau_de_r.Proxy.Sse.{SseUnmasker, StreamEvent, Arrival, process, drain, relay, unmask_sse_body}

-- The event that an arrival stands for; a frame that does not parse is passed on like an event that is.
abbrev pub event_of : Arrival → StreamEvent
event_of (Arrival.parsed ev) = ev
event_of (Arrival.unparsed frame) = StreamEvent.other_event frame
event_of Arrival.failed = StreamEvent.other_event []

abbrev pub Arrived : Arrival → Type 0
Arrived (Arrival.parsed ev) = Unit
Arrived (Arrival.unparsed frame) = Unit
Arrived Arrival.failed = ⊥

module _ (x : Externals) (now : ℕ) (store : SessionStore) (marker : RevealMarker)
    (manifest : UnmaskManifest) where
  -- The state after the events.
  abbrev left : SseUnmasker → List Arrival → SseUnmasker
  left s [] = s
  left s (a ∷ rest) = left (process x now store marker manifest s (event_of a)).0 rest

  -- Without an error, the body is the relay of the events.
  pub unmask_sse_body-relay :
      (s : SseUnmasker) (arrivals : List Arrival)
      → All Arrived arrivals
      → unmask_sse_body x now store marker manifest s arrivals
        ≡ relay x now store marker manifest s (map event_of arrivals)
  unfolding unmask_sse_body relay process
  unmask_sse_body-relay s [] h = refl
  unmask_sse_body-relay s (Arrival.parsed ev ∷ rest) h =
      let r = process x now store marker manifest s ev in
      ap (λ (t : List StreamEvent). r.1 ++ t) (unmask_sse_body-relay r.0 rest h.1)
  unmask_sse_body-relay s (Arrival.unparsed frame ∷ rest) h =
      ap (λ (t : List StreamEvent). StreamEvent.other_event frame ∷ t)
        (unmask_sse_body-relay s rest h.1)
  unmask_sse_body-relay s (Arrival.failed ∷ rest) h = absurd h.0

  -- At an error, the body is what the relay of the events before it sends, but for the held tails,
  -- which are lost.
  pub unmask_sse_body-failed :
      (s : SseUnmasker) (arrivals later : List Arrival)
      → All Arrived arrivals
      → unmask_sse_body x now store marker manifest s (arrivals ++ (Arrival.failed ∷ later))
          ++ drain x now store marker manifest (left s arrivals) (left s arrivals).carry
        ≡ relay x now store marker manifest s (map event_of arrivals)
  unfolding unmask_sse_body relay process
  unmask_sse_body-failed s [] later h = refl
  unmask_sse_body-failed s (Arrival.parsed ev ∷ rest) later h =
      let r = process x now store marker manifest s ev in
      append_assoc r.1 _ _
      ∙ ap (λ (t : List StreamEvent). r.1 ++ t) (unmask_sse_body-failed r.0 rest later h.1)
  unmask_sse_body-failed s (Arrival.unparsed frame ∷ rest) later h =
      ap (λ (t : List StreamEvent). StreamEvent.other_event frame ∷ t)
        (unmask_sse_body-failed s rest later h.1)
  unmask_sse_body-failed s (Arrival.failed ∷ rest) later h = absurd h.0
