-- ===== src/Proxy/Sse/Blocks.antt =====
-- The relay of a whole block.
use zlau_de_r.Prelude.{ℕ, ◌≡◌, refl, sym, ap, ◌∙◌, inl, true, ==_refl}
use zlau_de_r.Prelude.{List, [], ◌∷◌, ◌++◌, all, Text, append-nil, and_true}
use zlau_de_r.Prelude.Maps.{remove, insert}
use zlau_de_r.Externals.{Externals}
use zlau_de_r.Token.{scan}
use zlau_de_r.Store.{SessionStore}
use zlau_de_r.Config.{RevealMarker}
use zlau_de_r.Manifest.{UnmaskManifest}
use zlau_de_r.Proxy.Split.Pieces.{ShortTokens}
use zlau_de_r.Proxy.Sse.{StreamEvent, HeldKind, SseUnmasker, wrap_of, unmask_as, flush}
use zlau_de_r.Proxy.Sse.{process, drain, relay}
use zlau_de_r.Proxy.Sse.Stream.{text_as, within, NoLiterals, Holds, text_as-append}
use zlau_de_r.Proxy.Sse.Stream.{text_as-flush, values-remove_self, drain-values, unmask_as-render}
use zlau_de_r.Proxy.Sse.Relay.{NoToken, render, process-Step}

module _ (x : Externals) (now : ℕ) (store : SessionStore) (marker : RevealMarker)
    (manifest : UnmaskManifest) (no_literals : NoLiterals manifest) (i : ℕ) (k : HeldKind) where
  abbrev run : SseUnmasker → List StreamEvent → Text
  run s evs = text_as i k (relay x now store marker manifest s evs)

  abbrev whole : Text → Text
  whole = render x now store marker manifest no_literals i k

  -- Where the ending flushes what is held, the text that is sent on is the unmasked text.
  relay-Holds :
      (ending : List StreamEvent)
      → ((h : Text) (s : SseUnmasker) → Holds i k h s → NoToken h → run s ending ≡ h)
      → (h : Text) (mid : List StreamEvent) (s : SseUnmasker) → all (within i k) mid ≡ true
      → Holds i k h s
      → NoToken h
      → ShortTokens (h ++ text_as i k mid)
      → run s (mid ++ ending) ≡ whole (h ++ text_as i k mid)
  unfolding relay
  relay-Holds ending ends h [] s w held plain short =
      ends h s held plain ∙ sym (plain _) ∙ ap whole (sym (append-nil h))
  relay-Holds ending ends h (ev ∷ mid) s w held plain short =
      let (w_ev, w_mid) = and_true (within i k ev) (all (within i k) mid) w in
      let next = process x now store marker manifest s ev in
      let step =
        process-Step x now store marker manifest no_literals i k h (text_as i k mid) ev s w_ev held
          plain short in
      text_as-append i k next.1 _
      ∙ ap (λ (t : Text). text_as i k next.1 ++ t)
          (relay-Holds ending ends step.held mid next.0 w_mid step.holds step.no_token step.short)
      ∙ step.sent

  ends_at_drain : (h : Text) (s : SseUnmasker) → Holds i k h s → NoToken h → run s [] ≡ h
  unfolding relay
  ends_at_drain h s held plain =
      drain-values x now store marker manifest i k s s.carry
      ∙ rw (held.listed)
          (append-nil _ ∙ text_as-flush x now store marker manifest i k h s no_literals plain held)

  ends_at_stop :
      (h : Text) (s : SseUnmasker)
      → Holds i k h s
      → NoToken h
      → run s (StreamEvent.block_stop i ∷ []) ≡ h
  unfolding relay process
  ends_at_stop h s held plain =
      let after : SseUnmasker = record {
        carry = remove i s.carry;
        held_kind = remove i s.held_kind;
      } in
      let none_left : text_as i k (drain x now store marker manifest after (remove i s.carry))
          ≡ [] =
        drain-values x now store marker manifest i k after (remove i s.carry)
        ∙ rw (values-remove_self i s.carry) refl in
      ap (text_as i k) (
        ap
          (λ (t : Text).
            (flush x now store marker manifest s i t ++ (StreamEvent.block_stop i ∷ []))
            ++ drain x now store marker manifest after (remove i s.carry))
          held.found)
      ∙ text_as-append i k
          (flush x now store marker manifest s i h ++ (StreamEvent.block_stop i ∷ [])) _
      ∙ ap
          (λ (t : Text).
            text_as i k (flush x now store marker manifest s i h ++ (StreamEvent.block_stop i ∷ []))
            ++ t)
          none_left
      ∙ append-nil _
      ∙ text_as-append i k (flush x now store marker manifest s i h) _
      ∙ append-nil _
      ∙ text_as-flush x now store marker manifest i k h s no_literals plain held

  started :
      (s : SseUnmasker)
      → Holds i k [] (record { carry = insert i [] s.carry; held_kind = s.held_kind })
  started s = record {
    found = rw (==_refl i) refl;
    listed = rw (==_refl i) (ap (◌∷◌ []) (values-remove_self i s.carry));
    kind = inl refl;
  }

  -- However the text of a block is cut into deltas, and whatever comes of other blocks in between,
  -- the deltas of the block's kind that the relay sends on carry the unmasking of the whole text,
  -- decorated for prose and plain for tool input and compaction, both where the block is stopped
  -- and where the stream ends before that; no token of the text may be longer than the relay's
  -- bound, no entry of the manifest may need the replacement of a literal, and the session store
  -- and the clock stand still.
  pub relay-unmask_as :
      (s : SseUnmasker) (content_block : Text) (mid : List StreamEvent)
      → all (within i k) mid ≡ true
      → ShortTokens (text_as i k mid)
      → let sent = λ (ending : List StreamEvent). text_as i k (
          relay x now store marker manifest s
            (StreamEvent.block_start i content_block ∷ (mid ++ ending))) in
        let unmasked = unmask_as x now store marker manifest (wrap_of k) (text_as i k mid) in
        (sent (StreamEvent.block_stop i ∷ []) ≡ unmasked) × (sent [] ≡ unmasked)
  unfolding relay process scan
  relay-unmask_as s content_block mid w short =
      let same =
        sym (
          unmask_as-render x now store marker manifest (wrap_of k) (text_as i k mid) no_literals) in
      let begun : SseUnmasker = record { carry = insert i [] s.carry; held_kind = s.held_kind } in
      (
        relay-Holds (StreamEvent.block_stop i ∷ []) ends_at_stop [] mid begun w (started s)
              (λ res. refl) short
            ∙ same,
        relay-Holds [] ends_at_drain [] mid begun w (started s) (λ res. refl) short ∙ same,
      )
