-- ===== src/Proxy/Sse/Relay.antt =====
-- One event after the other: what is sent on and what is held make up the unmasked text.
use zlau_de_r.Prelude.{ℕ, ◌≡◌, refl, sym, ap, ◌∙◌, inl, inr, arith, subst, true, false}
use zlau_de_r.Prelude.{◌==◌, ==_refl, ==→≡, some, List, []}
use zlau_de_r.Prelude.{◌∷◌, ◌++◌, Text, Bool-cases, append_assoc, append-nil}
use zlau_de_r.Prelude.Maps.{lookup, remove, insert, lookup-insert, lookup-remove}
use zlau_de_r.Externals.{Externals}
use zlau_de_r.Token.{scan}
use zlau_de_r.Store.{SessionStore}
use zlau_de_r.Config.{RevealMarker}
use zlau_de_r.Manifest.{UnmaskManifest}
use zlau_de_r.Engine.Unmask.Pieces.{render_pieces, render_pieces-append}
use zlau_de_r.Proxy.Split.{split_safe}
use zlau_de_r.Proxy.Split.Pieces.{ShortTokens, ShortTokens-drop}
use zlau_de_r.Proxy.Split.Hold.{Parts, split_safe-Parts}
use zlau_de_r.Proxy.Sse.{ContentBlockDelta, StreamEvent, HeldKind, SseUnmasker, or_empty, or_text}
use zlau_de_r.Proxy.Sse.{wrap_of, buffered, delta, flush, process}
use zlau_de_r.Proxy.Sse.Stream.{same_kind, event_text, text_as, within, NoLiterals, Holds, values}
use zlau_de_r.Proxy.Sse.Stream.{text_as-append, text_as-emit, text_as-emit_other}
use zlau_de_r.Proxy.Sse.Stream.{values-remove_self, values-remove, unmask_as-render}
use zlau_de_r.Proxy.Sse.Stream.{restored_as, kind_of, delta_text, text_as-flush_other}

same_kind→≡ : (k l : HeldKind) → same_kind k l ≡ true → k ≡ l
same_kind→≡ HeldKind.text HeldKind.text e = refl
same_kind→≡ HeldKind.compaction HeldKind.compaction e = refl
same_kind→≡ HeldKind.input_json HeldKind.input_json e = refl
same_kind→≡ HeldKind.text HeldKind.compaction e = cc
same_kind→≡ HeldKind.text HeldKind.input_json e = cc
same_kind→≡ HeldKind.compaction HeldKind.text e = cc
same_kind→≡ HeldKind.compaction HeldKind.input_json e = cc
same_kind→≡ HeldKind.input_json HeldKind.text e = cc
same_kind→≡ HeldKind.input_json HeldKind.compaction e = cc

same_kind_refl : (k : HeldKind) → same_kind k k ≡ true
same_kind_refl HeldKind.text = refl
same_kind_refl HeldKind.compaction = refl
same_kind_refl HeldKind.input_json = refl

-- A held text with no token in it.
abbrev pub NoToken : Text → Type 0
NoToken h = (res : Text → Text) → render_pieces res (scan 0 h) ≡ h

-- What changes nothing for the block changes nothing of what is held for it.
Holds-same :
    (i : ℕ) (k : HeldKind) (h : Text) (s t : SseUnmasker)
    → lookup i t.carry ≡ lookup i s.carry
    → values i t.carry ≡ values i s.carry
    → lookup i t.held_kind ≡ lookup i s.held_kind
    → Holds i k h s
    → Holds i k h t
Holds-same i k h s t carried listed kinds held = record {
  found = ap or_empty carried ∙ held.found;
  listed = listed ∙ held.listed;
  kind = elim held.kind [ inl p ↦ inl p | inr p ↦ inr (ap or_text kinds ∙ p) ];
}

lookup-insert_other :
    {A : Type 0} (i j : ℕ) (v : A) (m : List (ℕ × A))
    → (j == i) ≡ false
    → lookup i (insert j v m) ≡ lookup i m
lookup-insert_other i j v m e = lookup-insert i j v m ∙ rw e refl

lookup-remove_other :
    {A : Type 0} (i j : ℕ) (m : List (ℕ × A))
    → (j == i) ≡ false
    → lookup i (remove j m) ≡ lookup i m
lookup-remove_other i j m e = lookup-remove i j m ∙ rw e refl

module _ (x : Externals) (now : ℕ) (store : SessionStore) (marker : RevealMarker)
    (manifest : UnmaskManifest) (no_literals : NoLiterals manifest) (i : ℕ) (k : HeldKind) where
  -- The unmasking of a text of this kind, by its tokens.
  abbrev pub render : Text → Text
  render t = render_pieces (restored_as x now store marker manifest (wrap_of k)) (scan 0 t)

  -- What one event does to block `i`, with `more` of its text still to come.
  pub record Step (h more : Text) (ev : StreamEvent) (r : SseUnmasker × List StreamEvent)
      : Type 0 where
    pub held : Text
    pub holds : Holds i k held r.0
    pub no_token : NoToken held
    pub short : ShortTokens (held ++ more)
    pub sent : text_as i k r.1 ++ render (held ++ more) ≡ render (h ++ (event_text i k ev ++ more))

  Step-buffered :
      (h t more : Text) (s : SseUnmasker)
      → Holds i k h s
      → ShortTokens (h ++ (t ++ more))
      → (parts : Parts (h ++ t) more (split_safe (h ++ t)).0 (split_safe (h ++ t)).1)
      → let r = buffered x now store marker manifest s i t k in
        Holds i k (split_safe (h ++ t)).1 r.0
        × (text_as i k r.1 ++ render ((split_safe (h ++ t)).1 ++ more) ≡ render (h ++ (t ++ more)))
  unfolding buffered
  Step-buffered h t more s held short parts =
      let safe = (split_safe (h ++ t)).0 in
      let tail = (split_safe (h ++ t)).1 in
      (
        rw (held.found) (record {
          found = rw (==_refl i) refl;
          listed =
              rw (==_refl i) (ap (λ (ts : List Text). tail ∷ ts) (values-remove_self i s.carry));
          kind = inr (rw (==_refl i) refl);
        }),
        rw (held.found) (
            ap (λ (u : Text). u ++ render (tail ++ more))
              (text_as-emit i k _
                ∙ unmask_as-render x now store marker manifest (wrap_of k) safe no_literals)
            ∙ sym (render_pieces-append _ (scan 0 safe) (scan 0 (tail ++ more)))
            ∙ ap (render_pieces _) (sym parts.cuts)
            ∙ ap render (append_assoc h t more)),
      )

  -- An event of another block, or one that is not buffered.
  Step-kept :
      (h more : Text) (ev : StreamEvent) (s : SseUnmasker) (r : SseUnmasker × List StreamEvent)
      → NoToken h
      → ShortTokens (h ++ (event_text i k ev ++ more))
      → event_text i k ev ≡ []
      → text_as i k r.1 ≡ []
      → Holds i k h r.0
      → Step h more ev r
  Step-kept h more ev s r plain short silent quiet held =
      let whole : h ++ (event_text i k ev ++ more) ≡ h ++ more =
        ap (λ (t : Text). h ++ (t ++ more)) silent in
      record {
        held = h;
        holds = held;
        no_token = plain;
        short = subst ShortTokens whole short;
        sent = ap (λ (t : Text). t ++ render (h ++ more)) quiet ∙ ap render (sym whole);
      }

  buffered-other :
      (h t : Text) (j : ℕ) (kind : HeldKind) (s : SseUnmasker)
      → (j == i) ≡ false
      → Holds i k h s
      → let r = buffered x now store marker manifest s j t kind in
        Holds i k h r.0 × (text_as i k r.1 ≡ [])
  unfolding buffered
  buffered-other h t j kind s e held =
      let tail = (split_safe (or_empty (lookup j s.carry) ++ t)).1 in
      (
        Holds-same i k h s _ (lookup-insert_other i j tail s.carry e)
            (rw e (values-remove i j s.carry e)) (lookup-insert_other i j kind s.held_kind e) held,
        text_as-emit_other i j k kind _ e,
      )

  delta-other :
      (h : Text) (j : ℕ) (d : ContentBlockDelta) (s : SseUnmasker)
      → (j == i) ≡ false
      → Holds i k h s
      → let r = delta x now store marker manifest s j d in Holds i k h r.0 × (text_as i k r.1 ≡ [])
  unfolding delta
  delta-other h j (ContentBlockDelta.text_delta t) s e held =
      buffered-other h t j HeldKind.text s e held
  delta-other h j (ContentBlockDelta.compaction_delta t) s e held =
      buffered-other h t j HeldKind.compaction s e held
  delta-other h j (ContentBlockDelta.input_json_delta t) s e held =
      buffered-other h t j HeldKind.input_json s e held
  delta-other h j (ContentBlockDelta.citations_delta c) s e held = (held, rw e refl)
  delta-other h j (ContentBlockDelta.other_delta d) s e held = (held, rw e refl)

  -- A delta of the block that is buffered.
  Step-delta :
      (h more t : Text) (kind : HeldKind) (d : ContentBlockDelta) (s : SseUnmasker)
      → kind_of d ≡ some (kind, t)
      → delta x now store marker manifest s i d ≡ buffered x now store marker manifest s i t kind
      → same_kind k kind ≡ true
      → Holds i k h s
      → ShortTokens (h ++ (event_text i k (StreamEvent.block_delta i d) ++ more))
      → Step h more (StreamEvent.block_delta i d) (delta x now store marker manifest s i d)
  Step-delta h more t kind d s is_of runs same held short =
      let says : event_text i k (StreamEvent.block_delta i d) ≡ t =
        rw (==_refl i, delta_text, is_of, same) refl in
      let here : ShortTokens (h ++ (t ++ more)) =
        subst (λ (u : Text). ShortTokens (h ++ (u ++ more))) says short in
      let parts =
        split_safe-Parts (h ++ t) more (subst ShortTokens (sym (append_assoc h t more)) here) in
      let (holds, sent) = Step-buffered h t more s held here parts in
      let tail = (split_safe (h ++ t)).1 in
      let all_of : h ++ (t ++ more) ≡ (split_safe (h ++ t)).0 ++ (tail ++ more) =
        sym (append_assoc h t more)
        ∙ ap (λ (u : Text). u ++ more) parts.whole
        ∙ append_assoc (split_safe (h ++ t)).0 tail more in
      rw (runs, ← same_kind→≡ k kind same)
        (record {
          held = tail;
          holds = holds;
          no_token = parts.plain;
          short =
              ShortTokens-drop (split_safe (h ++ t)).0 (tail ++ more)
                (subst ShortTokens all_of here);
          sent = sent ∙ ap (λ (u : Text). render (h ++ (u ++ more))) (sym says);
        })

  delta-Step :
      (h more : Text) (d : ContentBlockDelta) (s : SseUnmasker)
      → within i k (StreamEvent.block_delta i d) ≡ true
      → Holds i k h s
      → NoToken h
      → ShortTokens (h ++ (event_text i k (StreamEvent.block_delta i d) ++ more))
      → Step h more (StreamEvent.block_delta i d) (delta x now store marker manifest s i d)
  unfolding delta
  delta-Step h more (ContentBlockDelta.text_delta t) s w held plain short =
      Step-delta h more t HeldKind.text (ContentBlockDelta.text_delta t) s refl refl
        (ground (arith, ==_refl i)) held short
  delta-Step h more (ContentBlockDelta.compaction_delta t) s w held plain short =
      Step-delta h more t HeldKind.compaction (ContentBlockDelta.compaction_delta t) s refl refl
        (ground (arith, ==_refl i)) held short
  delta-Step h more (ContentBlockDelta.input_json_delta t) s w held plain short =
      Step-delta h more t HeldKind.input_json (ContentBlockDelta.input_json_delta t) s refl refl
        (ground (arith, ==_refl i)) held short
  delta-Step h more (ContentBlockDelta.citations_delta c) s w held plain short =
      Step-kept h more (StreamEvent.block_delta i (ContentBlockDelta.citations_delta c)) s _ plain
        short (rw (==_refl i) refl) (rw (==_refl i) refl) held
  delta-Step h more (ContentBlockDelta.other_delta d) s w held plain short =
      Step-kept h more (StreamEvent.block_delta i (ContentBlockDelta.other_delta d)) s _ plain short
        (rw (==_refl i) refl) (rw (==_refl i) refl) held

  pub process-Step :
      (h more : Text) (ev : StreamEvent) (s : SseUnmasker)
      → within i k ev ≡ true
      → Holds i k h s
      → NoToken h
      → ShortTokens (h ++ (event_text i k ev ++ more))
      → Step h more ev (process x now store marker manifest s ev)
  unfolding process
  process-Step h more (StreamEvent.block_start j c) s w held plain short =
      let e : (j == i) ≡ false = ground arith in
      Step-kept h more (StreamEvent.block_start j c) s _ plain short refl refl (
        Holds-same i k h s _ (lookup-insert_other i j [] s.carry e)
          (rw e (values-remove i j s.carry e)) refl held)
  process-Step h more (StreamEvent.block_stop j) s w held plain short =
      let e : (j == i) ≡ false = ground arith in
      let tail = or_empty (lookup j s.carry) in
      Step-kept h more (StreamEvent.block_stop j) s _ plain short refl
        (text_as-append i k (flush x now store marker manifest s j tail) _
          ∙ append-nil _
          ∙ text_as-flush_other x now store marker manifest i j k tail s e)
        (Holds-same i k h s _ (lookup-remove_other i j s.carry e) (values-remove i j s.carry e)
          (lookup-remove_other i j s.held_kind e) held)
  process-Step h more (StreamEvent.other_event o) s w held plain short =
      Step-kept h more (StreamEvent.other_event o) s _ plain short refl refl held
  process-Step h more (StreamEvent.block_delta j d) s w held plain short =
      elim (Bool-cases (j == i)) [
        | inl e ↦
            let same = ==→≡ j i e in
            subst
              (λ (n : ℕ).
                Step h more (StreamEvent.block_delta n d) (delta x now store marker manifest s n d))
              (sym same)
              (delta-Step h more d s
                (subst (λ (n : ℕ). within i k (StreamEvent.block_delta n d) ≡ true) same w) held
                plain
                (subst
                  (λ (n : ℕ).
                    ShortTokens (h ++ (event_text i k (StreamEvent.block_delta n d) ++ more)))
                  same short))
        | inr e ↦
            let (holds, quiet) = delta-other h j d s e held in
            Step-kept h more (StreamEvent.block_delta j d) s _ plain short (rw e refl) quiet holds
      ]
