-- ===== src/Proxy/Sse/Stream.antt =====
-- The relayed text of a block against the unmasking of the whole text at once.
use zlau_de_r.Prelude.{ℕ, ◌≡◌, refl, sym, ap, ◌∙◌, ◌⊎◌, inl, inr, arith, Bool, true, false}
use zlau_de_r.Prelude.{not, ◌||◌, ◌==◌, ==_refl, ==→≡, if◌then◌else◌, Option, none, some, List, []}
use zlau_de_r.Prelude.{◌∷◌, ◌++◌, Text, All, Bool-cases, append_assoc, append-nil}
use zlau_de_r.Prelude.Maps.{lookup, remove}
use zlau_de_r.Externals.{Externals}
use zlau_de_r.Token.{scan, is_match}
use zlau_de_r.Store.{SessionStore}
use zlau_de_r.Config.{RevealMarker, is_active}
use zlau_de_r.Manifest.{ManifestEntry, UnmaskManifest}
use zlau_de_r.Engine.Unmask.{unmask, unmask_assistant, unmask_inner, literal_loop, restore}
use zlau_de_r.Engine.Unmask.Pieces.{render_pieces, restore_loop-render}
use zlau_de_r.Proxy.Sse.{ContentBlockDelta, StreamEvent, Wrap, HeldKind, SseUnmasker, emit}
use zlau_de_r.Proxy.Sse.{or_empty, or_text}
use zlau_de_r.Proxy.Sse.{delta_of, unmask_as, flush, drain}

abbrev pub same_kind : HeldKind → HeldKind → Bool
same_kind HeldKind.text HeldKind.text = true
same_kind HeldKind.compaction HeldKind.compaction = true
same_kind HeldKind.input_json HeldKind.input_json = true
same_kind _ _ = false

-- The kind and the text of a delta that is buffered.
abbrev pub kind_of : ContentBlockDelta → Option (HeldKind × Text)
kind_of (ContentBlockDelta.text_delta t) = some (HeldKind.text, t)
kind_of (ContentBlockDelta.compaction_delta t) = some (HeldKind.compaction, t)
kind_of (ContentBlockDelta.input_json_delta t) = some (HeldKind.input_json, t)
kind_of (ContentBlockDelta.citations_delta c) = none
kind_of (ContentBlockDelta.other_delta d) = none

-- The text of a delta of the given kind.
abbrev pub delta_text : HeldKind → ContentBlockDelta → Text
delta_text k d = elim (kind_of d) [
  | none ↦ []
  | some (kind, t) ↦ if same_kind k kind then t else []
]

abbrev pub event_text : ℕ → HeldKind → StreamEvent → Text
event_text i k (StreamEvent.block_delta j d) = if j == i then delta_text k d else []
event_text i k (StreamEvent.block_start j c) = []
event_text i k (StreamEvent.block_stop j) = []
event_text i k (StreamEvent.other_event e) = []

-- The text that the events carry for one block in the deltas of one kind.
abbrev pub text_as : ℕ → HeldKind → List StreamEvent → Text
text_as i k [] = []
text_as i k (ev ∷ evs) = event_text i k ev ++ text_as i k evs

-- A delta of that kind, or one that is not buffered.
abbrev pub of_kind : HeldKind → ContentBlockDelta → Bool
of_kind k d = elim (kind_of d) [ none ↦ true | some (kind, t) ↦ same_kind k kind ]

-- What may come while a block is open: its deltas, all of one kind, and what is of other blocks.
abbrev pub within : ℕ → HeldKind → StreamEvent → Bool
within i k (StreamEvent.block_delta j d) = not (j == i) || of_kind k d
within i k (StreamEvent.block_start j c) = not (j == i)
within i k (StreamEvent.block_stop j) = not (j == i)
within i k (StreamEvent.other_event e) = true

-- Each entry is in the token grammar, or one that the second loop of the unmasking passes over.
abbrev pub NoLiterals : UnmaskManifest → Type 0
NoLiterals = All (λ (e : ManifestEntry). (e.broker || e.local || is_match e.token_handle) ≡ true)

pub text_as-append :
    (i : ℕ) (k : HeldKind) (es fs : List StreamEvent)
    → text_as i k (es ++ fs) ≡ text_as i k es ++ text_as i k fs
text_as-append i k [] fs = refl
text_as-append i k (e ∷ es) fs =
    rw (text_as-append i k es fs) (sym (append_assoc (event_text i k e) _ _))

pub text_as-emit : (i : ℕ) (k : HeldKind) (t : Text) → text_as i k (emit i k t) ≡ t
unfolding delta_of
text_as-emit i k [] = refl
text_as-emit i HeldKind.text (c ∷ t) = rw (==_refl i) (append-nil (c ∷ t))
text_as-emit i HeldKind.compaction (c ∷ t) = rw (==_refl i) (append-nil (c ∷ t))
text_as-emit i HeldKind.input_json (c ∷ t) = rw (==_refl i) (append-nil (c ∷ t))

pub text_as-emit_other :
    (i j : ℕ) (k kind : HeldKind) (t : Text) → (j == i) ≡ false → text_as i k (emit j kind t) ≡ []
text_as-emit_other i j k kind [] h = refl
text_as-emit_other i j k kind (c ∷ t) h = rw h refl

-- What a map of held tails has at an index, every entry of it.
abbrev pub values : ℕ → List (ℕ × Text) → List Text
values i [] = []
values i ((j, t) ∷ m) = let rest = values i m in if j == i then t ∷ rest else rest

pub values-remove_self : (i : ℕ) (m : List (ℕ × Text)) → values i (remove i m) ≡ []
values-remove_self i [] = refl
values-remove_self i ((j, t) ∷ m) = ground (arith, values-remove_self i m)

pub values-remove :
    (i j : ℕ) (m : List (ℕ × Text)) → (j == i) ≡ false → values i (remove j m) ≡ values i m
values-remove i j [] h = refl
values-remove i j ((n, t) ∷ m) h = ground (arith, values-remove i j m h)

-- The relay holds `h` for block `i`, whose deltas are of kind `k`.
pub record Holds (i : ℕ) (k : HeldKind) (h : Text) (s : SseUnmasker) : Type 0 where
  pub found : or_empty (lookup i s.carry) ≡ h
  pub listed : values i s.carry ≡ h ∷ []
  pub kind : (h ≡ []) ⊎ (or_text (lookup i s.held_kind) ≡ k)

module _ (x : Externals) (now : ℕ) (store : SessionStore) (marker : RevealMarker)
    (manifest : UnmaskManifest) where
  -- How one token is restored in a text of each kind.
  pub restored_as : Wrap → Text → Text
  restored_as Wrap.reveal_marked =
      restore x now store manifest (if is_active marker then some marker else none) true
  restored_as Wrap.plain = restore x now store manifest none false

  literal_loop-none :
      (full m : UnmaskManifest) (mk : Option RevealMarker) (b : Bool) (out : Text)
      → NoLiterals m
      → literal_loop x now store full mk b m out ≡ out
  unfolding literal_loop
  literal_loop-none full [] mk b out n = refl
  literal_loop-none full (e ∷ m) mk b out n =
      let (he, hm) = n in ground (arith, literal_loop-none full m mk b out hm)

  pub unmask_as-render :
      (w : Wrap) (t : Text)
      → NoLiterals manifest
      → unmask_as x now store marker manifest w t ≡ render_pieces (restored_as w) (scan 0 t)
  unfolding unmask_as unmask unmask_assistant unmask_inner restored_as
  unmask_as-render Wrap.reveal_marked t n =
      let mk = if is_active marker then some marker else none in
      literal_loop-none manifest manifest mk true _ n
      ∙ restore_loop-render x now store manifest mk true t
  unmask_as-render Wrap.plain t n =
      literal_loop-none manifest manifest none false _ n
      ∙ restore_loop-render x now store manifest none false t

  pub text_as-flush :
      (i : ℕ) (k : HeldKind) (h : Text) (s : SseUnmasker)
      → NoLiterals manifest
      → ((res : Text → Text) → render_pieces res (scan 0 h) ≡ h)
      → Holds i k h s
      → text_as i k (flush x now store marker manifest s i h) ≡ h
  unfolding flush unmask_as
  text_as-flush i k [] s n plain held = refl
  text_as-flush i k (c ∷ h) s n plain held = elim held.kind [
    | inl e ↦ cc
    | inr e ↦
        rw (flush, e)
          (text_as-emit i k _
            ∙ unmask_as-render Wrap.plain (c ∷ h) n
            ∙ plain (restored_as Wrap.plain))
  ]

  pub text_as-flush_other :
      (i j : ℕ) (k : HeldKind) (h : Text) (s : SseUnmasker)
      → (j == i) ≡ false
      → text_as i k (flush x now store marker manifest s j h) ≡ []
  unfolding flush
  text_as-flush_other i j k [] s e = refl
  text_as-flush_other i j k (c ∷ h) s e =
      text_as-emit_other i j k (or_text (lookup j s.held_kind)) _ e

  pub drain-values :
      (i : ℕ) (k : HeldKind) (s : SseUnmasker) (m : List (ℕ × Text))
      → text_as i k (drain x now store marker manifest s m) ≡ elim (values i m) [
        | [] ↦ []
        | t ∷ (ts → rest) ↦ text_as i k (flush x now store marker manifest s i t) ++ rest
      ]
  unfolding drain
  drain-values i k s [] = refl
  drain-values i k s ((j, t) ∷ m) = elim (Bool-cases (j == i)) [
    | inl e ↦
        rw (e, ==→≡ j i e)
          (text_as-append i k (flush x now store marker manifest s i t) _
            ∙ ap (λ (u : Text). text_as i k (flush x now store marker manifest s i t) ++ u)
                (drain-values i k s m))
    | inr e ↦ rw e (
        text_as-append i k (flush x now store marker manifest s j t) _
        ∙ ap (λ (u : Text). u ++ text_as i k (drain x now store marker manifest s m))
            (text_as-flush_other i j k t s e)
        ∙ drain-values i k s m)
  ]
