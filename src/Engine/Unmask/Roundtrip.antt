-- ===== src/Engine/Unmask/Roundtrip.antt =====
-- Unmasking what was masked with reversible tokens gives the text back.
use zlau_de_r.Prelude.{ℕ, ◌≡◌, refl, sym, ap, ◌∙◌, inl, inr}
use zlau_de_r.Prelude.{true, false, none, some, List, [], ◌∷◌}
use zlau_de_r.Prelude.{length, Text, ◌∈◌, All, text_eq, text_eq_iff, text_eq_refl}
use zlau_de_r.Prelude.{Bool-cases}
use zlau_de_r.Externals.{Externals, HexDigest, Encrypts}
use zlau_de_r.Error.{ok}
use zlau_de_r.Surface.{Surface}
use zlau_de_r.Token.{make_token, scan, find_iter}
use zlau_de_r.Token.Clean.{find_iter-NoMatch, is_match-token}
use zlau_de_r.Store.{SessionStore}
use zlau_de_r.Config.{EngineConfig}
use zlau_de_r.Detect.{CachedDetection, slice}
use zlau_de_r.Manifest.{ManifestEntry, UnmaskManifest, entry_of}
use zlau_de_r.Engine.Apply.{Applied, apply}
use zlau_de_r.Engine.Unmask.{unmask, unmask_inner, literal_loop, restore, plain_of, local_token}
use zlau_de_r.Engine.Unmask.Pieces.{render_pieces, restore_loop-render}
use zlau_de_r.Engine.Unmask.Masking.{Fits, TokenSpan, Restorable, Masked-loop}

entry_of-mem :
    (m : UnmaskManifest) (e : ManifestEntry)
    → e ∈ m
    → (f : ManifestEntry) × (entry_of m e.token_handle ≡ some f)
      × (f ∈ m)
      × (f.token_handle ≡ e.token_handle)
entry_of-mem [] e n = absurd n
entry_of-mem (g ∷ m) e n = elim (Bool-cases (text_eq g.token_handle e.token_handle)) [
  | inl same ↦ (g, rw same refl, inl refl, (text_eq_iff g.token_handle e.token_handle).0 same)
  | inr differ ↦ elim n [
    | inl this ↦
        let same : text_eq g.token_handle e.token_handle ≡ true =
          rw this (text_eq_refl g.token_handle) in
        absurd (cc)
    | inr later ↦
        let (f, found, at, named) = entry_of-mem m e later in (f, rw differ found, inr at, named)
  ]
]

module _ (x : Externals) (law : HexDigest x) (encrypts : Encrypts x) (nonces : ℕ → Text) (now : ℕ)
    (surface : Surface) (cfg : EngineConfig) (text : Text) (dets : List CachedDetection) (later : ℕ)
    (other : SessionStore) where
  -- A handle of the manifest is restored to the plaintext of its first entry.
  restore-entry :
      (salt : Text) (m : UnmaskManifest)
      → ((e : ManifestEntry)
          → e ∈ m
          → Restorable x law encrypts nonces now surface cfg salt text dets e)
      → ((e f : ManifestEntry)
          → e ∈ m
          → f ∈ m
          → f.token_handle ≡ e.token_handle
          → f.canonical_form ≡ e.canonical_form)
      → (e : ManifestEntry) → e ∈ m
      → restore x later other m none false e.token_handle ≡ e.canonical_form
  unfolding restore plain_of local_token
  restore-entry salt m r same e n =
      let (f, found, at, named) = entry_of-mem m e n in
      rw (restore, plain_of, local_token, (r e n).no_broker, found, (r f at).unlocal)
        (same e f n at named)

  literal_loop-tokens :
      (salt : Text) (full m : UnmaskManifest) (out : Text)
      → ((e : ManifestEntry)
          → e ∈ m
          → Restorable x law encrypts nonces now surface cfg salt text dets e)
      → literal_loop x later other full none false m out ≡ out
  unfolding literal_loop
  literal_loop-tokens salt full [] out r = refl
  literal_loop-tokens salt full (e ∷ m) out r =
      let k = r e (inl refl) in
      rw (literal_loop, k.unbrokered, k.unlocal, is_match-token e.token_handle k.token)
        (literal_loop-tokens salt full m out (λ f n. r f (inr n)))

  -- No two detected values of the text that differ are given one token.
  abbrev pub NoCollision : Text → Type 0
  NoCollision salt =
      (d e : CachedDetection)
      → d ∈ dets
      → e ∈ dets
      → make_token x d.entity_type (slice text d.start d.end) salt
        ≡ make_token x e.entity_type (slice text e.start e.end) salt
      → slice text d.start d.end ≡ slice text e.start e.end

  same_plain :
      (salt : Text) (e f : ManifestEntry)
      → Restorable x law encrypts nonces now surface cfg salt text dets e
      → Restorable x law encrypts nonces now surface cfg salt text dets f
      → NoCollision salt
      → f.token_handle ≡ e.token_handle
      → f.canonical_form ≡ e.canonical_form
  same_plain salt e f r s apart named =
      s.plain
      ∙ apart s.span r.span s.listed r.listed (sym s.minted_for ∙ named ∙ r.minted_for)
      ∙ sym r.plain

  -- A text with no token of its own, whose detections lie in order, apart, and on character
  -- boundaries and are masked by minted tokens, no two different values under one token, is masked
  -- successfully, and unmasking the result at the tool boundary from its manifest gives the text
  -- back, at any later time and with any other session store.
  pub apply-unmask :
      (store : SessionStore)
      → find_iter text ≡ []
      → Fits (length text) 0 dets
      → All (TokenSpan x law encrypts nonces now surface cfg store.salt text dets) dets
      → NoCollision store.salt
      → (a : Applied) × (apply x nonces now store text surface cfg dets ≡ ok a)
        × (unmask x later other a.manifest a.out ≡ text)
  unfolding apply unmask unmask_inner
  apply-unmask store clean fits spans apart =
      let salt = store.salt in
      let (a, ran, m) =
        Masked-loop x law encrypts nonces now surface cfg salt text dets
          (find_iter-NoMatch text clean) 0 dets store refl (λ d n. n) fits spans in
      let same : (e f : ManifestEntry)
          → e ∈ a.manifest
          → f ∈ a.manifest
          → f.token_handle ≡ e.token_handle
          → f.canonical_form ≡ e.canonical_form =
        λ e f i j. same_plain salt e f (m.entries e i) (m.entries f j) apart in
      (
        a,
        ran,
        literal_loop-tokens salt a.manifest a.manifest _ m.entries
            ∙ restore_loop-render x later other a.manifest none false a.out
            ∙ ap
                (λ (t : Text).
                  render_pieces (restore x later other a.manifest none false) (scan 0 t))
                m.shape
            ∙ m.restores (restore x later other a.manifest none false)
                (λ e n. restore-entry salt a.manifest m.entries same e n),
      )
