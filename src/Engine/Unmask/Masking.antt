-- ===== src/Engine/Unmask/Masking.antt =====
-- What `MaskEngine::apply` leaves when every detection is masked with a reversible token.
use zlau_de_r.Prelude.{ℕ, ◌≤◌, ◌<◌, ◌≡◌, refl, sym, ap, ◌∙◌, inl, inr, arith}
use zlau_de_r.Prelude.{true, false, none, List, [], ◌∷◌}
use zlau_de_r.Prelude.{
  ◌++◌, length, take, drop, all, Text, ◌∈◌, All, append-nil, append_assoc, take-append-drop,
}
use zlau_de_r.Prelude.{mem-snoc, snoc-mem, take_split, drop_split, take_prefix, drop_prefix}
use zlau_de_r.Externals.{Externals, HexDigest, Encrypts}
use zlau_de_r.Error.{ok, ◌>>=◌}
use zlau_de_r.Surface.{Surface}
use zlau_de_r.Token.{make_token, is_broker_token, is_entity_char, scan}
use zlau_de_r.Token.{make_token-IsToken}
use zlau_de_r.Token.Scan.{IsToken, scan-append-token}
use zlau_de_r.Token.Clean.{NoMatch, NoMatch-part, NoMatch-tail, scan-NoMatch}
use zlau_de_r.Store.{SessionStore, intern}
use zlau_de_r.Store.Entries.{intern-Grows, intern-total}
use zlau_de_r.Config.{EngineConfig, Operator}
use zlau_de_r.Detect.{CachedDetection, resolve_operator, slice}
use zlau_de_r.Manifest.{ManifestEntry, push}
use zlau_de_r.Engine.Chars.{snap_to_char_boundary}
use zlau_de_r.Engine.Apply.{Applied, apply_rev, apply_one, apply_token, minted}
use zlau_de_r.Engine.Apply.{replace_range, entry}
use zlau_de_r.Engine.Unmask.Pieces.{render_pieces, render_pieces-append}

render_clean : (res : Text → Text) (t : Text) → NoMatch t → render_pieces res (scan 0 t) ≡ t
unfolding scan
render_clean res [] n = refl
render_clean res (c ∷ t) n =
    ap (render_pieces res) (scan-NoMatch c t n)
    ∙ ap (◌∷◌ c) (render_clean res t (NoMatch-tail c t n))

render_gap :
    (res : Text → Text) (gap tok rest : Text)
    → NoMatch gap
    → IsToken tok
    → render_pieces res (scan 0 (gap ++ (tok ++ rest)))
      ≡ gap ++ (res tok ++ render_pieces res (scan 0 rest))
render_gap res gap tok rest n k =
    ap (render_pieces res) (scan-append-token gap tok rest k)
    ∙ render_pieces-append res (scan 0 gap) _
    ∙ ap (λ (t : Text). t ++ (res tok ++ render_pieces res (scan 0 rest))) (render_clean res gap n)

-- The detections come in order, apart, and inside of a text of the given length.
abbrev pub Fits : ℕ → ℕ → List CachedDetection → Type 0
Fits n pos [] = pos ≤ n
Fits n pos (d ∷ ds) = (pos ≤ d.start) × (d.start ≤ d.end) × Fits n d.end ds

Fits-le : (n pos : ℕ) (ds : List CachedDetection) → Fits n pos ds → pos ≤ n
Fits-le n pos [] f = f
Fits-le n pos (d ∷ ds) f = omega (arith, Fits-le n d.end ds f.2)

module _ (x : Externals) (law : HexDigest x) (encrypts : Encrypts x) (nonces : ℕ → Text) (now : ℕ)
    (surface : Surface) (cfg : EngineConfig) (salt text : Text) (dets : List CachedDetection) where
  -- A detection that is masked with a token of its own, of the grammar, and not a broker's.
  pub record TokenSpan (d : CachedDetection) : Type 0 where
    pub operator : resolve_operator cfg d ≡ Operator.token
    pub own_token : d.fixed_token ≡ none
    pub boundary : snap_to_char_boundary text d.start d.end ≡ (d.start, d.end)
    pub grammar : all is_entity_char (x.to_uppercase d.entity_type) ≡ true
    pub named : 0 < length (x.to_uppercase d.entity_type)
    pub no_broker :
        is_broker_token (make_token x d.entity_type (slice text d.start d.end) salt) ≡ false

  -- What unmasking needs of an entry.
  pub record Restorable (e : ManifestEntry) : Type 0 where
    pub token : IsToken e.token_handle
    pub no_broker : is_broker_token e.token_handle ≡ false
    pub unbrokered : e.broker ≡ false
    pub unlocal : e.local ≡ false
    pub span : CachedDetection
    pub listed : span ∈ dets
    pub minted_for :
        e.token_handle ≡ make_token x span.entity_type (slice text span.start span.end) salt
    pub plain : e.canonical_form ≡ slice text span.start span.end

  -- What the loop has done from `pos` on.
  pub record Masked (pos : ℕ) (a : Applied) : Type 0 where
    pub tail : Text
    pub shape : a.out ≡ take pos text ++ tail
    pub salted : a.store.salt ≡ salt
    pub entries : (e : ManifestEntry) → e ∈ a.manifest → Restorable e
    pub restores :
        (res : Text → Text)
        → ((e : ManifestEntry) → e ∈ a.manifest → res e.token_handle ≡ e.canonical_form)
        → render_pieces res (scan 0 tail) ≡ drop pos text

  -- One round at such a detection: a token is interned and spliced in.
  record Round (d : CachedDetection) (a b : Applied) : Type 0 where
    store : SessionStore
    token : Text
    interned :
        intern x (nonces d.start) a.store d.entity_type (slice text d.start d.end)
        ≡ ok (store, token)
    result : b ≡ minted x nonces now surface cfg salt text a d d.start d.end false false store token

  apply_one_token :
      (d : CachedDetection) (a : Applied)
      → TokenSpan d
      → apply_one x nonces now surface cfg salt text d a ≡ (
          intern x (nonces d.start) a.store d.entity_type (slice text d.start d.end)
          >>= λ (r : SessionStore × Text).
              ok (minted x nonces now surface cfg salt text a d d.start d.end false false r.0 r.1))
  unfolding apply_one apply_token
  apply_one_token d a k = rw (apply_one, k.boundary, k.operator, apply_token, k.own_token)

  apply_one-Round :
      (d : CachedDetection) (a : Applied)
      → TokenSpan d
      → (b : Applied) × (apply_one x nonces now surface cfg salt text d a ≡ ok b) × Round d a b
  apply_one-Round d a k =
      let (t, i) =
        intern-total x encrypts (nonces d.start) a.store d.entity_type (slice text d.start d.end) in
      let token = make_token x d.entity_type (slice text d.start d.end) a.store.salt in
      (
        minted x nonces now surface cfg salt text a d d.start d.end false false t token,
        apply_one_token d a k ∙ rw i refl,
        record { store = t; token = token; interned = i; result = refl },
      )

  Round-token :
      (d : CachedDetection) (a b : Applied) (r : Round d a b)
      → TokenSpan d
      → a.store.salt ≡ salt
      → (r.store.salt ≡ salt)
        × IsToken r.token
        × (is_broker_token r.token ≡ false)
        × (r.token ≡ make_token x d.entity_type (slice text d.start d.end) salt)
  Round-token d a b r k salted =
      let (grows, minting) =
        intern-Grows x (nonces d.start) a.store d.entity_type (slice text d.start d.end) r.store
          r.token r.interned in
      let same : r.token ≡ make_token x d.entity_type (slice text d.start d.end) salt =
        minting ∙ ap (make_token x d.entity_type (slice text d.start d.end)) salted in
      (
        grows.salt ∙ salted,
        rw same
            (make_token-IsToken x law (slice text d.start d.end) salt d.entity_type k.grammar
              k.named).0,
        rw same k.no_broker,
        same,
      )

  spliced :
      (pos start end : ℕ) (token out tail : Text)
      → pos ≤ start
      → start ≤ end
      → end ≤ length text
      → out ≡ take end text ++ tail
      → replace_range out start end token
        ≡ take pos text ++ (slice text pos start ++ (token ++ tail))
  unfolding replace_range
  spliced pos start end token out tail ps se el shape =
      ap (λ (t : Text). take start t ++ (token ++ drop end t)) shape
      ∙ rw (take_prefix text tail start end se el, drop_prefix text tail end el)
          (ap (λ (t : Text). t ++ (token ++ tail)) (take_split text pos start ps)
            ∙ append_assoc (take pos text) (slice text pos start) (token ++ tail))

  Masked-one :
      NoMatch text
      → (pos : ℕ) (d : CachedDetection) (a b : Applied) → d ∈ dets
      → pos ≤ d.start
      → d.start ≤ d.end
      → d.end ≤ length text
      → TokenSpan d
      → Masked d.end a
      → Round d a b
      → Masked pos b
  unfolding push replace_range
  Masked-one clean pos d a b at ps se el k m r =
      let (salted, token, no_broker, same) = Round-token d a b r k m.salted in
      let gap = slice text pos d.start in
      let made = entry (slice text d.start d.end) r.token d surface d.start false false in
      let part : text ≡ take pos text ++ (gap ++ drop d.start text) =
        sym (take-append-drop pos text)
        ∙ ap (λ (t : Text). take pos text ++ t) (drop_split text pos d.start ps) in
      let open_gap = NoMatch-part text (take pos text) gap (drop d.start text) part clean in
      let listed : b.manifest ≡ a.manifest ++ (made ∷ []) =
        ap (λ (z : Applied). z.manifest) r.result in
      record {
        tail = gap ++ (r.token ++ m.tail);
        shape =
            ap (λ (z : Applied). z.out) r.result
            ∙ spliced pos d.start d.end r.token a.out m.tail ps se el m.shape;
        salted = ap (λ (z : Applied). z.store.salt) r.result ∙ salted;
        entries = λ e n. elim (mem-snoc e made a.manifest (rw (← listed) n)) [
          | inl old ↦ m.entries e old
          | inr new ↦ rw new (record {
            token = token;
            no_broker = no_broker;
            unbrokered = refl;
            unlocal = refl;
            span = d;
            listed = at;
            minted_for = same;
            plain = refl;
          })
        ];
        restores = λ res f.
            let old : (e : ManifestEntry) → e ∈ a.manifest → res e.token_handle ≡ e.canonical_form =
              λ e n. f e (rw listed (snoc-mem e made a.manifest (inl n))) in
            let new : res r.token ≡ slice text d.start d.end =
              f made (rw listed (snoc-mem made made a.manifest (inr refl))) in
            render_gap res gap r.token m.tail open_gap token
            ∙ rw (new, m.restores res old)
                (sym (
                  drop_split text pos d.start ps
                  ∙ ap (λ (t : Text). gap ++ t) (drop_split text d.start d.end se)));
      }

  Masked-none :
      NoMatch text
      → (pos : ℕ) (store : SessionStore) → store.salt ≡ salt
      → Masked pos (record { out = text; manifest = []; store = store })
  Masked-none clean pos store salted = record {
    tail = drop pos text;
    shape = sym (take-append-drop pos text);
    salted = salted;
    entries = λ e n. absurd n;
    restores = λ res f. render_clean res (drop pos text) (
        NoMatch-part text (take pos text) (drop pos text) []
          (sym (
            ap (λ (t : Text). take pos text ++ t) (append-nil (drop pos text))
            ∙ take-append-drop pos text))
          clean);
  }

  pub Masked-loop :
      NoMatch text
      → (pos : ℕ) (ds : List CachedDetection) (store : SessionStore) → store.salt ≡ salt
      → ((d : CachedDetection) → d ∈ ds → d ∈ dets)
      → Fits (length text) pos ds
      → All TokenSpan ds
      → (b : Applied) × (apply_rev x nonces now surface cfg salt text ds
            (record { out = text; manifest = []; store = store })
          ≡ ok b)
        × Masked pos b
  unfolding apply_rev
  Masked-loop clean pos [] store salted sub f k = (
    record { out = text; manifest = []; store = store },
    refl,
    Masked-none clean pos store salted,
  )
  Masked-loop clean pos (d ∷ ds) store salted sub f k =
      let (a, ran, m) = Masked-loop clean d.end ds store salted (λ e n. sub e (inr n)) f.2 k.1 in
      let (b, round, r) = apply_one-Round d a k.0 in
      (
        b,
        rw (apply_rev, ran) round,
        Masked-one clean pos d a b (sub d (inl refl)) f.0 f.1 (Fits-le (length text) d.end ds f.2)
            k.0 m r,
      )
