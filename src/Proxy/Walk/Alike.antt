-- ===== src/Proxy/Walk/Alike.antt =====
-- The walk that masks, in two engines whose settings and stores are the same and whose caches agree
-- with the detection: one that was prewarmed, and one that was not.
use zlau_de_r.Prelude.{ℕ, suc, ◌≡◌, refl, sym, ap, ◌∙◌, subst, none, Text, All}
use zlau_de_r.Prelude.{All-split}
use zlau_de_r.Externals.{Externals}
use zlau_de_r.Error.{EngineError, Result, ok, err, ◌>>=◌, ok_injective}
use zlau_de_r.Surface.{Surface}
use zlau_de_r.Detect.{Analyzer}
use zlau_de_r.Manifest.{MaskOutcome, merge, merge_stats}
use zlau_de_r.Engine.Apply.{Applied}
use zlau_de_r.Engine.Cache.{LruCache, LruLaws, hash_text}
use zlau_de_r.Engine.Mask.{MaskEngine, mask}
use zlau_de_r.Engine.Mask.Sound.{Settings, settings_of, Sound}
use zlau_de_r.Engine.Mask.Leaf.{view}
use zlau_de_r.Engine.Mask.Reference.{Seen, fresh, mask-fresh}
use zlau_de_r.Proxy.Wire.{ApiRequest}
use zlau_de_r.Proxy.Walk.{MaskWalker, Walk, str, request}
use zlau_de_r.Proxy.Walk.Leaves.{Leaves, request_leaves}
use zlau_de_r.Proxy.Walk.Rules.{WalkRule}
use zlau_de_r.Proxy.Walk.Prepass.{request-Holds}

module _ {L : Type 0} (lru : LruCache L) (laws : LruLaws lru) (x : Externals) (a : Analyzer)
    (now : ℕ) (to_string : EngineError → Text) (seeds : ℕ → ℕ → ℕ → Text) (seen : Text → Type 0)
    (apart : (t u : Text) → seen t → seen u → hash_text x t ≡ hash_text x u → t ≡ u)
    (s : Settings) where
  -- A walker that masks, under the settings.
  pub record Sane (w : MaskWalker L) : Type 0 where
    pub settings : settings_of w.engine ≡ s
    pub sound : Sound lru x a seen s w.engine.cache
    pub masks : w.collect ≡ none

  pub record Alike (w v : MaskWalker L) : Type 0 where
    pub left : Sane w
    pub right : Sane v
    pub store : w.engine.store ≡ v.engine.store
    pub manifest : w.manifest ≡ v.manifest
    pub calls : w.calls ≡ v.calls

  -- After an error the walk is over.
  abbrev pub AlikeIf : {A : Type 0} → MaskWalker L → MaskWalker L → Result A → Type 0
  AlikeIf w v (err e) = Unit
  AlikeIf w v (ok d) = Alike w v

  pub record AlikeRun {A : Type 0} (r q : MaskWalker L × Result A) : Type 0 where
    pub result : r.1 ≡ q.1
    pub walkers : AlikeIf r.0 q.0 r.1

  abbrev go_on : {A B : Type 0} → (A → Walk L B) → MaskWalker L → Result A → MaskWalker L × Result B
  go_on {A} {B} next w d = elim d as (λ q. MaskWalker L × Result B) [
    | err e ↦ (w, err e)
    | ok b ↦ next b w
  ]

  go_on-Alike :
      {A B : Type 0} (next : A → Walk L B) (w v : MaskWalker L) (d : Result A)
      → AlikeIf w v d
      → ((b : A) → Alike w v → AlikeRun (next b w) (next b v))
      → AlikeRun (go_on next w d) (go_on next v d)
  go_on-Alike next w v (err e) h step = record { result = refl; walkers = tt }
  go_on-Alike next w v (ok b) h step = step b h

  abbrev pub AllSeen : Leaves → Type 0
  AllSeen = All (λ (l : Text × Surface). Seen lru laws x a now to_string seen apart s l.0 l.1)

  -- The step does the same in walkers that are alike, where its leaves were seen.
  abbrev pub Same : (A : Type 0) → Walk L A → A → Leaves → Type 0
  Same A m b l = AllSeen l → (w v : MaskWalker L) → Alike w v → AlikeRun (m w) (m v)

  -- What the walker does with an outcome of `mask`.
  abbrev noted : MaskWalker L → MaskEngine L × Result MaskOutcome → MaskWalker L × Result Text
  noted w r = elim r.1 as (λ q. MaskWalker L × Result Text) [
    | err e ↦ (record w { engine = r.0 }, err e)
    | ok o ↦ (
      record w {
        engine = r.0;
        manifest = merge w.manifest o.manifest;
        stats = merge_stats w.stats o.stats;
        calls = suc w.calls;
      },
      ok o.masked_text,
    )
  ]

  noted-Alike :
      (w v : MaskWalker L) (r q : MaskEngine L × Result MaskOutcome)
      → Alike w v
      → view r ≡ view q
      → settings_of r.0 ≡ s
      → settings_of q.0 ≡ s
      → Sound lru x a seen s r.0.cache
      → Sound lru x a seen s q.0.cache
      → AlikeRun (noted w r) (noted v q)
  noted-Alike w v (e, err er) (f, err es) h same se sf ce cf = record {
    result = ap (λ (g : Result Applied). g >>= λ (o : Applied). ok o.out) same;
    walkers = tt;
  }
  noted-Alike w v (e, err er) (f, ok p) h same se sf ce cf = absurd (cc)
  noted-Alike w v (e, ok o) (f, err es) h same se sf ce cf = absurd (cc)
  noted-Alike w v (e, ok o) (f, ok p) h same se sf ce cf =
      let applied = ok_injective _ _ same in
      record {
        result = ap (λ (g : Applied). ok g.out) applied;
        walkers = record {
          left = record { settings = se; sound = ce; masks = h.left.masks };
          right = record { settings = sf; sound = cf; masks = h.right.masks };
          store = ap (λ (g : Applied). g.store) applied;
          manifest = λ i. merge (h.manifest i) ((applied i).manifest);
          calls = ap suc h.calls;
        };
      }

  -- One run of `mask` in a walker, against the run without a cache.
  sink-fresh :
      (t : Text) (surface : Surface) (w : MaskWalker L)
      → Seen lru laws x a now to_string seen apart s t surface
      → Sane w
      → let r = mask lru x a now to_string 1 w.engine (seeds w.calls) t surface in
        (view r
          ≡ fresh lru laws x a now to_string seen apart s w.engine.store (seeds w.calls) t surface)
        × (settings_of r.0 ≡ s)
        × Sound lru x a seen s r.0.cache
  sink-fresh t surface w u h =
      let want = λ (k : Settings).
        fresh lru laws x a now to_string seen apart k w.engine.store (seeds w.calls) t surface in
      let r = mask lru x a now to_string 1 w.engine (seeds w.calls) t surface in
      let (result, settings, sound) =
        mask-fresh lru laws x a now to_string seen apart 0 w.engine (seeds w.calls) t surface
          (subst (λ (k : Settings). Seen lru laws x a now to_string seen apart k t surface)
            (sym h.settings) u)
          (subst (λ (k : Settings). Sound lru x a seen k w.engine.cache) (sym h.settings)
            h.sound) in
      (
        result ∙ ap want h.settings,
        settings ∙ h.settings,
        subst (λ (k : Settings). Sound lru x a seen k r.0.cache) h.settings sound,
      )

  sink-Same :
      (t : Text) (surface : Surface)
      → Seen lru laws x a now to_string seen apart s t surface
      → (w v : MaskWalker L) → Alike w v
      → AlikeRun
          (str lru x a now to_string seeds t surface w)
          (str lru x a now to_string seeds t surface v)
  unfolding str
  sink-Same t surface u w v h =
      let (lr, ls, lc) = sink-fresh t surface w u h.left in
      let (rr, rs, rc) = sink-fresh t surface v u h.right in
      rw (str, h.left.masks, h.right.masks)
        (noted-Alike w v (mask lru x a now to_string 1 w.engine (seeds w.calls) t surface)
          (mask lru x a now to_string 1 v.engine (seeds v.calls) t surface) h
          (lr
            ∙ (λ i.
                fresh lru laws x a now to_string seen apart s (h.store i) (seeds (h.calls i)) t
                  surface)
            ∙ sym rr)
          ls rs lc rc)

  alike_rule : WalkRule (str lru x a now to_string seeds)
  alike_rule = record {
    holds = Same;
    return_rule = λ A b u w v h. record { result = refl; walkers = h };
    bind_rule = λ A B m next b g l k h n u w v alike.
        let (first, rest) = All-split _ l k u in
        let run = h first w v alike in
        subst (λ (d : Result A). AlikeRun (go_on next (m w).0 (m w).1) (go_on next (m v).0 d))
          run.result
          (go_on-Alike next (m w).0 (m v).0 (m w).1 run.walkers
            (λ d both. n d rest (m w).0 (m v).0 both));
    sink_rule = λ t surface u w v h. sink-Same t surface u.0 w v h;
  }

  -- The walk over a request whose texts were seen.
  pub request-Alike :
      (r : ApiRequest) (w v : MaskWalker L)
      → AllSeen (request_leaves r)
      → Alike w v
      → AlikeRun (request lru x a now to_string seeds r w) (request lru x a now to_string seeds r v)
  unfolding alike_rule
  request-Alike r w v u h = request-Holds lru x a now to_string seeds alike_rule r u w v h
