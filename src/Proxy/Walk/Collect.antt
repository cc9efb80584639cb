-- ===== src/Proxy/Walk/Collect.antt =====
-- The walk in collect mode.
use zlau_de_r.Prelude.{ℕ, ◌≡◌, refl, sym, ap, ◌∙◌, some, ◌++◌, Text, append-nil, append_assoc}
use zlau_de_r.Externals.{Externals}
use zlau_de_r.Error.{EngineError, Result, ok, err}
use zlau_de_r.Detect.{Analyzer}
use zlau_de_r.Engine.Cache.{LruCache}
use zlau_de_r.Proxy.Wire.{ApiRequest}
use zlau_de_r.Proxy.Walk.{MaskWalker, Walk, str, request}
use zlau_de_r.Proxy.Walk.Leaves.{Leaves, request_leaves}
use zlau_de_r.Proxy.Walk.Rules.{WalkRule}
use zlau_de_r.Proxy.Walk.Prepass.{request-Holds}

-- In collect mode a method gives `a`, adds the leaves `l`, and changes nothing else.
abbrev Collects : {L : Type 0} (A : Type 0) → Walk L A → A → Leaves → Type 0
Collects {L} A m a l =
    (w : MaskWalker L) (c : Leaves)
    → m (record w { collect = some c }) ≡ (record w { collect = some (c ++ l) }, ok a)

module _ {L : Type 0} (lru : LruCache L) (x : Externals) (an : Analyzer) (now : ℕ)
    (to_string : EngineError → Text) (seeds : ℕ → ℕ → ℕ → Text) where
  collect_rule : WalkRule (str lru x an now to_string seeds)
  unfolding str
  collect_rule = record {
    holds = λ A m a l. Collects {L = L} A m a l;
    return_rule = λ A a w c i. (record w { collect = some (sym (append-nil c) i) }, ok a);
    bind_rule = λ A B m next a g l k h n w c.
        ap
          (λ (r : MaskWalker L × Result A). elim r.1 as (λ q. MaskWalker L × Result B) [
            | err e ↦ (r.0, err e)
            | ok d ↦ next d r.0
          ])
          (h w c)
        ∙ n a w (c ++ l)
        ∙ (λ i. (record w { collect = some (append_assoc c l k i) }, ok (g a)));
    sink_rule = λ t surface w c. refl;
  }

  -- In collect mode the walk succeeds, gives the request back as it was, and adds to the collected
  -- texts every text of the request that is masked, with its surface and in order: the system
  -- prompt, the texts of the messages by their roles, tool inputs and results, the descriptions of
  -- the tools, the metadata but the user identifier, and the context management but its protocol
  -- keys; it leaves the engine, the manifest and the statistics alone.
  pub request-leaves :
      (r : ApiRequest) (w : MaskWalker L) (before : Leaves)
      → request lru x an now to_string seeds r (record w { collect = some before })
        ≡ (record w { collect = some (before ++ request_leaves r) }, ok r)
  unfolding collect_rule
  request-leaves r = request-Holds lru x an now to_string seeds collect_rule r
