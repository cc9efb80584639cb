-- ===== src/Proxy/Walk/Rules.antt =====
-- What holds of a walk when it holds of the sink of its texts and is kept by the composition of
-- steps.
use zlau_de_r.Prelude.{ℕ, subst, Bool, true, false, if◌then◌else◌, Option, none, some}
use zlau_de_r.Prelude.{List, [], ◌∷◌, ◌++◌, Text, append-nil}
use zlau_de_r.Externals.{Externals}
use zlau_de_r.Error.{EngineError}
use zlau_de_r.Surface.{Surface}
use zlau_de_r.Detect.{Analyzer}
use zlau_de_r.Engine.Cache.{LruCache}
use zlau_de_r.Proxy.Walk.{Walk, return, ◌>>=◌, str, each, optional}
use zlau_de_r.Proxy.Walk.Leaves.{Leaves, leaf, each_leaves, optional_leaves}

-- A step, the value that it gives back unchanged in collect mode, and its leaves.
pub record WalkRule {L : Type 0} (sink : Text → Surface → Walk L Text) : Type 1 where
  pub holds : (A : Type 0) → Walk L A → A → Leaves → Type 0
  pub return_rule : (A : Type 0) (a : A) → holds A (return a) a []
  pub bind_rule :
      (A B : Type 0) (m : Walk L A) (next : A → Walk L B) (a : A) (g : A → B) (l k : Leaves)
      → holds A m a l
      → ((d : A) → holds B (next d) (g d) k)
      → holds B (m >>= next) (g a) (l ++ k)
  pub sink_rule : (t : Text) (surface : Surface) → holds Text (sink t surface) t (leaf surface t)

module _ {L : Type 0} {sink : Text → Surface → Walk L Text} (rule : WalkRule sink) where
  abbrev pub Holds : {A : Type 0} → Walk L A → A → Leaves → Type 0
  Holds {A} m a l = rule.holds A m a l

  pub Holds-return : {A : Type 0} (a : A) → Holds (return a) a []
  Holds-return {A} a = rule.return_rule A a

  pub Holds-bind :
      {A B : Type 0} (m : Walk L A) (next : A → Walk L B) (a : A) (g : A → B) (l k : Leaves)
      → Holds m a l
      → ((d : A) → Holds (next d) (g d) k)
      → Holds (m >>= next) (g a) (l ++ k)
  Holds-bind {A} {B} m next a g l k h n = rule.bind_rule A B m next a g l k h n

  -- A step whose result is wrapped.
  pub Holds-map :
      {A B : Type 0} (m : Walk L A) (f : A → B) (a : A) (l : Leaves)
      → Holds m a l
      → Holds (m >>= λ (b : A). return (f b)) (f a) l
  Holds-map {A} {B} m f a l h =
      subst (Holds (m >>= λ (b : A). return (f b)) (f a)) (append-nil l)
        (Holds-bind m (λ (b : A). return (f b)) a f l [] h (λ d. Holds-return (f d)))

  -- Two steps whose results are put together.
  pub Holds-pair :
      {A B C : Type 0} (m : Walk L A) (n : Walk L B) (f : A → B → C) (a : A) (b : B) (l k : Leaves)
      → Holds m a l
      → Holds n b k
      → Holds (m >>= λ (d : A). n >>= λ (e : B). return (f d e)) (f a b) (l ++ k)
  Holds-pair {A} {B} m n f a b l k h g =
      Holds-bind m (λ (d : A). n >>= λ (e : B). return (f d e)) a (λ d. f d b) l k h
        (λ d. Holds-map n (f d) b k g)

  pub Holds-if :
      {A : Type 0} (skip : Bool) (m : Walk L A) (a : A) (l : Leaves)
      → Holds m a l
      → Holds (if skip then return a else m) a (if skip then [] else l)
  Holds-if true m a l h = Holds-return a
  Holds-if false m a l h = h

module _ {L : Type 0} (lru : LruCache L) (x : Externals) (an : Analyzer) (now : ℕ)
    (to_string : EngineError → Text) (seeds : ℕ → ℕ → ℕ → Text)
    (rule : WalkRule (str lru x an now to_string seeds)) where
  pub Holds-leaf :
      {B : Type 0} (t : Text) (surface : Surface) (f : Text → B)
      → Holds rule
          (str lru x an now to_string seeds t surface >>= λ (u : Text). return (f u))
          (f t)
          (leaf surface t)
  Holds-leaf t surface f =
      Holds-map rule (str lru x an now to_string seeds t surface) f t (leaf surface t)
        (rule.sink_rule t surface)

  pub Holds-each :
      {A : Type 0} (f : A → Walk L A) (g : A → Leaves)
      → ((b : A) → Holds rule (f b) b (g b))
      → (bs : List A) → Holds rule (each lru x an now to_string seeds f bs) bs (each_leaves g bs)
  unfolding each
  Holds-each f g h [] = Holds-return rule []
  Holds-each f g h (b ∷ bs) =
      Holds-pair rule (f b) (each lru x an now to_string seeds f bs) (λ c cs. c ∷ cs) b bs (g b)
        (each_leaves g bs) (h b) (Holds-each f g h bs)

  pub Holds-optional :
      {A : Type 0} (f : A → Walk L A) (g : A → Leaves)
      → ((b : A) → Holds rule (f b) b (g b))
      → (o : Option A)
      → Holds rule (optional lru x an now to_string seeds f o) o (optional_leaves g o)
  unfolding optional
  Holds-optional f g h none = Holds-return rule none
  Holds-optional f g h (some b) = Holds-map rule (f b) (λ c. some c) b (g b) (h b)
