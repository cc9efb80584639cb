-- ===== src/Tests/Masks.antt =====
-- Instances of the theorems on masking with the cache.
use zlau_de_r.Prelude.{ℕ, ◌≡◌, refl, sym, ap, ◌∙◌, ◌⊎◌, inl, inr, subst, true, ◌==◌}
use zlau_de_r.Prelude.{if◌then◌else◌, Option, none, some, List, [], ◌∷◌, map, Text, codes}
use zlau_de_r.Prelude.{text_eq_iff, and_true, split_once, strip_prefix, Bool-cases, ==→≡}
use zlau_de_r.Error.{EngineError, ok_injective}
use zlau_de_r.Surface.{Surface, surface_eq, surface_tag}
use zlau_de_r.Detect.{CachedDetection, MlRecognizer}
use zlau_de_r.Detect.Batch.{EachText, BatchesOnly}
use zlau_de_r.Ml.Slot.{MlStatus, MlRuntime, ml_for_mask}
use zlau_de_r.Engine.Bypass.{user_bypass_segments, bypass_loop}
use zlau_de_r.Engine.Cache.{CacheKey, LruCache, LruLaws, hash_text, new, get}
use zlau_de_r.Engine.Mask.{MaskEngine, stripped_for_key, mask}
use zlau_de_r.Engine.Mask.Sound.{settings_of, Sound}
use zlau_de_r.Engine.Mask.Leaf.{view}
use zlau_de_r.Engine.Mask.Whole.{mask-depth}
use zlau_de_r.Engine.Mask.Reference.{Seen, fresh, mask-fresh}
use zlau_de_r.Engine.Mask.Prewarm.{key_eq, prewarm_batch}
use zlau_de_r.Engine.Mask.Warm.{prewarm_batch-mask}
use zlau_de_r.Tests.Toy.{toy, empty}
use zlau_de_r.Tests.Batches.{analyzer, quiet, nothing}
use zlau_de_r.Tests.Engines.{plain_config, greeting}

surface_at : ℕ → Surface
surface_at n =
    if n == 0
    then Surface.user_message
    else (if n == 1
        then Surface.system_prompt
        else (if n == 2
            then Surface.tool_result
            else (if n == 3 then Surface.assistant_text else Surface.tool_use_input)))

surface_at-tag : (s : Surface) → surface_at (surface_tag s) ≡ s
unfolding surface_at
surface_at-tag Surface.user_message = refl
surface_at-tag Surface.system_prompt = refl
surface_at-tag Surface.tool_result = refl
surface_at-tag Surface.assistant_text = refl
surface_at-tag Surface.tool_use_input = refl

surface_eq-eq : (s t : Surface) → surface_eq s t ≡ true → s ≡ t
surface_eq-eq s t h =
    sym (surface_at-tag s)
    ∙ ap surface_at (==→≡ (surface_tag s) (surface_tag t) h)
    ∙ surface_at-tag t

key_eq-eq : (k j : CacheKey) → key_eq k j ≡ true → k ≡ j
key_eq-eq k j h =
    let (hash, rest) = and_true _ _ h in
    let (surface, rest) = and_true _ _ rest in
    let (policy, rest) = and_true _ _ rest in
    let (ml, secrets) = and_true _ _ rest in
    λ i. record {
      text_hash = (text_eq_iff k.text_hash j.text_hash).0 hash i;
      surface = surface_eq-eq k.surface j.surface surface i;
      policy_fp = (text_eq_iff k.policy_fp j.policy_fp).0 policy i;
      ml_fp = (text_eq_iff k.ml_fp j.ml_fp).0 ml i;
      secrets_fp = (text_eq_iff k.secrets_fp j.secrets_fp).0 secrets i;
    }

-- A cache of one entry.
abbrev pub Slot : Type 0
Slot = Option (CacheKey × List CachedDetection)

abbrev pub peek_slot : Slot → CacheKey → Option (List CachedDetection)
peek_slot none k = none
peek_slot (some (j, v)) k = if key_eq k j then some v else none

abbrev pub slot : LruCache Slot
slot = record {
  make = λ (n : ℕ). none;
  capacity = λ (l : Slot). 1;
  lru_get = λ (l : Slot) (k : CacheKey). (l, peek_slot l k);
  lru_put = λ (l : Slot) (k : CacheKey) (v : List CachedDetection). some (k, v);
  resize = λ (l : Slot) (n : ℕ). l;
  clear = λ (l : Slot). none;
  peek = peek_slot;
}

slot-adds :
    (l : Slot) (k j : CacheKey) (v w : List CachedDetection)
    → peek_slot (some (k, v)) j ≡ some w
    → ((j ≡ k) × (w ≡ v)) ⊎ (peek_slot l j ≡ some w)
slot-adds l k j v w h = elim (Bool-cases (key_eq j k)) [
  | inl same ↦ inl (key_eq-eq j k same, let e = rw same at h in cc)
  | inr other ↦ let e = rw other at h in absurd (cc)
]

pub slot-LruLaws : LruLaws slot
slot-LruLaws = record {
  make_empty = λ n k. refl;
  get_peek = λ l k. refl;
  get_keeps = λ l k j. refl;
  put_adds = slot-adds;
  resize_drops = λ l n j w h. h;
  clear_drops = λ l j. refl;
}

quiet-each : (ts : List Text) → EachText quiet ts (map nothing ts)
quiet-each [] = tt
quiet-each (t ∷ ts) = (refl, quiet-each ts)

quiet-BatchesOnly : BatchesOnly quiet
quiet-BatchesOnly = record {
  single =
      λ ts rs h n. subst (EachText quiet ts) (ok_injective (map nothing ts) rs h) (quiet-each ts);
}

abbrev pub ready : MlRuntime
ready = record {
  status = MlStatus.ready;
  recognizer = some quiet;
  error = none;
  last_runtime_error = none;
  runtime_failures = 0;
  desired = none;
  generation = 1;
  ml_fp = codes "m";
}

abbrev pub engine : MaskEngine Slot
engine = record {
  policy = record { config = plain_config; customs = []; policy_fp = codes "p" };
  secrets = record { compiled = []; secrets_fp = codes "q" };
  ml = ready;
  cache = new slot 4;
  store = empty;
}

abbrev pub IsGreeting : Text → Type 0
IsGreeting t = t ≡ greeting

pub apart : (t u : Text) → IsGreeting t → IsGreeting u → hash_text toy t ≡ hash_text toy u → t ≡ u
apart t u p q h = p ∙ sym q

abbrev seeds : ℕ → ℕ → Text
seeds n k = n ∷ k ∷ []

abbrev pub message : EngineError → Text
message e = []

pub engine-Sound : Sound slot toy analyzer IsGreeting (settings_of engine) engine.cache
unfolding get new
engine-Sound = record { agrees = λ text surface dets u found. absurd (cc) }

pub greeting-Seen :
    Seen slot slot-LruLaws toy analyzer 0 message IsGreeting apart
      (settings_of engine)
      greeting
      Surface.user_message
unfolding stripped_for_key user_bypass_segments bypass_loop split_once strip_prefix
greeting-Seen = (refl, λ segments h. absurd (cc))

mask-depth_example :
    mask slot toy analyzer 0 message 3 engine seeds (codes "a >>b<< c") Surface.user_message
    ≡ mask slot toy analyzer 0 message 1 engine seeds (codes "a >>b<< c") Surface.user_message
mask-depth_example =
    mask-depth slot toy analyzer 0 message 2 engine seeds (codes "a >>b<< c") Surface.user_message

mask-fresh_example :
    let r = mask slot toy analyzer 0 message 1 engine seeds greeting Surface.user_message in
    (view r
      ≡ fresh slot slot-LruLaws toy analyzer 0 message IsGreeting apart
          (settings_of engine)
          engine.store
          seeds
          greeting
          Surface.user_message)
    × (settings_of r.0 ≡ settings_of engine)
    × Sound slot toy analyzer IsGreeting (settings_of engine) r.0.cache
mask-fresh_example =
    mask-fresh slot slot-LruLaws toy analyzer 0 message IsGreeting apart 0 engine seeds greeting
      Surface.user_message greeting-Seen engine-Sound

pub quiet_only : (m : MlRecognizer) → (settings_of engine).recognizer ≡ some m → BatchesOnly m
unfolding ml_for_mask
quiet_only m h =
    subst BatchesOnly (ap (λ (o : Option MlRecognizer). elim o [ none ↦ quiet | some r ↦ r ]) h)
      quiet-BatchesOnly

prewarm_batch-mask_example :
    let f = prewarm_batch slot toy analyzer engine ((greeting, Surface.user_message) ∷ []) in
    (view (mask slot toy analyzer 0 message 1 f seeds greeting Surface.user_message)
      ≡ view (mask slot toy analyzer 0 message 1 engine seeds greeting Surface.user_message))
    × Sound slot toy analyzer IsGreeting (settings_of engine) f.cache
unfolding stripped_for_key
prewarm_batch-mask_example =
    prewarm_batch-mask slot slot-LruLaws toy analyzer IsGreeting apart 0 message 0 engine
      ((greeting, Surface.user_message) ∷ []) seeds greeting Surface.user_message quiet_only
      (refl, tt) greeting-Seen engine-Sound
