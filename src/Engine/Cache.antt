-- ===== src/Engine/Cache.antt =====
-- The detection cache (crates/zlauder-engine/src/cache.rs). `lru::LruCache` is a parameter: its
-- operations, and what its documentation says of them in terms of `peek`.
use zlau_de_r.Prelude.{ℕ, ◌≡◌, ◌⊎◌, ◌==◌, ltb, not, if◌then◌else◌, Option, none, some}
use zlau_de_r.Prelude.{List, ◌++◌, length, max, Text, codes}
use zlau_de_r.Externals.{Externals}
use zlau_de_r.Surface.{Surface}
use zlau_de_r.Detect.{CachedDetection}

abbrev pub max_cached_detections : ℕ
max_cached_detections = 8192

-- The fingerprints are kept as hexadecimal digits.
pub record CacheKey : Type 0 where
  pub text_hash : Text
  pub surface : Surface
  pub policy_fp : Text
  pub ml_fp : Text
  pub secrets_fp : Text

unfoldable pub hash_text : Externals → Text → Text
hash_text x text = x.blake3_hex (codes "zlauder-detection-cache-key-v1" ++ text)

-- The operations of `LruCache` that the cache calls; `get` bumps the recency of the entry.
pub record LruCache (L : Type 0) : Type 0 where
  pub make : ℕ → L
  pub capacity : L → ℕ
  pub lru_get : L → CacheKey → L × Option (List CachedDetection)
  pub lru_put : L → CacheKey → List CachedDetection → L
  pub resize : L → ℕ → L
  pub clear : L → L
  -- what `get` would give, without a change
  pub peek : L → CacheKey → Option (List CachedDetection)

-- A new cache is empty; a lookup gives what is stored and drops nothing; a write adds its entry, and
-- it, a resize and a clearing add no other.
pub record LruLaws {L : Type 0} (lru : LruCache L) : Type 0 where
  pub make_empty : (n : ℕ) (k : CacheKey) → lru.peek (lru.make n) k ≡ none
  pub get_peek : (l : L) (k : CacheKey) → (lru.lru_get l k).1 ≡ lru.peek l k
  pub get_keeps : (l : L) (k j : CacheKey) → lru.peek (lru.lru_get l k).0 j ≡ lru.peek l j
  pub put_adds :
      (l : L) (k j : CacheKey) (v w : List CachedDetection)
      → lru.peek (lru.lru_put l k v) j ≡ some w
      → ((j ≡ k) × (w ≡ v)) ⊎ (lru.peek l j ≡ some w)
  pub resize_drops :
      (l : L) (n : ℕ) (j : CacheKey) (w : List CachedDetection)
      → lru.peek (lru.resize l n) j ≡ some w
      → lru.peek l j ≡ some w
  pub clear_drops : (l : L) (j : CacheKey) → lru.peek (lru.clear l) j ≡ none

pub record DetectionCache (L : Type 0) : Type 0 where
  pub inner : L
  pub cap : ℕ

module _ {L : Type 0} (lru : LruCache L) where
  unfoldable pub new : ℕ → DetectionCache L
  new cap = record { inner = lru.make (max cap 1); cap = cap }

  unfoldable pub get :
      DetectionCache L → CacheKey → DetectionCache L × Option (List CachedDetection)
  get c k =
      if c.cap == 0
      then (c, none)
      else (record c { inner = (lru.lru_get c.inner k).0 }, (lru.lru_get c.inner k).1)

  unfoldable pub insert : DetectionCache L → CacheKey → List CachedDetection → DetectionCache L
  insert c k v =
      if ltb max_cached_detections (length v)
      then c
      else (if c.cap == 0 then c else record c {
        inner =
            lru.lru_put
              (if not (lru.capacity c.inner == c.cap) then lru.resize c.inner c.cap else c.inner) k
              v;
      })

  unfoldable pub set_cap : DetectionCache L → ℕ → DetectionCache L
  set_cap c n = record {
    inner = if n == 0 then lru.clear c.inner else lru.resize c.inner n;
    cap = n;
  }
