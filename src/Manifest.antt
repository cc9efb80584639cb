-- ===== src/Manifest.antt =====
-- The per-call manifest (crates/zlauder-engine/src/manifest.rs): which token stands for which
-- plaintext. The random `call_id` is left out.
use zlau_de_r.Prelude.{ℕ, ◌+◌, Bool, List, [], ◌∷◌, ◌++◌, find, length, Option, none, some, ◌==◌}
use zlau_de_r.Prelude.{Text, text_eq}
use zlau_de_r.Surface.{Surface}

pub record ManifestEntry : Type 0 where
  pub canonical_form : Text
  pub token_handle : Text
  pub entity_kind : Text
  pub arrow_origin : Surface
  pub exposed_at : Option (ℕ × ℕ)
  pub broker : Bool
  pub local : Bool

abbrev pub UnmaskManifest : Type 0
UnmaskManifest = List ManifestEntry

unfoldable pub merge : UnmaskManifest → UnmaskManifest → UnmaskManifest
merge m other = m ++ other

unfoldable pub push : UnmaskManifest → ManifestEntry → UnmaskManifest
push m entry = m ++ (entry ∷ [])

-- The first entry for a token.
abbrev pub entry_of : UnmaskManifest → Text → Option ManifestEntry
entry_of m token = find (λ (e : ManifestEntry). text_eq e.token_handle token) m

unfoldable pub lookup : UnmaskManifest → Text → Option Text
lookup m token = elim (entry_of m token) [ none ↦ none | some e ↦ some e.canonical_form ]

unfoldable pub is_empty : UnmaskManifest → Bool
is_empty m = length m == 0

pub record MaskStats : Type 0 where
  pub leaves : ℕ
  pub hit : ℕ
  pub fresh_miss : ℕ
  pub ml_ran : ℕ
  pub fail_open : ℕ
  pub disabled : ℕ

abbrev pub no_stats : MaskStats
no_stats = record { leaves = 0; hit = 0; fresh_miss = 0; ml_ran = 0; fail_open = 0; disabled = 0 }

unfoldable pub disabled_stats : MaskStats
disabled_stats = record no_stats { leaves = 1; disabled = 1 }

unfoldable pub merge_stats : MaskStats → MaskStats → MaskStats
merge_stats s o = record {
  leaves = s.leaves + o.leaves;
  hit = s.hit + o.hit;
  fresh_miss = s.fresh_miss + o.fresh_miss;
  ml_ran = s.ml_ran + o.ml_ran;
  fail_open = s.fail_open + o.fail_open;
  disabled = s.disabled + o.disabled;
}

pub record MaskOutcome : Type 0 where
  pub masked_text : Text
  pub manifest : UnmaskManifest
  pub stats : MaskStats

unfoldable pub passthrough : Text → MaskStats → MaskOutcome
passthrough text stats = record { masked_text = text; manifest = []; stats = stats }
