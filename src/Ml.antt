-- ===== src/Ml.antt =====
-- The ML recognizer's parameters (MlConfig of crates/zlauder-engine/src/config.rs) and their
-- fingerprint (`compute_ml_fp` of lib.rs). A minimal score is given by the bits of
-- its `f32`, and compared as such values are.
pub mod Slot
pub mod Generations
pub mod Identity
use package.zlau_de_r.Prelude.{
  ℕ, ◌+◌, ◌/◌, ◌%◌, zero, suc, Bool, true, false, ◌&&◌, ◌||◌, ◌==◌, not, ltb, if◌then◌else◌,
}
use package.zlau_de_r.Prelude.{Option, none, some, List, [], ◌∷◌, ◌++◌, Text, codes, text_eq}

pub data MlBackend : Type 0 where
  local http sidecar : MlBackend

pub data Quantization : Type 0 where
  unquantized q8_0 bf16 bf16_vnni : Quantization

pub data ComputePrecision : Type 0 where
  f32 f16 : ComputePrecision

-- The `fp_tag` of each.
abbrev pub backend_tag : MlBackend → ℕ
backend_tag MlBackend.local = 0
backend_tag MlBackend.http = 1
backend_tag MlBackend.sidecar = 2

abbrev pub quant_tag : Quantization → ℕ
quant_tag Quantization.unquantized = 0
quant_tag Quantization.q8_0 = 1
quant_tag Quantization.bf16 = 2
quant_tag Quantization.bf16_vnni = 3

abbrev pub precision_tag : ComputePrecision → ℕ
precision_tag ComputePrecision.f32 = 0
precision_tag ComputePrecision.f16 = 1

pub record MlConfig : Type 0 where
  pub enabled : Bool
  pub required : Option Bool
  pub backend : MlBackend
  pub model : Text
  pub endpoint : Option Text
  pub auth_token_env : Option Text
  pub http_timeout_secs : ℕ
  pub sidecar_path : Option Text
  pub revision : Option Text
  pub min_score : Option ℕ
  pub prefer_gpu : Bool
  pub compute_precision : ComputePrecision
  pub quant : Quantization
  pub banded_attention : Bool

abbrev default_required : MlBackend → Bool
default_required MlBackend.local = false
default_required _ = true

unfoldable pub required_effective : MlConfig → Bool
required_effective d = elim d.required [ none ↦ default_required d.backend | some r ↦ r ]

abbrev pub bool_eq : Bool → Bool → Bool
bool_eq true b = b
bool_eq false true = false
bool_eq false false = true

abbrev pub same_text : Option Text → Option Text → Bool
same_text none none = true
same_text none (some u) = false
same_text (some t) none = false
same_text (some t) (some u) = text_eq t u

-- `==` of two `f32` values, by their bits: a NaN equals nothing, and the two zeros are equal. The bits
-- below the sign of a NaN are above those of the infinity.
abbrev pub is_nan : ℕ → Bool
is_nan bits = ltb 2139095040 (bits % 2147483648)

abbrev pub is_zero : ℕ → Bool
is_zero bits = bits % 2147483648 == 0

abbrev pub score_eq : ℕ → ℕ → Bool
score_eq a b = not (is_nan a) && (a == b || (is_zero a && is_zero b))

abbrev pub same_score : Option ℕ → Option ℕ → Bool
same_score none none = true
same_score none (some u) = false
same_score (some t) none = false
same_score (some t) (some u) = score_eq t u

abbrev pub same_fields : MlBackend → MlConfig → MlConfig → Bool
same_fields MlBackend.local d e =
    text_eq d.model e.model
    && (same_text d.revision e.revision
        && (bool_eq d.prefer_gpu e.prefer_gpu
            && (precision_tag d.compute_precision == precision_tag e.compute_precision
                && (quant_tag d.quant == quant_tag e.quant
                    && bool_eq d.banded_attention e.banded_attention))))
same_fields MlBackend.http d e =
    same_text d.endpoint e.endpoint
    && (same_text d.auth_token_env e.auth_token_env && d.http_timeout_secs == e.http_timeout_secs)
same_fields MlBackend.sidecar d e =
    text_eq d.model e.model
    && (same_text d.revision e.revision
        && (same_text d.sidecar_path e.sidecar_path
            && bool_eq d.banded_attention e.banded_attention))

unfoldable pub same_model_params : MlConfig → MlConfig → Bool
same_model_params d e =
    if backend_tag d.backend == backend_tag e.backend
    then same_score d.min_score e.min_score && same_fields d.backend d e
    else false

-- `to_le_bytes`, at a width in bytes.
unfoldable pub le_bytes : ℕ → ℕ → Text
le_bytes zero v = []
le_bytes (suc n) v = (v % 256) ∷ le_bytes n (v / 256)

abbrev bool_byte : Bool → ℕ
bool_byte true = 1
bool_byte false = 0

abbrev option_bytes : Option Text → Text
option_bytes none = 0 ∷ []
option_bytes (some t) = 1 ∷ t

abbrev pub score_bytes : Option ℕ → Text
score_bytes none = 0 ∷ []
score_bytes (some bits) = 1 ∷ le_bytes 4 bits

abbrev backend_bytes : MlBackend → MlConfig → Text
backend_bytes MlBackend.local d =
    d.model
    ++ (0 ∷ option_bytes d.revision
        ++ (bool_byte d.prefer_gpu
            ∷ precision_tag d.compute_precision
            ∷ quant_tag d.quant
            ∷ bool_byte d.banded_attention
            ∷ []))
backend_bytes MlBackend.http d =
    option_bytes d.endpoint ++ (0 ∷ option_bytes d.auth_token_env ++ le_bytes 8 d.http_timeout_secs)
backend_bytes MlBackend.sidecar d =
    d.model
    ++ (0 ∷ option_bytes d.revision
        ++ (option_bytes d.sidecar_path ++ (bool_byte d.banded_attention ∷ [])))

-- What `compute_ml_fp` hashes of the parameters.
unfoldable pub config_bytes : MlConfig → Text
config_bytes d = backend_tag d.backend ∷ score_bytes d.min_score ++ backend_bytes d.backend d
