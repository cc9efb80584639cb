-- ===== src/Ml/Slot.antt =====
-- The recognizer slot of the engine and the operations on it (`MlRuntime` and the `ml_` methods of
-- crates/zlauder-engine/src/lib.rs). The counters are 64 bits wide; a fingerprint is kept as the
-- hexadecimal digits of its eight bytes.
use zlau_de_r.Prelude.{
  ℕ, ◌+◌, ◌%◌, Bool, true, false, not, ◌&&◌, ◌||◌, ◌==◌, if◌then◌else◌, Option, none, some,
}
use zlau_de_r.Prelude.{is_some, [], ◌∷◌, ◌++◌, take, Text, codes}
use zlau_de_r.Externals.{Externals}
use zlau_de_r.Detect.{MlRecognizer}
use zlau_de_r.Ml.{MlConfig, MlBackend, config_bytes, required_effective}

pub data MlStatus : Type 0 where
  disabled loading ready failed : MlStatus

abbrev pub is_ready : MlStatus → Bool
is_ready MlStatus.ready = true
is_ready _ = false

pub record MlRuntime : Type 0 where
  pub status : MlStatus
  pub recognizer : Option MlRecognizer
  pub error : Option Text
  pub last_runtime_error : Option Text
  pub runtime_failures : ℕ
  pub desired : Option MlConfig
  pub generation : ℕ
  pub ml_fp : Text

-- The increment of a `u64`.
abbrev pub next_u64 : ℕ → ℕ
next_u64 n = (n + 1) % 18446744073709551616

-- What a refused request is told: the status, the load error and the backend.
pub record Refusal : Type 0 where
  pub status : MlStatus
  pub error : Option Text
  pub backend : MlBackend

abbrev desired_bytes : Option MlConfig → Text
desired_bytes none = []
desired_bytes (some d) = config_bytes d

unfoldable pub fp_bytes : MlRuntime → Text
fp_bytes rt =
    codes "zlauder-ml-fp-v1"
    ++ (if is_ready rt.status && is_some rt.recognizer
        then 1 ∷ desired_bytes rt.desired
        else 0 ∷ [])

module _ (x : Externals) where
  unfoldable pub compute_ml_fp : MlRuntime → Text
  compute_ml_fp rt = take 16 (x.blake3_hex (fp_bytes rt))

  -- `rt.ml_fp = compute_ml_fp(&rt)`.
  abbrev pub refreshed : MlRuntime → MlRuntime
  refreshed rt = record rt { ml_fp = compute_ml_fp rt }

  unfoldable pub default_runtime : MlRuntime
  default_runtime = refreshed (record {
    status = MlStatus.disabled;
    recognizer = none;
    error = none;
    last_runtime_error = none;
    runtime_failures = 0;
    desired = none;
    generation = 0;
    ml_fp = [];
  })

  -- With the new generation.
  unfoldable pub ml_begin_load : MlRuntime → MlConfig → MlRuntime × ℕ
  ml_begin_load ml desired =
      let next = refreshed (record ml {
        generation = next_u64 ml.generation;
        status = MlStatus.loading;
        recognizer = none;
        error = none;
        last_runtime_error = none;
        runtime_failures = 0;
        desired = some desired;
      }) in
      (next, next.generation)

  unfoldable pub ml_set_ready : MlRuntime → ℕ → MlRecognizer → MlRuntime
  ml_set_ready ml generation recognizer =
      if not (ml.generation == generation)
      then ml
      else refreshed (record ml {
        status = MlStatus.ready;
        recognizer = some recognizer;
        error = none;
        last_runtime_error = none;
        runtime_failures = 0;
      })

  unfoldable pub ml_set_failed : MlRuntime → ℕ → Text → MlRuntime
  ml_set_failed ml generation error =
      if not (ml.generation == generation)
      then ml
      else refreshed (record ml { status = MlStatus.failed; recognizer = none; error = some error })

  unfoldable pub ml_disable : MlRuntime → MlRuntime
  ml_disable ml = refreshed (record ml {
    generation = next_u64 ml.generation;
    status = MlStatus.disabled;
    recognizer = none;
    error = none;
    last_runtime_error = none;
    runtime_failures = 0;
    desired = none;
  })

unfoldable pub ml_update_required : MlRuntime → Option Bool → MlRuntime
ml_update_required ml required = elim ml.desired [
  | none ↦ ml
  | some d ↦ record ml { desired = some (record d { required = required }) }
]

unfoldable pub ml_active : MlRuntime → Bool
ml_active ml = is_ready ml.status

unfoldable pub ml_should_offload : MlRuntime → Bool
ml_should_offload ml = elim ml.status [
  | MlStatus.loading ↦ true
  | MlStatus.ready ↦ true
  | MlStatus.disabled ↦ false
  | MlStatus.failed ↦ false
]

abbrev pub refusal : MlRuntime → Option Refusal
refusal ml = elim ml.desired [
  | none ↦ none
  | some d ↦
      if d.enabled && (required_effective d && not (is_ready ml.status))
      then some (record { status = ml.status; error = ml.error; backend = d.backend })
      else none
]

-- The recognizer, the fingerprint, the generation, and the refusal.
unfoldable pub ml_for_mask : MlRuntime → Option MlRecognizer × Text × ℕ × Option Refusal
ml_for_mask ml =
    (if is_ready ml.status then ml.recognizer else none, ml.ml_fp, ml.generation, refusal ml)

unfoldable pub ml_note_runtime_failure : MlRuntime → ℕ → Text → MlRuntime
ml_note_runtime_failure ml generation msg =
    if not (ml.generation == generation) then ml else record ml {
      runtime_failures = next_u64 ml.runtime_failures;
      last_runtime_error = some msg;
    }

unfoldable pub ml_clear_runtime_failure : MlRuntime → ℕ → MlRuntime
ml_clear_runtime_failure ml generation =
    if not (ml.generation == generation) || not (is_some ml.last_runtime_error)
    then ml
    else record ml { last_runtime_error = none }
