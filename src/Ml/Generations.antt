-- ===== src/Ml/Generations.antt =====
-- Sequences of operations on the recognizer slot: what is superseded never lands, the slot is
-- coherent, and a required recognizer is never skipped.
use zlau_de_r.Prelude.{ℕ, zero, suc, ◌+◌, ◌%◌, ◌<◌, ◌≡◌, refl, ap, ◌∙◌, inl, inr, arith, Bool}
use zlau_de_r.Prelude.{
  true, false, not, ◌&&◌, ◌||◌, ◌==◌, if◌then◌else◌, Option, some, is_some, Text,
}
use zlau_de_r.Prelude.{Bool-cases, Option-cases, ◌∷◌, [], ◌++◌, take, codes}
use zlau_de_r.Externals.{Externals}
use zlau_de_r.Detect.{MlRecognizer}
use zlau_de_r.Ml.{
  MlBackend, MlConfig, config_bytes, required_effective, backend_bytes, backend_tag, score_bytes,
}
use zlau_de_r.Ml.Slot.{MlRuntime, is_ready, next_u64, fp_bytes, compute_ml_fp}
use zlau_de_r.Ml.Slot.{default_runtime, ml_begin_load, ml_set_ready, ml_set_failed, ml_disable}
use zlau_de_r.Ml.Slot.{ml_update_required, ml_for_mask, ml_note_runtime_failure}
use zlau_de_r.Ml.Slot.{ml_clear_runtime_failure}

-- One call of an operation that supersedes the loads before it.
pub data Bump (x : Externals) (s t : MlRuntime) : Type 0 where
  begun : (d : MlConfig) → t ≡ (ml_begin_load x s d).0 → Bump x s t
  disabled : t ≡ ml_disable x s → Bump x s t

-- One call of any other operation, by whichever task, with whichever generation.
pub data Quiet (x : Externals) (s t : MlRuntime) : Type 0 where
  readied : (g : ℕ) (r : MlRecognizer) → t ≡ ml_set_ready x s g r → Quiet x s t
  refused : (g : ℕ) (e : Text) → t ≡ ml_set_failed x s g e → Quiet x s t
  required : (r : Option Bool) → t ≡ ml_update_required s r → Quiet x s t
  noted : (g : ℕ) (msg : Text) → t ≡ ml_note_runtime_failure s g msg → Quiet x s t
  cleared : (g : ℕ) → t ≡ ml_clear_runtime_failure s g → Quiet x s t

-- A sequence of calls, with the number of those that supersede.
pub data Runs (x : Externals) (s : MlRuntime) : ℕ → MlRuntime → Type 0 where
  none_left : Runs x s 0 s
  bumped : {n : ℕ} {mid t : MlRuntime} → Bump x mid t → Runs x s n mid → Runs x s (suc n) t
  stayed : {n : ℕ} {mid t : MlRuntime} → Quiet x mid t → Runs x s n mid → Runs x s n t

abbrev bound : ℕ
bound = 18446744073709551616

module _ {x : Externals} where
  Bump-generation : {s t : MlRuntime} → Bump x s t → t.generation ≡ next_u64 s.generation
  unfolding ml_begin_load ml_disable
  Bump-generation {s} (begun d e) = ap (λ (r : MlRuntime). r.generation) e
  Bump-generation {s} (disabled e) = ap (λ (r : MlRuntime). r.generation) e

  Quiet-generation : {s t : MlRuntime} → Quiet x s t → t.generation ≡ s.generation
  unfolding ml_set_ready ml_set_failed ml_update_required ml_note_runtime_failure
      ml_clear_runtime_failure
  Quiet-generation {s} (readied g r e) = ground (arith, e)
  Quiet-generation {s} (refused g m e) = ground (arith, e)
  Quiet-generation {s} (required r e) = ground (arith, e)
  Quiet-generation {s} (noted g m e) = ground (arith, e)
  Quiet-generation {s} (cleared g e) = ground (arith, e)

  Runs-generation :
      {s t : MlRuntime} (n : ℕ)
      → s.generation < bound
      → Runs x s n t
      → t.generation ≡ (s.generation + n) % bound
  Runs-generation {s} zero h none_left = omega arith
  Runs-generation {s} (suc n) h (bumped b r) =
      omega (arith, Bump-generation b, Runs-generation n h r)
  Runs-generation {s} n h (stayed q r) = Quiet-generation q ∙ Runs-generation n h r

-- A load that was superseded never lands: after any calls of which at least one, and fewer than
-- 2^64, began another load or turned the recognizer off, the completion, the failure, and the
-- runtime notes that carry the load's generation leave the slot as it is.
pub superseded_load :
    (x : Externals) (s : MlRuntime) (d : MlConfig) (n : ℕ) (t : MlRuntime)
    → Runs x (ml_begin_load x s d).0 n t
    → 0 < n
    → n < bound
    → let g = (ml_begin_load x s d).1 in
      ((r : MlRecognizer) → ml_set_ready x t g r ≡ t)
      × ((e : Text) → ml_set_failed x t g e ≡ t)
      × ((msg : Text) → ml_note_runtime_failure t g msg ≡ t)
      × (ml_clear_runtime_failure t g ≡ t)
unfolding ml_begin_load ml_set_ready ml_set_failed ml_note_runtime_failure ml_clear_runtime_failure
superseded_load x s d n t runs pos small =
    let e = Runs-generation n (omega arith) runs in
    let stale : (t.generation == next_u64 s.generation) ≡ false = ground (arith, e) in
    (λ r. rw stale refl, λ m. rw stale refl, λ m. rw stale refl, rw stale refl)

abbrev installed_fp : Externals → MlRuntime → Text → Text
installed_fp x s t = take 16 (
    x.blake3_hex (
      codes "zlauder-ml-fp-v1"
      ++ (if is_ready s.status && is_some s.recognizer then 1 ∷ t else 0 ∷ [])))

-- The recognizer is there exactly when the status says so, and the fingerprint is up to date.
pub record IsCoherent (x : Externals) (t : MlRuntime) : Type 0 where
  pub present : is_some t.recognizer ≡ is_ready t.status
  pub fingerprint : t.ml_fp ≡ compute_ml_fp x t

backend_bytes_required :
    (b : MlBackend) (d : MlConfig) (r : Option Bool)
    → backend_bytes b d ≡ backend_bytes b (record d { required = r })
backend_bytes_required MlBackend.local d r = refl
backend_bytes_required MlBackend.http d r = refl
backend_bytes_required MlBackend.sidecar d r = refl

-- Whether ML is required is no part of the fingerprint.
config_bytes_required :
    (d : MlConfig) (r : Option Bool) → config_bytes d ≡ config_bytes (record d { required = r })
unfolding config_bytes
config_bytes_required d r =
    ap (λ (t : Text). backend_tag d.backend ∷ (score_bytes d.min_score ++ t))
      (backend_bytes_required d.backend d r)

module _ {x : Externals} where
  Bump-IsCoherent : {s t : MlRuntime} → Bump x s t → IsCoherent x t
  unfolding ml_begin_load ml_disable compute_ml_fp fp_bytes
  Bump-IsCoherent (begun d e) = rw e (record { present = refl; fingerprint = refl })
  Bump-IsCoherent (disabled e) = rw e (record { present = refl; fingerprint = refl })

  Quiet-IsCoherent : {s t : MlRuntime} → Quiet x s t → IsCoherent x s → IsCoherent x t
  unfolding ml_set_ready ml_set_failed ml_update_required ml_note_runtime_failure
      ml_clear_runtime_failure compute_ml_fp fp_bytes
  Quiet-IsCoherent {s} (readied g r e) c = elim (Bool-cases (s.generation == g)) [
    | inl same ↦ rw (e, same) (record { present = refl; fingerprint = refl })
    | inr differ ↦ rw (e, differ) c
  ]
  Quiet-IsCoherent {s} (refused g m e) c = elim (Bool-cases (s.generation == g)) [
    | inl same ↦ rw (e, same) (record { present = refl; fingerprint = refl })
    | inr differ ↦ rw (e, differ) c
  ]
  Quiet-IsCoherent {s} (required r e) c = elim (Option-cases s.desired) [
    | inl unset ↦ let same : ml_update_required s r ≡ s = ground (arith, unset) in rw (e, same) c
    | inr (d, set) ↦
        rw (e, set)
          (record {
            present = c.present;
            fingerprint =
                c.fingerprint ∙ rw set (ap (installed_fp x s) (config_bytes_required d r));
          })
  ]
  Quiet-IsCoherent {s} (noted g m e) c = elim (Bool-cases (s.generation == g)) [
    | inl same ↦ rw (e, same) (record { present = c.present; fingerprint = c.fingerprint })
    | inr differ ↦ rw (e, differ) c
  ]
  Quiet-IsCoherent {s} (cleared g e) c =
      elim (Bool-cases (not (s.generation == g) || not (is_some s.last_runtime_error))) [
        | inl keep ↦ rw (e, keep) c
        | inr clear ↦ rw (e, clear) (record { present = c.present; fingerprint = c.fingerprint })
      ]

-- In whatever order the tasks' calls come, the slot of a fresh engine stays coherent: a recognizer
-- is installed exactly while the status is ready, and the fingerprint that goes into the cache keys
-- is that of the current slot.
pub Runs-IsCoherent :
    {x : Externals} {t : MlRuntime} (n : ℕ) → Runs x (default_runtime x) n t → IsCoherent x t
unfolding default_runtime compute_ml_fp fp_bytes
Runs-IsCoherent zero none_left = record { present = refl; fingerprint = refl }
Runs-IsCoherent (suc n) (bumped b r) = Bump-IsCoherent b
Runs-IsCoherent n (stayed q r) = Quiet-IsCoherent q (Runs-IsCoherent n r)

-- While a recognizer is enabled and required, a request either runs with a recognizer or is refused,
-- and never both, at every point of every sequence of calls on the slot of a fresh engine.
pub ml_for_mask-required :
    {x : Externals} (t : MlRuntime) (n : ℕ) (d : MlConfig)
    → Runs x (default_runtime x) n t
    → t.desired ≡ some d
    → d.enabled ≡ true
    → required_effective d ≡ true
    → let (recognizer, fp, generation, denied) = ml_for_mask t in
      is_some recognizer ≡ not (is_some denied)
unfolding ml_for_mask
ml_for_mask-required {x} t n d runs set on must =
    let present = (Runs-IsCoherent n runs).present in
    elim (Bool-cases (is_ready t.status)) [
      | inl r ↦ ground (arith, r, set, on, must, present)
      | inr r ↦ ground (arith, r, set, on, must, present)
    ]
