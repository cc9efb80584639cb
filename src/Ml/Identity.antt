-- ===== src/Ml/Identity.antt =====
-- The identity of a recognizer and its fingerprint agree.
use zlau_de_r.Prelude.{
  ℕ, ◌≡◌, ◌≢◌, ◌⊎◌, refl, not, ==→≡, ap, ◌∙◌, arith, Bool, true, false, ◌==◌, Option,
}
use zlau_de_r.Prelude.{none, some, Text, text_eq, text_eq_iff, and_true, Bool-cases, inl, inr}
use zlau_de_r.Ml.{MlConfig, MlBackend, backend_tag, quant_tag}
use zlau_de_r.Ml.{
  precision_tag, bool_eq, same_text, is_nan, is_zero, same_score, same_fields, same_model_params,
}
use zlau_de_r.Ml.{config_bytes, backend_bytes}

backend_same : (b c : MlBackend) → backend_tag b == backend_tag c ≡ true → b ≡ c
backend_same MlBackend.local MlBackend.local h = refl
backend_same MlBackend.http MlBackend.http h = refl
backend_same MlBackend.sidecar MlBackend.sidecar h = refl
backend_same MlBackend.local MlBackend.http h = ground arith
backend_same MlBackend.local MlBackend.sidecar h = ground arith
backend_same MlBackend.http MlBackend.local h = ground arith
backend_same MlBackend.http MlBackend.sidecar h = ground arith
backend_same MlBackend.sidecar MlBackend.local h = ground arith
backend_same MlBackend.sidecar MlBackend.http h = ground arith

same_text-eq : (t u : Option Text) → same_text t u ≡ true → t ≡ u
same_text-eq none none h = refl
same_text-eq none (some u) h = ground arith
same_text-eq (some t) none h = ground arith
same_text-eq (some t) (some u) h = ap some ((text_eq_iff t u).0 h)

-- Two scores that are zeros of opposite signs.
abbrev pub OppositeZeros : Option ℕ → Option ℕ → Type 0
OppositeZeros (some t) (some u) = (is_zero t ≡ true) × (is_zero u ≡ true) × (t ≢ u)
OppositeZeros (some t) none = ⊥
OppositeZeros none u = ⊥

same_score-eq : (t u : Option ℕ) → same_score t u ≡ true → (t ≡ u) ⊎ OppositeZeros t u
same_score-eq none none h = inl refl
same_score-eq none (some u) h = absurd (ground arith)
same_score-eq (some t) none h = absurd (ground arith)
same_score-eq (some t) (some u) h = elim (Bool-cases (t == u)) [
  | inl same ↦ inl (ap some (==→≡ t u same))
  | inr differ ↦
      let (_, zeros) = and_true (not (is_nan t)) _ h in
      let (left, right) = and_true (is_zero t) (is_zero u) (rw differ at zeros) in
      inr (left, right, λ (p : t ≡ u). ground (arith, p, differ))
]

bool_eq_lem : (b c : Bool) → bool_eq b c ≡ true → b ≡ c
bool_eq_lem true true h = refl
bool_eq_lem true false h = ground arith
bool_eq_lem false true h = ground arith
bool_eq_lem false false h = refl

same_fields-bytes :
    (b : MlBackend) (d e : MlConfig)
    → same_fields b d e ≡ true
    → backend_bytes b d ≡ backend_bytes b e
same_fields-bytes MlBackend.local d e h =
    let (model, h1) = and_true (text_eq d.model e.model) _ h in
    let (revision, h2) = and_true (same_text d.revision e.revision) _ h1 in
    let (gpu, h3) = and_true (bool_eq d.prefer_gpu e.prefer_gpu) _ h2 in
    let (precision, h4) =
      and_true (precision_tag d.compute_precision == precision_tag e.compute_precision) _ h3 in
    let (quant, banded) = and_true (quant_tag d.quant == quant_tag e.quant) _ h4 in
    let precision' : precision_tag d.compute_precision ≡ precision_tag e.compute_precision =
      ground arith in
    let quant' : quant_tag d.quant ≡ quant_tag e.quant = ground arith in
    rw (
      (text_eq_iff d.model e.model).0 model,
      same_text-eq d.revision e.revision revision,
      bool_eq_lem d.prefer_gpu e.prefer_gpu gpu,
      precision',
      quant',
      bool_eq_lem d.banded_attention e.banded_attention banded,
    )
same_fields-bytes MlBackend.http d e h =
    let (endpoint, h1) = and_true (same_text d.endpoint e.endpoint) _ h in
    let (auth, timeout) = and_true (same_text d.auth_token_env e.auth_token_env) _ h1 in
    let timeout' : d.http_timeout_secs ≡ e.http_timeout_secs = ground arith in
    rw (
      same_text-eq d.endpoint e.endpoint endpoint,
      same_text-eq d.auth_token_env e.auth_token_env auth,
      timeout',
    )
same_fields-bytes MlBackend.sidecar d e h =
    let (model, h1) = and_true (text_eq d.model e.model) _ h in
    let (revision, h2) = and_true (same_text d.revision e.revision) _ h1 in
    let (path, banded) = and_true (same_text d.sidecar_path e.sidecar_path) _ h2 in
    rw (
      (text_eq_iff d.model e.model).0 model,
      same_text-eq d.revision e.revision revision,
      same_text-eq d.sidecar_path e.sidecar_path path,
      bool_eq_lem d.banded_attention e.banded_attention banded,
    )

-- Two parameter sets that the reconciliation takes for the same recognizer are hashed to the same
-- bytes, so that keeping the recognizer keeps the cache's key space, unless both have a minimal
-- score and these are zeros of opposite signs, which are equal and whose bits differ.
pub same_model_params-config_bytes :
    (d e : MlConfig)
    → same_model_params d e ≡ true
    → (config_bytes d ≡ config_bytes e) ⊎ OppositeZeros d.min_score e.min_score
unfolding same_model_params config_bytes
same_model_params-config_bytes d e h =
    elim (Bool-cases (backend_tag d.backend == backend_tag e.backend)) [
      | inr differ ↦ absurd (ground arith)
      | inl tags ↦
          let b = backend_same d.backend e.backend tags in
          let (score, fields) = and_true (same_score d.min_score e.min_score) _ (rw tags at h) in
          let bytes : backend_bytes d.backend d ≡ backend_bytes e.backend e =
            same_fields-bytes d.backend d e fields ∙ ap (λ (k : MlBackend). backend_bytes k e) b in
          elim (same_score-eq d.min_score e.min_score score) [
            | inl scores ↦ inl (cc)
            | inr zeros ↦ inr zeros
          ]
    ]
