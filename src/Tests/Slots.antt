-- ===== src/Tests/Slots.antt =====
-- Instances of the theorems on the recognizer slot, the unmasking gates and the bypass marks.
use zlau_de_r.Prelude.{ℕ, ◌≡◌, ◌≢◌, ◌⊎◌, ap, refl, true, false, not, none, some, is_some, List, []}
use zlau_de_r.Prelude.{
  ◌∷◌, ◌++◌, All, Text, codes, arith, get, insert, text_eq, split_once, strip_prefix,
}
use zlau_de_r.Error.{err, EngineError}
use zlau_de_r.Surface.{Surface}
use zlau_de_r.Token.{find_iter, is_token_body, is_broker_token}
use zlau_de_r.Token.Scan.{IsToken}
use zlau_de_r.Store.{SessionStore, TokenKind, class_of, reveal_for, decrypt, is_tool_promoted}
use zlau_de_r.Detect.{MlRecognizer}
use zlau_de_r.Manifest.{ManifestEntry}
use zlau_de_r.Ml.{
  MlConfig, MlBackend, Quantization, ComputePrecision, same_model_params, config_bytes, le_bytes,
}
use zlau_de_r.Ml.{required_effective}
use zlau_de_r.Ml.Identity.{OppositeZeros, same_model_params-config_bytes}
use zlau_de_r.Ml.Slot.{
  MlRuntime, default_runtime, ml_begin_load, ml_disable, ml_set_ready, ml_set_failed,
}
use zlau_de_r.Ml.Slot.{ml_note_runtime_failure, ml_clear_runtime_failure, ml_for_mask}
use zlau_de_r.Ml.Generations.{Bump, Quiet, Runs, IsCoherent, superseded_load, Runs-IsCoherent}
use zlau_de_r.Ml.Generations.{ml_for_mask-required}
use zlau_de_r.Engine.Bypass.{
  UserBypassSegment, user_bypass_segments, bypass_loop, join_segments, IsCut,
}
use zlau_de_r.Engine.Bypass.{start_mark, end_mark}
use zlau_de_r.Engine.Bypass.Segments.{user_bypass_segments-join, user_bypass_segments-marked}
use zlau_de_r.Engine.Unmask.{restore_loop, local_token, reveal_audit, audit_class, RevealAudit}
use zlau_de_r.Engine.Unmask.Gate.{
  restore_loop-broker, restore_loop-local, resolved_audit, shown, reveal_audit-restore_loop,
}
use zlau_de_r.Tests.Toy.{toy, empty}

abbrev model : MlConfig
model = record {
  enabled = true;
  required = some true;
  backend = MlBackend.local;
  model = codes "privacy-filter";
  endpoint = none;
  auth_token_env = none;
  http_timeout_secs = 30;
  sidecar_path = none;
  revision = none;
  min_score = some 1056964608;
  prefer_gpu = false;
  compute_precision = ComputePrecision.f32;
  quant = Quantization.bf16;
  banded_attention = true;
}

abbrev recognizer : MlRecognizer
recognizer = record {
  analyze = λ (t : Text). err EngineError.ml;
  analyze_batch = λ (ts : List Text). err EngineError.ml;
}

-- The slot while a load is under way, after it is turned off, and after the load lands.
abbrev loading : MlRuntime
loading = (ml_begin_load toy (default_runtime toy) model).0

abbrev off : MlRuntime
off = ml_disable toy loading

abbrev installed : MlRuntime
installed = ml_set_ready toy loading 1 recognizer

superseded_load_example :
    ((r : MlRecognizer) → ml_set_ready toy off 1 r ≡ off)
    × ((e : Text) → ml_set_failed toy off 1 e ≡ off)
    × ((msg : Text) → ml_note_runtime_failure off 1 msg ≡ off)
    × (ml_clear_runtime_failure off 1 ≡ off)
unfolding ml_begin_load default_runtime
superseded_load_example =
    superseded_load toy (default_runtime toy) model 1 off
      (Runs.bumped (Bump.disabled refl) Runs.none_left) (omega arith) (omega arith)

installed-Runs : Runs toy (default_runtime toy) 1 installed
installed-Runs =
    Runs.stayed (Quiet.readied 1 recognizer refl)
      (Runs.bumped (Bump.begun model refl) Runs.none_left)

Runs-IsCoherent_example : IsCoherent toy installed
Runs-IsCoherent_example = Runs-IsCoherent 1 installed-Runs

ml_for_mask-required_example :
    let (found, fp, generation, denied) = ml_for_mask installed in
    is_some found ≡ not (is_some denied)
unfolding ml_begin_load default_runtime ml_set_ready required_effective
ml_for_mask-required_example = ml_for_mask-required installed 1 model installed-Runs refl refl refl

abbrev zero_score : MlConfig
zero_score = record model { min_score = some 0 }

abbrev minus_zero_score : MlConfig
minus_zero_score = record model { min_score = some 2147483648 }

same_model_params-config_bytes_example :
    (config_bytes zero_score ≡ config_bytes minus_zero_score)
    ⊎ OppositeZeros zero_score.min_score minus_zero_score.min_score
unfolding same_model_params text_eq
same_model_params-config_bytes_example =
    same_model_params-config_bytes zero_score minus_zero_score refl

-- The last byte of the score, which holds its sign, is the sixth of all.
sixth : Text → ℕ
sixth (a ∷ b ∷ c ∷ d ∷ e ∷ f ∷ t) = f
sixth _ = 0

zero_scores_bytes : config_bytes zero_score ≢ config_bytes minus_zero_score
unfolding config_bytes le_bytes sixth
zero_scores_bytes h = let sign = ap sixth h in absurd (omega (arith, sign))

user_bypass_segments-join_example :
    (join_segments (
        UserBypassSegment.mask (codes "a ")
        ∷ UserBypassSegment.bypass (codes "b")
        ∷ UserBypassSegment.mask (codes "c")
        ∷ [])
      ≡ codes "a >>b<<c")
    × All IsCut (
        UserBypassSegment.mask (codes "a ")
        ∷ UserBypassSegment.bypass (codes "b")
        ∷ UserBypassSegment.mask (codes "c")
        ∷ [])
unfolding user_bypass_segments bypass_loop split_once strip_prefix
user_bypass_segments-join_example =
    user_bypass_segments-join (codes "a >>b<<c")
      (UserBypassSegment.mask (codes "a ")
        ∷ UserBypassSegment.bypass (codes "b")
        ∷ UserBypassSegment.mask (codes "c")
        ∷ [])
      refl

user_bypass_segments-marked_example :
    is_some (user_bypass_segments (codes ">" ++ (start_mark ++ (codes "x" ++ (end_mark ++ [])))))
    ≡ true
user_bypass_segments-marked_example = user_bypass_segments-marked (codes ">") (codes "x") []

abbrev broker_token : Text
broker_token = codes "[BROKER__GH_0123456789ab]"

broker_token-IsToken : IsToken broker_token
unfolding is_token_body
broker_token-IsToken = record {
  body = codes "BROKER__GH_0123456789ab";
  grammar = refl;
  shape = refl;
}

restore_loop-broker_example :
    let loop = λ (t : Text). restore_loop toy 0 empty [] none true t (find_iter t) 0 [] in
    loop (codes "a" ++ (broker_token ++ codes "b"))
    ≡ loop (codes "a") ++ (broker_token ++ loop (codes "b"))
unfolding is_broker_token
restore_loop-broker_example =
    restore_loop-broker toy 0 empty [] none (codes "a") broker_token (codes "b") true
      broker_token-IsToken refl

-- The owner-reveal token of an administrator's key.
abbrev admin : Text
admin = codes "[ADMIN_0123456789ab]"

abbrev admin_entry : ManifestEntry
admin_entry = record {
  canonical_form = codes "key";
  token_handle = admin;
  entity_kind = codes "ADMIN";
  arrow_origin = Surface.user_message;
  exposed_at = none;
  broker = false;
  local = true;
}

admin-IsToken : IsToken admin
unfolding is_token_body
admin-IsToken = record { body = codes "ADMIN_0123456789ab"; grammar = refl; shape = refl }

restore_loop-local_example :
    let loop =
      λ (t : Text). restore_loop toy 0 empty (admin_entry ∷ []) none false t (find_iter t) 0 [] in
    loop (codes "a" ++ (admin ++ codes "b")) ≡ loop (codes "a") ++ (admin ++ loop (codes "b"))
unfolding local_token text_eq is_tool_promoted
restore_loop-local_example =
    restore_loop-local toy 0 empty (admin_entry ∷ []) none (codes "a") admin (codes "b")
      admin-IsToken refl refl

-- The store with the key, as an owner-reveal secret that ends at 9.
abbrev with_admin : SessionStore
with_admin = record empty {
  token_map =
      insert admin
        (record {
          original_encrypted = codes "key";
          nonce = codes "n";
          kind = TokenKind.local;
          secret_name = some (codes "ADMIN");
          expires_at = some 9;
        })
        [];
}

admin_audit : reveal_audit toy 0 with_admin admin ≡ RevealAudit.local (codes "key")
unfolding reveal_audit audit_class class_of reveal_for decrypt get insert text_eq
admin_audit = refl

reveal_audit-restore_loop_example :
    let loop = λ (t : Text). restore_loop toy 0 with_admin [] none true t (find_iter t) 0 [] in
    (reveal_audit toy 0 with_admin admin ≡ resolved_audit toy 0 with_admin admin)
    × (loop (codes "a" ++ (admin ++ codes "b"))
        ≡ loop (codes "a")
          ++ (shown none admin (reveal_audit toy 0 with_admin admin) ++ loop (codes "b")))
unfolding is_broker_token
reveal_audit-restore_loop_example =
    reveal_audit-restore_loop toy 0 with_admin none (codes "a") admin (codes "b") admin-IsToken refl
