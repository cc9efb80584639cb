-- ===== src/Detect/Passes.antt =====
-- The passes of the detection (crates/zlauder-engine/src/detect.rs): registered secrets, custom
-- rules, the analyzer and the ML recognizer, on one text or on a batch.

use zlau_de_r.Prelude.{◌-◌, Bool, false, not, ◌&&◌, ◌==◌, ltb, leb}
use zlau_de_r.Prelude.{if◌then◌else◌, Option, none, some, List, [], ◌∷◌, ◌++◌, map}
use zlau_de_r.Prelude.{length, Text, codes, text_eq}
use zlau_de_r.Externals.{Externals}
use zlau_de_r.Error.{EngineError, Result, ok, err, ◌>>=◌}
use zlau_de_r.Surface.{Surface}
use zlau_de_r.Config.{EngineConfig, score_one, is_allowed}
use zlau_de_r.Config.{entity_enabled}
use zlau_de_r.Detect.{
  Analyzer, CachedDetection, CompiledCustom, CompiledSecret, MlRecognizer, RecognizerResult, Source,
  Span, applies_to, context_boost, detect_secrets, finish, phone_base_score,
  plausible_generic_secret, slice,
}

-- The detections found so far, and the spans of allow-listed values.
pub record Found : Type 0 where
  pub dets : List CachedDetection
  pub allowed : List Span

abbrev custom_detection : CompiledCustom → Span → CachedDetection
custom_detection c (s, e) = record {
  start = s;
  end = e;
  entity_type = c.entity_type;
  score = score_one;
  source = Source.custom;
  literal = c.literal_token;
  fixed_token = if c.literal_token then c.token else none;
  secret_op = none;
}

abbrev is_generic : Analyzer → Option Text → Bool
is_generic a none = false
is_generic a (some name) = text_eq name a.generic_entropy_pattern

abbrev result_detection : RecognizerResult → Source → CachedDetection
result_detection r source = record {
  start = r.start;
  end = r.end;
  entity_type = r.entity_type;
  score = r.score;
  source = source;
  literal = false;
  fixed_token = none;
  secret_op = none;
}

module _ (x : Externals) (a : Analyzer) (cfg : EngineConfig) where
  -- The matches of one custom rule.
  unfoldable pub custom_matches : CompiledCustom → Text → List Span → Found → Found
  custom_matches c text [] f = f
  custom_matches c text (m ∷ ms) f = custom_matches c text ms (
      if is_allowed x cfg.allow_list (slice text m.0 m.1)
      then record f { allowed = f.allowed ++ (m ∷ []) }
      else record f { dets = f.dets ++ (custom_detection c m ∷ []) })

  unfoldable pub custom_pass : List CompiledCustom → Text → Surface → Found → Found
  custom_pass [] text surface f = f
  custom_pass (c ∷ cs) text surface f =
      custom_pass cs text surface
        (if applies_to c.surfaces surface then custom_matches c text (c.find_iter text) f else f)

  -- The tests of `ingest_results` on one result, before the allow-list: the text that it covers.
  unfoldable pub accepted_text : Text → RecognizerResult → Option Text
  accepted_text text r =
      if ltb r.score cfg.score_threshold
      then none
      else (if text_eq r.entity_type (codes "PHONE_NUMBER") && leb r.score phone_base_score
          then none
          else (if not (entity_enabled cfg r.entity_type)
              then none
              else elim (a.result_text r text) [
                | none ↦ none
                | some s ↦
                    if length s == 0
                    then none
                    else (if text_eq r.entity_type (codes "API_KEY")
                          && is_generic a r.pattern_name
                          && not (plausible_generic_secret a.entropy_below_four s)
                        then none
                        else some s)
              ]))

  unfoldable pub ingest_results : Text → Source → List RecognizerResult → Found → Found
  ingest_results text source [] f = f
  ingest_results text source (r ∷ rs) f =
      ingest_results text source rs (elim (accepted_text text r) [
        | none ↦ f
        | some s ↦
            if is_allowed x cfg.allow_list s
            then record f { allowed = f.allowed ++ ((r.start, r.end) ∷ []) }
            else record f { dets = f.dets ++ (result_detection r source ∷ []) }
      ])

  unfoldable pub detect_base : List CompiledCustom → List CompiledSecret → Text → Surface → Found
  detect_base customs secrets text surface =
      let start : Found = record { dets = detect_secrets secrets text surface; allowed = [] } in
      let found = custom_pass customs text surface start in
      let pre_floor = a.round (cfg.score_threshold - context_boost) in
      ingest_results text Source.regex (a.analyze text cfg.language pre_floor) found

  -- The optional ML pass, and the common tail.
  unfoldable pub run_detection :
      List CompiledCustom
      → List CompiledSecret
      → Option MlRecognizer
      → Text
      → Surface
      → Result (List CachedDetection)
  run_detection customs secrets model text surface =
      let f = detect_base customs secrets text surface in
      elim model [
        | none ↦ ok (finish f.dets f.allowed)
        | some recognizer ↦ do
          ml_results ← recognizer.analyze text
          let g = ingest_results text Source.ml ml_results f
          ok (finish g.dets g.allowed)
      ]

  unfoldable pub zip_batch :
      List CompiledCustom
      → List CompiledSecret
      → List (Text × Surface)
      → List (List RecognizerResult)
      → List (List CachedDetection)
  zip_batch customs secrets [] batch = []
  zip_batch customs secrets (leaf ∷ leaves) [] = []
  zip_batch customs secrets (leaf ∷ leaves) (results ∷ batch) =
      let f = detect_base customs secrets leaf.0 leaf.1 in
      let g = ingest_results leaf.0 Source.ml results f in
      finish g.dets g.allowed ∷ zip_batch customs secrets leaves batch

  unfoldable pub run_detection_batch :
      List CompiledCustom
      → List CompiledSecret
      → MlRecognizer
      → List (Text × Surface)
      → Result (List (List CachedDetection))
  run_detection_batch customs secrets recognizer leaves = do
    ml_batch ← recognizer.analyze_batch (map (λ (l : Text × Surface). l.0) leaves)
    if not (length ml_batch == length leaves)
        then err EngineError.ml
        else ok (zip_batch customs secrets leaves ml_batch)
