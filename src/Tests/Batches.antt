-- ===== src/Tests/Batches.antt =====
-- Instances of the theorems on the batch path.
use zlau_de_r.Prelude.{ℕ, ◌≡◌, refl, ap, ◌∙◌, false, none, List, [], ◌∷◌, map}
use zlau_de_r.Prelude.{Text, codes, length, sort_by}
use zlau_de_r.Error.{ok, ok_injective}
use zlau_de_r.Surface.{Surface}
use zlau_de_r.Config.{Score}
use zlau_de_r.Detect.{Analyzer, MlRecognizer, RecognizerResult, detect_secrets, finish}
use zlau_de_r.Detect.{resolve_overlaps, keep_best}
use zlau_de_r.Detect.Passes.{
  run_detection, run_detection_batch, zip_batch, detect_base, ingest_results, custom_pass,
}
use zlau_de_r.Detect.Batch.{
  EachText, Batches, run_detection_batch-EachLeaf, run_detection_batch-length,
}
use zlau_de_r.Detect.{CachedDetection}
use zlau_de_r.Tests.Toy.{toy}
use zlau_de_r.Tests.Engines.{plain_config}

-- An analyzer and a recognizer that find nothing.
abbrev pub analyzer : Analyzer
analyzer = record {
  analyze = λ (t lang : Text) (floor : Score). [];
  result_text = λ (r : RecognizerResult) (t : Text). none;
  round = λ (s : ℕ). s;
  generic_entropy_pattern = codes "GENERIC";
  entropy_below_four = λ (t : Text). false;
}

abbrev pub nothing : Text → List RecognizerResult
nothing t = []

abbrev pub quiet : MlRecognizer
quiet = record {
  analyze = λ (t : Text). ok [];
  analyze_batch = λ (ts : List Text). ok (map nothing ts);
}

pub quiet-results :
    (ts : List Text) (rs : List (List RecognizerResult))
    → EachText quiet ts rs
    → map nothing ts ≡ rs
quiet-results [] [] h = refl
quiet-results [] (r ∷ rs) h = absurd h
quiet-results (t ∷ ts) [] h = absurd h
quiet-results (t ∷ ts) (r ∷ rs) h =
    ap (λ (e : List RecognizerResult). e ∷ map nothing ts) (ok_injective [] r h.0)
    ∙ ap (◌∷◌ r) (quiet-results ts rs h.1)

quiet-Batches : Batches quiet
quiet-Batches = record { batch = λ ts rs h. ap ok (quiet-results ts rs h) }

abbrev leaves : List (Text × Surface)
leaves = (codes "Hi", Surface.user_message) ∷ (codes "Ok", Surface.tool_result) ∷ []

run_detection_batch-EachLeaf_example :
    run_detection_batch toy analyzer plain_config [] [] quiet leaves ≡ ok ([] ∷ [] ∷ [])
unfolding run_detection detect_base ingest_results custom_pass detect_secrets finish
    resolve_overlaps keep_best sort_by
run_detection_batch-EachLeaf_example =
    run_detection_batch-EachLeaf toy analyzer plain_config [] [] quiet quiet-Batches leaves
      ([] ∷ [] ∷ []) (refl, (refl, tt))

abbrev no_detections : List (List CachedDetection)
no_detections = [] ∷ [] ∷ []

run_detection_batch-length_example : length no_detections ≡ length leaves
unfolding run_detection_batch zip_batch detect_base ingest_results custom_pass detect_secrets finish
    resolve_overlaps keep_best sort_by
run_detection_batch-length_example =
    run_detection_batch-length toy analyzer plain_config [] [] quiet leaves no_detections refl
