-- ===== src/Detect/Batch.antt =====
-- The batch path of the detection against the path of one text.
use zlau_de_r.Prelude.{suc, subst, ◌≡◌, refl, ap, ◌∙◌, arith, true, ◌==◌}
use zlau_de_r.Prelude.{some, List, [], ◌∷◌, map, length, Text}
use zlau_de_r.Prelude.{if◌then◌else◌, not, sym, inl, inr, Bool-cases}
use zlau_de_r.Externals.{Externals}
use zlau_de_r.Error.{EngineError, Result, ok, err, ◌>>=◌, >>=-ok, ok_injective}
use zlau_de_r.Surface.{Surface}
use zlau_de_r.Config.{EngineConfig}
use zlau_de_r.Detect.{Analyzer, MlRecognizer, RecognizerResult, CachedDetection, CompiledCustom}
use zlau_de_r.Detect.{CompiledSecret, Source, finish}
use zlau_de_r.Detect.Passes.{
  run_detection, run_detection_batch, zip_batch, detect_base, ingest_results,
}

-- The results are those of the recognizer on each text.
abbrev pub EachText : MlRecognizer → List Text → List (List RecognizerResult) → Type 0
EachText m [] [] = Unit {0}
EachText m [] (r ∷ rs) = ⊥
EachText m (t ∷ ts) [] = ⊥
EachText m (t ∷ ts) (r ∷ rs) = (m.analyze t ≡ ok r) × EachText m ts rs

-- `analyze_batch` gives what `analyze` gives on each text, in order.
pub record Batches (m : MlRecognizer) : Type 0 where
  pub batch :
      (ts : List Text) (rs : List (List RecognizerResult))
      → EachText m ts rs
      → m.analyze_batch ts ≡ ok rs

-- The other way round: a batch of results for each text is what `analyze` gives on it.
pub record BatchesOnly (m : MlRecognizer) : Type 0 where
  pub single :
      (ts : List Text) (rs : List (List RecognizerResult))
      → m.analyze_batch ts ≡ ok rs
      → length rs ≡ length ts
      → EachText m ts rs

abbrev text_of : Text × Surface → Text
text_of leaf = leaf.0

module _ (x : Externals) (a : Analyzer) (cfg : EngineConfig) (customs : List CompiledCustom)
    (secrets : List CompiledSecret) (m : MlRecognizer) where
  -- Each leaf by itself is detected with the given detections.
  abbrev pub EachLeaf : List (Text × Surface) → List (List CachedDetection) → Type 0
  EachLeaf [] [] = Unit {0}
  EachLeaf [] (d ∷ ds) = ⊥
  EachLeaf (l ∷ ls) [] = ⊥
  EachLeaf (l ∷ ls) (d ∷ ds) =
      (run_detection x a cfg customs secrets (some m) l.0 l.1 ≡ ok d) × EachLeaf ls ds

  record Collected (ls : List (Text × Surface)) (ds : List (List CachedDetection)) : Type 0 where
    results : List (List RecognizerResult)
    each : EachText m (map text_of ls) results
    count : length results ≡ length ls
    zipped : zip_batch x a cfg customs secrets ls results ≡ ds

  abbrev finished : Text × Surface → List RecognizerResult → List CachedDetection
  finished l rs =
      let f = detect_base x a cfg customs secrets l.0 l.1 in
      let g = ingest_results x a cfg l.0 Source.ml rs f in finish g.dets g.allowed

  collect :
      (ls : List (Text × Surface)) (ds : List (List CachedDetection))
      → EachLeaf ls ds
      → Collected ls ds
  unfolding run_detection zip_batch
  collect [] [] h = record { results = []; each = tt; count = refl; zipped = refl }
  collect [] (d ∷ ds) h = absurd h
  collect (l ∷ ls) [] h = absurd h
  collect (l ∷ ls) (d ∷ ds) h =
      let (r, found, done) =
        >>=-ok (m.analyze l.0) (λ (rs : List RecognizerResult). ok (finished l rs)) h.0 in
      let c = collect ls ds h.1 in
      record {
        results = r ∷ c.results;
        each = (found, c.each);
        count = omega (arith, c.count);
        zipped =
            ap (λ (e : List CachedDetection). e ∷ zip_batch x a cfg customs secrets ls c.results)
              (ok_injective (finished l r) d done)
            ∙ ap (◌∷◌ d) c.zipped;
      }

  -- With a recognizer whose batch agrees with its single calls, the batch path succeeds with the
  -- detections of the leaves, in order, whenever each leaf by itself succeeds with them.
  pub run_detection_batch-EachLeaf :
      Batches m
      → (ls : List (Text × Surface)) (ds : List (List CachedDetection)) → EachLeaf ls ds
      → run_detection_batch x a cfg customs secrets m ls ≡ ok ds
  unfolding run_detection_batch
  run_detection_batch-EachLeaf law ls ds h =
      let c = collect ls ds h in
      let same : (length c.results == length ls) ≡ true = ground (arith, c.count) in
      rw (law.batch (map text_of ls) c.results c.each, same) (ap ok c.zipped)

  zip_batch-EachLeaf :
      (ls : List (Text × Surface)) (rs : List (List RecognizerResult))
      → EachText m (map text_of ls) rs
      → EachLeaf ls (zip_batch x a cfg customs secrets ls rs)
  unfolding zip_batch run_detection
  zip_batch-EachLeaf [] [] h = tt
  zip_batch-EachLeaf [] (r ∷ rs) h = absurd h
  zip_batch-EachLeaf (l ∷ ls) [] h = absurd h
  zip_batch-EachLeaf (l ∷ ls) (r ∷ rs) h = (
    ap
        (λ (q : Result (List RecognizerResult)).
          q >>= λ (results : List RecognizerResult). ok (finished l results))
        h.0,
    zip_batch-EachLeaf ls rs h.1,
  )

  length-texts : (ls : List (Text × Surface)) → length (map text_of ls) ≡ length ls
  length-texts [] = refl
  length-texts (l ∷ ls) = ap suc (length-texts ls)

  pub run_detection_batch-only :
      BatchesOnly m
      → (ls : List (Text × Surface)) (ds : List (List CachedDetection))
      → run_detection_batch x a cfg customs secrets m ls ≡ ok ds
      → EachLeaf ls ds
  unfolding run_detection_batch
  run_detection_batch-only law ls ds h =
      let (rs, found, done) =
        >>=-ok (m.analyze_batch (map text_of ls))
          (λ (batch : List (List RecognizerResult)).
            if not (length batch == length ls)
            then err EngineError.ml
            else ok (zip_batch x a cfg customs secrets ls batch))
          h in
      elim (Bool-cases (length rs == length ls)) [
        | inr differ ↦ let bad = rw differ at done in absurd (cc)
        | inl same ↦
            let count : length rs ≡ length ls = ground (arith, same) in
            subst (EachLeaf ls)
              (ok_injective (zip_batch x a cfg customs secrets ls rs) ds (rw same at done))
              (zip_batch-EachLeaf ls rs
                (law.single (map text_of ls) rs found (count ∙ sym (length-texts ls))))
      ]

  length-zip_batch :
      (ls : List (Text × Surface)) (rs : List (List RecognizerResult))
      → length rs ≡ length ls
      → length (zip_batch x a cfg customs secrets ls rs) ≡ length ls
  unfolding zip_batch
  length-zip_batch [] rs h = refl
  length-zip_batch (l ∷ ls) [] h = absurd (omega arith)
  length-zip_batch (l ∷ ls) (r ∷ rs) h =
      let same : length rs ≡ length ls = omega arith in omega (arith, length-zip_batch ls rs same)

  -- Whatever number of results the recognizer's batch gives, the batch path succeeds only with
  -- one list of detections for each leaf: no leaf goes without.
  pub run_detection_batch-length :
      (ls : List (Text × Surface)) (ds : List (List CachedDetection))
      → run_detection_batch x a cfg customs secrets m ls ≡ ok ds
      → length ds ≡ length ls
  unfolding run_detection_batch
  run_detection_batch-length ls ds h =
      let (rs, found, done) =
        >>=-ok (m.analyze_batch (map text_of ls))
          (λ (batch : List (List RecognizerResult)).
            if not (length batch == length ls)
            then err EngineError.ml
            else ok (zip_batch x a cfg customs secrets ls batch))
          h in
      elim (Bool-cases (length rs == length ls)) [
        | inr differ ↦ let bad = rw differ at done in absurd (cc)
        | inl same ↦
            let count : length rs ≡ length ls = ground (arith, same) in
            ap length
              (sym (ok_injective (zip_batch x a cfg customs secrets ls rs) ds (rw same at done)))
            ∙ length-zip_batch ls rs count
      ]
