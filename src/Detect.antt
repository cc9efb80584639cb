-- ===== src/Detect.antt =====
-- Detection (crates/zlauder-engine/src/detect.rs, with the cached detection of cache.rs): registered
-- secrets, custom rules, the presidio analyzer and the optional ML recognizer, filtered by the
-- policy and resolved into a list without overlaps. The analyzer, the recognizer and the compiled
-- matchers are third-party code, and parameters.
mod Gate
pub mod Overlap
pub mod Finish
pub mod Passes
pub mod Batch
unfoldable pub use Gate.*
use package.Prim.Native.Nat.{compare, Ordering}
use package.zlau_de_r.Prelude.{ℕ, ◌+◌, ◌-◌, Bool, true, false, not, ◌&&◌, ◌||◌, ◌==◌, ltb, leb}
use package.zlau_de_r.Prelude.{if◌then◌else◌, Option, none, some, List, [], ◌∷◌, ◌++◌, any, map}
use package.zlau_de_r.Prelude.{retain, length, take, drop, Text, codes, text_eq, cmp_then, sort_by}
use package.zlau_de_r.Externals.{Externals}
use package.zlau_de_r.Error.{EngineError, Result, ok, err, ◌>>=◌}
use package.zlau_de_r.Surface.{Surface, contains_surface}
use package.zlau_de_r.Config.{EngineConfig, Operator, Score, score_at, score_one, is_allowed}
use package.zlau_de_r.Config.{entity_enabled, operator_for, AllowList}

pub data Source : Type 0 where
  regex ml custom secret : Source

pub record CachedDetection : Type 0 where
  pub start : ℕ
  pub end : ℕ
  pub entity_type : Text
  pub score : Score
  pub source : Source
  pub literal : Bool
  pub fixed_token : Option Text
  pub secret_op : Option Operator

abbrev pub Span : Type 0
Span = ℕ × ℕ

abbrev pub slice : Text → ℕ → ℕ → Text
slice text start end = drop start (take end text)

-- What a recognizer reports: presidio's `RecognizerResult`.
pub record RecognizerResult : Type 0 where
  pub start : ℕ
  pub end : ℕ
  pub entity_type : Text
  pub score : Score
  pub pattern_name : Option Text

-- A custom rule with the compiled matcher's `find_iter`.
pub record CompiledCustom : Type 0 where
  pub find_iter : Text → List Span
  pub entity_type : Text
  pub literal_token : Bool
  pub token : Option Text
  pub priority : ℕ
  pub surfaces : Option (List Surface)

-- A registered secret with the Aho-Corasick matcher of its value.
pub record CompiledSecret : Type 0 where
  pub name : Text
  pub operator : Operator
  pub value_hash : Text
  pub find_iter : Text → List Span
  pub value : Text
  pub surfaces : Option (List Surface)

-- The presidio analyzer on a text, a language and a floor for the scores, with the context words of
-- the text; the text of a result; and the rounding of a difference of scores.
pub record Analyzer : Type 0 where
  pub analyze : Text → Text → Score → List RecognizerResult
  pub result_text : RecognizerResult → Text → Option Text
  pub round : ℕ → Score
  -- presidio's GENERIC_ENTROPY_PATTERN
  pub generic_entropy_pattern : Text
  -- the comparison of `shannon_entropy` with 4.0 bits
  pub entropy_below_four : Text → Bool

pub record MlRecognizer : Type 0 where
  pub analyze : Text → Result (List RecognizerResult)
  pub analyze_batch : List Text → Result (List (List RecognizerResult))

abbrev pub context_boost : Score
context_boost = score_at 11744051

abbrev pub phone_base_score : Score
phone_base_score = score_at 13421773

unfoldable pub resolve_operator : EngineConfig → CachedDetection → Operator
resolve_operator cfg det = elim det.secret_op [
  | some op ↦ op
  | none ↦ if det.literal then Operator.token else operator_for cfg det.entity_type
]

abbrev pub tier : Source → ℕ
tier Source.secret = 0
tier Source.custom = 1
tier Source.regex = 2
tier Source.ml = 2

-- Best first: the tier, then the higher score, then the longer span.
unfoldable pub overlap_cmp : CachedDetection → CachedDetection → Ordering
overlap_cmp a b =
    cmp_then (compare (tier a.source) (tier b.source))
      (cmp_then (compare b.score a.score) (compare (b.end - b.start) (a.end - a.start)))

abbrev pub start_cmp : CachedDetection → CachedDetection → Ordering
start_cmp a b = compare a.start b.start

abbrev pub overlaps : CachedDetection → CachedDetection → Bool
overlaps d k = ltb d.start k.end && ltb k.start d.end

-- The loop over the sorted detections, with the kept ones.
unfoldable pub keep_best : List CachedDetection → List CachedDetection → List CachedDetection
keep_best kept [] = kept
keep_best kept (d ∷ ds) = keep_best (if any (overlaps d) kept then kept else kept ++ (d ∷ [])) ds

unfoldable pub resolve_overlaps : List CachedDetection → List CachedDetection
resolve_overlaps dets = sort_by start_cmp (keep_best [] (sort_by overlap_cmp dets))

abbrev pub is_secret : Source → Bool
is_secret Source.secret = true
is_secret _ = false

abbrev pub survives : List Span → CachedDetection → Bool
survives allowed d =
    is_secret d.source || not (any (λ (s : Span). leb s.0 d.start && leb d.end s.1) allowed)

unfoldable pub finish : List CachedDetection → List Span → List CachedDetection
finish dets allowed_spans =
    resolve_overlaps (elim allowed_spans [ [] ↦ dets | s ∷ ss ↦ retain (survives (s ∷ ss)) dets ])

-- A rule or secret without surfaces applies to all of them.
abbrev pub applies_to : Option (List Surface) → Surface → Bool
applies_to none surface = true
applies_to (some surfs) surface = contains_surface surfs surface

abbrev pub secret_detection : CompiledSecret → Span → CachedDetection
secret_detection c (s, e) = record {
  start = s;
  end = e;
  entity_type = c.name;
  score = score_one;
  source = Source.secret;
  literal = false;
  fixed_token = none;
  secret_op = some c.operator;
}

-- `detect_secrets` of secrets.rs.
unfoldable pub detect_secrets : List CompiledSecret → Text → Surface → List CachedDetection
detect_secrets [] text surface = []
detect_secrets (c ∷ cs) text surface =
    let rest = detect_secrets cs text surface in
    if applies_to c.surfaces surface
    then map (secret_detection c) (c.find_iter text) ++ rest
    else rest
