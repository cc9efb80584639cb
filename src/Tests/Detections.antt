-- ===== src/Tests/Detections.antt =====
-- Instances of the theorems on the detections.
use zlau_de_r.Prelude.{ℕ, ◌≡◌, refl, ◌⊎◌, inl, inr, true, false, none, [], ◌∷◌}
use zlau_de_r.Prelude.{◌∈◌, codes, arith, sort_by, insert_by}
use zlau_de_r.Config.{score_05}
use zlau_de_r.Detect.{
  CachedDetection, Source, finish, is_secret, overlaps, resolve_overlaps, keep_best,
}
use zlau_de_r.Detect.{overlap_cmp}
use zlau_de_r.Detect.Overlap.{Resolution, resolve_overlaps-Resolution}
use zlau_de_r.Detect.Finish.{finish_keeps_secrets, finish_allows}

abbrev pub found_at : ℕ → ℕ → Source → CachedDetection
found_at start end source = record {
  start = start;
  end = end;
  entity_type = codes "PERSON";
  score = score_05;
  source = source;
  literal = false;
  fixed_token = none;
  secret_op = none;
}

abbrev secret : CachedDetection
secret = found_at 4 9 Source.secret

abbrev name : CachedDetection
name = found_at 2 6 Source.ml

resolve_overlaps-Resolution_example :
    Resolution (name ∷ secret ∷ []) (resolve_overlaps (name ∷ secret ∷ []))
resolve_overlaps-Resolution_example = resolve_overlaps-Resolution (name ∷ secret ∷ [])

finish_keeps_secrets_example :
    (secret ∈ finish (name ∷ secret ∷ []) ((0, 20) ∷ []))
    ⊎ ((k : CachedDetection) × (k ∈ finish (name ∷ secret ∷ []) ((0, 20) ∷ []))
        × (is_secret k.source ≡ true)
        × (overlaps secret k ≡ true))
finish_keeps_secrets_example =
    finish_keeps_secrets (name ∷ secret ∷ []) ((0, 20) ∷ []) secret (inr (inl refl)) refl

finish_allows_example : is_secret secret.source ≡ true
unfolding finish resolve_overlaps sort_by insert_by keep_best overlap_cmp
finish_allows_example =
    finish_allows (name ∷ secret ∷ []) ((0, 20) ∷ []) secret (0, 20) (inl refl) (inl refl)
      (omega arith) (omega arith)
