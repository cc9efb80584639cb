-- ===== src/Tests/Engines.antt =====
-- Instances of the theorems on masking and unmasking.
use zlau_de_r.Prelude.{ℕ, ◌≡◌, ◌≢◌, refl, sym, ◌≤◌, inl, inr, true, false, none}
use zlau_de_r.Prelude.{List, [], ◌∷◌, text_eq, get, ap, Text, codes, arith, All}
use zlau_de_r.Error.{ok}
use zlau_de_r.Surface.{Surface}
use zlau_de_r.Token.{make_token, is_broker_token, scan, find_iter, matches_from, match_at}
use zlau_de_r.Config.{EngineConfig, Operator, score_05}
use zlau_de_r.Config.{operator_for}
use zlau_de_r.Detect.{CachedDetection, Source, resolve_operator}
use zlau_de_r.Engine.Chars.{snap_to_char_boundary, snap_to_char_boundary_bounds, is_char_boundary}
use zlau_de_r.Engine.Chars.{snap_down, snap_up}
use zlau_de_r.Engine.Apply.{Applied, apply}
use zlau_de_r.Engine.Unmask.{restore, restore_loop, unmask}
use zlau_de_r.Engine.Unmask.Pieces.{render_pieces, restore_loop-render}
use zlau_de_r.Engine.Unmask.Masking.{TokenSpan}
use zlau_de_r.Engine.Unmask.Roundtrip.{NoCollision, apply-unmask}
use zlau_de_r.Tests.Toy.{toy, toy-HexDigest, toy-Encrypts, empty}
use zlau_de_r.Tests.Detections.{found_at}

abbrev pub plain_config : EngineConfig
plain_config = record {
  enabled = true;
  score_threshold = score_05;
  enabled_categories = [];
  default_operator = Operator.token;
  entity_operators = [];
  language = codes "en";
  fail_closed = true;
  disabled_surfaces = [];
  allow_list = record { exact = []; exact_ci = []; patterns = [] };
  reveal_marker = record { enabled = false; prefix = []; suffix = [] };
  detection_cache_cap = 4;
}

abbrev pub greeting : Text
greeting = codes "Hi Ada, Bo!"

abbrev names : List CachedDetection
names = found_at 3 6 Source.regex ∷ found_at 8 10 Source.ml ∷ []

abbrev nonces : ℕ → Text
nonces n = n ∷ []

pub names-TokenSpan :
    All
      (TokenSpan toy toy-HexDigest toy-Encrypts nonces 0 Surface.user_message plain_config
        (codes "s")
        greeting
        names)
      names
unfolding resolve_operator operator_for snap_to_char_boundary snap_down snap_up is_char_boundary
    make_token is_broker_token get text_eq
names-TokenSpan = (
  record {
    operator = refl;
    own_token = refl;
    boundary = refl;
    grammar = refl;
    named = omega arith;
    no_broker = refl;
  },
  (
    record {
      operator = refl;
      own_token = refl;
      boundary = refl;
      grammar = refl;
      named = omega arith;
      no_broker = refl;
    },
    tt,
  ),
)

tokens_differ :
    make_token toy (codes "PERSON") (codes "Ada") (codes "s")
    ≢ make_token toy (codes "PERSON") (codes "Bo") (codes "s")
unfolding make_token text_eq
tokens_differ h =
    let e : true ≡ false =
      ap (text_eq (make_token toy (codes "PERSON") (codes "Ada") (codes "s"))) h in
    cc

pub names-NoCollision :
    NoCollision toy toy-HexDigest toy-Encrypts nonces 0 Surface.user_message plain_config greeting
      names 0 empty
      (codes "s")
names-NoCollision d e (inr (inr m)) n h = absurd m
names-NoCollision d e (inl p) (inr (inr n)) h = absurd n
names-NoCollision d e (inr (inl p)) (inr (inr n)) h = absurd n
names-NoCollision d e (inl p) (inl q) h = rw (p, q) refl
names-NoCollision d e (inr (inl p)) (inr (inl q)) h = rw (p, q) refl
names-NoCollision d e (inl p) (inr (inl q)) h = absurd (tokens_differ (rw (p, q) at h))
names-NoCollision d e (inr (inl p)) (inl q) h = absurd (tokens_differ (sym (rw (p, q) at h)))

apply-unmask_example :
    (a : Applied) × (apply toy nonces 0 empty greeting Surface.user_message plain_config names
      ≡ ok a)
    × (unmask toy 9 empty a.manifest a.out ≡ greeting)
unfolding find_iter matches_from scan match_at
apply-unmask_example =
    apply-unmask toy toy-HexDigest toy-Encrypts nonces 0 Surface.user_message plain_config greeting
      names 9 empty empty refl (omega arith, omega arith, (omega arith, omega arith, omega arith))
      names-TokenSpan names-NoCollision

restore_loop-render_example :
    restore_loop toy 0 empty [] none false (codes "Hi [A]") (find_iter (codes "Hi [A]")) 0 []
    ≡ render_pieces (restore toy 0 empty [] none false) (scan 0 (codes "Hi [A]"))
restore_loop-render_example = restore_loop-render toy 0 empty [] none false (codes "Hi [A]")

snap_to_char_boundary_bounds_example :
    let span = snap_to_char_boundary (195 ∷ 169 ∷ []) 1 1 in
    (span.0 ≤ span.1)
    × (span.1 ≤ 2)
    × (is_char_boundary (195 ∷ 169 ∷ []) span.0 ≡ true)
    × (is_char_boundary (195 ∷ 169 ∷ []) span.1 ≡ true)
    × (span.0 ≤ 1)
    × (1 ≤ span.1)
snap_to_char_boundary_bounds_example = snap_to_char_boundary_bounds (195 ∷ 169 ∷ []) 1 1
