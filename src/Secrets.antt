-- ===== src/Secrets.antt =====
-- Registered secrets (crates/zlauder-engine/src/secrets.rs): their compilation and the fingerprint of
-- the compiled set. The builder of the Aho-Corasick matchers is a parameter, which takes whether
-- ASCII letters match in either case. A digest is kept as its hexadecimal digits.
pub mod Compiled
pub mod Fingerprint
use package.Prim.Native.Nat.{compare}
use package.zlau_de_r.Prelude.{
  ℕ, ◌+◌, ◌*◌, ◌-◌, Bool, true, false, not, ◌&&◌, ◌||◌, ◌==◌, if◌then◌else◌,
}
use package.zlau_de_r.Prelude.{
  Option, none, some, List, [], ◌∷◌, ◌++◌, map, length, take, Text, codes, contains,
}
use package.zlau_de_r.Prelude.{is_digit, sort_by}
use package.zlau_de_r.Externals.{Externals}
use package.zlau_de_r.Error.{EngineError, Result, ok, err, ◌>>=◌}
use package.zlau_de_r.Surface.{Surface, surface_tag}
use package.zlau_de_r.Token.{slugify}
use package.zlau_de_r.Config.{Operator}
use package.zlau_de_r.Detect.{CompiledSecret, Span}

pub record SecretRule : Type 0 where
  pub name : Text
  pub value : Text
  pub operator : Operator
  pub case_sensitive : Bool
  pub apply_to_surfaces : Option (List Surface)

abbrev pub Builder : Type 0
Builder = Bool → Text → Option (Text → List Span)

abbrev pub is_refused : Operator → Bool
is_refused Operator.token = true
is_refused Operator.keep = true
is_refused _ = false

abbrev pub is_broker : Operator → Bool
is_broker Operator.broker = true
is_broker _ = false

module _ (x : Externals) (build : Builder) where
  abbrev compiled : SecretRule → (Text → List Span) → CompiledSecret
  compiled r matcher = record {
    name = r.name;
    operator = r.operator;
    value_hash = x.blake3_hex r.value;
    find_iter = matcher;
    value = r.value;
    surfaces = r.apply_to_surfaces;
  }

  abbrev matcher_of : SecretRule → Result (Text → List Span)
  matcher_of r = elim (build (not r.case_sensitive) r.value) [
    | some matcher ↦ ok matcher
    | none ↦ err EngineError.invalid_secret
  ]

  -- The loop over the rules, with the broker slugs that were seen.
  unfoldable pub compile_from : List Text → List SecretRule → Result (List CompiledSecret)
  compile_from seen [] = ok []
  compile_from seen (r ∷ rs) =
      let slugs = if is_broker r.operator then slugify r.name ∷ seen else seen in
      let rest = compile_from slugs rs in
      if is_refused r.operator
      then err EngineError.invalid_secret
      else (if length r.value == 0
          then err EngineError.invalid_secret
          else (if is_broker r.operator && contains seen (slugify r.name)
              then err EngineError.invalid_secret
              else (do matcher ← matcher_of r; cs ← rest; ok (compiled r matcher ∷ cs))))

  unfoldable pub compile_secrets : List SecretRule → Result (List CompiledSecret)
  compile_secrets rules = compile_from [] rules

abbrev pub operator_tag : Operator → ℕ
operator_tag Operator.token = 0
operator_tag Operator.redact = 1
operator_tag (Operator.mask ch from_end) = 2
operator_tag Operator.hash = 3
operator_tag Operator.broker = 4
operator_tag Operator.keep = 5
operator_tag Operator.local = 6

-- The value of a lower-case hexadecimal digit, and the bytes that pairs of digits stand for.
abbrev nibble : ℕ → ℕ
nibble c = if is_digit c then c - b'0' else (c - b'a') + 10

unfoldable pub unhex : Text → Text
unhex [] = []
unhex (c ∷ []) = []
unhex (c ∷ d ∷ t) = (nibble c * 16 + nibble d) ∷ unhex t

abbrev surfaces_bytes : Option (List Surface) → Text
surfaces_bytes none = 0 ∷ []
surfaces_bytes (some set) = 1 ∷ sort_by compare (map surface_tag set)

abbrev pub bytes_of : Text → ℕ → Text → Option (List Surface) → Text
bytes_of name tag value_hash surfaces =
    name ++ (0 ∷ tag ∷ unhex value_hash ++ (surfaces_bytes surfaces ++ (255 ∷ [])))

abbrev pub secret_bytes : CompiledSecret → Text
secret_bytes c = bytes_of c.name (operator_tag c.operator) c.value_hash c.surfaces

abbrev pub set_bytes : List CompiledSecret → Text
set_bytes [] = []
set_bytes (c ∷ cs) = secret_bytes c ++ set_bytes cs

-- The first eight bytes of the digest.
unfoldable pub secrets_fingerprint : Externals → List CompiledSecret → Text
secrets_fingerprint x compiled =
    take 16 (x.blake3_hex (codes "zlauder-secrets-fp-v1" ++ set_bytes compiled))
