-- ===== src/Tests/Registered.antt =====
-- Instances of the theorems on registered secrets.
use zlau_de_r.Prelude.{
  ◌≡◌, ◌↔◌, refl, Bool, true, false, not, none, some, [], ◌∷◌, Text, codes, text_eq, if◌then◌else◌,
}
use zlau_de_r.Token.{slugify, slug_chars, slug_char}
use zlau_de_r.Error.{EngineError, ok, err}
use zlau_de_r.Config.{Operator}
use zlau_de_r.Detect.{CompiledSecret}
use zlau_de_r.Secrets.{SecretRule, Builder, compile_secrets, compile_from, secrets_fingerprint}
use zlau_de_r.Secrets.Compiled.{Compiles, compile_secrets-Compiles}
use zlau_de_r.Secrets.Fingerprint.{secrets_fingerprint-AllAlike}
use zlau_de_r.Tests.Toy.{toy}

-- A matcher that finds the first byte, or the whole of a text of one byte, by the case setting.
abbrev builder : Builder
builder either_case value = some (λ (t : Text). if either_case then (0, 1) ∷ [] else [])

abbrev rule : Bool → SecretRule
rule case_sensitive = record {
  name = codes "gh";
  value = codes "hunter2";
  operator = Operator.broker;
  case_sensitive = case_sensitive;
  apply_to_surfaces = none;
}

abbrev secret : Bool → CompiledSecret
secret case_sensitive = record {
  name = codes "gh";
  operator = Operator.broker;
  value_hash = toy.blake3_hex (codes "hunter2");
  find_iter = λ (t : Text). if not case_sensitive then (0, 1) ∷ [] else [];
  value = codes "hunter2";
  surfaces = none;
}

compile_secrets-Compiles_example :
    (compile_secrets toy builder (rule true ∷ []) ≡ ok (secret true ∷ []))
    ↔ Compiles toy builder [] (rule true ∷ []) (secret true ∷ [])
compile_secrets-Compiles_example =
    compile_secrets-Compiles toy builder (rule true ∷ []) (secret true ∷ [])

rule_compiles : compile_secrets toy builder (rule true ∷ []) ≡ ok (secret true ∷ [])
unfolding compile_secrets compile_from
rule_compiles = refl

-- An owner-reveal secret compiles, and two broker secrets of one slug do not.
owned_compiles :
    compile_secrets toy builder (record (rule true) { operator = Operator.local } ∷ [])
    ≡ ok (record (secret true) { operator = Operator.local } ∷ [])
unfolding compile_secrets compile_from
owned_compiles = refl

twice_refused :
    compile_secrets toy builder (rule true ∷ rule false ∷ []) ≡ err EngineError.invalid_secret
unfolding compile_secrets compile_from text_eq slugify slug_chars slug_char
twice_refused = refl

secrets_fingerprint-AllAlike_example :
    secrets_fingerprint toy (secret true ∷ []) ≡ secrets_fingerprint toy (secret false ∷ [])
unfolding compile_secrets compile_from
secrets_fingerprint-AllAlike_example =
    secrets_fingerprint-AllAlike toy builder (rule true ∷ []) (rule false ∷ []) (secret true ∷ [])
      (secret false ∷ []) (record { name = refl; value = refl; tag = refl; surfaces = refl }, tt)
      refl refl
