-- ===== src/Secrets/Fingerprint.antt =====
-- What the fingerprint of the registered secrets covers.
use zlau_de_r.Prelude.{ℕ, ◌≡◌, refl, sym, ap, ◌∙◌, List, [], ◌∷◌}
use zlau_de_r.Prelude.{◌++◌, take, Text, codes}
use zlau_de_r.Externals.{Externals}
use zlau_de_r.Error.{ok}
use zlau_de_r.Detect.{CompiledSecret}
use zlau_de_r.Secrets.{SecretRule, Builder, compile_secrets, secrets_fingerprint, set_bytes}
use zlau_de_r.Secrets.{secret_bytes, bytes_of, operator_tag}
use zlau_de_r.Secrets.Compiled.{slugs_after, Keeps, Compiles, compile_secrets-Compiles}

-- Two rules with one name, value and surfaces, and operators of one tag: they may differ in whether
-- case matters, and in the parameters of `Mask`.
pub record Alike (r s : SecretRule) : Type 0 where
  pub name : r.name ≡ s.name
  pub value : r.value ≡ s.value
  pub tag : operator_tag r.operator ≡ operator_tag s.operator
  pub surfaces : r.apply_to_surfaces ≡ s.apply_to_surfaces

abbrev pub AllAlike : List SecretRule → List SecretRule → Type 0
AllAlike [] [] = Unit {0}
AllAlike [] (s ∷ ss) = ⊥
AllAlike (r ∷ rs) [] = ⊥
AllAlike (r ∷ rs) (s ∷ ss) = Alike r s × AllAlike rs ss

secret_bytes-Alike :
    (x : Externals) (build : Builder) (r s : SecretRule) (c d : CompiledSecret)
    → Alike r s
    → Keeps x build r c
    → Keeps x build s d
    → secret_bytes c ≡ secret_bytes d
secret_bytes-Alike x build r s c d a k l =
    let name : c.name ≡ d.name = k.name ∙ a.name ∙ sym l.name in
    let tag : operator_tag c.operator ≡ operator_tag d.operator =
      ap operator_tag k.operator ∙ a.tag ∙ sym (ap operator_tag l.operator) in
    let hash : c.value_hash ≡ d.value_hash =
      k.value_hash ∙ ap x.blake3_hex a.value ∙ sym l.value_hash in
    let surfaces : c.surfaces ≡ d.surfaces = k.surfaces ∙ a.surfaces ∙ sym l.surfaces in
    ap (λ (t : Text). bytes_of t (operator_tag c.operator) c.value_hash c.surfaces) name
    ∙ ap (λ (t : ℕ). bytes_of d.name t c.value_hash c.surfaces) tag
    ∙ ap (λ (t : Text). bytes_of d.name (operator_tag d.operator) t c.surfaces) hash
    ∙ ap (bytes_of d.name (operator_tag d.operator) d.value_hash) surfaces

set_bytes-AllAlike :
    (x : Externals) (build : Builder) (seen other : List Text) (rs ss : List SecretRule)
    (cs ds : List CompiledSecret)
    → AllAlike rs ss
    → Compiles x build seen rs cs
    → Compiles x build other ss ds
    → set_bytes cs ≡ set_bytes ds
set_bytes-AllAlike x build seen other [] [] [] [] a k l = refl
set_bytes-AllAlike x build seen other [] [] [] (d ∷ ds) a k l = absurd l
set_bytes-AllAlike x build seen other [] [] (c ∷ cs) ds a k l = absurd k
set_bytes-AllAlike x build seen other [] (s ∷ ss) cs ds a k l = absurd a
set_bytes-AllAlike x build seen other (r ∷ rs) [] cs ds a k l = absurd a
set_bytes-AllAlike x build seen other (r ∷ rs) (s ∷ ss) [] ds a k l = absurd k
set_bytes-AllAlike x build seen other (r ∷ rs) (s ∷ ss) (c ∷ cs) [] a k l = absurd l
set_bytes-AllAlike x build seen other (r ∷ rs) (s ∷ ss) (c ∷ cs) (d ∷ ds) a k l =
    ap (λ (t : Text). t ++ set_bytes cs) (secret_bytes-Alike x build r s c d a.0 k.0 l.0)
    ∙ ap (λ (t : Text). secret_bytes d ++ t)
        (set_bytes-AllAlike x build (slugs_after seen r) (slugs_after other s) rs ss cs ds a.1 k.2
          l.2)

-- The fingerprint of the compiled secrets does not tell apart two sets of rules of which each rule
-- has the same name, value and surfaces and an operator of the same tag: whether a secret matches
-- in either case, and the parameters of its mask, leave the cache's key space as it is.
pub secrets_fingerprint-AllAlike :
    (x : Externals) (build : Builder) (rs ss : List SecretRule) (cs ds : List CompiledSecret)
    → AllAlike rs ss
    → compile_secrets x build rs ≡ ok cs
    → compile_secrets x build ss ≡ ok ds
    → secrets_fingerprint x cs ≡ secrets_fingerprint x ds
unfolding secrets_fingerprint
secrets_fingerprint-AllAlike x build rs ss cs ds a h k =
    ap (λ (t : Text). take 16 (x.blake3_hex (codes "zlauder-secrets-fp-v1" ++ t)))
      (set_bytes-AllAlike x build [] [] rs ss cs ds a ((compile_secrets-Compiles x build rs cs).0 h)
        ((compile_secrets-Compiles x build ss ds).0 k))
