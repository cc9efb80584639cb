-- ===== src/Secrets/Compiled.antt =====
-- What a successful compilation of registered secrets guarantees.
use zlau_de_r.Prelude.{◌<◌, ◌≡◌, ◌↔◌, refl, sym, ap, ◌∙◌, inl, inr, arith, true, false, not}
use zlau_de_r.Prelude.{◌&&◌, ◌==◌, if◌then◌else◌, some, List, [], ◌∷◌, length, Text}
use zlau_de_r.Prelude.{contains, Bool-cases, Option-cases}
use zlau_de_r.Externals.{Externals}
use zlau_de_r.Error.{ok, ◌>>=◌, >>=-ok, ok_injective}
use zlau_de_r.Token.{slugify}
use zlau_de_r.Detect.{CompiledSecret, Span}
use zlau_de_r.Secrets.{
  SecretRule, Builder, is_refused, is_broker, matcher_of, compiled, compile_from,
}
use zlau_de_r.Secrets.{compile_secrets}

-- A compiled secret keeps what its rule says, is not of an operator that is refused, and has a matcher
-- of its value, which is not empty.
pub record Keeps (x : Externals) (build : Builder) (r : SecretRule) (c : CompiledSecret)
    : Type 0 where
  pub name : c.name ≡ r.name
  pub value : c.value ≡ r.value
  pub operator : c.operator ≡ r.operator
  pub value_hash : c.value_hash ≡ x.blake3_hex r.value
  pub surfaces : c.surfaces ≡ r.apply_to_surfaces
  pub admitted : is_refused r.operator ≡ false
  pub nonempty : 0 < length r.value
  pub matcher : build (not r.case_sensitive) r.value ≡ some c.find_iter

-- Each secret is that of its rule, in order, and no broker slug is among the ones that were seen.
abbrev pub Compiles :
    Externals → Builder → List Text → List SecretRule → List CompiledSecret → Type 0
Compiles x build seen [] [] = Unit {0}
Compiles x build seen [] (c ∷ cs) = ⊥
Compiles x build seen (r ∷ rs) [] = ⊥
Compiles x build seen (r ∷ rs) (c ∷ cs) =
    Keeps x build r c
    × ((is_broker r.operator ≡ true) → contains seen (slugify r.name) ≡ false)
    × Compiles x build (if is_broker r.operator then slugify r.name ∷ seen else seen) rs cs

abbrev pub slugs_after : List Text → SecretRule → List Text
slugs_after seen r = if is_broker r.operator then slugify r.name ∷ seen else seen

-- The tests that a compiled rule has passed.
record Passed (x : Externals) (build : Builder) (seen : List Text) (r : SecretRule)
    (rs : List SecretRule) (cs : List CompiledSecret) : Type 0 where
  admitted : is_refused r.operator ≡ false
  nonempty : (length r.value == 0) ≡ false
  fresh : (is_broker r.operator && contains seen (slugify r.name)) ≡ false
  result :
      (matcher_of x build r >>= λ (m : Text → List Span).
      compile_from x build (slugs_after seen r) rs >>= λ (ds : List CompiledSecret).
      ok (compiled x build r m ∷ ds))
      ≡ ok cs

compile_from-Passed :
    (x : Externals) (build : Builder) (seen : List Text) (r : SecretRule) (rs : List SecretRule)
    (cs : List CompiledSecret)
    → compile_from x build seen (r ∷ rs) ≡ ok cs
    → Passed x build seen r rs cs
unfolding compile_from
compile_from-Passed x build seen r rs cs h = elim (Bool-cases (is_refused r.operator)) [
  | inl a ↦ let bad = rw a at h in absurd (cc)
  | inr a ↦ elim (Bool-cases (length r.value == 0)) [
    | inl b ↦ let bad = rw (a, b) at h in absurd (cc)
    | inr b ↦ elim (Bool-cases (is_broker r.operator && contains seen (slugify r.name))) [
      | inl c ↦ let bad = rw (a, b, c) at h in absurd (cc)
      | inr c ↦ record { admitted = a; nonempty = b; fresh = c; result = rw (a, b, c) at h }
    ]
  ]
]

matcher_of-some :
    (x : Externals) (build : Builder) (r : SecretRule) (m : Text → List Span)
    → matcher_of x build r ≡ ok m
    → build (not r.case_sensitive) r.value ≡ some m
matcher_of-some x build r m h = elim (Option-cases (build (not r.case_sensitive) r.value)) [
  | inl e ↦ let bad = rw (matcher_of, e) at h in absurd (cc)
  | inr (n, e) ↦ e ∙ ap some (ok_injective n m (rw (matcher_of, e) at h))
]

compile_from-Compiles :
    (x : Externals) (build : Builder) (seen : List Text) (rules : List SecretRule)
    (cs : List CompiledSecret)
    → compile_from x build seen rules ≡ ok cs
    → Compiles x build seen rules cs
unfolding compile_from
compile_from-Compiles x build seen [] [] h = tt
compile_from-Compiles x build seen [] (c ∷ cs) h = cc
compile_from-Compiles x build seen (r ∷ rs) cs h =
    let p = compile_from-Passed x build seen r rs cs h in
    let (m, made, rest) = >>=-ok (matcher_of x build r) _ p.result in
    let (ds, later, done) = >>=-ok (compile_from x build (slugs_after seen r) rs) _ rest in
    let same : compiled x build r m ∷ ds ≡ cs = ok_injective (compiled x build r m ∷ ds) cs done in
    let k : Keeps x build r (compiled x build r m) = record {
      name = refl;
      value = refl;
      operator = refl;
      value_hash = refl;
      surfaces = refl;
      admitted = p.admitted;
      nonempty = ground (arith, p.nonempty);
      matcher = matcher_of-some x build r m made;
    } in
    rw (← same) (
      k,
      (λ b. ground (arith, b, p.fresh)),
      compile_from-Compiles x build (slugs_after seen r) rs ds later,
    )

-- A rule that passes the tests compiles to the secret that keeps it.
compile_from-ok :
    (x : Externals) (build : Builder) (seen : List Text) (rules : List SecretRule)
    (cs : List CompiledSecret)
    → Compiles x build seen rules cs
    → compile_from x build seen rules ≡ ok cs
unfolding compile_from
compile_from-ok x build seen [] [] h = refl
compile_from-ok x build seen [] (c ∷ cs) h = absurd h
compile_from-ok x build seen (r ∷ rs) [] h = absurd h
compile_from-ok x build seen (r ∷ rs) (c ∷ cs) (k, fresh, later) =
    let same : c ≡ compiled x build r c.find_iter = λ i. record {
      name = k.name i;
      operator = k.operator i;
      value_hash = k.value_hash i;
      find_iter = c.find_iter;
      value = k.value i;
      surfaces = k.surfaces i;
    } in
    let nonempty : (length r.value == 0) ≡ false = ground (arith, k.nonempty) in
    let unseen : (is_broker r.operator && contains seen (slugify r.name)) ≡ false =
      ground (arith, fresh) in
    let rest = compile_from-ok x build (slugs_after seen r) rs cs later in
    rw (compile_from, k.admitted, nonempty, unseen, matcher_of, k.matcher, rest)
      (ap (λ (d : CompiledSecret). ok (d ∷ cs)) (sym same))

-- The registered secrets compile to a list exactly when it is that of their rules, in order: each
-- compiled secret keeps the name, the value, the operator and the surfaces of its rule, with the
-- digest and the matcher of the value; no operator is token or keep (owner-reveal is accepted), no
-- value is empty, and no two broker secrets share a token slug.
pub compile_secrets-Compiles :
    (x : Externals) (build : Builder) (rules : List SecretRule) (cs : List CompiledSecret)
    → (compile_secrets x build rules ≡ ok cs) ↔ Compiles x build [] rules cs
unfolding compile_secrets
compile_secrets-Compiles x build rules cs =
    (compile_from-Compiles x build [] rules cs, compile_from-ok x build [] rules cs)
