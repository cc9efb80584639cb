-- ===== src/Tests/Tokens.antt =====
-- Instances of the theorems on tokens.
use zlau_de_r.Prelude.{
  ◌≡◌, refl, ◌≤◌, ◌<◌, ◌+◌, true, all, length, map, to_upper, Text, codes, ◌++◌, ◌∷◌,
}
use zlau_de_r.Prelude.{arith}
use zlau_de_r.Token.{make_token, broker_prefix, slugify, slug_chars, slug_char, is_entity_char}
use zlau_de_r.Token.{
  is_broker_token, max_slug, max_token_len, make_token-IsToken, broker-IsToken_shape,
}
use zlau_de_r.Token.{slugify_shape, scan, is_token_body}
use zlau_de_r.Token.Scan.{IsToken, scan-append-token, match_piece, join, scan-join}
use zlau_de_r.Tests.Toy.{toy, toy-HexDigest, toy-AsciiCase}

slug_of_name : slugify (codes "a.b") ≡ codes "A_B"
unfolding slugify slug_chars slug_char
slug_of_name = refl

abbrev person : Text
person = make_token toy (codes "PERSON") (codes "Ada") (codes "s")

person-IsToken : IsToken person
unfolding make_token is_token_body
person-IsToken = record { body = codes "PERSON_777777777777"; grammar = refl; shape = refl }

slugify_shape_example :
    (0 < length (slugify (codes "gh token")))
    × (length (slugify (codes "gh token")) ≤ max_slug)
    × (all is_entity_char (slugify (codes "gh token")) ≡ true)
slugify_shape_example = slugify_shape (codes "gh token")

make_token-IsToken_example :
    IsToken person × (length person ≡ length (map to_upper (codes "PERSON")) + 15)
make_token-IsToken_example =
    make_token-IsToken toy toy-HexDigest (codes "Ada") (codes "s") (codes "PERSON") refl
      (omega arith)

broker-IsToken_shape_example :
    IsToken (make_token toy (broker_prefix ++ slugify (codes "gh")) (codes "x") (codes "s"))
    × (is_broker_token
          (make_token toy (broker_prefix ++ slugify (codes "gh")) (codes "x") (codes "s"))
        ≡ true)
    × (length (make_token toy (broker_prefix ++ slugify (codes "gh")) (codes "x") (codes "s"))
        ≤ max_token_len)
broker-IsToken_shape_example =
    broker-IsToken_shape toy toy-HexDigest (codes "x") (codes "s") toy-AsciiCase (codes "gh")

scan-append-token_example :
    scan 0 (codes "hi [" ++ (person ++ codes "]!"))
    ≡ scan 0 (codes "hi [") ++ (match_piece person ∷ scan 0 (codes "]!"))
scan-append-token_example = scan-append-token (codes "hi [") person (codes "]!") person-IsToken

scan-join_example : join (scan 0 (codes "[A]")) ≡ codes "[A]"
scan-join_example = scan-join 0 (codes "[A]")
