-- ===== src/Tests/Toy.antt =====
-- A concrete digest and cipher that keep the laws, and sample data.
use zlau_de_r.Prelude.{◌≡◌, refl, sym, Bool, true, false, not, if◌then◌else◌, some, []}
use zlau_de_r.Prelude.{◌∷◌, map, replicate, all, Text, codes, to_upper, to_lower}
use zlau_de_r.Externals.{Externals, HexDigest, AsciiCase, Cipher, Encrypts, is_hex_lower}
use zlau_de_r.Store.{SessionStore}

-- Whether the number of bytes is even.
abbrev pub even : Text → Bool
even [] = true
even (c ∷ t) = not (even t)

abbrev pub toy : Externals
toy = record {
  blake3_hex = λ (t : Text). replicate 64 (if even t then b'a' else b'7');
  to_uppercase = map to_upper;
  to_lowercase = map to_lower;
  aes_encrypt = λ (key nonce plain : Text). some plain;
  aes_decrypt = λ (key nonce cipher : Text). some cipher;
}

all_hex : (b : Bool) → all is_hex_lower (replicate 64 (if b then b'a' else b'7')) ≡ true
all_hex true = refl
all_hex false = refl

pub toy-HexDigest : HexDigest toy
toy-HexDigest = record { width = λ t. refl; digits = λ t. all_hex (even t) }

pub toy-AsciiCase : AsciiCase toy
toy-AsciiCase = record { upper = λ t h. refl }

pub toy-Cipher : Cipher toy
toy-Cipher = record { decrypts = λ key nonce plain cipher e. sym e }

pub toy-Encrypts : Encrypts toy
toy-Encrypts = record { total = λ key nonce plain. (plain, refl) }

abbrev pub empty : SessionStore
empty = record {
  session_key = codes "k";
  salt = codes "s";
  token_map = [];
  tombstoned = [];
  tool_promoted = [];
}
