-- ===== src/Externals.antt =====
-- What the engine calls and does not implement: the blake3 digest, the AES-GCM cipher, and the
-- Unicode case mappings of the standard library. The laws are those that the crates document.
use zlau_de_r.Prelude.{ℕ, ◌≡◌, Bool, true, ◌||◌, ◌&&◌, Option, some, map, all, length}
use zlau_de_r.Prelude.{Text, is_digit, to_upper, leb, ltb}

pub record Externals : Type 0 where
  -- the hexadecimal rendering of the blake3 digest of a text
  pub blake3_hex : Text → Text
  pub to_uppercase : Text → Text
  pub to_lowercase : Text → Text
  -- key, nonce, text
  pub aes_encrypt : Text → Text → Text → Option Text
  pub aes_decrypt : Text → Text → Text → Option Text

abbrev pub is_hex_lower : ℕ → Bool
is_hex_lower c = is_digit c || leb b'a' c && leb c b'f'

abbrev pub is_ascii : Text → Bool
is_ascii = all (λ c. ltb c 128)

-- A digest is 32 bytes, in 64 lower-case hexadecimal digits.
pub record HexDigest (x : Externals) : Type 0 where
  pub width : (t : Text) → length (x.blake3_hex t) ≡ 64
  pub digits : (t : Text) → all is_hex_lower (x.blake3_hex t) ≡ true

-- On ASCII the Unicode mappings are the ASCII ones.
pub record AsciiCase (x : Externals) : Type 0 where
  pub upper : (t : Text) → is_ascii t ≡ true → x.to_uppercase t ≡ map to_upper t

-- Authenticated encryption: what was encrypted under a key and a nonce is decrypted by them.
pub record Cipher (x : Externals) : Type 0 where
  pub decrypts :
      (key nonce plain cipher : Text)
      → x.aes_encrypt key nonce plain ≡ some cipher
      → x.aes_decrypt key nonce cipher ≡ some plain

-- The cipher fails on no text: a failure is a text beyond the 64 GiB that AES-GCM allows.
pub record Encrypts (x : Externals) : Type 0 where
  pub total : (key nonce plain : Text) → (c : Text) × (x.aes_encrypt key nonce plain ≡ some c)
