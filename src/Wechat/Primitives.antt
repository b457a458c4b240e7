-- ===== src/Wechat/Primitives.antt =====
-- The cryptography and the encodings that the bridge takes from other crates: sha1, sha2, base64,
-- aes with cbc, and constant_time_eq. Bytes are numbers.
use sage_wiki_bridge_wxo.Base.{ℕ, ◌%◌, ◌≡◌, refl, ◌↔◌, ◌⊎◌, inr, Bool, true, List, length, take}
use sage_wiki_bridge_wxo.Text.{Text, text_eq, text_eq_iff}

pub record Primitives : Type 0 where
  -- the digests, in lower-case hexadecimal
  pub sha1_hex : List ℕ → Text
  pub sha256_hex : List ℕ → Text
  -- `STANDARD`; the left result is the error's text
  pub base64_encode : List ℕ → Text
  pub base64_decode : Text → Text ⊎ List ℕ
  -- the engine that allows trailing bits
  pub base64_decode_trailing : Text → Text ⊎ List ℕ
  -- AES-256 in CBC mode with `NoPadding`: key, initial vector, data
  pub cbc_encrypt : List ℕ → List ℕ → List ℕ → List ℕ
  pub cbc_decrypt : List ℕ → List ℕ → List ℕ → Text ⊎ List ℕ
  pub constant_time_eq : List ℕ → List ℕ → Bool

-- What the crates document: decoding undoes encoding, decryption undoes the encryption of whole
-- blocks, and the comparison is equality.
pub record IsLawful (p : Primitives) : Type 0 where
  pub decode-encode : (b : List ℕ) → p.base64_decode (p.base64_encode b) ≡ inr b
  pub decrypt-encrypt :
      (key iv b : List ℕ)
      → length b % 16 ≡ 0
      → p.cbc_decrypt key iv (p.cbc_encrypt key iv b) ≡ inr b
  pub constant_time_eq_iff : (a b : List ℕ) → (p.constant_time_eq a b ≡ true) ↔ (a ≡ b)

-- Stand-ins with these laws.
abbrev pub plain : Primitives
plain = record {
  sha1_hex = λ b. b;
  sha256_hex = λ b. b;
  base64_encode = λ b. b;
  base64_decode = λ t. inr t;
  base64_decode_trailing = λ t. inr (take 32 t);
  cbc_encrypt = λ key iv b. b;
  cbc_decrypt = λ key iv b. inr b;
  constant_time_eq = text_eq;
}

pub plain-IsLawful : IsLawful plain
plain-IsLawful = record {
  decode-encode = λ b. refl;
  decrypt-encrypt = λ key iv b h. refl;
  constant_time_eq_iff = text_eq_iff;
}
