-- ===== src/Domain/Ports.antt =====
-- What the domain calls and this repository does not implement: SHA-256 (hashlib), bcrypt and the
-- TOTP check (pyotp), behind src/domain/user/interfaces/acl. Functions of one record, which the
-- definitions that need them take as a parameter.
use fast_stream_template.Common.{ℕ, String, Bool, str_eq, Time, Bytes}

pub record Crypto : Type 0 where
  -- hashlib.sha256(text.encode()).digest()
  pub sha256 : String → Bytes
  -- CryptInterface.hash: the first argument is the salt that bcrypt draws
  pub hash_password : ℕ → String → Bytes
  -- CryptInterface.compare_hashes
  pub compare_hashes : String → Bytes → Bool
  -- TwoFactorInterface.verify_code(secret, code) at an instant
  pub verify_code : Time → String → String → Bool

-- A concrete instance for tests: a text is its own hash, and a code equals its secret.
abbrev pub plain_crypto : Crypto
plain_crypto = record {
  sha256 = λ s. s;
  hash_password = λ salt s. s;
  compare_hashes = λ s h. str_eq s h;
  verify_code = λ now secret code. str_eq secret code;
}
