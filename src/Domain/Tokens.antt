-- ===== src/Domain/Tokens.antt =====
-- src/domain/user/value_objects: token_hash.py, secure_token.py, email_verification.py,
-- password_reset_token.py and deletion_time.py. A TokenHash is the bytes of a SHA-256 digest;
-- its check that the digest is not empty never fails on one. `compare_digest` is equality.
pub mod Laws
use fast_stream_template.Common.{
  ℕ, ◌+◌, String, Bool, true, false, not, ◌&&◌, Option, none, some, str_eq, ltb, leb, if◌then◌else◌,
  Time, hours, Bytes,
}
use fast_stream_template.Domain.Ports.{Crypto}

abbrev pub TokenHash : Type 0
TokenHash = Bytes

-- TokenHash.from_raw
unfoldable pub from_raw : Crypto → String → TokenHash
from_raw crypto raw_token = crypto.sha256 raw_token

pub record SecureToken : Type 0 where
  pub value : String
  pub created_at : Option Time
  pub expires_at : Option Time

-- SecureToken.create and create_hex: `drawn` is the text that `secrets` returns.
unfoldable pub create_secure : String → ℕ → Time → SecureToken
create_secure drawn expires_in_hours now = record {
  value = drawn;
  created_at = some now;
  expires_at = some (now + hours expires_in_hours);
}

-- `expires_at is not None and now < expires_at`
abbrev pub before_expiry : Option Time → Time → Bool
before_expiry none now = false
before_expiry (some t) now = ltb now t

-- SecureToken.is_valid
unfoldable pub secure_is_valid : SecureToken → Time → Bool
secure_is_valid t now = before_expiry t.expires_at now

pub record EmailVerification : Type 0 where
  pub is_verified : Bool
  pub token_hash : Option TokenHash
  pub verified_at : Option Time
  pub expires_at : Option Time

-- EmailVerification.create_unverified
unfoldable pub create_unverified : Crypto → String → ℕ → Time → EmailVerification
unfolding from_raw
create_unverified crypto token expires_in_hours now = record {
  is_verified = false;
  token_hash = some (from_raw crypto token);
  verified_at = none;
  expires_at = some (now + hours expires_in_hours);
}

-- `self.expires_at and now >= self.expires_at`
abbrev pub expired : Option Time → Time → Bool
expired none now = false
expired (some t) now = leb t now

abbrev pub hash_matches : Option TokenHash → TokenHash → Bool
hash_matches none candidate = false
hash_matches (some held) candidate = str_eq held candidate

-- EmailVerification.verify
unfoldable pub verify : Crypto → EmailVerification → String → Time → Bool
unfolding from_raw
verify crypto v token now =
    if v.is_verified
    then true
    else if not (hash_matches v.token_hash (from_raw crypto token))
    then false
    else not (expired v.expires_at now)

-- EmailVerification.mark_verified
unfoldable pub mark_verified : EmailVerification → Time → EmailVerification
mark_verified v now = record {
  is_verified = true;
  token_hash = none;
  verified_at = some now;
  expires_at = none;
}

pub record PasswordResetToken : Type 0 where
  pub token_hash : TokenHash
  pub created_at : Option Time
  pub expires_at : Option Time
  pub is_used : Bool

-- PasswordResetToken.create
unfoldable pub create_reset : Crypto → String → ℕ → Time → PasswordResetToken
unfolding from_raw
create_reset crypto token expires_in_hours now = record {
  token_hash = from_raw crypto token;
  created_at = some now;
  expires_at = some (now + hours expires_in_hours);
  is_used = false;
}

-- PasswordResetToken.is_valid
unfoldable pub reset_is_valid : PasswordResetToken → Time → Bool
reset_is_valid t now = not t.is_used && before_expiry t.expires_at now

-- PasswordResetToken.matches
unfoldable pub matches : Crypto → PasswordResetToken → String → Bool
unfolding from_raw
matches crypto t token = str_eq t.token_hash (from_raw crypto token)

-- PasswordResetToken.mark_used
unfoldable pub mark_used : PasswordResetToken → PasswordResetToken
mark_used t = record t { is_used = true }

-- DeletionTime: the instant of a soft deletion.
abbrev pub DeletionTime : Type 0
DeletionTime = Option Time

-- DeletionTime.create_deleted
abbrev pub create_deleted : Time → DeletionTime
create_deleted now = some now

-- DeletionTime.create_not_deleted
abbrev pub create_not_deleted : DeletionTime
create_not_deleted = none
