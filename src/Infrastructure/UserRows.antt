-- ===== src/Infrastructure/UserRows.antt =====
-- _row_to_user and _user_to_values of src/infrastructure/db/sqlalchemy/repositories/user.py: the
-- columns of a user, and the entity that they load as.
pub mod Loads
use fast_stream_template.Common.{
  Bool, Bytes, List, Option, String, Uuid, Time, ℕ, [], ◌∷◌, map, none, some, not, str_eq,
  if◌then◌else◌, false,
}
use fast_stream_template.Errors.{Error, Result, err, ok, value_error}
use fast_stream_template.Domain.Tokens.{PasswordResetToken, TokenHash}
use fast_stream_template.Domain.TwoFactor.{TwoFactorSecret}
use fast_stream_template.Domain.Names.{
  codes, validate_email, validate_hashed_password, validate_user_id, validate_username,
}
use fast_stream_template.Domain.User.{User}

-- SecretCipherInterface (AES-GCM behind src/infrastructure/security), with bytes.hex and
-- bytes.fromhex
pub record Cipher : Type 0 where
  pub encrypt : String → Bytes
  pub decrypt : Bytes → String
  pub hex : Bytes → String
  pub fromhex : String → Bytes

-- _UserRow
pub record UserRow : Type 0 where
  pub id : Uuid
  pub version : ℕ
  pub username : String
  pub email : Option String
  pub hashed_password : Bytes
  pub deleted_at : Option Time
  pub is_locked : Bool
  pub locked_at : Option Time
  pub lock_reason : Option String
  pub failed_attempts : ℕ
  pub lock_until : Option Time
  pub is_email_verified : Bool
  pub email_verification_token_hash : Option Bytes
  pub email_verified_at : Option Time
  pub email_verification_expires_at : Option Time
  pub password_reset_token_hash : Option Bytes
  pub password_reset_created_at : Option Time
  pub password_reset_expires_at : Option Time
  pub password_reset_used : Bool
  pub two_factor_secret : Option Bytes
  pub two_factor_enabled_at : Option Time
  pub two_factor_backup_codes : Option (List String)

abbrev pub hash_of : Option PasswordResetToken → Option TokenHash
hash_of none = none
hash_of (some t) = some t.token_hash

abbrev pub created_of : Option PasswordResetToken → Option Time
created_of none = none
created_of (some t) = t.created_at

abbrev pub expires_of : Option PasswordResetToken → Option Time
expires_of none = none
expires_of (some t) = t.expires_at

abbrev pub used_of : Option PasswordResetToken → Bool
used_of none = false
used_of (some t) = t.is_used

abbrev pub enabled_of : Option TwoFactorSecret → Option Time
enabled_of none = none
enabled_of (some s) = s.enabled_at

-- The bytes of a column, if they are neither NULL nor empty
abbrev pub truthy_bytes : Option Bytes → Option Bytes
truthy_bytes none = none
truthy_bytes (some b) = if str_eq b "" then none else some b

abbrev pub or_empty_list : Option (List String) → List String
or_empty_list none = []
or_empty_list (some xs) = xs

module _ (cipher : Cipher) where
  abbrev pub secret_of : Option TwoFactorSecret → Option Bytes
  secret_of none = none
  secret_of (some s) = some (cipher.encrypt s.secret)

  abbrev pub codes_of : Option TwoFactorSecret → Option (List String)
  codes_of none = none
  codes_of (some s) = some (map cipher.hex s.backup_code_hashes)

  -- _user_to_values, with the version that the INSERT and the UPDATE write
  unfoldable pub user_to_values : User → UserRow
  user_to_values u = record {
    id = u.id;
    version = u.version;
    username = u.username;
    email = u.email;
    hashed_password = u.hashed_password;
    deleted_at = u.deleted_at;
    is_locked = u.account_lock.is_locked;
    locked_at = u.account_lock.locked_at;
    lock_reason = u.account_lock.lock_reason;
    failed_attempts = u.account_lock.failed_attempts;
    lock_until = u.account_lock.lock_until;
    is_email_verified = u.email_verification.is_verified;
    email_verification_token_hash = u.email_verification.token_hash;
    email_verified_at = u.email_verification.verified_at;
    email_verification_expires_at = u.email_verification.expires_at;
    password_reset_token_hash = hash_of u.password_reset_token;
    password_reset_created_at = created_of u.password_reset_token;
    password_reset_expires_at = expires_of u.password_reset_token;
    password_reset_used = used_of u.password_reset_token;
    two_factor_secret = secret_of u.two_factor_secret;
    two_factor_enabled_at = enabled_of u.two_factor_secret;
    two_factor_backup_codes = codes_of u.two_factor_secret;
  }

  -- TokenHash, which refuses no bytes at all with a ValueError
  unfoldable pub token_hashes : List String → Result (List TokenHash)
  token_hashes [] = ok []
  token_hashes (c ∷ cs) =
      let rest = token_hashes cs in
      let hash = cipher.fromhex c in
      if str_eq hash ""
      then err value_error
      else elim rest [ ok hs ↦ ok (hash ∷ hs) | err e ↦ err e ]

  abbrev pub reset_token : UserRow → Option Bytes → Option PasswordResetToken
  reset_token row none = none
  reset_token row (some hash) = some (record {
    token_hash = hash;
    created_at = row.password_reset_created_at;
    expires_at = row.password_reset_expires_at;
    is_used = row.password_reset_used;
  })

  abbrev pub enrolment : UserRow → Bytes → Result (List TokenHash) → Result (Option TwoFactorSecret)
  enrolment row held (err e) = err e
  enrolment row held (ok hashes) = ok (
      some (record {
        secret = cipher.decrypt held;
        backup_code_hashes = hashes;
        enabled_at = row.two_factor_enabled_at;
      }))

  abbrev pub load_secret : UserRow → Option Bytes → Result (Option TwoFactorSecret)
  load_secret row none = ok none
  load_secret row (some held) =
      enrolment row held (token_hashes (or_empty_list row.two_factor_backup_codes))

  abbrev pub email_codes : Option String → Option (List ℕ)
  email_codes none = none
  email_codes (some e) = some (codes e)

  -- The User of the columns, which its value objects have not refused
  unfoldable pub built : UserRow → Option TwoFactorSecret → User
  built row secret = record {
    id = row.id;
    username = row.username;
    email = row.email;
    hashed_password = row.hashed_password;
    deleted_at = row.deleted_at;
    account_lock = record {
      is_locked = row.is_locked;
      locked_at = row.locked_at;
      lock_reason = row.lock_reason;
      failed_attempts = row.failed_attempts;
      lock_until = row.lock_until;
    };
    email_verification = record {
      is_verified = row.is_email_verified;
      token_hash = truthy_bytes row.email_verification_token_hash;
      verified_at = row.email_verified_at;
      expires_at = row.email_verification_expires_at;
    };
    password_reset_token = reset_token row (truthy_bytes row.password_reset_token_hash);
    two_factor_secret = secret;
    version = row.version;
    events = [];
  }

  abbrev pub after_check : {A : Type 0} → Result (Unit {0}) → Result A → Result A
  after_check (err e) r = err e
  after_check (ok o) r = r

  abbrev pub with_secret : UserRow → Result (Option TwoFactorSecret) → Result User
  with_secret row (err e) = err e
  with_secret row (ok secret) = after_check (validate_user_id row.id) (
      after_check (validate_username (codes row.username)) (
        after_check (validate_email (email_codes row.email))
          (after_check (validate_hashed_password row.hashed_password) (ok (built row secret)))))

  -- _row_to_user
  unfoldable pub row_to_user : UserRow → Result User
  row_to_user row = with_secret row (load_secret row (truthy_bytes row.two_factor_secret))
