-- ===== src/Errors.antt =====
-- domain/user/exceptions.py, application/common/exceptions.py and the errors of the value objects:
-- one constructor for each exception class that the modelled code raises. Messages and the ids
-- that they interpolate are left out, except for the seconds of a Retry-After header.
use fast_stream_template.Common.{ℕ, Option}

pub data Error : Type 0 where
  user_is_deleted username_already_exists email_already_exists invalid_credentials user_not_found
        invalid_token account_locked permission_denied role_not_found role_already_exists
        two_factor_already_enabled two_factor_not_enrolled concurrent_modification
        refresh_token_reuse two_factor_challenge_expired wrong_user_id wrong_role_id wrong_role_name
        wrong_permission_name empty_username too_long_username wrong_username_format empty_password
        password_too_short password_too_long password_too_weak empty_email invalid_email_format
        hashed_password_empty :
      Error
  -- Python's own ValueError and UnicodeEncodeError
  value_error unicode_encode_error : Error
  too_many_login_attempts : Option ℕ → Error

pub data Result {ℓ} (A : Type ℓ) : Type ℓ where
  ok : A → Result A
  err : Error → Result A
