-- ===== src/Domain/User/Passwords.antt =====
-- Resetting and changing a password.
use fast_stream_template.Common.{
  ℕ, ◌+◌, String, ◌≡◌, Bool, true, false, ◌&&◌, arith, str_eq, ltb, Time, hours, Bytes,
}
use fast_stream_template.Errors.{invalid_token, Result, ok, err}
use fast_stream_template.Domain.Ports.{Crypto}
use fast_stream_template.Domain.AccountLock
use fast_stream_template.Domain.Tokens
use fast_stream_template.Domain.Tokens.{from_raw}
use fast_stream_template.Domain.User.{
  User, is_locked, request_password_reset, reset_password, change_password, verify_password,
}

abbrev pub is_ok {ℓ} : {A : Type ℓ} → Result A → Bool
is_ok (ok a) = true
is_ok (err e) = false

-- After a reset was requested, a token resets the password exactly if it has the digest of the
-- emailed token and the link's hours are not over.
pub reset-request_password_reset :
    (crypto : Crypto) (u : User) (lifetime : ℕ) (token given : String) (h : Bytes)
    (issued now : Time)
    → is_ok
        (reset_password crypto (request_password_reset crypto u lifetime token issued) given h now)
      ≡ (str_eq (from_raw crypto token) (from_raw crypto given)
          && ltb now (issued + hours lifetime))
unfolding reset_password request_password_reset Tokens.create_secure Tokens.create_reset
    Tokens.reset_is_valid Tokens.matches
reset-request_password_reset crypto u lifetime token given h issued now = ground arith

-- A successful reset stores the new hash, lifts every lock, keeps the id and spends the token: no
-- token resets the password of the resulting account again, at any time.
pub reset_password-one_shot :
    (crypto : Crypto) (u u' : User) (token : String) (h : Bytes) (now : Time)
    → reset_password crypto u token h now ≡ ok u'
    → (u'.hashed_password ≡ h)
      × (u'.id ≡ u.id)
      × ((later : Time) → is_locked u' later ≡ false)
      × ((again : String) (g : Bytes) (later : Time)
          → reset_password crypto u' again g later ≡ err invalid_token)
unfolding reset_password Tokens.mark_used Tokens.reset_is_valid is_locked AccountLock.is_locked_out
    AccountLock.unlock
reset_password-one_shot crypto u u' token h now done =
    (ground arith, ground arith, λ later. ground arith, λ again g later. ground arith)

-- A password is changed exactly if the current one is right; the account then has the new hash, is
-- not locked, and no token of an earlier reset request is accepted.
pub change_password_lem :
    (crypto : Crypto) (u : User) (old : String) (h : Bytes)
    → (is_ok (change_password crypto u old h) ≡ verify_password crypto u old)
      × ((u' : User)
          → change_password crypto u old h ≡ ok u'
          → (u'.hashed_password ≡ h)
            × ((later : Time) → is_locked u' later ≡ false)
            × ((token : String) (g : Bytes) (later : Time)
                → reset_password crypto u' token g later ≡ err invalid_token))
unfolding change_password reset_password is_locked AccountLock.is_locked_out AccountLock.unlock
change_password_lem crypto u old h =
    (ground arith, λ u' done. (ground arith, λ later. ground arith, λ token g later. ground arith))
