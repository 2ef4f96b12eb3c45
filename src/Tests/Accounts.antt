-- ===== src/Tests/Accounts.antt =====
-- An account, its lock, its passwords and its second factor on concrete inputs.
use fast_stream_template.Common.{
  keep, not, str_eq, String, [], arith, false, hours, ltb, none, refl, some, true, ◌+◌, ◌∷◌, ◌≡◌,
  Bytes, Time, opt_str_eq,
}
use fast_stream_template.Errors.{Result, err, invalid_credentials, invalid_token, ok}
use fast_stream_template.Domain.Ports.{plain_crypto}
use fast_stream_template.Domain.AccountLock
use fast_stream_template.Domain.AccountLock.{AccountLockInfo}
use fast_stream_template.Domain.AccountLock.Lockout.{
  lockout_exact, SameCounters, elapsed_lock_restarts, failure_lifts_admin_lock, record_failures,
}
use fast_stream_template.Domain.Tokens.{from_raw}
use fast_stream_template.Domain.Tokens
use fast_stream_template.Domain.TwoFactor
use fast_stream_template.Domain.TwoFactor.{TwoFactorSecret}
use fast_stream_template.Domain.TwoFactor.Codes.{holds}
use fast_stream_template.Domain.User
use fast_stream_template.Domain.User.{User, is_locked}
use fast_stream_template.Domain.User.Passwords.{
  is_ok, change_password_lem, reset-request_password_reset, reset_password-one_shot,
}
use fast_stream_template.Domain.User.SecondFactor.{enrolment_confirmed, backup_code_spent}
use fast_stream_template.Domain.User.Lifecycle.{update_email_reverifies}

lockout_exact_example :
    AccountLock.is_locked_out (record_failures 3 15 (5 ∷ 6 ∷ 7 ∷ []) AccountLock.create) 8 ≡ true
lockout_exact_example = lockout_exact 3 15 (5 ∷ 6 ∷ []) 7 8 (omega arith)

abbrev timed_out : AccountLockInfo
timed_out = record AccountLock.create {
  is_locked = true;
  failed_attempts = 3;
  lock_until = some 40;
}

elapsed_lock_restarts_example :
    SameCounters
      (record_failures 3 15 (50 ∷ 60 ∷ []) timed_out)
      (record_failures 3 15 (50 ∷ 60 ∷ []) AccountLock.create)
unfolding AccountLock.lock_window_elapsed
elapsed_lock_restarts_example = elapsed_lock_restarts 3 15 50 (60 ∷ []) timed_out refl

failure_lifts_admin_lock_example :
    (AccountLock.is_locked_out (AccountLock.create_locked "abuse" none 10) 20 ≡ true)
    × (AccountLock.is_locked_out
          (AccountLock.record_failed_attempt 5 15 20 (AccountLock.create_locked "abuse" none 10))
          21
        ≡ false)
failure_lifts_admin_lock_example = failure_lifts_admin_lock "abuse" 5 15 10 20 21 (omega arith)

abbrev enrolled : TwoFactorSecret
enrolled = (TwoFactor.create plain_crypto "seed" ("aa" ∷ "bb" ∷ [])).0

abbrev one_left : TwoFactorSecret
one_left = record enrolled { backup_code_hashes = "bb" ∷ [] }

abbrev pub ann : User
ann = User.create plain_crypto 7 "ann" (some "ann@example.org") "Passw0rd!" "t0k" 100

reset-request_password_reset_example :
    is_ok (
      User.reset_password plain_crypto
        (User.request_password_reset plain_crypto ann 1 "r3set" 200)
        "r3set"
        "N3wpass!"
        300)
    ≡ true
unfolding from_raw
reset-request_password_reset_example =
    reset-request_password_reset plain_crypto ann 1 "r3set" "r3set" "N3wpass!" 200 300

abbrev asked : User
asked = User.request_password_reset plain_crypto ann 1 "r3set" 200

abbrev done : Result User → User
done (ok u) = u
done (err e) = ann

abbrev changed : User
changed = done (User.reset_password plain_crypto asked "r3set" "N3wpass!" 300)

reset_password-one_shot_example :
    (changed.hashed_password ≡ "N3wpass!")
    × (changed.id ≡ asked.id)
    × ((later : Time) → User.is_locked changed later ≡ false)
    × ((again : String) (g : Bytes) (later : Time)
        → User.reset_password plain_crypto changed again g later ≡ err invalid_token)
unfolding User.reset_password User.request_password_reset User.create Tokens.create_secure
    Tokens.create_reset Tokens.reset_is_valid Tokens.matches
reset_password-one_shot_example =
    reset_password-one_shot plain_crypto asked changed "r3set" "N3wpass!" 300 refl

change_password_lem_example :
    (is_ok (User.change_password plain_crypto ann "Passw0rd!" "N3wpass!")
      ≡ User.verify_password plain_crypto ann "Passw0rd!")
    × ((u' : User)
        → User.change_password plain_crypto ann "Passw0rd!" "N3wpass!" ≡ ok u'
        → (u'.hashed_password ≡ "N3wpass!")
          × ((later : Time) → User.is_locked u' later ≡ false)
          × ((token : String) (g : Bytes) (later : Time)
              → User.reset_password plain_crypto u' token g later ≡ err invalid_token))
change_password_lem_example = change_password_lem plain_crypto ann "Passw0rd!" "N3wpass!"

enrolment_confirmed_example :
    let pending = (User.begin_two_factor_enrolment plain_crypto ann "seed" ("aa" ∷ [])).0 in
    (User.has_two_factor pending ≡ false)
    × ((any_code : String) (t : Time)
        → User.verify_two_factor plain_crypto pending any_code t ≡ (false, pending))
    × (plain_crypto.verify_code 600 "seed" "seed" ≡ false
        → User.confirm_two_factor plain_crypto pending "seed" 600 ≡ err invalid_credentials)
    × (plain_crypto.verify_code 600 "seed" "seed" ≡ true
        → (u' : User) × (User.confirm_two_factor plain_crypto pending "seed" 600 ≡ ok u')
          × (User.has_two_factor u' ≡ true)
          × ((t : Time) (c : String)
              → plain_crypto.verify_code t "seed" c ≡ true
              → User.verify_two_factor plain_crypto u' c t ≡ (true, u')))
enrolment_confirmed_example = enrolment_confirmed plain_crypto ann "seed" "seed" ("aa" ∷ []) 600

abbrev guarded : User
guarded = record ann { two_factor_secret = some (record enrolled { enabled_at = some 700 }) }

abbrev spent : User
spent = record ann { two_factor_secret = some (record one_left { enabled_at = some 700 }) }

backup_code_spent_example :
    (holds (from_raw plain_crypto "aa") enrolled.backup_code_hashes ≡ true)
    × (spent ≡ record guarded {
      two_factor_secret = some (record enrolled {
        enabled_at = some 700;
        backup_code_hashes =
            keep (λ h. not (str_eq h (from_raw plain_crypto "aa"))) enrolled.backup_code_hashes;
      });
    })
    × (User.has_two_factor spent ≡ true)
    × (User.verify_two_factor plain_crypto spent "aa" 900 ≡ (false, spent))
unfolding User.verify_two_factor TwoFactor.consume_backup_code TwoFactor.create User.create
backup_code_spent_example =
    backup_code_spent plain_crypto guarded spent (record enrolled { enabled_at = some 700 }) 700
      "aa" 800 900 refl refl refl refl refl

update_email_reverifies_example :
    (opt_str_eq (some "new@example.org") ann.email ≡ true
      → User.update_email plain_crypto ann (some "new@example.org") "t1" 300 ≡ ann)
    × (opt_str_eq (some "new@example.org") ann.email ≡ false
        → let u' = User.update_email plain_crypto ann (some "new@example.org") "t1" 300 in
          (u'.email ≡ some "new@example.org")
          × (u'.email_verification.is_verified ≡ false)
          × (User.verify_email plain_crypto u' "t1" 400 ≡ ltb 400 (300 + hours 24)))
update_email_reverifies_example =
    update_email_reverifies plain_crypto ann (some "new@example.org") "t1" 300 400
