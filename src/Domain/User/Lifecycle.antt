-- ===== src/Domain/User/Lifecycle.antt =====
-- Soft deletion, profile changes and the events of the aggregate.
use fast_stream_template.Common.{
  ◌+◌, String, ◌≡◌, true, false, Option, arith, str_eq_refl, ltb, opt_str_eq, Time, hours,
}
use fast_stream_template.Domain.Ports.{Crypto}
use fast_stream_template.Domain.Tokens
use fast_stream_template.Domain.User.{User, is_deleted, verify_email, delete, update_email}

-- Deleting a second time, at whatever time, changes nothing: the time of the first deletion stays
-- and one event was recorded.
pub delete_idempotent :
    (u : User) (t t' : Time)
    → (is_deleted (delete u t) ≡ true) × (delete (delete u t) t' ≡ delete u t)
unfolding delete is_deleted
delete_idempotent u t t' = ground arith

-- A new address has to be verified again: the account is unverified, the token that was emailed to
-- it is accepted exactly for a day, and an address that is equal to the old one changes nothing.
pub update_email_reverifies :
    (crypto : Crypto) (u : User) (email : Option String) (token : String) (issued now : Time)
    → (opt_str_eq email u.email ≡ true → update_email crypto u email token issued ≡ u)
      × (opt_str_eq email u.email ≡ false
          → let u' = update_email crypto u email token issued in
            (u'.email ≡ email)
            × (u'.email_verification.is_verified ≡ false)
            × (verify_email crypto u' token now ≡ ltb now (issued + hours 24)))
unfolding update_email verify_email Tokens.create_secure Tokens.create_unverified Tokens.verify
update_email_reverifies crypto u email token issued now =
    (λ same. rw same, λ new. (rw new, rw new, rw new (rw str_eq_refl (ground arith))))
