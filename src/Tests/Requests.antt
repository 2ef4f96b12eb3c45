-- ===== src/Tests/Requests.antt =====
-- Requests about accounts on concrete rows.
use fast_stream_template.Common.{ℕ, List, String, [], none, refl, ◌+◌, ◌||◌, ◌∷◌, ◌≡◌, ◌≢◌}
use fast_stream_template.Errors.{Error, Result, err, ok}
use fast_stream_template.Domain.Ports.{plain_crypto}
use fast_stream_template.Domain.User
use fast_stream_template.Domain.User.{User}
use fast_stream_template.Domain.Names.{CharClasses, between, digit, letter}
use fast_stream_template.Domain.Session
use fast_stream_template.Domain.Session.{SessionAggregate, no_device}
use fast_stream_template.Infrastructure.SessionRepo
use fast_stream_template.Application.UnitOfWork.{Database}
use fast_stream_template.Application.RefreshToken.{Refreshed, refresh_token_use_case}
use fast_stream_template.Application.Transaction.{transact}
use fast_stream_template.Application.UserService.{Request}
use fast_stream_template.Application.Accounts.PasswordReset
use fast_stream_template.Application.Accounts.Profile
use fast_stream_template.Application.Accounts.Sessions
use fast_stream_template.Application.Accounts.SignsOut.{SignsOut-refused, sessions_revoked}
use fast_stream_template.Application.Accounts.Steps.{here}
use fast_stream_template.Application.Accounts.{limited}
use fast_stream_template.Application.Accounts.Disclosure.{request_password_reset_alike}
use fast_stream_template.Infrastructure.RateLimiter.{RateLimitConfig}
use fast_stream_template.Infrastructure.RateLimiter.Limit.{start}
use fast_stream_template.Application.Accounts.Outcome.{Replaced, reset_password_outcome}
use fast_stream_template.Application.Accounts.PasswordChange.{ChangedOf, change_password_outcome}

abbrev ascii : CharClasses
ascii = record {
  is_lower = between b'a' b'z';
  is_upper = between b'A' b'Z';
  is_digit = digit;
  is_alnum = λ c. letter c || digit c;
}

abbrev asked : Request
asked = record {
  crypto = plain_crypto;
  classes = ascii;
  salt = 3;
  drawn = "r3s3t";
  id_of = λ n. 700 + n;
  now = 500;
}

abbrev dora : User
dora = record (User.create plain_crypto 7 "dora" none "Passw0rd!" "t0k" 100) { events = [] }

abbrev emil : User
emil = record (User.create plain_crypto 8 "emil" none "Passw0rd!" "t1k" 100) { events = [] }

abbrev session_of : ℕ → ℕ → String → SessionAggregate
session_of user_id id hash =
    Session.add_refresh_token (Session.create user_id no_device 60 id 100)
      (Session.new_refresh_token hash (id + 1) 900 100)

abbrev two_users : Database
two_users = record {
  users = dora ∷ emil ∷ [];
  sessions =
      SessionRepo.add (session_of 7 20 "h1")
        (SessionRepo.add (session_of 8 30 "h2") (record { sessions = []; tokens = [] }));
  outbox = [];
}

abbrev revoked_db : Result (List SessionAggregate) × Database
revoked_db = transact (λ n. 800 + n) 500 (Sessions.revoke_each 7) two_users

abbrev revoked_list : List SessionAggregate
revoked_list = elim revoked_db.0 [ ok ss ↦ ss | err e ↦ [] ]

abbrev emil_refreshed : Result Refreshed × Database
emil_refreshed = refresh_token_use_case plain_crypto "h3" 40 (λ n. 900 + n) 600 "h2" revoked_db.1

abbrev emil_out : Refreshed
emil_out = elim emil_refreshed.0 [ ok out ↦ out | err e ↦ (session_of 8 30 "h2", (emil, "")) ]

SignsOut-refused_example : emil_out.1.0.id ≢ 7
unfolding transact Sessions.revoke_each fast_stream_template.Application.Transaction.◌>>=◌
    fast_stream_template.Application.Transaction.checked
    fast_stream_template.Application.Transaction.query
    fast_stream_template.Application.Transaction.change
    fast_stream_template.Application.Transaction.give
    fast_stream_template.Application.Transaction.settle
    fast_stream_template.Domain.Names.validate_user_id
    fast_stream_template.Application.UserService.revoke_all_sessions refresh_token_use_case
    SessionRepo.acquire_by_token_hash SessionRepo.find_live_token SessionRepo.acquire_by_user_id
    SessionRepo.add Session.create SessionRepo.update SessionRepo.upsert_all
    fast_stream_template.Application.RefreshToken.committed
    fast_stream_template.Application.RefreshToken.for_session
    fast_stream_template.Application.RefreshToken.for_token
    fast_stream_template.Application.RefreshToken.for_user
    fast_stream_template.Application.RefreshToken.refresh_session
    fast_stream_template.Application.RefreshToken.renew
    fast_stream_template.Application.RefreshToken.save_session
    fast_stream_template.Application.UnitOfWork.begin
    fast_stream_template.Application.UnitOfWork.commit
    fast_stream_template.Application.UnitOfWork.persist
    fast_stream_template.Application.UnitOfWork.register
    fast_stream_template.Domain.AccountLock.is_locked_out
    fast_stream_template.Domain.AccountLock.lock_window_elapsed
    fast_stream_template.Domain.Session.Rotation.rotate Session.add_refresh_token
    Session.find_refresh_token Session.find_token Session.is_expired Session.new_refresh_token
    Session.refresh Session.revoke Session.revoke_by_id Session.revoke_token Session.revoked
    Session.token_is_valid fast_stream_template.Domain.Tokens.from_raw User.is_deleted
    User.is_locked User.create SessionRepo.find_session SessionRepo.overwrite
    SessionRepo.refresh_token_from_row SessionRepo.session_from_rows SessionRepo.session_row
    SessionRepo.token_row SessionRepo.tokens_of SessionRepo.update_row SessionRepo.upsert
    fast_stream_template.Infrastructure.UserRepo.acquire_by_id
    fast_stream_template.Infrastructure.UserRepo.first_user
SignsOut-refused_example =
    SignsOut-refused 7 two_users revoked_db.1 emil_refreshed.1 plain_crypto "h2" "h3" 40
      (λ n. 900 + n) 600 emil_out (sessions_revoked (λ n. 800 + n) 500 revoked_list refl) refl

abbrev mail_sent : Database
mail_sent = record two_users {
  users =
      record (User.request_password_reset plain_crypto dora 1 "r3s3t" 400) { events = [] }
      ∷ emil
      ∷ [];
}

abbrev reset_db : Result User × Database
reset_db =
    transact asked.id_of asked.now (PasswordReset.confirm_reset asked "r3s3t" "N3w!Passw0rd")
      mail_sent

reset_password_outcome_example :
    ((e : Error) → reset_db ≡ (err e, reset_db.1) → reset_db.1 ≡ mail_sent)
    × ((v : User)
        → reset_db ≡ (ok v, reset_db.1)
        → Replaced asked "r3s3t" "N3w!Passw0rd" mail_sent v reset_db.1)
unfolding User.create User.request_password_reset
reset_password_outcome_example =
    reset_password_outcome asked "r3s3t" "N3w!Passw0rd" mail_sent mail_sent reset_db.1 refl here

abbrev changed_db : Result User × Database
changed_db = Profile.change_password asked 7 "Passw0rd!" "N3w!Passw0rd" two_users

change_password_outcome_example :
    ((e : Error) → changed_db ≡ (err e, changed_db.1) → changed_db.1 ≡ two_users)
    × ((v : User)
        → changed_db ≡ (ok v, changed_db.1)
        → ChangedOf asked 7 "Passw0rd!" "N3w!Passw0rd" two_users v changed_db.1)
unfolding User.create
change_password_outcome_example =
    change_password_outcome asked 7 "Passw0rd!" "N3w!Passw0rd" two_users changed_db.1 refl

abbrev per_minute : RateLimitConfig
per_minute = record {
  max_requests = 5;
  window_seconds = 60;
  max_login_attempts = 5;
  lockout_seconds = 900;
  cleanup_interval_seconds = 300;
  max_keys = 1000;
}

-- Nobody has the address.
request_password_reset_alike_example :
    (PasswordReset.request_password_reset asked per_minute none "nobody@example.org"
      (two_users, start 0)).0
    ≡ ok tt
unfolding limited User.create fast_stream_template.Domain.Names.validate_email
request_password_reset_alike_example =
    request_password_reset_alike asked per_minute none "nobody@example.org" two_users two_users
      (start 0) refl here refl
