-- ===== src/Application/Accounts/Disclosure.antt =====
-- What the answer to a request for a password reset tells of the accounts.
use fast_stream_template.Common.{
  Bool, map, opt_str_eq, ◌&&◌, Option, String, none, some, ◌≡◌, refl, ap,
}
use fast_stream_template.Errors.{Result, err, ok}
use fast_stream_template.Domain.User
use fast_stream_template.Domain.User.{User}
use fast_stream_template.Domain.Names.{codes, validate_email}
use fast_stream_template.Infrastructure.UserRepo
use fast_stream_template.Infrastructure.UserRepo.{
  clashes_email, clashes_name, first_user, not_deleted, rewrite_row, same_version, uniqueness_error,
}
use fast_stream_template.Infrastructure.UserRepo.Unique.{next_of}
use fast_stream_template.Infrastructure.UserRepo.Rewritten.{Writable, found-Writable}
use fast_stream_template.Infrastructure.RateLimiter.{Limiter, RateLimitConfig}
use fast_stream_template.Application.UnitOfWork.{Database, Work, begin}
use fast_stream_template.Application.Login.{save_user, saved}
use fast_stream_template.Application.Transaction.{
  on_result, Nothing, transact, settle, give, checked, query, ◌>>=◌,
}
use fast_stream_template.Application.UserService
use fast_stream_template.Application.UserService.{Request, reset_for}
use fast_stream_template.Application.Accounts.{behind, limited}
use fast_stream_template.Application.Accounts.PasswordReset
use fast_stream_template.Application.Accounts.Steps.{Reach, Reach-Unique}
use fast_stream_template.Application.Accounts.Unique.{Unique}

behind_lem :
    (body : Database → Result Nothing × Database) (db : Database) (r : Result Nothing × Limiter)
    → (body db).0 ≡ ok tt
    → (behind body db r).0 ≡ r.0
behind_lem body db (err e, limiter) h = refl
behind_lem body db (ok o, limiter) h = h

-- An entity that is writable is saved without a raise.
save_lem :
    (v : User) (w : Work)
    → Writable w.db.users v
    → save_user v w ≡ saved w (ok (next_of v, map (rewrite_row v (next_of v)) w.db.users))
unfolding save_user UserRepo.update uniqueness_error
save_lem v w (there, name, email) = rw there (rw name (rw email refl))

module _ (q : Request) where
  reset_for_lem :
      (p : User → Bool) (found : Option User) (w : Work)
      → Unique w.db
      → first_user p w.db.users ≡ found
      → (o : Option User) × (w' : Work) × (reset_for q found w ≡ (ok o, w'))
  unfolding User.request_password_reset ◌>>=◌ give
  reset_for_lem p none w h e = (none, w, refl)
  reset_for_lem p (some u) w h e =
      let v = User.request_password_reset q.crypto u 1 q.drawn q.now in
      let written = save_lem v w (found-Writable p w.db.users u h e) in
      (
        some (next_of v),
        (saved w (ok (next_of v, map (rewrite_row v (next_of v)) w.db.users))).1,
        ap (on_result (λ (x : User). give (some x))) written,
      )

  ask_lem :
      (email : String) (db : Database)
      → Unique db
      → validate_email (some (codes email)) ≡ ok tt
      → (transact q.id_of q.now (PasswordReset.ask_reset q email) db).0 ≡ ok tt
  unfolding transact settle begin PasswordReset.ask_reset UserService.request_password_reset
      UserRepo.acquire_by_email ◌>>=◌ give checked query
  ask_lem email db h valid =
      let (o, w, asked) =
        reset_for_lem (λ (u : User). opt_str_eq u.email (some email) && not_deleted u) _ (begin db)
          h refl in
      rw valid (rw asked refl)

  -- After any requests on rows of users of which no two were in conflict: a request for a password
  -- reset with a well-formed address is answered as the limiter of the caller's address decides,
  -- success if it lets the request through, whoever has the address and whether or not anyone has.
  pub request_password_reset_alike :
      (config : RateLimitConfig) (ip_address : Option String) (email : String) (start db : Database)
      (limiter : Limiter)
      → Unique start
      → Reach start db
      → validate_email (some (codes email)) ≡ ok tt
      → (PasswordReset.request_password_reset q config ip_address email (db, limiter)).0
        ≡ (limited config "password-reset-request:" q.now ip_address limiter).0
  unfolding PasswordReset.request_password_reset
  request_password_reset_alike config ip_address email start db limiter apart requests valid =
      behind_lem (transact q.id_of q.now (PasswordReset.ask_reset q email)) db
        (limited config "password-reset-request:" q.now ip_address limiter)
        (ask_lem email db (Reach-Unique apart requests) valid)
