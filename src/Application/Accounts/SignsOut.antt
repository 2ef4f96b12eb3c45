-- ===== src/Application/Accounts/SignsOut.antt =====
-- What refresh tokens are worth after a request that ends the sessions of a user.
use fast_stream_template.Common.{
  String, Uuid, Time, ℕ, List, ap, arith, sym, some, false, ◌≡◌, ◌∙◌, inl, inr,
}
use fast_stream_template.Errors.{ok}
use fast_stream_template.Domain.User
use fast_stream_template.Domain.User.{User}
use fast_stream_template.Domain.Ports.{Crypto}
use fast_stream_template.Domain.Tokens.{from_raw}
use mathlib.Core.Path.{subst}
use mathlib.Core.Logic.{◌≢◌}
use fast_stream_template.Domain.Session.{SessionAggregate}
use fast_stream_template.Infrastructure.UserRepo
use fast_stream_template.Infrastructure.SessionRepo.{acquire_by_token_hash}
use fast_stream_template.Infrastructure.SessionRepo.Revoked.{acquire_by_token_hash-closed}
use fast_stream_template.Application.UnitOfWork.{Database, Work, begin, commit}
use fast_stream_template.Application.RefreshToken.{Refreshed, refresh_token_use_case}
use fast_stream_template.Application.RefreshToken.Outcome.{refresh_outcome}
use fast_stream_template.Application.Transaction.{transact}
use fast_stream_template.Application.Transaction.Ensures.{transact-Ensures}
use fast_stream_template.Application.UserService.{Request}
use fast_stream_template.Application.Accounts.PasswordReset
use fast_stream_template.Application.Accounts.Profile
use fast_stream_template.Application.Accounts.Sessions
use fast_stream_template.Application.Accounts.Sessions.{HydraSessions}
use fast_stream_template.Application.Accounts.SignedOut.{
  Gone, SignedOut, acquire_by_id_lem, confirm-SignedOut, remove-Gone, replace-SignedOut,
  revoke_each-SignedOut,
}

-- A request that returned and that is to end every session of a user
pub data SignsOut (user_id : Uuid) (db db' : Database) : Type 0 where
  password_changed :
      (q : Request) (old_password new_password : String) (u : User)
      → Profile.change_password q user_id old_password new_password db ≡ (ok u, db')
      → SignsOut user_id db db'
  password_was_reset :
      (q : Request) (token new_password : String) (u : User)
      → transact q.id_of q.now (PasswordReset.confirm_reset q token new_password) db ≡ (ok u, db')
      → u.id ≡ user_id
      → SignsOut user_id db db'
  account_deleted :
      (q : Request) (u : User)
      → Profile.delete_me q user_id db ≡ (ok u, db')
      → SignsOut user_id db db'
  sessions_revoked :
      (id_of : ℕ → Uuid) (now : Time) (ss : List SessionAggregate)
      → transact id_of now (Sessions.revoke_each user_id) db ≡ (ok ss, db')
      → SignsOut user_id db db'

committed-Gone :
    (user_id : Uuid) (w : Work) (id_of : ℕ → Uuid) (now : Time) (db : Database)
    → commit id_of now w ≡ db
    → Gone user_id w.db
    → Gone user_id db
unfolding commit
committed-Gone user_id w id_of now db h out = subst (Gone user_id) h out

SignsOut-Gone : (user_id : Uuid) (db db' : Database) → SignsOut user_id db db' → Gone user_id db'
unfolding Profile.change_password Profile.delete_me
SignsOut-Gone user_id db db' (password_changed q o n u h) =
    let (w, out, done) =
      transact-Ensures (Profile.replace_password q user_id o n) q.id_of q.now db db' u
        (replace-SignedOut q user_id o n (begin db)) h in
    committed-Gone user_id w q.id_of q.now db' done (inl out)
SignsOut-Gone user_id db db' (password_was_reset q t n u h same) =
    let (w, out, done) =
      transact-Ensures (PasswordReset.confirm_reset q t n) q.id_of q.now db db' u
        (confirm-SignedOut q t n (begin db)) h in
    committed-Gone user_id w q.id_of q.now db' done
      (inl (subst (λ (i : Uuid). SignedOut i w.db) same out))
SignsOut-Gone user_id db db' (account_deleted q u h) =
    let (w, out, done) =
      transact-Ensures (Profile.remove_account q user_id) q.id_of q.now db db' u
        (remove-Gone q user_id (begin db)) h in
    committed-Gone user_id w q.id_of q.now db' done out
SignsOut-Gone user_id db db' (sessions_revoked id_of now ss h) =
    let (w, out, done) =
      transact-Ensures (Sessions.revoke_each user_id) id_of now db db' ss
        (revoke_each-SignedOut user_id (begin db)) h in
    committed-Gone user_id w id_of now db' done (inl out)

refused-Gone :
    (user_id : Uuid) (db : Database) (token : String) (crypto : Crypto) (s : SessionAggregate)
    (u : User)
    → Gone user_id db
    → acquire_by_token_hash db.sessions (from_raw crypto token) ≡ some s
    → UserRepo.acquire_by_id s.user_id db.users ≡ some u
    → User.is_deleted u ≡ false
    → u.id ≢ user_id
refused-Gone user_id db token crypto s u (inl out) loaded found live same =
    let owner = acquire_by_id_lem s.user_id db.users u found in
    let other =
      acquire_by_token_hash-closed user_id db.sessions (from_raw crypto token) s out loaded in
    absurd (ground arith)
refused-Gone user_id db token crypto s u (inr (v, gone, deleted)) loaded found live same =
    let owner : u.id ≡ s.user_id = acquire_by_id_lem s.user_id db.users u found in
    let one : some v ≡ some u =
      sym gone ∙ ap (λ (i : Uuid). UserRepo.acquire_by_id i db.users) (sym same ∙ owner) ∙ found in
    absurd (ground arith)

-- After a change of the password, a reset of it, the deletion of the account or the revocation of
-- all sessions has returned, no refresh token whatsoever is exchanged for a session of that user.
pub SignsOut-refused :
    (user_id : Uuid) (db db' db'' : Database) (crypto : Crypto) (token raw : String) (id : Uuid)
    (id_of : ℕ → Uuid) (now : Time) (out : Refreshed)
    → SignsOut user_id db db'
    → refresh_token_use_case crypto raw id id_of now token db' ≡ (ok out, db'')
    → out.1.0.id ≢ user_id
SignsOut-refused user_id db db' db'' crypto token raw id id_of now out signs granted same =
    let (s, p, u, loaded, valid, held, (found, live, open_), users, outbox, returned) =
      (refresh_outcome crypto token raw id id_of now db' db'').1 out granted in
    refused-Gone user_id db' token crypto s u (SignsOut-Gone user_id db db' signs) loaded found live
      (sym (ap (λ (r : User × String). r.0.id) returned) ∙ same)
