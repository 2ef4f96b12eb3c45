-- ===== src/Application/RefreshToken.antt =====
-- src/application/user/commands/refresh_token.py and UserService.refresh_session
-- (src/application/user/services.py). `raw` is the text that `secrets` draws for the new token,
-- `id` the new token's id. A request that raises before its commit leaves the committed rows.
pub mod Granted
pub mod Replay
pub mod Outcome
use fast_stream_template.Common.{
  ℕ, List, Option, String, Time, Uuid, [], if◌then◌else◌, none, not, seconds, some, ◌*◌, ◌+◌, ◌==◌,
  ◌∷◌,
}
use fast_stream_template.Errors.{
  account_locked, refresh_token_reuse, Result, err, invalid_credentials, ok,
}
use fast_stream_template.Domain.Ports.{Crypto}
use fast_stream_template.Domain.Tokens.{from_raw, TokenHash}
use fast_stream_template.Domain.User
use fast_stream_template.Domain.User.{User}
use fast_stream_template.Domain.Session
use fast_stream_template.Domain.Session.{
  SessionAggregate, RefreshToken, find_refresh_token, new_refresh_token, token_is_valid,
}
use fast_stream_template.Domain.Session.Rotation.{rotate}
use fast_stream_template.Infrastructure.SessionRepo
use fast_stream_template.Infrastructure.UserRepo
use fast_stream_template.Infrastructure.SessionRepo.{SessionTables, acquire_by_token_hash}
use fast_stream_template.Application.UnitOfWork.{Database, Work, begin, commit, register}

abbrev pub session_expire_seconds : ℕ
session_expire_seconds = 60 * 60 * 24 * 30

abbrev pub refresh_token_expire_seconds : ℕ
refresh_token_expire_seconds = 60 * 60 * 24 * 7

-- `self._session_repo.update` and `self._uow.register` of one session
unfoldable pub save_session : SessionAggregate → Work → Work
unfolding register
save_session s w =
    register s.events
      (record w { db = record w.db { sessions = SessionRepo.update s w.db.sessions } })

abbrev pub Refreshed : Type 0
Refreshed = SessionAggregate × (User × String)

module _ (crypto : Crypto) (raw : String) (id : Uuid) (now : Time) (w : Work) where
  -- The rotation at the end of `refresh_session`
  unfoldable pub renew : SessionAggregate → RefreshToken → User → Result Refreshed × Work
  unfolding save_session rotate new_refresh_token
  renew s presented user =
      let next =
        new_refresh_token (from_raw crypto raw) id (now + seconds refresh_token_expire_seconds)
          now in
      let refreshed = rotate s presented next session_expire_seconds now in
      (ok (refreshed, (user, raw)), save_session refreshed w)

  -- The checks of the user
  unfoldable pub for_user : SessionAggregate → RefreshToken → Option User → Result Refreshed × Work
  unfolding renew
  for_user s presented none = (err invalid_credentials, w)
  for_user s presented (some user) =
      if User.is_deleted user
      then (err invalid_credentials, w)
      else if User.is_locked user now
      then (err account_locked, w)
      else renew s presented user

  -- The checks of the presented token
  unfoldable pub for_token : SessionAggregate → Option RefreshToken → Result Refreshed × Work
  unfolding for_user save_session
  for_token s none = (err invalid_credentials, w)
  for_token s (some presented) =
      if not (token_is_valid presented now)
      then (err refresh_token_reuse, save_session (Session.revoke s) w)
      else for_user s presented (UserRepo.acquire_by_id s.user_id w.db.users)

  -- The checks of the session
  unfoldable pub for_session : TokenHash → Option SessionAggregate → Result Refreshed × Work
  unfolding for_token
  for_session token_hash none = (err invalid_credentials, w)
  for_session token_hash (some s) =
      if Session.is_expired s now
      then (err invalid_credentials, w)
      else for_token s (find_refresh_token s token_hash)

  -- UserService.refresh_session
  unfoldable pub refresh_session : String → Result Refreshed × Work
  unfolding for_session
  refresh_session refresh_token =
      let token_hash = from_raw crypto refresh_token in
      for_session token_hash (acquire_by_token_hash w.db.sessions token_hash)

-- The commit of RefreshTokenUseCase, or the end of the transaction without one
unfoldable pub committed :
    (ℕ → Uuid) → Time → Database → Result Refreshed × Work → Result Refreshed × Database
unfolding commit
committed id_of now db (ok out, w) = (ok out, commit id_of now w)
committed id_of now db (err e, w) = (err e, db)

-- RefreshTokenUseCase
unfoldable pub refresh_token_use_case :
    Crypto → String → Uuid → (ℕ → Uuid) → Time → String → Database → Result Refreshed × Database
unfolding committed refresh_session begin
refresh_token_use_case crypto raw id id_of now refresh_token db =
    committed id_of now db (refresh_session crypto raw id now (begin db) refresh_token)
