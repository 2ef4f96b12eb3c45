-- ===== src/Application/Accounts/Sessions.antt =====
-- src/application/user/commands/manage_sessions.py. The UUID of a session id is made before.
use fast_stream_template.Common.{ℕ, List, Option, Time, Uuid, none, some}
use fast_stream_template.Errors.{Result, err, ok}
use fast_stream_template.Domain.Session.{SessionAggregate}
use fast_stream_template.Domain.Names.{validate_user_id}
use fast_stream_template.Application.UnitOfWork.{Database, Work, begin, commit}
use fast_stream_template.Application.Transaction.{Tx, Nothing, checked, transact, ◌>>◌}
use fast_stream_template.Application.UserService

-- `if session: await self._uow.commit()`
abbrev pub settle_found :
    (ℕ → Uuid)
    → Time
    → Database
    → Result (Option SessionAggregate) × Work
    → Result Nothing × Database
settle_found id_of now db (err e, w) = (err e, db)
settle_found id_of now db (ok none, w) = (ok tt, db)
settle_found id_of now db (ok (some s), w) = (ok tt, commit id_of now w)

-- RevokeSessionUseCase before its commit
unfoldable pub find_and_revoke : Uuid → Uuid → Tx (Option SessionAggregate)
find_and_revoke user_id session_id = do
  checked (validate_user_id user_id)
  UserService.revoke_session session_id user_id

-- RevokeSessionUseCase
unfoldable pub revoke_session :
    (ℕ → Uuid) → Time → Uuid → Uuid → Database → Result Nothing × Database
unfolding commit begin
revoke_session id_of now user_id session_id db =
    settle_found id_of now db (find_and_revoke user_id session_id (begin db))

-- RevokeAllSessionsUseCase before its commit
unfoldable pub revoke_each : Uuid → Tx (List SessionAggregate)
revoke_each user_id = do checked (validate_user_id user_id); UserService.revoke_all_sessions user_id

-- The two calls of Hydra for one subject, in the order of the source
pub record HydraSessions : Type 0 where
  pub revoke_consent_sessions : Uuid → Result Nothing
  pub revoke_login_sessions : Uuid → Result Nothing

abbrev pub then_call : {A : Type 0} → Result A → Result Nothing → Result Nothing
then_call (err e) r = err e
then_call (ok a) r = r

-- RevokeAllSessionsUseCase: a failure of Hydra is raised after the commit
unfoldable pub revoke_all :
    HydraSessions → (ℕ → Uuid) → Time → Uuid → Database → Result Nothing × Database
revoke_all hydra id_of now user_id db =
    let (r, db') = transact id_of now (revoke_each user_id) db in
    (
      then_call r
          (then_call (hydra.revoke_consent_sessions user_id) (hydra.revoke_login_sessions user_id)),
      db',
    )
