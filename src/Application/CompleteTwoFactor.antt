-- ===== src/Application/CompleteTwoFactor.antt =====
-- src/application/user/commands/complete_two_factor.py. The user id of a challenge is that of a
-- user, so the UserID made of it is never refused. `key` makes the label of a used code.
pub mod SecondFactor
use fast_stream_template.Errors.{two_factor_challenge_expired, Result, err, ok}
use fast_stream_template.Application.Login.{build_session}
use fast_stream_template.Application.UnitOfWork.{begin, commit}
use fast_stream_template.Common.{
  ℕ, Bool, Option, String, Uuid, if◌then◌else◌, none, not, some, ◌==◌, ◌||◌,
}
use fast_stream_template.Domain.Ports.{Crypto}
use fast_stream_template.Domain.User
use fast_stream_template.Domain.User.{User}
use fast_stream_template.Domain.TwoFactor
use fast_stream_template.Domain.TwoFactor.{TwoFactorSecret}
use fast_stream_template.Infrastructure.ChallengeStore
use fast_stream_template.Infrastructure.ChallengeStore.{Challenges, UsedCodes, TwoFactorChallenge}
use fast_stream_template.Infrastructure.UserRepo
use fast_stream_template.Application.UnitOfWork.{Database, Work}
use fast_stream_template.Application.Login.{Draws, save_user}
use fast_stream_template.Application.LoginUseCase.{persist_session}

pub record CompleteTwoFactorOutput : Type 0 where
  pub user_id : Uuid
  pub session_id : Uuid
  pub refresh_token : String
  pub login_challenge : Option String

-- What the use case reads and writes
pub record Second : Type 0 where
  pub db : Database
  pub challenges : Challenges
  pub used_codes : UsedCodes

abbrev pub codes_left : Option TwoFactorSecret → ℕ
codes_left none = 0
codes_left (some s) = TwoFactor.remaining_backup_codes s

-- `updated_user is not user`: verify_two_factor returns another object exactly if it has spent a
-- backup code, which leaves fewer of them.
unfoldable pub is_updated : User → User → Bool
is_updated u updated = not (codes_left updated.two_factor_secret == codes_left u.two_factor_secret)

module _ (crypto : Crypto) (key : Uuid → String → String) (draws : Draws)
    (token code : String) where
  -- record_failure, and the error that the caller raises after it
  unfoldable pub fail : TwoFactorChallenge → Second → Result CompleteTwoFactorOutput × Second
  fail challenge sys = (
    err two_factor_challenge_expired,
    record sys {
      challenges = ChallengeStore.record_failure sys.challenges token challenge draws.now;
    },
  )

  -- From `remember` to the end, in the transaction
  unfoldable pub start :
      TwoFactorChallenge → User → Work → Second → Result CompleteTwoFactorOutput × Second
  start challenge updated w sys =
      let (session, raw) = build_session crypto draws updated challenge.device_info in
      (
        ok (record {
          user_id = updated.id;
          session_id = session.session_id;
          refresh_token = raw;
          login_challenge = challenge.login_challenge;
        }),
        record {
          db = commit draws.id_of draws.now (persist_session session w);
          challenges = ChallengeStore.discard sys.challenges token;
          used_codes = ChallengeStore.remember key sys.used_codes challenge.user_id code draws.now;
        },
      )

  abbrev pub after_save :
      TwoFactorChallenge → Second → Result User × Work → Result CompleteTwoFactorOutput × Second
  after_save challenge sys (err e, w) = (err e, sys)
  after_save challenge sys (ok updated, w) = start challenge updated w sys

  -- What becomes of the answer of verify_two_factor
  abbrev pub for_verified :
      TwoFactorChallenge → User → Second → Bool × User → Result CompleteTwoFactorOutput × Second
  for_verified challenge user sys (verified, updated) =
      if not verified
      then fail challenge sys
      else if is_updated user updated
      then after_save challenge sys (save_user updated (begin sys.db))
      else start challenge updated (begin sys.db) sys

  -- The test of a code that was used before
  abbrev pub for_used :
      TwoFactorChallenge
      → User
      → Second
      → Bool × UsedCodes
      → Result CompleteTwoFactorOutput × Second
  for_used challenge user sys (used, used_codes) =
      let sys1 : Second = record sys { used_codes = used_codes } in
      if used
      then fail challenge sys1
      else for_verified challenge user sys1 (User.verify_two_factor crypto user code draws.now)

  -- The checks of the user
  unfoldable pub for_account :
      TwoFactorChallenge → Second → Option User → Result CompleteTwoFactorOutput × Second
  for_account challenge sys none = (
    err two_factor_challenge_expired,
    record sys { challenges = ChallengeStore.discard sys.challenges token },
  )
  for_account challenge sys (some user) =
      if User.is_deleted user || User.is_locked user draws.now
      then (
        err two_factor_challenge_expired,
        record sys { challenges = ChallengeStore.discard sys.challenges token },
      )
      else for_used challenge user sys
          (ChallengeStore.was_used key sys.used_codes challenge.user_id code draws.now)

  abbrev pub for_challenge :
      Second → Result TwoFactorChallenge × Challenges → Result CompleteTwoFactorOutput × Second
  for_challenge sys (err e, challenges) = (err e, record sys { challenges = challenges })
  for_challenge sys (ok challenge, challenges) =
      for_account challenge (record sys { challenges = challenges })
        (UserRepo.acquire_by_id challenge.user_id sys.db.users)

  -- CompleteTwoFactorUseCase
  unfoldable pub complete_two_factor : Second → Result CompleteTwoFactorOutput × Second
  complete_two_factor sys = for_challenge sys (ChallengeStore.read sys.challenges token draws.now)
