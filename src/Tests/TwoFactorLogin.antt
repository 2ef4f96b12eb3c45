-- ===== src/Tests/TwoFactorLogin.antt =====
-- The second step of a login on concrete rows.
use fast_stream_template.Common.{ℕ, String, Option, none, some, List, [], ◌∷◌, ◌+◌, ◌≡◌, refl}
use fast_stream_template.Errors.{ok}
use fast_stream_template.Domain.Ports.{plain_crypto}
use fast_stream_template.Domain.User
use fast_stream_template.Domain.User.{User}
use fast_stream_template.Domain.Session.{no_device}
use fast_stream_template.Infrastructure.ChallengeStore
use fast_stream_template.Infrastructure.ChallengeStore.{TwoFactorChallenge}
use fast_stream_template.Infrastructure.UserRepo
use fast_stream_template.Application.Login.{Draws}
use fast_stream_template.Application.CompleteTwoFactor.{
  Second, complete_two_factor, CompleteTwoFactorOutput,
}
use fast_stream_template.Application.CompleteTwoFactor.SecondFactor.{
  Proved, complete_two_factor_lem,
}

abbrev dora : User
dora = record (User.create plain_crypto 9 "dora" none "Passw0rd!" "t0k" 100) {
  events = [];
  two_factor_secret =
      some (record { secret = "seed"; backup_code_hashes = []; enabled_at = some 150 });
}

abbrev asked_dora : TwoFactorChallenge
asked_dora = record {
  user_id = 9;
  device_info = no_device;
  attempts = 0;
  login_challenge = some "hydra";
}

abbrev waiting : Second
waiting = record {
  db = record { users = dora ∷ []; sessions = record { sessions = []; tokens = [] }; outbox = [] };
  challenges = ChallengeStore.issue [] asked_dora "c1" 400;
  used_codes = [];
}

abbrev second_draws : Draws
second_draws = record {
  raw = "r1";
  session_id = 30;
  token_id = 31;
  challenge_token = "";
  id_of = λ n. 500 + n;
  now = 500;
}

abbrev label : ℕ → String → String
label user_id code = code

abbrev signed_in : CompleteTwoFactorOutput
signed_in = record {
  user_id = 9;
  session_id = 30;
  refresh_token = "r1";
  login_challenge = some "hydra";
}

abbrev closed : Second
closed = (complete_two_factor plain_crypto label second_draws "c1" "seed" waiting).1

complete_two_factor_lem_example :
    (c : TwoFactorChallenge) × ((ChallengeStore.read waiting.challenges "c1" 500).0 ≡ ok c)
    × Proved plain_crypto label second_draws "c1" "seed" signed_in closed c []
        (UserRepo.acquire_by_id c.user_id (dora ∷ []))
unfolding complete_two_factor fast_stream_template.Application.CompleteTwoFactor.for_account
    fast_stream_template.Application.CompleteTwoFactor.start
    fast_stream_template.Application.CompleteTwoFactor.is_updated
    fast_stream_template.Application.Login.build_session fast_stream_template.Domain.Session.create
    fast_stream_template.Domain.Session.add_refresh_token
    fast_stream_template.Domain.TwoFactor.remaining_backup_codes ChallengeStore.read
    ChallengeStore.issue ChallengeStore.stored ChallengeStore.was_used UserRepo.acquire_by_id
    UserRepo.first_user fast_stream_template.Infrastructure.Cache.get
    fast_stream_template.Infrastructure.Cache.set
    fast_stream_template.Infrastructure.Cache.read_entry fast_stream_template.Common.Dict.lookup
    fast_stream_template.Common.Dict.insert User.create User.is_deleted User.is_locked
    User.verify_two_factor fast_stream_template.Domain.AccountLock.is_locked_out
complete_two_factor_lem_example =
    complete_two_factor_lem plain_crypto label second_draws "c1" "seed" signed_in waiting closed
      refl
