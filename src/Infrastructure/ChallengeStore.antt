-- ===== src/Infrastructure/ChallengeStore.antt =====
-- src/application/user/two_factor_challenge.py, src/application/user/replay_guard.py and
-- src/infrastructure/two_factor_challenge_store.py. The cache holds the challenge itself: its JSON
-- text is not modelled, and so not the branch for one that does not parse.
pub mod OneShot
use fast_stream_template.Common.{
  ℕ, Bool, Option, String, Time, Uuid, if◌then◌else◌, is_some, leb, none, some, ◌+◌,
}
use fast_stream_template.Errors.{Result, err, ok, two_factor_challenge_expired}
use fast_stream_template.Domain.Session.{DeviceInfo, device_of}
use fast_stream_template.Infrastructure.Cache
use fast_stream_template.Infrastructure.Cache.{Cache}

abbrev pub challenge_ttl_seconds : ℕ
challenge_ttl_seconds = 300

abbrev pub max_challenge_attempts : ℕ
max_challenge_attempts = 5

pub record TwoFactorChallenge : Type 0 where
  pub user_id : Uuid
  pub device_info : DeviceInfo
  pub attempts : ℕ
  pub login_challenge : Option String

-- TwoFactorChallenge.with_failed_attempt
unfoldable pub with_failed_attempt : TwoFactorChallenge → TwoFactorChallenge
with_failed_attempt c = record c { attempts = c.attempts + 1 }

-- TwoFactorChallenge.is_exhausted
unfoldable pub is_exhausted : TwoFactorChallenge → Bool
is_exhausted c = leb max_challenge_attempts c.attempts

-- _StoredChallenge.of and to_challenge, one after the other: of the device the store keeps the user
-- agent and the address.
unfoldable pub stored : TwoFactorChallenge → TwoFactorChallenge
stored c = record c { device_info = device_of c.device_info.user_agent c.device_info.ip_address }

-- The cache's keys are `pending_2fa:` and the token.
abbrev pub Challenges : Type 0
Challenges = Cache TwoFactorChallenge

-- CachedTwoFactorChallengeStore.issue, with the drawn token
unfoldable pub issue : Challenges → TwoFactorChallenge → String → Time → Challenges
unfolding stored
issue store challenge token now =
    Cache.set store token (stored challenge) (some challenge_ttl_seconds) now

abbrev pub or_expired : Option TwoFactorChallenge → Result TwoFactorChallenge
or_expired none = err two_factor_challenge_expired
or_expired (some c) = ok c

-- CachedTwoFactorChallengeStore.read
unfoldable pub read : Challenges → String → Time → Result TwoFactorChallenge × Challenges
read store token now = let (found, store') = Cache.get store token now in (or_expired found, store')

-- CachedTwoFactorChallengeStore.discard
unfoldable pub discard : Challenges → String → Challenges
discard store token = Cache.delete store token

-- CachedTwoFactorChallengeStore.record_failure; every caller raises
-- TwoFactorChallengeExpiredError after it, as it does itself for an exhausted challenge.
unfoldable pub record_failure : Challenges → String → TwoFactorChallenge → Time → Challenges
unfolding with_failed_attempt is_exhausted stored
record_failure store token challenge now =
    let updated = with_failed_attempt challenge in
    if is_exhausted updated
    then discard store token
    else Cache.set store token (stored updated) (some challenge_ttl_seconds) now

abbrev pub code_memory_seconds : ℕ
code_memory_seconds = 120

-- UsedCodeRegistry: the key is the digest of the user's id and the code, here the pair's text
-- `label`, which `key` makes.
abbrev pub UsedCodes : Type 0
UsedCodes = Cache (Unit {0})

module _ (key : Uuid → String → String) where
  -- UsedCodeRegistry.was_used
  unfoldable pub was_used : UsedCodes → Uuid → String → Time → Bool × UsedCodes
  was_used codes user_id code now =
      let (found, codes') = Cache.get codes (key user_id code) now in (is_some found, codes')

  -- UsedCodeRegistry.remember
  unfoldable pub remember : UsedCodes → Uuid → String → Time → UsedCodes
  remember codes user_id code now =
      Cache.set codes (key user_id code) tt (some code_memory_seconds) now
