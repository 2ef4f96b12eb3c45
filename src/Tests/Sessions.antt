-- ===== src/Tests/Sessions.antt =====
-- Sessions and the challenges between a login's two factors on concrete inputs.
use fast_stream_template.Common.{
  [], false, is_some, ltb, none, refl, seconds, some, str_eq, ◌+◌, ◌<◌, ◌∷◌, ◌≡◌, ◌≤◌, arith,
  str_eq_iff, String,
}
use fast_stream_template.Errors.{err, ok, two_factor_challenge_expired}
use fast_stream_template.Domain.Session
use fast_stream_template.Domain.Session.{SessionAggregate, RefreshToken, no_device}
use fast_stream_template.Domain.Session.Rotation.{rotate, revoke-invalidates, rotate_lem}
use fast_stream_template.Infrastructure.Cache
use fast_stream_template.Infrastructure.Cache.{Cache, get-set}
use fast_stream_template.Infrastructure.ChallengeStore
use fast_stream_template.Infrastructure.ChallengeStore.{TwoFactorChallenge}
use fast_stream_template.Infrastructure.ChallengeStore.OneShot.{
  challenge_lifetime, Prompt, with_attempts, wrong_codes,
}

abbrev first : RefreshToken
first = Session.new_refresh_token "h1" 21 900 100

abbrev begun : SessionAggregate
begun = Session.add_refresh_token (Session.create 7 no_device 60 20 100) first

revoke-invalidates_example :
    (Session.is_valid (Session.revoke begun) 200 ≡ false)
    × (Session.find_valid_refresh_token (Session.revoke begun) "h1" 200 ≡ none)
    × ((Session.revoke begun).session_id ≡ begun.session_id)
    × ((Session.revoke begun).user_id ≡ begun.user_id)
revoke-invalidates_example = revoke-invalidates begun "h1" 200

rotate_lem_example :
    let s' = rotate begun first (Session.new_refresh_token "h2" 22 950 300) 60 300 in
    (Session.find_refresh_token s' "h1" ≡ some (Session.revoked first))
    × (Session.find_valid_refresh_token s' "h1" 400 ≡ none)
    × (is_some (Session.find_valid_refresh_token s' "h2" 400) ≡ ltb 400 950)
    × (s'.expires_at ≡ 300 + seconds 60)
unfolding Session.add_refresh_token Session.create Session.new_refresh_token
    Session.find_refresh_token
rotate_lem_example =
    rotate_lem begun "h1" "h2" first 22 950 60 300 400 refl
      ((λ same. ground (arith, str_eq_iff "h2" "h1")), tt)

get-set_example :
    ((Cache.get (Cache.set {V = String} [] "k" "v" (some 0) 10) "k" 99).0 ≡ some "v")
    × (str_eq "k" "j" ≡ false
        → (Cache.get (Cache.set {V = String} [] "k" "v" (some 0) 10) "j" 99).0
          ≡ (Cache.get {V = String} [] "j" 99).0)
    × ((Cache.get (Cache.delete {V = String} [] "k") "k" 99).0 ≡ none)
    × (str_eq "k" "j" ≡ false
        → (Cache.get (Cache.delete {V = String} [] "k") "j" 99).0
          ≡ (Cache.get {V = String} [] "j" 99).0)
get-set_example = get-set [] "k" "j" "v" 0 10 99

abbrev prompt : TwoFactorChallenge
prompt = record {
  user_id = 7;
  device_info = no_device;
  attempts = 0;
  login_challenge = some "hydra";
}

challenge_lifetime_example :
    (Prompt 100 (150 ∷ 160 ∷ []) 200
      → 2 < 5
      → (ChallengeStore.read
          (wrong_codes (150 ∷ 160 ∷ []) "tok" (ChallengeStore.issue [] prompt "tok" 100))
          "tok"
          200).0
        ≡ ok (with_attempts (ChallengeStore.stored prompt) 2))
    × (5 ≤ 2
        → (ChallengeStore.read
            (wrong_codes (150 ∷ 160 ∷ []) "tok" (ChallengeStore.issue [] prompt "tok" 100))
            "tok"
            200).0
          ≡ err two_factor_challenge_expired)
    × ((ChallengeStore.read (ChallengeStore.discard [] "tok") "tok" 200).0
        ≡ err two_factor_challenge_expired)
challenge_lifetime_example = challenge_lifetime [] prompt "tok" 100 200 (150 ∷ 160 ∷ []) refl
