-- ===== src/Tests/Refresh.antt =====
-- A refresh, and the same token presented again, on concrete rows.
use fast_stream_template.Infrastructure.UserRepo
use fast_stream_template.Common.{[], none, refl, some, true, ◌++◌, ◌+◌, ◌∷◌, ◌≡◌}
use fast_stream_template.Errors.{Error, Result, err, invalid_credentials, ok}
use fast_stream_template.Domain.Ports.{plain_crypto}
use fast_stream_template.Domain.Tokens.{from_raw}
use fast_stream_template.Domain.User
use fast_stream_template.Domain.User.{User}
use fast_stream_template.Domain.Events.{token_refreshed}
use fast_stream_template.Domain.Session
use fast_stream_template.Domain.Session.{SessionAggregate, RefreshToken, no_device}
use fast_stream_template.Infrastructure.Outbox.{outbox_event}
use fast_stream_template.Infrastructure.SessionRepo
use fast_stream_template.Infrastructure.SessionRepo.{SessionTables}
use fast_stream_template.Application.UnitOfWork.{Database}
use fast_stream_template.Application.RefreshToken.{Refreshed, refresh_token_use_case}
use fast_stream_template.Application.RefreshToken.Granted.{Active}
use fast_stream_template.Application.RefreshToken.Replay.{replay_unnoticed}
use fast_stream_template.Application.RefreshToken.Outcome.{refresh_outcome}

abbrev bob : User
bob = record (User.create plain_crypto 7 "bob" none "Passw0rd!" "t0k" 100) { events = [] }

abbrev held : SessionAggregate
held =
    Session.add_refresh_token (Session.create 7 no_device 60 20 100)
      (Session.new_refresh_token "h1" 21 900 100)

abbrev stored_rows : Database
stored_rows = record {
  users = bob ∷ [];
  sessions = SessionRepo.add held (record { sessions = []; tokens = [] });
  outbox = [];
}

abbrev exchanged : Result Refreshed × Database
exchanged = refresh_token_use_case plain_crypto "h2" 22 (λ n. 1000 + n) 300 "h1" stored_rows

abbrev after : SessionAggregate
after = record (Session.revoke_token held 21) { events = [] }

abbrev given_out : Refreshed
given_out = elim exchanged.0 [ ok out ↦ out | err e ↦ (held, (bob, "")) ]

replay_unnoticed_example :
    refresh_token_use_case plain_crypto "h3" 23 (λ n. 2000 + n) 400 "h1" exchanged.1
    ≡ (err invalid_credentials, exchanged.1)
unfolding refresh_token_use_case from_raw SessionRepo.add Session.add_refresh_token Session.create
    Session.new_refresh_token SessionRepo.acquire_by_token_hash SessionRepo.find_live_token
    SessionRepo.find_session SessionRepo.session_from_rows SessionRepo.tokens_of User.create
    Session.is_expired Session.find_refresh_token Session.token_is_valid User.is_deleted
    User.is_locked UserRepo.acquire_by_id fast_stream_template.Domain.AccountLock.is_locked_out
replay_unnoticed_example =
    replay_unnoticed plain_crypto "h1" "h2" "h3" 22 23 (λ n. 1000 + n) (λ n. 2000 + n) 300 400
      stored_rows exchanged.1 given_out (refl, tt) refl refl refl

refresh_outcome_example :
    ((e : Error) → exchanged ≡ (err e, exchanged.1) → exchanged.1 ≡ stored_rows)
    × ((out : Refreshed)
        → exchanged ≡ (ok out, exchanged.1)
        → (s : SessionAggregate) × (p : RefreshToken) × (u : User)
          × (SessionRepo.acquire_by_token_hash stored_rows.sessions (from_raw plain_crypto "h1")
              ≡ some s)
          × (Session.is_valid s 300 ≡ true)
          × (Session.find_valid_refresh_token s (from_raw plain_crypto "h1") 300 ≡ some p)
          × Active 300 (UserRepo.acquire_by_id s.user_id stored_rows.users) u
          × (exchanged.1.users ≡ stored_rows.users)
          × (exchanged.1.outbox
              ≡ stored_rows.outbox
                ++ outbox_event 1000 300 (token_refreshed s.session_id s.user_id) ∷ [])
          × (out.1 ≡ (u, "h2")))
refresh_outcome_example =
    refresh_outcome plain_crypto "h1" "h2" 22 (λ n. 1000 + n) 300 stored_rows exchanged.1
