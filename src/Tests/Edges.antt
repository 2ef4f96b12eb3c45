-- ===== src/Tests/Edges.antt =====
-- A retried request and a forwarded address on concrete inputs.
use fast_stream_template.Common.{
  Bool, List, Option, String, ℕ, [], any, ltb, none, refl, some, true, false, ◌+◌, ◌++◌, ◌==◌, ◌∷◌,
  ◌≡◌, if◌then◌else◌, seconds,
}
use fast_stream_template.Domain.Names.{codes}
use fast_stream_template.Domain.Events.{Event}
use fast_stream_template.Domain.User
use fast_stream_template.Tests.Accounts.{ann}
use fast_stream_template.Infrastructure.MemoryUow.{
  Aggregate, MemoryUow, add_events, commit, of_user, pull_all, register, rollback, same,
}
use fast_stream_template.Infrastructure.MemoryUow.Commits.{
  all_new, commit-register_all, register_all,
}
use fast_stream_template.Infrastructure.Idempotency.{Codec, cache_response, get_cached_response}
use fast_stream_template.Infrastructure.Idempotency.Replays.{cache_response-replayed}
use fast_stream_template.Presentation.ClientIp.{client_ip, is_space, strip}
use fast_stream_template.Presentation.ClientIp.Spoofed.{client_ip_lem}

abbrev plain_text : Codec String
plain_text = record { dump_json = λ r. r; validate_json = λ text. text }

cache_response-replayed_example :
    ((k : String)
      → (get_cached_response plain_text
          (cache_response plain_text [] "register" "fe80::1" k "created" 10)
          "register"
          "fe80::1"
          k
          99).0
        ≡ (if ltb 99 (10 + seconds 86400) then some "created" else none))
    × (get_cached_response plain_text
        (cache_response plain_text [] "register" "fe80::1" "2:k" "created" 10)
        "register"
        "fe80::1:2"
        "k"
        99).0
      ≡ (if ltb 99 (10 + seconds 86400) then some "created" else none)
cache_response-replayed_example =
    cache_response-replayed plain_text [] "register" "fe80::1" "2" "k" "created" 10 99 refl

abbrev is_proxy : List ℕ → Bool
is_proxy [] = false
is_proxy (c ∷ cs) = true

client_ip_lem_example :
    (is_proxy (codes "10.0.0.1") ≡ false
      → (header : Option (List ℕ))
      → client_ip is_proxy (some (codes "10.0.0.1")) header ≡ some (codes "10.0.0.1"))
    × (is_proxy (codes "10.0.0.1") ≡ true
        → (written appended : List ℕ) (d : ℕ) (ds : List ℕ)
        → any (λ (c : ℕ). c == b',') written ≡ false
        → strip written ≡ d ∷ ds
        → client_ip is_proxy (some (codes "10.0.0.1")) (some (written ++ b',' ∷ appended))
          ≡ some (d ∷ ds))
client_ip_lem_example = client_ip_lem is_proxy (codes "10.0.0.1")

-- The header " 6.6.6.6, 1.2.3.4" behind a proxy
forwarded :
    client_ip is_proxy (some (codes "10.0.0.1")) (some (codes " 6.6.6.6, 1.2.3.4"))
    ≡ some (codes "6.6.6.6")
unfolding strip is_space
forwarded =
    (client_ip_lem is_proxy (codes "10.0.0.1")).1 refl (codes " 6.6.6.6") (codes " 1.2.3.4") 54
      (codes ".6.6.6") refl refl

abbrev one_held : MemoryUow
one_held = record { pending_events = []; aggregates = of_user ann ∷ []; committed_events = [] }

commit-register_all_example :
    ((bs : List Aggregate) (es : List Event)
      → all_new (of_user ann ∷ []) bs ≡ true
      → (commit (register_all bs (add_events es one_held))).committed_events
        ≡ es ++ pull_all (of_user ann ∷ bs))
    × ((later : Aggregate)
        → any (same later) (of_user ann ∷ []) ≡ true
        → commit (register later one_held) ≡ commit one_held)
    × ((commit (rollback one_held)).committed_events ≡ [])
commit-register_all_example = commit-register_all one_held

-- The deletion of a registered user is not among the committed events.
deletion_lost : commit (register (of_user (User.delete ann 500)) one_held) ≡ commit one_held
unfolding same User.delete User.create
deletion_lost = (commit-register_all one_held).1 (of_user (User.delete ann 500)) refl
