-- ===== src/Tests/Limits.antt =====
-- The rate limiters on concrete inputs.
use fast_stream_template.Common.{
  [], true, List, String, Time, arith, false, leb, refl, str_eq, ◌∷◌, ◌≡◌, ◌≤◌,
}
use fast_stream_template.Infrastructure.RateLimiter.{
  RateLimitConfig, Limiter, admit, bucket, earliest, is_locked, recent, reset,
}
use fast_stream_template.Common.Dict.{lookup}
use fast_stream_template.Infrastructure.RateLimiter.Window.{times, in_window, is_allowed, run}
use fast_stream_template.Infrastructure.RateLimiter.Limit.{limit_in_every_window, start}
use fast_stream_template.Infrastructure.RateLimiter.Reset.{refused_until_announced, announced}
use fast_stream_template.Infrastructure.RateLimiter.Logins.{fail_each, failures_lock}

abbrev two_a_minute : RateLimitConfig
two_a_minute = record {
  max_requests = 2;
  window_seconds = 60;
  max_login_attempts = 2;
  lockout_seconds = 900;
  cleanup_interval_seconds = 300;
  max_keys = 1000;
}

limit_in_every_window_example :
    in_window 60 10 (
      times "a"
        (run two_a_minute (("a", 10) ∷ ("b", 20) ∷ ("a", 30) ∷ ("a", 40) ∷ []) (start 5) []))
    ≤ 2
limit_in_every_window_example =
    limit_in_every_window two_a_minute (("a", 10) ∷ ("b", 20) ∷ ("a", 30) ∷ ("a", 40) ∷ []) 5
      (omega arith, (omega arith, (omega arith, (omega arith, tt)))) (omega arith) "a" 10

abbrev full : Limiter
full = record { buckets = ("a", 10 ∷ 30 ∷ []) ∷ []; last_cleanup = 5 }

refused_until_announced_example :
    is_allowed (admit two_a_minute "a" 60000010 (admit two_a_minute "a" 40 full).0).1
    ≡ leb (announced (admit two_a_minute "a" 40 full).1) 60000010
unfolding admit recent bucket lookup earliest
refused_until_announced_example =
    refused_until_announced two_a_minute "a" 40 60000010 full (omega arith) (omega arith)
      (omega arith) refl

abbrev missed : List (String × Time)
missed = ("a", 10) ∷ ("b", 20) ∷ ("a", 900000015) ∷ ("a", 900000020) ∷ []

-- The first failure is over, and the two that are left are enough.
failures_lock_example :
    let l = fail_each two_a_minute missed (record { buckets = []; last_cleanup = 5 }) in
    (is_locked two_a_minute "a" 900000030 l ≡ true)
    × (is_locked two_a_minute "a" 900000040 (reset "a" l) ≡ false)
    × ((j : String)
        → str_eq "a" j ≡ false
        → is_locked two_a_minute j 900000040 (reset "a" l) ≡ is_locked two_a_minute j 900000040 l)
unfolding recent
failures_lock_example =
    failures_lock two_a_minute "a" missed 900000030 900000040 5 (omega arith)
      (omega arith, (omega arith, (omega arith, (omega arith, tt)))) (omega arith)
