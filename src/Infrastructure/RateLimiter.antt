-- ===== src/Infrastructure/RateLimiter.antt =====
-- src/infrastructure/security/rate_limiter.py (the in-memory limiters) and the result type of
-- src/application/common/interfaces/system/rate_limiter.py. Each method reads the clock once
-- (`now`); `ts > now - w` is written `now < ts + w`, since numbers have no negatives.
pub mod Window
pub mod Limit
pub mod Reset
pub mod Logins
use fast_stream_template.Common.{
  ℕ, ◌+◌, ◌-◌, ◌*◌, ◌/◌, min, max, String, Bool, true, false, not, ◌&&◌, ◌||◌, Option, none, some,
  List, [], ◌∷◌, ◌++◌, ltb, leb, ◌==◌, if◌then◌else◌, Time, seconds, length, all, keep, take,
}
use fast_stream_template.Common.Dict.{Dict, lookup, insert, remove, retain}

pub record RateLimitConfig : Type 0 where
  pub max_requests : ℕ
  pub window_seconds : ℕ
  pub max_login_attempts : ℕ
  pub lockout_seconds : ℕ
  pub cleanup_interval_seconds : ℕ
  pub max_keys : ℕ

pub record RateLimitResult : Type 0 where
  pub allowed : Bool
  pub remaining : ℕ
  pub reset_at : Option Time

abbrev pub wait_seconds : Option Time → Time → Option ℕ
wait_seconds none now = none
wait_seconds (some t) now = some (max 1 ((t - now) / 1000000))

-- RateLimitResult.retry_after_seconds
unfoldable pub retry_after_seconds : RateLimitResult → Time → Option ℕ
retry_after_seconds r now = wait_seconds r.reset_at now

-- InMemoryRateLimiter: the times of the requests that were let through, by key.
pub record Limiter : Type 0 where
  pub buckets : Dict (List Time)
  pub last_cleanup : Time

-- [ts for ts in bucket if ts > now - window]
unfoldable pub recent : ℕ → Time → List Time → List Time
recent window now bucket = keep (λ (ts : Time). ltb now (ts + seconds window)) bucket

-- `not v or all(ts < now - window for ts in v)`, the test of an expired key
unfoldable pub stale : ℕ → Time → List Time → Bool
stale window now bucket = all (λ (ts : Time). ltb (ts + seconds window) now) bucket

-- Python's `<=` on lists of instants, the order of the sort keys.
unfoldable pub list_leb : List Time → List Time → Bool
list_leb [] ys = true
list_leb (x ∷ xs) [] = false
list_leb (x ∷ xs) (y ∷ ys) = ltb x y || (x == y && list_leb xs ys)

unfoldable pub insert_sorted : (String × List Time) → Dict (List Time) → Dict (List Time)
insert_sorted e [] = e ∷ []
insert_sorted e (d ∷ ds) =
    let rest = insert_sorted e ds in if list_leb e.1 d.1 then e ∷ d ∷ ds else d ∷ rest

-- sorted(buckets, key=lambda k: buckets[k]), which is stable
unfoldable pub sort_entries : Dict (List Time) → Dict (List Time)
unfolding insert_sorted list_leb
sort_entries [] = []
sort_entries (e ∷ es) = insert_sorted e (sort_entries es)

unfoldable pub remove_keys : Dict (List Time) → Dict (List Time) → Dict (List Time)
unfolding remove
remove_keys [] d = d
remove_keys ((k, v) ∷ es) d = remove_keys es (remove k d)

-- The eviction at the end of `_maybe_cleanup`: the keys with the oldest requests go.
unfoldable pub evict : ℕ → Dict (List Time) → Dict (List Time)
unfolding sort_entries remove_keys
evict max_keys buckets =
    if ltb max_keys (length buckets)
    then remove_keys (take (length buckets - max_keys) (sort_entries buckets)) buckets
    else buckets

-- _maybe_cleanup of both limiters, which keep their keys for twice `window` seconds
unfoldable pub cleanup : ℕ → RateLimitConfig → Time → Limiter → Limiter
unfolding stale evict retain
cleanup window config now l =
    if ltb now (l.last_cleanup + seconds config.cleanup_interval_seconds) then l else record {
      buckets = evict config.max_keys (retain (λ v. not (stale (window * 2) now v)) l.buckets);
      last_cleanup = now;
    }

-- buckets.setdefault(key, [])
abbrev pub or_nil : Option (List Time) → List Time
or_nil none = []
or_nil (some ts) = ts

unfoldable pub bucket : Limiter → String → List Time
unfolding lookup
bucket l key = or_nil (lookup key l.buckets)

abbrev pub smaller : Time → Option Time → Time
smaller t none = t
smaller t (some m) = min t m

-- min(bucket); none is the ValueError of an empty one
unfoldable pub earliest : List Time → Option Time
earliest [] = none
earliest (t ∷ ts) = some (smaller t (earliest ts))

abbrev pub refusal : RateLimitConfig → Option Time → Option RateLimitResult
refusal config none = none
refusal config (some t) =
    some (record {
      allowed = false;
      remaining = 0;
      reset_at = some (t + seconds config.window_seconds);
    })

-- InMemoryRateLimiter.check after the cleanup; the result is none where the code raises.
unfoldable pub admit : RateLimitConfig → String → Time → Limiter → Limiter × Option RateLimitResult
unfolding recent bucket earliest insert
admit config key now l =
    let kept = recent config.window_seconds now (bucket l key) in
    if leb config.max_requests (length kept)
    then (record l { buckets = insert key kept l.buckets }, refusal config (earliest kept))
    else (
      record l { buckets = insert key (kept ++ now ∷ []) l.buckets },
      some (record {
        allowed = true;
        remaining = config.max_requests - length kept;
        reset_at = some (now + seconds config.window_seconds);
      }),
    )

-- InMemoryRateLimiter.check
unfoldable pub check : RateLimitConfig → String → Time → Limiter → Limiter × Option RateLimitResult
check config key now l = admit config key now (cleanup config.window_seconds config now l)

-- InMemoryRateLimiter.reset, and that of InMemoryLoginAttemptLimiter
unfoldable pub reset : String → Limiter → Limiter
unfolding remove
reset key l = record l { buckets = remove key l.buckets }

-- InMemoryLoginAttemptLimiter.record_failed_login: its attempts are kept as the buckets are.
unfoldable pub record_failed_login : RateLimitConfig → String → Time → Limiter → Limiter × Bool
unfolding cleanup recent bucket insert
record_failed_login config ip now l =
    let cleaned = cleanup config.lockout_seconds config now l in
    let attempts = recent config.lockout_seconds now (bucket cleaned ip ++ now ∷ []) in
    (
      record cleaned { buckets = insert ip attempts cleaned.buckets },
      leb config.max_login_attempts (length attempts),
    )

-- InMemoryLoginAttemptLimiter.is_locked
unfoldable pub is_locked : RateLimitConfig → String → Time → Limiter → Bool
unfolding recent bucket
is_locked config ip now l =
    leb config.max_login_attempts (length (recent config.lockout_seconds now (bucket l ip)))

abbrev pub time_left : RateLimitConfig → Time → Option Time → ℕ
time_left config now none = 0
time_left config now (some t) = (t + seconds config.lockout_seconds - now) / 1000000

-- InMemoryLoginAttemptLimiter.get_remaining_lock_time
unfoldable pub get_remaining_lock_time : RateLimitConfig → String → Time → Limiter → ℕ
unfolding recent bucket earliest
get_remaining_lock_time config ip now l =
    time_left config now (earliest (recent config.lockout_seconds now (bucket l ip)))
