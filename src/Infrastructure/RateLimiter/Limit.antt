-- ===== src/Infrastructure/RateLimiter/Limit.antt =====
-- No window of the configured length holds more requests of one key than the limit.
use fast_stream_template.Common.{
  ℕ, List, String, Time, [], arith, false, str_eq_iff, sym, true, ◌++◌, ◌∷◌, ◌≡◌, All-append,
  Bool-cases, ap, inl, inr, keep-append, length, refl, ◌+◌, ◌≤◌, All, Bool, if◌then◌else◌, str_eq,
}
use fast_stream_template.Infrastructure.RateLimiter.{
  RateLimitConfig, Limiter, admit, bucket, recent, check, cleanup,
}
use fast_stream_template.Infrastructure.RateLimiter.Window.{
  Inv, admit_grows, bucket-admit, full, recent-recent, times, Inv-cleanup, Inv-later, Ordered,
  bound-append, bucket-cleanup, in_window, is_allowed, is_allowed-admit, logged, run, times-append,
}

recent-append :
    (w : ℕ) (now : Time) (xs ys : List Time)
    → recent w now (xs ++ ys) ≡ recent w now xs ++ recent w now ys
unfolding recent
recent-append w now xs ys = keep-append _ xs ys

past_logged :
    (now : Time) (b : Bool) (ts : List Time)
    → All (λ (a : Time). a ≤ now) ts
    → All (λ (a : Time). a ≤ now) (if b then ts ++ now ∷ [] else ts)
past_logged now true ts h = All-append (λ (a : Time). a ≤ now) ts (now ∷ []) h (omega arith, tt)
past_logged now false ts h = h

module _ {config : RateLimitConfig} {l : Limiter} {log : List (String × Time)} {now : Time}
    (k : String) (inv : Inv config l log now) where
  recent-times :
      recent config.window_seconds now (times k log) ≡ recent config.window_seconds now (bucket l k)
  recent-times = sym (inv.same k)

  admit_refused :
      full config (recent config.window_seconds now (bucket l k)) ≡ true
      → Inv config (admit config k now l).0 log now
  admit_refused refused = record {
    distinct = (admit_grows config k now l inv.distinct).0;
    same = λ j. ground (
      arith,
      bucket-admit config k now l j,
      str_eq_iff k j,
      inv.same j,
      inv.same k,
      recent-recent config.window_seconds now now (bucket l k) (omega arith),
    );
    past = inv.past;
    bound = inv.bound;
  }

  admit_let_through :
      full config (recent config.window_seconds now (bucket l k)) ≡ false
      → Inv config (admit config k now l).0 (log ++ (k, now) ∷ []) now
  admit_let_through passed = record {
    distinct = (admit_grows config k now l inv.distinct).0;
    same = λ j. ground (
      arith,
      bucket-admit config k now l j,
      str_eq_iff k j,
      inv.same j,
      inv.same k,
      passed,
      times-append j k now log,
      recent-append config.window_seconds now (times j log) (now ∷ []),
      recent-append config.window_seconds now (recent config.window_seconds now (bucket l k))
          (now ∷ []),
      recent-recent config.window_seconds now now (bucket l k) (omega arith),
    );
    past = λ j.
        rw (times-append j k now log) (past_logged now (str_eq k j) (times j log) (inv.past j));
    bound = λ j t. ground (
      arith,
      times-append j k now log,
      inv.bound j t,
      str_eq_iff k j,
      inv.same k,
      ap length (inv.same k),
      bound-append config.window_seconds config.max_requests now t (times j log) (inv.past j)
          (inv.bound j t),
    );
  }

-- One `check` keeps the invariant, where the dictionary has room for one more key.
Inv-check :
    (config : RateLimitConfig) (l : Limiter) (log : List (String × Time)) (k : String)
    (a now : Time)
    → a ≤ now
    → length l.buckets ≤ config.max_keys
    → Inv config l log a
    → Inv config
        (check config k now l).0
        (logged (is_allowed (check config k now l).1) log k now)
        now
      × (length (check config k now l).0.buckets ≤ length l.buckets + 1)
unfolding check
Inv-check config l log k a now after few inv =
    let l' = cleanup config.window_seconds config now l in
    let later = Inv-later {a = a} now after inv in
    let inv' : Inv config l' log now = Inv-cleanup few later in
    let size = (bucket-cleanup config now l k inv.distinct few).2 in
    let grows = (admit_grows config k now l' inv'.distinct).1 in
    (
      elim (Bool-cases (full config (recent config.window_seconds now (bucket l' k)))) [
        | inl refused ↦
            rw (is_allowed-admit config k now l') (rw refused (admit_refused k inv' refused))
        | inr passed ↦
            rw (is_allowed-admit config k now l') (rw passed (admit_let_through k inv' passed))
      ],
      omega arith,
    )

run_bound :
    (config : RateLimitConfig) (rs : List (String × Time)) (l : Limiter)
    (log : List (String × Time)) (from : Time)
    → Ordered from rs
    → length l.buckets + length rs ≤ config.max_keys
    → Inv config l log from
    → (k : String) (t : Time)
    → in_window config.window_seconds t (times k (run config rs l log)) ≤ config.max_requests
unfolding run
run_bound config [] l log from o few inv k t = inv.bound k t
run_bound config ((j, u) ∷ rs) l log from (after, o) few inv k t =
    let (inv', grows) = Inv-check config l log j from u after (omega arith) inv in
    run_bound config rs (check config j u l).0 (logged (is_allowed (check config j u l).1) log j u)
      u o (omega arith) inv' k t

-- InMemoryRateLimiter(config), made at an instant
abbrev pub start : Time → Limiter
start now = record { buckets = []; last_cleanup = now }

-- From a new limiter, whatever the requests in the order of time and whatever their keys, every
-- window of the configured length holds at most the configured number of requests of one key that
-- were let through; as long as there are not more requests than keys that the limiter may hold, so
-- that no cleanup evicts a key.
pub limit_in_every_window :
    (config : RateLimitConfig) (rs : List (String × Time)) (made : Time)
    → Ordered made rs
    → length rs ≤ config.max_keys
    → (k : String) (t : Time)
    → in_window config.window_seconds t (times k (run config rs (start made) []))
      ≤ config.max_requests
limit_in_every_window config rs made o few =
    run_bound config rs (start made) [] made o (omega arith) (record {
      distinct = tt;
      same = λ k. unfold bucket in refl;
      past = λ k. tt;
      bound = λ k t. omega arith;
    })
