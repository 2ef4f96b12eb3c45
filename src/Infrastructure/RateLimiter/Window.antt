-- ===== src/Infrastructure/RateLimiter/Window.antt =====
-- The invariant of the in-memory limiter against the log of the requests that it let through.
use fast_stream_template.Common.{
  ℕ, ◌+◌, ◌*◌, ◌≤◌, String, ◌≡◌, refl, sym, ◌∙◌, inl, inr, Bool, true, false, not, ◌&&◌, Option,
  none, some, List, [], ◌∷◌, ◌++◌, arith, str_eq, ltb, leb, if◌then◌else◌, Bool-cases, Time,
  seconds, length, keep, keep-keep, All, ap, keep-append, length-append, length-keep_mono, ◌<◌,
}
use fast_stream_template.Common.Dict.{
  Dict, lookup, retain, length-retain, Distinct, Distinct-retain, passing, lookup-retain,
  Distinct-insert, length-insert, lookup-insert,
}
use fast_stream_template.Infrastructure.RateLimiter.{
  RateLimitConfig, RateLimitResult, Limiter, recent, stale, evict, cleanup, or_nil, bucket, check,
  admit,
}

abbrev pub is_allowed : Option RateLimitResult → Bool
is_allowed none = false
is_allowed (some r) = r.allowed

-- The instants of a log that belong to a key.
abbrev pub times : String → List (String × Time) → List Time
times k [] = []
times k ((j, t) ∷ log) = let rest = times k log in if str_eq j k then t ∷ rest else rest

-- The log after one more request.
abbrev pub logged : Bool → List (String × Time) → String → Time → List (String × Time)
logged allowed log k t = if allowed then log ++ (k, t) ∷ [] else log

-- Requests at their instants, one `check` each; the result logs those that were let through.
unfoldable pub run :
    RateLimitConfig → List (String × Time) → Limiter → List (String × Time) → List (String × Time)
run config [] l log = log
run config ((k, t) ∷ rs) l log =
    run config rs (check config k t l).0 (logged (is_allowed (check config k t l).1) log k t)

-- How many of the instants lie in the window of `secs` seconds that ends with `t`.
abbrev pub in_window : ℕ → Time → List Time → ℕ
in_window secs t ts = length (keep (λ (a : Time). leb a t && ltb t (a + seconds secs)) ts)

-- The requests come in the order of time, none before `from`.
abbrev pub Ordered : Time → List (String × Time) → Type 0
Ordered from [] = Unit
Ordered from ((k, t) ∷ rs) = (from ≤ t) × Ordered t rs

pub times-append :
    (k j : String) (t : Time) (log : List (String × Time))
    → times k (log ++ (j, t) ∷ []) ≡ (if str_eq j k then times k log ++ t ∷ [] else times k log)
times-append k j t [] = refl
times-append k j t ((i, u) ∷ log) = ground (arith, times-append k j t log)

pub recent-recent :
    (w : ℕ) (a b : Time) (ts : List Time) → a ≤ b → recent w b (recent w a ts) ≡ recent w b ts
unfolding recent
recent-recent w a b ts h = keep-keep _ _ ts (λ x q. ground arith)

recent-stale :
    (w : ℕ) (now : Time) (ts : List Time) → stale (w * 2) now ts ≡ true → recent w now ts ≡ []
unfolding recent stale
recent-stale w now [] h = refl
recent-stale w now (t ∷ ts) h = ground (arith, recent-stale w now ts)

-- What a limiter knows at an instant, against the log of what it let through.
pub record Inv (config : RateLimitConfig) (l : Limiter) (log : List (String × Time)) (now : Time)
    : Type 0 where
  pub distinct : Distinct l.buckets
  pub same :
      (k : String)
      → recent config.window_seconds now (bucket l k)
        ≡ recent config.window_seconds now (times k log)
  pub past : (k : String) → All (λ (a : Time). a ≤ now) (times k log)
  pub bound :
      (k : String) (t : Time)
      → in_window config.window_seconds t (times k log) ≤ config.max_requests

module _ (config : RateLimitConfig) (now : Time) (l : Limiter) where
  evict_small : (d : Dict (List Time)) → length d ≤ config.max_keys → evict config.max_keys d ≡ d
  unfolding evict
  evict_small d h = ground arith

  recent-passing :
      (o : Option (List Time))
      → recent config.window_seconds now
          (or_nil (passing (λ v. not (stale (config.window_seconds * 2) now v)) o))
        ≡ recent config.window_seconds now (or_nil o)
  recent-passing none = refl
  recent-passing (some v) = elim (Bool-cases (stale (config.window_seconds * 2) now v)) [
    | inl old ↦ rw old (unfold recent in refl) ∙ sym (recent-stale config.window_seconds now v old)
    | inr new ↦ rw new
  ]

  -- A cleanup that evicts no key changes no recent request.
  pub bucket-cleanup :
      (k : String)
      → Distinct l.buckets
      → length l.buckets ≤ config.max_keys
      → (recent config.window_seconds now (bucket (cleanup config.window_seconds config now l) k)
          ≡ recent config.window_seconds now (bucket l k))
        × Distinct (cleanup config.window_seconds config now l).buckets
        × (length (cleanup config.window_seconds config now l).buckets ≤ length l.buckets)
  unfolding cleanup bucket
  bucket-cleanup k distinct few =
      let p = λ (v : List Time). not (stale (config.window_seconds * 2) now v) in
      let shorter = length-retain p l.buckets in
      elim (Bool-cases (ltb now (l.last_cleanup + seconds config.cleanup_interval_seconds))) [
        | inl early ↦ rw early (refl, distinct, omega arith)
        | inr due ↦ rw due (
            rw (evict_small (retain p l.buckets) (omega arith)) (
              rw (lookup-retain p k l.buckets distinct) (recent-passing (lookup k l.buckets)),
              Distinct-retain p l.buckets distinct,
              shorter,
            ))
      ]

All-later :
    (a b : Time) (ts : List Time)
    → a ≤ b
    → All (λ (t : Time). t ≤ a) ts
    → All (λ (t : Time). t ≤ b) ts
All-later a b [] h p = tt
All-later a b (t ∷ ts) h (q, p) = (omega arith, All-later a b ts h p)

pub Inv-later :
    {config : RateLimitConfig} {l : Limiter} {log : List (String × Time)} {a : Time} (b : Time)
    → a ≤ b
    → Inv config l log a
    → Inv config l log b
Inv-later {config} {l} {log} {a} b h inv = record {
  distinct = inv.distinct;
  same = λ k.
      sym (recent-recent config.window_seconds a b (bucket l k) h)
      ∙ ap (recent config.window_seconds b) (inv.same k)
      ∙ recent-recent config.window_seconds a b (times k log) h;
  past = λ k. All-later a b (times k log) h (inv.past k);
  bound = inv.bound;
}

pub Inv-cleanup :
    {config : RateLimitConfig} {l : Limiter} {log : List (String × Time)} {now : Time}
    → length l.buckets ≤ config.max_keys
    → Inv config l log now
    → Inv config (cleanup config.window_seconds config now l) log now
Inv-cleanup {config} {l} {log} {now} few inv = record {
  distinct = (bucket-cleanup config now l "" inv.distinct few).1;
  same = λ k. (bucket-cleanup config now l k inv.distinct few).0 ∙ inv.same k;
  past = inv.past;
  bound = inv.bound;
}

-- The test of `check` on the requests that it counts.
abbrev pub full : RateLimitConfig → List Time → Bool
full config kept = leb config.max_requests (length kept)

module _ (config : RateLimitConfig) (k : String) (now : Time) (l : Limiter) where
  pub is_allowed-admit :
      is_allowed (admit config k now l).1
      ≡ not (full config (recent config.window_seconds now (bucket l k)))
  unfolding admit
  is_allowed-admit = ground arith

  pub bucket-admit :
      (j : String)
      → bucket (admit config k now l).0 j ≡ (
          if str_eq k j
          then (let kept = recent config.window_seconds now (bucket l k) in
              if full config kept then kept else kept ++ now ∷ [])
          else bucket l j)
  unfolding admit bucket
  bucket-admit j = ground (
    arith,
    lookup-insert k j (recent config.window_seconds now (or_nil (lookup k l.buckets))) l.buckets,
    lookup-insert k j (recent config.window_seconds now (or_nil (lookup k l.buckets)) ++ now ∷ [])
        l.buckets,
  )

  pub admit_grows :
      Distinct l.buckets
      → Distinct (admit config k now l).0.buckets
        × (length (admit config k now l).0.buckets ≤ length l.buckets + 1)
  unfolding admit
  admit_grows distinct =
      let kept = recent config.window_seconds now (bucket l k) in
      elim (Bool-cases (full config kept)) [
        | inl h ↦ rw h (Distinct-insert k kept l.buckets distinct, length-insert k kept l.buckets)
        | inr h ↦ rw h (
          Distinct-insert k (kept ++ now ∷ []) l.buckets distinct,
          length-insert k (kept ++ now ∷ []) l.buckets,
        )
      ]

-- One more request now, where fewer than the limit are recent.
pub bound-append :
    (secs most : ℕ) (now t : Time) (ts : List Time)
    → All (λ (a : Time). a ≤ now) ts
    → in_window secs t ts ≤ most
    → length (recent secs now ts) < most
    → in_window secs t (ts ++ now ∷ []) ≤ most
unfolding recent
bound-append secs most now t ts past here few =
    let inside = λ (a : Time). leb a t && ltb t (a + seconds secs) in
    rw (keep-append inside ts (now ∷ [])) (elim (Bool-cases (leb now t)) [
      | inl after ↦
          let fewer =
            length-keep_mono inside (λ (a : Time). ltb now (a + seconds secs)) ts
              (λ x h. ground arith) in
          ground (
            arith,
            fewer,
            length-append (keep inside ts) (now ∷ []),
            length-append (keep inside ts) [],
          )
      | inr before ↦ ground (arith, here, length-append (keep inside ts) [])
    ])
