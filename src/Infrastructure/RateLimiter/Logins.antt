-- ===== src/Infrastructure/RateLimiter/Logins.antt =====
-- The login limiter locks a bucket after the configured number of recent failures.
use mathlib.Core.List.{append-nil, append_assoc}
use fast_stream_template.Common.{
  Bool, All, Bool-cases, String, Time, [], ap, false, inl, inr, keep-append, leb, length, sym, true,
  str_eq, str_eq_iff, str_eq_refl, ◌+◌, ◌++◌, ◌<◌, ◌≤◌, ◌∷◌, ◌≡◌, ◌∙◌, List, arith, if◌then◌else◌,
  refl,
}
use fast_stream_template.Common.Dict.{
  Distinct, Distinct-insert, insert, length-insert, lookup-insert, lookup-remove,
}
use fast_stream_template.Infrastructure.RateLimiter.Window.{bucket-cleanup, recent-recent, times}
use fast_stream_template.Infrastructure.RateLimiter.{
  recent, RateLimitConfig, record_failed_login, is_locked, reset, Limiter, bucket, cleanup,
}

bucket-insert :
    (k j : String) (v : List Time) (l : Limiter)
    → bucket (record l { buckets = insert k v l.buckets }) j
      ≡ (if str_eq k j then v else bucket l j)
unfolding bucket
bucket-insert k j v l = ground (arith, lookup-insert k j v l.buckets)

bucket-reset :
    (k j : String) (l : Limiter) → bucket (reset k l) j ≡ (if str_eq k j then [] else bucket l j)
unfolding bucket reset
bucket-reset k j l = ground (arith, lookup-remove k j l.buckets)

-- Failed logins at their instants, by key
unfoldable pub fail_each : RateLimitConfig → List (String × Time) → Limiter → Limiter
fail_each config [] l = l
fail_each config ((k, t) ∷ fs) l = fail_each config fs (record_failed_login config k t l).0

add_if :
    (b : Bool) (t : Time) (xs rest : List Time)
    → (xs ++ (if b then t ∷ [] else [])) ++ rest ≡ xs ++ (if b then t ∷ rest else rest)
add_if true t xs rest = append_assoc xs (t ∷ []) rest
add_if false t xs rest = append_assoc xs [] rest

module _ (config : RateLimitConfig) where
  -- The cleanup of the login limiter, which keeps keys for twice the lockout
  bucket-login_cleanup :
      (k : String) (t : Time) (l : Limiter)
      → Distinct l.buckets
      → length l.buckets ≤ config.max_keys
      → (recent config.lockout_seconds t (bucket (cleanup config.lockout_seconds config t l) k)
          ≡ recent config.lockout_seconds t (bucket l k))
        × Distinct (cleanup config.lockout_seconds config t l).buckets
        × (length (cleanup config.lockout_seconds config t l).buckets ≤ length l.buckets)
  unfolding cleanup
  bucket-login_cleanup k t l distinct few =
      bucket-cleanup (record config { window_seconds = config.lockout_seconds }) t l k distinct few

  module _ (now : Time) where
    recent-append :
        (xs ys : List Time)
        → recent config.lockout_seconds now (xs ++ ys)
          ≡ recent config.lockout_seconds now xs ++ recent config.lockout_seconds now ys
    unfolding recent
    recent-append xs ys = keep-append _ xs ys

    -- What is recent later, of what was the same before
    recent_more :
        (t : Time) (xs ys more : List Time)
        → t ≤ now
        → recent config.lockout_seconds t xs ≡ recent config.lockout_seconds t ys
        → recent config.lockout_seconds now (xs ++ more)
          ≡ recent config.lockout_seconds now (ys ++ more)
    recent_more t xs ys more past same =
        recent-append xs more
        ∙ ap (λ (zs : List Time). zs ++ recent config.lockout_seconds now more)
            (sym (recent-recent config.lockout_seconds t now xs past)
              ∙ ap (recent config.lockout_seconds now) same
              ∙ recent-recent config.lockout_seconds t now ys past)
        ∙ sym (recent-append ys more)

    -- The bucket of `j` after a failure at `t`, from a bucket that has what `ys` has
    bucket_added :
        (j k : String) (t : Time) (l : Limiter) (ys : List Time)
        → t ≤ now
        → recent config.lockout_seconds t (bucket l k) ≡ recent config.lockout_seconds t ys
        → recent config.lockout_seconds now (
            if str_eq j k
            then recent config.lockout_seconds t (bucket l j ++ t ∷ [])
            else bucket l k)
          ≡ recent config.lockout_seconds now (ys ++ (if str_eq j k then t ∷ [] else []))
    bucket_added j k t l ys past same = elim (Bool-cases (str_eq j k)) [
      | inl e ↦ rw e (
          recent-recent config.lockout_seconds t now (bucket l j ++ t ∷ []) past
          ∙ rw ((str_eq_iff j k).0 e) (recent_more t (bucket l k) ys (t ∷ []) past same))
      | inr e ↦ rw e (
          ap (recent config.lockout_seconds now) (sym (append-nil (bucket l k)))
          ∙ recent_more t (bucket l k) ys [] past same)
    ]

    -- What one failure adds to what is recent
    recorded :
        (j k : String) (t : Time) (l : Limiter)
        → t ≤ now
        → Distinct l.buckets
        → length l.buckets ≤ config.max_keys
        → (recent config.lockout_seconds now (bucket (record_failed_login config j t l).0 k)
            ≡ recent config.lockout_seconds now (bucket l k ++ (if str_eq j k then t ∷ [] else [])))
          × Distinct (record_failed_login config j t l).0.buckets
          × (length (record_failed_login config j t l).0.buckets ≤ length l.buckets + 1)
    unfolding record_failed_login
    recorded j k t l past distinct few =
        let (same, kept, shorter) = bucket-login_cleanup k t l distinct few in
        let cleaned = cleanup config.lockout_seconds config t l in
        let attempts = recent config.lockout_seconds t (bucket cleaned j ++ t ∷ []) in
        (
          ap (recent config.lockout_seconds now) (bucket-insert j k attempts cleaned)
              ∙ bucket_added j k t cleaned (bucket l k) past same,
          Distinct-insert j attempts cleaned.buckets kept,
          omega (arith, length-insert j attempts cleaned.buckets),
        )

    -- A sequence of failures adds those of the key.
    fail_each_lem :
        (k : String) (fs : List (String × Time)) (l : Limiter)
        → All (λ (f : String × Time). f.1 ≤ now) fs
        → Distinct l.buckets
        → length l.buckets + length fs ≤ config.max_keys
        → recent config.lockout_seconds now (bucket (fail_each config fs l) k)
          ≡ recent config.lockout_seconds now (bucket l k ++ times k fs)
    unfolding fail_each
    fail_each_lem k [] l past distinct few =
        ap (recent config.lockout_seconds now) (sym (append-nil (bucket l k)))
    fail_each_lem k ((j, t) ∷ fs) l (first, past) distinct few =
        let (same, kept, longer) = recorded j k t l first distinct (omega arith) in
        fail_each_lem k fs (record_failed_login config j t l).0 past kept (omega arith)
        ∙ recent_more now (bucket (record_failed_login config j t l).0 k) _ (times k fs)
            (omega arith) same
        ∙ ap (recent config.lockout_seconds now) (add_if (str_eq j k) t (bucket l k) (times k fs))

-- After any sequence of failed logins of any keys at a new limiter, none later than now and no more
-- than the keys that it keeps, so that none is evicted: a key is locked exactly if at least as many
-- of its own failures as are configured lie within the lockout time before now. A reset of a key
-- then lifts its lock, for as long as at least one attempt is allowed, and leaves that of every
-- other key as it was.
pub failures_lock :
    (config : RateLimitConfig) (k : String) (fs : List (String × Time))
    (now later last_cleanup : Time)
    → 0 < config.max_login_attempts
    → All (λ (f : String × Time). f.1 ≤ now) fs
    → length fs ≤ config.max_keys
    → let l = fail_each config fs (record { buckets = []; last_cleanup = last_cleanup }) in
      (is_locked config k now l
        ≡ leb config.max_login_attempts (length (recent config.lockout_seconds now (times k fs))))
      × (is_locked config k later (reset k l) ≡ false)
      × ((j : String)
          → str_eq k j ≡ false
          → is_locked config j later (reset k l) ≡ is_locked config j later l)
unfolding is_locked
failures_lock config k fs now later last_cleanup positive past few =
    let empty : Limiter = record { buckets = []; last_cleanup = last_cleanup } in
    let l = fail_each config fs empty in
    (
      ap (λ (ts : List Time). leb config.max_login_attempts (length ts))
          (fail_each_lem config now k fs empty past tt (omega arith)),
      rw (bucket-reset k k l) (rw str_eq_refl (unfold recent in ground arith)),
      λ j other. rw (bucket-reset k j l) (rw other refl),
    )
