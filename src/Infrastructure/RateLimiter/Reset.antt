-- ===== src/Infrastructure/RateLimiter/Reset.antt =====
-- What a refusal announces: the instant from which a request is let through again.
use fast_stream_template.Common.{
  ℕ, All, List, Option, Time, [], arith, length, none, refl, seconds, some, ◌+◌, ◌<◌, ◌∷◌, ◌≡◌, ◌≤◌,
  Option-cases, String, false, inl, inr, leb, length-keep-le, ltb, min, str_eq_refl, true, ◌∙◌,
  Bool-cases,
}
use fast_stream_template.Infrastructure.RateLimiter.{
  RateLimitConfig, RateLimitResult, earliest, recent, Limiter, admit, bucket, smaller,
}
use fast_stream_template.Infrastructure.RateLimiter.Window.{
  full, bucket-admit, is_allowed, is_allowed-admit,
}

abbrev or_zero : Option Time → Time
or_zero none = 0
or_zero (some t) = t

-- The instant that a result announces.
abbrev pub announced : Option RateLimitResult → Time
announced none = 0
announced (some r) = or_zero r.reset_at

abbrev Below : Time → Option Time → Type 0
Below b none = Unit
Below b (some m) = b ≤ m

smaller_le : (b t : Time) (o : Option Time) → b ≤ smaller t o → (b ≤ t) × Below b o
smaller_le b t none h = (h, tt)
smaller_le b t (some m) h = omega arith

All-of_earliest : (b : Time) (ts : List Time) → Below b (earliest ts) → All (λ (a : Time). b ≤ a) ts
unfolding earliest
All-of_earliest b [] h = tt
All-of_earliest b (t ∷ ts) h =
    let (here, rest) = smaller_le b t (earliest ts) h in (here, All-of_earliest b ts rest)

recent_before :
    (w : ℕ) (now : Time) (ts : List Time) (m : Time)
    → All (λ (a : Time). m ≤ a) ts
    → now < m + seconds w
    → recent w now ts ≡ ts
unfolding recent
recent_before w now [] m h before = refl
recent_before w now (t ∷ ts) m (le, h) before = ground (arith, recent_before w now ts m h before)

recent_after :
    (w : ℕ) (now : Time) (ts : List Time) (m : Time)
    → earliest ts ≡ some m
    → m + seconds w ≤ now
    → length (recent w now ts) < length ts
unfolding recent earliest
recent_after w now [] m h after = absurd (cc h)
recent_after w now (t ∷ ts) m h after = elim (Option-cases (earliest ts)) [
  | inl e ↦
      let first : t ≡ m = ground arith in
      ground (arith, length-keep-le (λ (a : Time). ltb now (a + seconds w)) ts)
  | inr (m', e) ↦
      let least : min t m' ≡ m = ground arith in
      ground (
        arith,
        recent_after w now ts m' e,
        length-keep-le (λ (a : Time). ltb now (a + seconds w)) ts,
      )
]

earliest-some : (ts : List Time) → 0 < length ts → (m : Time) × (earliest ts ≡ some m)
unfolding earliest
earliest-some [] h = absurd (omega arith)
earliest-some (t ∷ ts) h = (smaller t (earliest ts), refl)

-- A request that is refused announces the instant from which one of the same key is let through,
-- if no other comes before: refused before that instant, let through from then on. The bucket holds
-- at most the limit, which is at least one, and both requests fall between cleanups.
pub refused_until_announced :
    (config : RateLimitConfig) (k : String) (now later : Time) (l : Limiter)
    → 0 < config.max_requests
    → length (recent config.window_seconds now (bucket l k)) ≤ config.max_requests
    → now ≤ later
    → is_allowed (admit config k now l).1 ≡ false
    → is_allowed (admit config k later (admit config k now l).0).1
      ≡ leb (announced (admit config k now l).1) later
refused_until_announced config k now later l positive most after refused =
    let kept = recent config.window_seconds now (bucket l k) in
    let is_full : full config kept ≡ true = ground (arith, is_allowed-admit config k now l) in
    let (m, e) = earliest-some kept (ground arith) in
    let now_kept : bucket (admit config k now l).0 k ≡ kept =
      bucket-admit config k now l k ∙ rw str_eq_refl (rw is_full) in
    let told : announced (admit config k now l).1 ≡ m + seconds config.window_seconds =
      unfold admit in rw is_full (rw e) in
    let lower = All-of_earliest m kept (rw e (omega arith)) in
    rw (is_allowed-admit config k later (admit config k now l).0) (
      rw now_kept (
        rw told (elim (Bool-cases (ltb later (m + seconds config.window_seconds))) [
          | inl early ↦
              rw (recent_before config.window_seconds later kept m lower (ground arith))
                (rw is_full (ground arith))
          | inr late ↦
              let fewer = recent_after config.window_seconds later kept m e (ground arith) in
              ground arith
        ])))
