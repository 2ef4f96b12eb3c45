-- ===== src/Infrastructure/Outbox/Retries.antt =====
-- Retries of an event that the broker refuses, up to the dead letter, and back.
use fast_stream_template.Common.{
  ℕ, refl, some, List, String, Time, Uuid, [], any, ap, arith, false, is_some, leb, length, none,
  seconds, true, ◌+◌, ◌<◌, ◌==◌, ◌^◌, ◌∙◌, ◌∷◌, ◌≡◌, ◌≤◌,
}
use native.Mathlib.Nat.{pow-le-pow_right}
use fast_stream_template.Infrastructure.Outbox.{
  OutboxEvent, backoff_delay, is_due, max_attempts, replay, reschedule,
}

-- Failures at their times, each with the broker's error.
unfoldable pub fail_all : List (Time × String) → OutboxEvent → OutboxEvent
fail_all [] e = e
fail_all ((t, error) ∷ fs) e = fail_all fs (reschedule t error e)

-- The dead letter mark and the count of attempts agree.
abbrev pub Counted : OutboxEvent → Type 0
Counted e = (is_some e.failed_at ≡ leb max_attempts e.attempts) × (e.processed_at ≡ none)

reschedule_lem :
    (t : Time) (error : String) (e : OutboxEvent)
    → Counted e
    → Counted (reschedule t error e) × ((reschedule t error e).attempts ≡ e.attempts + 1)
unfolding reschedule
reschedule_lem t error e counted = ground arith

fail_all_lem :
    (fs : List (Time × String)) (e : OutboxEvent)
    → Counted e
    → Counted (fail_all fs e) × ((fail_all fs e).attempts ≡ e.attempts + length fs)
unfolding fail_all
fail_all_lem [] e counted = (counted, omega arith)
fail_all_lem ((t, error) ∷ fs) e counted =
    let (next, one) = reschedule_lem t error e counted in
    let (last, more) = fail_all_lem fs (reschedule t error e) next in (last, omega arith)

-- A new event that the broker refuses again and again becomes a dead letter with exactly the eighth
-- failure; a dead letter is not due at any time; and once an operator replays it, it is due at once
-- and has no attempts behind it.
pub dead_letter_after_eight :
    (e : OutboxEvent) (fs : List (Time × String)) (now : Time) (ids : List Uuid)
    → e.attempts ≡ 0
    → e.failed_at ≡ none
    → e.processed_at ≡ none
    → (is_some (fail_all fs e).failed_at ≡ leb 8 (length fs))
      × (8 ≤ length fs → is_due now (fail_all fs e) ≡ false)
      × (8 ≤ length fs
          → any (λ id. id == (fail_all fs e).id) ids ≡ true
          → (is_due now (replay ids (fail_all fs e)) ≡ true)
            × ((replay ids (fail_all fs e)).attempts ≡ 0))
unfolding is_due replay
dead_letter_after_eight e fs now ids fresh alive waiting =
    let counted : Counted e = (ground arith, waiting) in
    let (last, total) = fail_all_lem fs e counted in
    let dead : is_some (fail_all fs e).failed_at ≡ leb 8 (length fs) =
      last.0 ∙ ap (leb 8) (total ∙ omega arith) in
    (
      dead,
      λ eight. ground (arith, dead, last.1),
      λ eight listed. (ground (arith, dead, last.1), ground (arith, dead)),
    )

two_pow-bound : (n : ℕ) → n ≤ 7 → 2 ^ n ≤ 128
two_pow-bound n h =
    let most : 2 ^ n ≤ 2 ^ 7 = pow-le-pow_right (omega arith) {i = n} {j = 7} h in omega arith

backoff_delay-small : (n : ℕ) → n ≤ 7 → backoff_delay n ≡ seconds (2 ^ n)
unfolding backoff_delay
backoff_delay-small n h = omega (arith, two_pow-bound n h)

-- The first seven failures of a new event each set the next attempt to 2^n seconds after the n-th,
-- 128 seconds at most and so never the 300 of the cap, and the event is due from then on and not
-- before; the failures after them set none and mark the event as given up at their time.
pub retry_waits :
    (e : OutboxEvent) (fs : List (Time × String)) (t now : Time) (error : String)
    → e.attempts ≡ 0
    → e.failed_at ≡ none
    → e.processed_at ≡ none
    → (length fs < 7
        → ((reschedule t error (fail_all fs e)).next_attempt_at
            ≡ some (t + seconds (2 ^ (length fs + 1))))
          × (2 ^ (length fs + 1) ≤ 128)
          × (is_due now (reschedule t error (fail_all fs e))
              ≡ leb (t + seconds (2 ^ (length fs + 1))) now))
      × (7 ≤ length fs
          → ((reschedule t error (fail_all fs e)).next_attempt_at ≡ none)
            × ((reschedule t error (fail_all fs e)).failed_at ≡ some t))
unfolding is_due reschedule
retry_waits e fs t now error fresh alive waiting =
    let counted : Counted e = (ground arith, waiting) in
    let (last, total) = fail_all_lem fs e counted in
    let so_many : (fail_all fs e).attempts ≡ length fs = total ∙ omega arith in
    (
      λ few.
          let wait = backoff_delay-small (length fs + 1) (omega arith) in
          let going : leb max_attempts ((fail_all fs e).attempts + 1) ≡ false = ground arith in
          let alive_still : is_some (fail_all fs e).failed_at ≡ false = ground (arith, last.0) in
          (
            rw going (rw so_many (rw wait refl)),
            two_pow-bound (length fs + 1) (omega arith),
            rw going (rw so_many (rw wait (rw last.1 (rw alive_still refl)))),
          ),
      λ many.
          let over : leb max_attempts ((fail_all fs e).attempts + 1) ≡ true = ground arith in
          (rw over refl, rw over refl),
    )
