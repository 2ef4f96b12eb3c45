-- ===== src/Domain/AccountLock/Lockout.antt =====
-- When failed attempts lock an account, and for how long.
use fast_stream_template.Common.{
  ℕ, ◌+◌, ◌<◌, ◌≡◌, refl, ◌∙◌, ap, true, false, ◌&&◌, none, List, [], ◌∷◌, ◌++◌, String, Time,
  minutes, leb, ltb, length, arith, if◌then◌else◌,
}
use fast_stream_template.Domain.AccountLock.{
  AccountLockInfo, create, create_locked, lock_window_elapsed, record_failed_attempt, is_locked_out,
}

-- Wrong passwords at the times `ts`, in this order.
unfoldable pub record_failures : ℕ → ℕ → List Time → AccountLockInfo → AccountLockInfo
record_failures max mins [] l = l
record_failures max mins (t ∷ ts) l =
    record_failures max mins ts (record_failed_attempt max mins t l)

-- What is left of a lock that never was or has elapsed: the next failure counts from zero.
abbrev pub FreshAt : AccountLockInfo → Time → Type 0
FreshAt l t = (if lock_window_elapsed l t then 0 else l.failed_attempts) ≡ 0

failures_below :
    (max mins : ℕ) (ts : List Time) (l : AccountLockInfo)
    → l.is_locked ≡ false
    → l.failed_attempts + length ts < max
    → ((record_failures max mins ts l).is_locked ≡ false)
      × ((record_failures max mins ts l).failed_attempts ≡ l.failed_attempts + length ts)
unfolding record_failures
failures_below max mins [] l free below = (free, omega arith)
failures_below max mins (t ∷ ts) l free below =
    let l' = record_failed_attempt max mins t l in
    let free' : l'.is_locked ≡ false = unfold record_failed_attempt in ground arith in
    let count : l'.failed_attempts ≡ l.failed_attempts + 1 =
      unfold record_failed_attempt in ground arith in
    let ih = failures_below max mins ts l' free' (omega arith) in (ih.0, omega arith)

record_failures-append :
    (max mins : ℕ) (ts us : List Time) (l : AccountLockInfo)
    → record_failures max mins (ts ++ us) l
      ≡ record_failures max mins us (record_failures max mins ts l)
unfolding record_failures
record_failures-append max mins [] us l = refl
record_failures-append max mins (t ∷ ts) us l =
    record_failures-append max mins ts us (record_failed_attempt max mins t l)

next_failure :
    (max mins : ℕ) (t now : Time) (l : AccountLockInfo)
    → l.is_locked ≡ false
    → is_locked_out (record_failed_attempt max mins t l) now
      ≡ (leb max (l.failed_attempts + 1) && ltb now (t + minutes mins))
unfolding record_failed_attempt is_locked_out
next_failure max mins t now l free = ground arith

-- Wrong passwords on an account that no failure has touched: after the attempt at time `t`, which
-- is at most the `max`-th, the account is locked out at an instant `now` exactly if that attempt
-- was the `max`-th and `now` comes before `t` plus the lockout's duration.
pub lockout_exact :
    (max mins : ℕ) (ts : List Time) (t now : Time)
    → length ts < max
    → is_locked_out (record_failures max mins (ts ++ t ∷ []) create) now
      ≡ (leb max (length ts + 1) && ltb now (t + minutes mins))
lockout_exact max mins ts t now few =
    let below = failures_below max mins ts create refl (omega arith) in
    rw (record_failures-append max mins ts (t ∷ []) create) (
      unfold record_failures in
      next_failure max mins t now (record_failures max mins ts create) below.0
      ∙ ap (λ (n : ℕ). leb max (n + 1) && ltb now (t + minutes mins)) (below.1 ∙ omega arith))

-- The counters that decide a lock: the lock itself, the failures and the end.
abbrev pub SameCounters : AccountLockInfo → AccountLockInfo → Type 0
SameCounters l m =
    (l.is_locked ≡ m.is_locked)
    × (l.failed_attempts ≡ m.failed_attempts)
    × (l.lock_until ≡ m.lock_until)

SameCounters-failures :
    (max mins : ℕ) (ts : List Time) (l m : AccountLockInfo)
    → SameCounters l m
    → SameCounters (record_failures max mins ts l) (record_failures max mins ts m)
unfolding record_failures
SameCounters-failures max mins [] l m same = same
SameCounters-failures max mins (t ∷ ts) l m same =
    SameCounters-failures max mins ts (record_failed_attempt max mins t l)
      (record_failed_attempt max mins t m) (unfold record_failed_attempt in ground arith)

-- Once a timed lock has elapsed, any run of wrong passwords counts as it would on an account that
-- no failure has touched: the same lock, the same count and the same end of the lock.
pub elapsed_lock_restarts :
    (max mins : ℕ) (t : Time) (ts : List Time) (l : AccountLockInfo)
    → lock_window_elapsed l t ≡ true
    → SameCounters (record_failures max mins (t ∷ ts) l) (record_failures max mins (t ∷ ts) create)
unfolding record_failures
elapsed_lock_restarts max mins t ts l elapsed =
    SameCounters-failures max mins ts (record_failed_attempt max mins t l)
      (record_failed_attempt max mins t create) (unfold record_failed_attempt in ground arith)

-- A failed attempt recorded on an account that an administrator locked for good lifts the lock,
-- whenever more than one attempt is allowed: from then on the account is not locked out.
pub failure_lifts_admin_lock :
    (reason : String) (max mins : ℕ) (locked_at t now : Time)
    → 1 < max
    → (is_locked_out (create_locked reason none locked_at) t ≡ true)
      × (is_locked_out (record_failed_attempt max mins t (create_locked reason none locked_at)) now
          ≡ false)
unfolding record_failed_attempt is_locked_out create_locked
failure_lifts_admin_lock reason max mins locked_at t now h = (refl, ground arith)
