-- ===== src/Domain/AccountLock.antt =====
-- src/domain/user/value_objects/account_lock.py: the lock that failed logins and administrators
-- put on an account. Each method reads the clock once: `now` is that reading.
pub mod Lockout
use fast_stream_template.Common.{
  ℕ, ◌+◌, Bool, true, false, not, ◌&&◌, Option, none, some, String, Time, minutes, leb,
  if◌then◌else◌,
}

pub record AccountLockInfo : Type 0 where
  pub is_locked : Bool
  pub locked_at : Option Time
  pub lock_reason : Option String
  pub failed_attempts : ℕ
  pub lock_until : Option Time

-- AccountLockInfo.create
abbrev pub create : AccountLockInfo
create = record {
  is_locked = false;
  locked_at = none;
  lock_reason = none;
  failed_attempts = 0;
  lock_until = none;
}

-- AccountLockInfo.create_locked
unfoldable pub create_locked : String → Option Time → Time → AccountLockInfo
create_locked reason until now = record {
  is_locked = true;
  locked_at = some now;
  lock_reason = some reason;
  failed_attempts = 0;
  lock_until = until;
}

-- `self.lock_until and moment >= self.lock_until`
abbrev pub reached : Option Time → Time → Bool
reached none now = false
reached (some t) now = leb t now

-- AccountLockInfo._lock_window_elapsed
unfoldable pub lock_window_elapsed : AccountLockInfo → Time → Bool
lock_window_elapsed l now = l.is_locked && reached l.lock_until now

-- AccountLockInfo.record_failed_attempt
unfoldable pub record_failed_attempt : ℕ → ℕ → Time → AccountLockInfo → AccountLockInfo
unfolding lock_window_elapsed
record_failed_attempt max_attempts lockout_duration_minutes now l =
    let base_attempts : ℕ = if lock_window_elapsed l now then 0 else l.failed_attempts in
    let new_failed_attempts : ℕ = base_attempts + 1 in
    let is_locked : Bool = leb max_attempts new_failed_attempts in
    record {
      is_locked = is_locked;
      locked_at = l.locked_at;
      lock_reason = l.lock_reason;
      failed_attempts = new_failed_attempts;
      lock_until = if is_locked then some (now + minutes lockout_duration_minutes) else none;
    }

-- AccountLockInfo.record_successful_login
unfoldable pub record_successful_login : AccountLockInfo → AccountLockInfo
record_successful_login l = record {
  is_locked = false;
  locked_at = none;
  lock_reason = none;
  failed_attempts = 0;
  lock_until = none;
}

-- AccountLockInfo.unlock
unfoldable pub unlock : AccountLockInfo → AccountLockInfo
unlock l = record l {
  is_locked = false;
  lock_reason = none;
  failed_attempts = 0;
  lock_until = none;
}

-- AccountLockInfo.is_locked_out
unfoldable pub is_locked_out : AccountLockInfo → Time → Bool
unfolding lock_window_elapsed
is_locked_out l now = if not l.is_locked then false else not (lock_window_elapsed l now)
