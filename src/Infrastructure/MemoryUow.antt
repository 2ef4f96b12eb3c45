-- ===== src/Infrastructure/MemoryUow.antt =====
-- src/infrastructure/db/memory/uow.py, with the equality of src/domain/common/entity.py. An
-- aggregate is taken as it is when its events are pulled.
pub mod Commits
use fast_stream_template.Common.{◌==◌, Bool, List, [], ◌∷◌, ◌++◌, any, false, if◌then◌else◌}
use fast_stream_template.Domain.Events.{Event}
use fast_stream_template.Domain.User.{User}
use fast_stream_template.Domain.Session.{SessionAggregate}
use fast_stream_template.Domain.Role.{Role}

pub data Aggregate : Type 0 where
  of_user : User → Aggregate
  of_session : SessionAggregate → Aggregate
  of_role : Role → Aggregate

-- BaseEntity.__eq__: the same type and the same id
unfoldable pub same : Aggregate → Aggregate → Bool
same (of_user u) (of_user v) = u.id == v.id
same (of_session s) (of_session t) = s.session_id == t.session_id
same (of_role r) (of_role q) = r.role_id == q.role_id
same _ _ = false

-- DomainEventDispatcher.pull_events
abbrev pub pull_events : Aggregate → List Event
pull_events (of_user u) = u.events
pull_events (of_session s) = s.events
pull_events (of_role r) = r.events

pub record MemoryUow : Type 0 where
  pub pending_events : List Event
  pub aggregates : List Aggregate
  pub committed_events : List Event

unfoldable pub register : Aggregate → MemoryUow → MemoryUow
register aggregate w =
    if any (same aggregate) w.aggregates
    then w
    else record w { aggregates = w.aggregates ++ aggregate ∷ [] }

unfoldable pub add_events : List Event → MemoryUow → MemoryUow
add_events events w = record w { pending_events = w.pending_events ++ events }

-- The loop of _drain
abbrev pub pull_all : List Aggregate → List Event
pull_all [] = []
pull_all (a ∷ bs) = pull_events a ++ pull_all bs

-- _drain
unfoldable pub drain : MemoryUow → List Event × MemoryUow
drain w =
    (w.pending_events ++ pull_all w.aggregates, record w { pending_events = []; aggregates = [] })

unfoldable pub commit : MemoryUow → MemoryUow
unfolding drain
commit w =
    let (drained, cleared) = drain w in
    record cleared { committed_events = w.committed_events ++ drained }

unfoldable pub rollback : MemoryUow → MemoryUow
unfolding drain
rollback w = (drain w).1
