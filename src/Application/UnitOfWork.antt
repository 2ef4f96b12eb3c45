-- ===== src/Application/UnitOfWork.antt =====
-- src/infrastructure/db/sqlalchemy/uow.py over the rows that the use cases read and write. A
-- registered aggregate is kept as its unpulled events. The event handlers, which write the audit
-- log in the same transaction, are not modelled.
use fast_stream_template.Common.{ℕ, List, Time, Uuid, [], suc, ◌++◌, ◌∷◌}
use fast_stream_template.Domain.Events.{Event}
use fast_stream_template.Domain.User.{User}
use fast_stream_template.Infrastructure.Outbox.{OutboxEvent, outbox_event}
use fast_stream_template.Infrastructure.SessionRepo.{SessionTables}

-- The committed rows. A user's row is the entity that it loads as.
pub record Database : Type 0 where
  pub users : List User
  pub sessions : SessionTables
  pub outbox : List OutboxEvent

-- A transaction: the rows as it sees them, and the events of the registered aggregates.
pub record Work : Type 0 where
  pub db : Database
  pub pending_events : List Event

unfoldable pub begin : Database → Work
begin db = record { db = db; pending_events = [] }

-- SQLAlchemyUoW.register, of an aggregate that is not registered yet
unfoldable pub register : List Event → Work → Work
register events w = record w { pending_events = w.pending_events ++ events }

-- The loop of `commit` over the events; `id_of n` is the n-th id that is drawn.
unfoldable pub persist : (ℕ → Uuid) → ℕ → Time → List Event → List OutboxEvent
unfolding outbox_event
persist id_of n now [] = []
persist id_of n now (e ∷ es) = outbox_event (id_of n) now e ∷ persist id_of (suc n) now es

-- SQLAlchemyUoW.commit: the rows after it
unfoldable pub commit : (ℕ → Uuid) → Time → Work → Database
unfolding persist
commit id_of now w = record w.db { outbox = w.db.outbox ++ persist id_of 0 now w.pending_events }
