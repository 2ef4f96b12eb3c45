-- ===== src/Infrastructure.antt =====
-- src/infrastructure: adapters behind the interfaces of the domain and of the application.
pub mod RateLimiter
pub mod Outbox
pub mod Cache
pub mod ChallengeStore
pub mod SessionRepo
pub mod UserRepo
pub mod RoleRepo
pub mod UserRows
pub mod Maintenance
pub mod Idempotency
pub mod MemoryUow
