-- ===== src/Domain.antt =====
-- The domain layer: src/domain.
pub mod Ports
pub mod AccountLock
pub mod Tokens
pub mod TwoFactor
pub mod Events
pub mod User
pub mod Session
pub mod Role
pub mod Names
