-- ===== src/Tests.antt =====
-- Concrete inputs for the theorems of the other modules.
pub mod Accounts
pub mod Sessions
pub mod Roles
pub mod Limits
pub mod Delivery
pub mod Refresh
pub mod Login
pub mod TwoFactorLogin
pub mod Requests
pub mod RoleService
pub mod Edges
