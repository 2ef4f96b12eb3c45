-- ===== src/Application.antt =====
-- src/application: the use cases over the stored rows.
pub mod UnitOfWork
pub mod RefreshToken
pub mod Login
pub mod LoginUseCase
pub mod CompleteTwoFactor
pub mod Transaction
pub mod UserService
pub mod Accounts
pub mod Rbac
