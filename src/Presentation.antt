-- ===== src/Presentation.antt =====
-- src/presentation: what of the interfaces decides on its own.
pub mod ClientIp
