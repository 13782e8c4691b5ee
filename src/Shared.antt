-- ===== src/Shared.antt =====
-- src/shared/: what every module of the platform uses.
pub mod Errors
pub mod Transaction
pub mod TrustTier
