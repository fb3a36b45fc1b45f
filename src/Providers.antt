-- ===== src/Providers.antt =====
-- Credentials and their providers (source/credentials.c, source/credentials_utils.c and
-- source/credentials_provider_*.c).
pub mod Lifetime
pub mod Cached
pub mod Chain
pub mod Basic
pub mod FromProfile
pub mod Imds
pub mod Sts
pub mod Handover
pub mod Tests
