-- ===== src/Profile.antt =====
-- Configuration and credentials files with profiles (source/aws_profile.c,
-- include/aws/auth/private/aws_profile.h).
pub mod Chars
pub mod Collection
pub mod Merge
pub mod Lines
pub mod File
pub mod Paths
pub mod Tests
