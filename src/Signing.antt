-- ===== src/Signing.antt =====
-- Request signing with AWS Signature Version 4 (source/signing.c, source/aws_signing.c,
-- source/signing_config.c, source/signing_result.c).
pub mod Config
pub mod Outcome
pub mod State
pub mod Supported
pub mod Buffers
pub mod Path
pub mod Query
pub mod Headers
pub mod Payload
pub mod Request
pub mod Authorization
pub mod Sign
pub mod Tests
