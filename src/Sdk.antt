-- ===== src/Sdk.antt =====
-- The TypeScript client library.
-- Code: sdk/typescript/src/index.ts
pub mod Client
pub mod Bytes
pub mod Cache
pub mod Mq
pub mod Config
