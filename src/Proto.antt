-- ===== src/Proto.antt =====
-- The messages of the generated code, a module for each group.
-- Code: sdk/typescript/src/gen/pgapp/v1
pub mod Common
pub mod Health
pub mod Cache
pub mod Mq
pub mod Config
