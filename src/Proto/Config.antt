-- ===== src/Proto/Config.antt =====
-- The messages of config.proto.
-- Code: sdk/typescript/src/gen/pgapp/v1/config.ts
pub mod Scopes
pub mod Drafts
pub mod Releases
pub mod Watches
pub mod Schemas
pub mod Kinds
