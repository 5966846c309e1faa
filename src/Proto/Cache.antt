-- ===== src/Proto/Cache.antt =====
-- The messages of cache.proto.
-- Code: sdk/typescript/src/gen/pgapp/v1/cache.ts
pub mod Entries
pub mod Batches
pub mod Namespaces
pub mod Counters
pub mod Atomics
pub mod Kinds
