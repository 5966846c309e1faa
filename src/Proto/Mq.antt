-- ===== src/Proto/Mq.antt =====
-- The messages of mq.proto.
-- Code: sdk/typescript/src/gen/pgapp/v1/mq.ts
pub mod Queues
pub mod Sends
pub mod Reads
pub mod Leases
pub mod DeadLetters
pub mod Kinds
