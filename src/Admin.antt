-- ===== src/Admin.antt =====
-- The console of the administrator.
-- Code: apps/admin-ui/src/App.tsx
pub mod Async
pub mod Text
pub mod Http
pub mod Scopes
pub mod Clients
pub mod Editor
pub mod Queues
pub mod App
