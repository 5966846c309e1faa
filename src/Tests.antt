-- ===== src/Tests.antt =====
-- The theorems at concrete values.
mod Dictionary
mod Proto
mod Sdk
mod Admin
