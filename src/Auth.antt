-- ===== src/Auth.antt =====
-- The package `auth`: tokens, their stores, and the engines that attach them.
pub mod Tokens
pub mod Store
pub mod Prefixed
pub mod Redis
pub mod Django
pub mod Locks
pub mod Specs
pub mod Provider
pub mod Authenticated
