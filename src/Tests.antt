-- ===== src/Tests.antt =====
-- Runs on concrete data, and the theorems at inputs that meet their hypotheses.
mod Redaction
mod Fixtures
mod Calls
mod Tokens
mod Payments
mod Callbacks
mod Clients
mod Recovery
mod Stores
mod Mandates
mod Aliases
mod Settings
mod Requests
