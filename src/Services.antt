-- ===== src/Services.antt =====
-- The package `services`: the facades over the request engines.
pub mod Base
pub mod Fields
pub mod Patterns
pub mod Facade
pub mod Careful
pub mod Safety
pub mod Gateway
pub mod Transfer
pub mod Cobank
pub mod DirectDebit
pub mod Sms
pub mod Contracts
pub mod Kyc
pub mod Identicator
