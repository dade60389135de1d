-- ===== src/Service.antt =====
-- app/internal/service and the key files of app/internal/integration/pubkeys.go.
pub mod Names
pub mod PublicKey
pub mod World
pub mod KeyFiles
pub mod Keys
pub mod Resources
pub mod Worker
pub mod Republish
pub mod Reconciled
pub mod Synchronizer
pub mod Traced
mod Tests
