-- ===== src/Store.antt =====
-- app/internal/store: the database and its operations.
pub mod Db
pub mod Tx
pub mod Rules
pub mod Keys
pub mod Registered
pub mod Reservations
pub mod Users
pub mod Bind
pub mod Tunnels
pub mod Snapshot
pub mod Stamp
pub mod Auth
pub mod Outbox
pub mod Telemetry
pub mod Calls
pub mod Generation
pub mod Revocation
pub mod Resources
pub mod Valid
pub mod Rows
pub mod Invariant
pub mod Entitled
pub mod Authorized
pub mod Granted
pub mod Suspension
pub mod Retired
pub mod Known
pub mod Lifecycle
pub mod Cursors
pub mod Watch
pub mod Steps
pub mod Kept
pub mod Late
pub mod Backoff
pub mod OneTime
pub mod Batches
pub mod Synced
mod Tests
pub mod Admitted
pub mod LoggedIn
pub mod Listing
