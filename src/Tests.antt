-- ===== src/Tests.antt =====
-- Concrete runs of the model, and each theorem at an input that meets its hypotheses.
mod Fixture
mod Ledger
mod Gate
mod Locks
mod Recovery
mod Storage
mod Durability
mod Lifecycle
mod Store
mod StateCodec
mod Requests
mod Runner
mod Reading
mod Scan
mod Lease
