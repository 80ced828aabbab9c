-- ===== src/Intents.antt =====
-- aep_core/core/intents.py: the intent ledger, its transition table, the script that writes it, and
-- the two scripts that gate a dispatch.
pub mod Status
pub mod Diagram
pub mod Cas
pub mod Dispatch
