-- ===== src/Durability.antt =====
-- aep_core/core/durability.py: the acknowledgements that let one dispatch through, and the barrier that
-- earns them.
pub mod Ack
pub mod Barrier
