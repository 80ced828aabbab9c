-- ===== src/Storage.antt =====
-- aep_core/core/storage.py: the base write path of an execution's state, and its read path.
pub mod Cas
pub mod Save
pub mod Migrate
pub mod Read
