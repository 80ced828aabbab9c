-- ===== src/Requests.antt =====
-- The safe-value boundary of aep_core/core/request_binding.py.
pub mod Names
pub mod Rules
pub mod Boundary
pub mod Canonical
