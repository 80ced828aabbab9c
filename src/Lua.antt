-- ===== src/Lua.antt =====
-- The values that the Lua scripts of aep_core/core/intents.py and storage.py compute with, and the
-- early returns by which they answer.
pub mod Value
pub mod Equal
pub mod Keys
pub mod Script
