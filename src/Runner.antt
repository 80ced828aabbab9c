-- ===== src/Runner.antt =====
-- aep_core/core/intent_workflow.py: the policy of a connector, the composition that a runner may
-- dispatch under, and the run of one dispatch.
pub mod Policy
pub mod Startup
pub mod Execute
