-- ===== src/Engine.antt =====
-- wasman.go: the engine.
pub mod Blocks
pub mod Checkpoint
pub mod Restore
pub mod Recovery
pub mod Decimal
pub mod HostCalls
pub mod Execute
pub mod Exchange
pub mod Bpmn
pub mod Construct
