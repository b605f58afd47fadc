-- ===== src/Workflows.antt =====
-- packages/workflows/src/runtime: the workflow runtime that keeps its state in memory.
pub mod Items
pub mod Commands
pub mod Delivery
pub mod Transitions
pub mod Runs
pub mod Nodes
pub mod Schedules
