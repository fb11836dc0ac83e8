-- ===== src/Run.antt =====
-- internal/controller/flowrun_controller.go: how a FlowRun is driven through the steps of its Flow.
pub mod Steps
pub mod Plan
pub mod Finish
pub mod Runtime
pub mod Wait
pub mod Wave
pub mod Gc
pub mod Reconcile
pub mod Namespace
mod Tests
