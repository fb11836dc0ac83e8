-- ===== src/Template.antt =====
-- The texts of a Flow that refer to a FlowRun's data (internal/controller/flowrun_controller.go):
-- trigger bodies, placeholders, and the parameters of a Flow.
pub mod Library
pub mod Body
pub mod Token
pub mod Interpolate
pub mod Params
pub mod Tests
