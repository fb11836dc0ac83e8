-- ===== src/Api.antt =====
-- The API types (api/v1alpha1), as far as the controllers read and write them.
pub mod Flow
pub mod FlowRun
pub mod Integration
pub mod Trigger
pub mod WebhookTrigger
