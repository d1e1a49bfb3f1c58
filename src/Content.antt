-- ===== src/Content.antt =====
-- src/aipy/modules/content: the workflow of content runs and human tasks.
pub mod Status
pub mod StateMachine
