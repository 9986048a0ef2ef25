-- ===== src/Workflow.antt =====
-- src/workflow/: workflows, their checkpoints and their owners.
pub mod Event
pub mod StateMachine
pub mod Error
pub mod Ownership
pub mod Registry
pub mod Runtime
mod Tests
