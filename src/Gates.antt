-- ===== src/Gates.antt =====
-- The enforcement seams of a live session: what the supervisor does with a frame of the agent.
pub mod Dispatch
pub mod Permission
pub mod Context
pub mod Rationale
pub mod Completion
