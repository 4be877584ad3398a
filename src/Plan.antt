-- ===== src/Plan.antt =====
-- src/thread/features/plan/: the plan that the client shows for a turn.
pub mod Fallback
pub mod Line
pub mod Parse
