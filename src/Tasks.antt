-- ===== src/Tasks.antt =====
-- backend/tasks/review_tasks.py: the background task that runs a review and stores its outcome.
pub mod Risk
pub mod Store
pub mod Review
pub mod Phases
pub mod Uninterrupted
pub mod Laws
pub mod Reported
pub mod Artifacts
pub mod Retried
