-- ===== src/Tasks.antt =====
-- The task queue of knowledge-hub/app/services.py: TASK_TRANSITIONS, create_task,
-- transition_task, claim_next_task and claim_task_by_id. Each call is one transaction; the row lock
-- (`with_for_update`) makes the claims of concurrent workers a sequence of such calls.
pub mod Queue
pub mod Claims
pub mod Exclusion
pub mod Poll
pub mod Lifecycle
pub mod Creation
