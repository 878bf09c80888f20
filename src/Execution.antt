-- ===== src/Execution.antt =====
-- Running tasks: execute_task_payload, run_task_once, run_task_by_id and queue_file_content_parse of
-- knowledge-hub/app/services.py, and the pipeline of knowledge-hub/app/langgraph_flow.py.
pub mod Setup
pub mod Indexing
pub mod Pipeline
pub mod Kinds
pub mod Run
pub mod Quiet
pub mod Clean
pub mod Settled
pub mod Reindex
pub mod Repairs
