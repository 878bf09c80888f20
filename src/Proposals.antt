-- ===== src/Proposals.antt =====
-- The review of proposals: review_proposal of knowledge-hub/app/services.py and the handler of
-- knowledge-hub/app/main.py through which a reviewer reaches it, and create_dsh_review_proposal with
-- the client of knowledge-hub/app/dsh_client.py.
pub mod Review
pub mod Once
pub mod Harness
pub mod Drafts
pub mod Drafted
