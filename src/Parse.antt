-- ===== src/Parse.antt =====
-- `_split_text` of knowledge-hub/app/services.py: a file's text cut into chunks for the index.
pub mod Split
pub mod Bounds
pub mod Content
