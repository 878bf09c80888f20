-- ===== src/Files.antt =====
-- The file index of knowledge-hub/app/services.py: report_file and _upsert_file_replica. A node
-- reports the files it holds; a changed file is a new version of its path, and every reported version
-- gets a task that registers it. The handlers of knowledge-hub/app/main.py change, delete and serve
-- a file.
pub mod Report
pub mod Versions
pub mod Handlers
pub mod Deletion
pub mod Registration
