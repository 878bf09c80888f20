-- ===== src/Blobs.antt =====
-- Binary objects: knowledge-hub/app/storage.py, and store_blob and load_blob of
-- knowledge-hub/app/services.py.
pub mod Storage
pub mod Objects
pub mod RoundTrip
