-- ===== src/Tests/Objects.antt =====
-- The theorem on blobs at a small table, with the local backend.
use knowledge_flywheel.Base.{true, none, some, [], ◌∷◌, ◌≡◌, refl, ok}
use knowledge_flywheel.Store.Table.{next_id, get, loaded, select}
use knowledge_flywheel.Models.Status.{FileStatus}
use knowledge_flywheel.Models.Rows.{FileRecord, file_entity}
use knowledge_flywheel.Models.Support.{BlobObject}
use knowledge_flywheel.Models.Session.{Session}
use knowledge_flywheel.Parse.Split.{strip, is_space}
use knowledge_flywheel.Overrides.Settings.{lower}
use knowledge_flywheel.Blobs.Storage.{Bytes, World, Backends, safe_key, get_storage_for}
use knowledge_flywheel.Blobs.Objects.{store_blob, load_blob}
use knowledge_flywheel.Blobs.RoundTrip.{stored_blob_loads}
use knowledge_flywheel.Tests.Samples.{empty_session, settings}

-- Nothing is in the S3 service: it is not installed.
abbrev local_only : Backends Unit
local_only = record { inside_root = λ key. true; client = none; s3_prefix = "" }

abbrev scan : FileRecord
scan = record {
  id = 5;
  path = "/docs/scan.pdf";
  file_hash = "0123456789abcdef";
  size_bytes = 3;
  status = FileStatus.registered;
  alive = true;
  last_seen_at = 50;
  version = 1;
  category = "通用";
  source_node_id = "pc-1";
}

abbrev one_scan : Session
one_scan = record empty_session { files = loaded scan ∷ [] }

abbrev three_bytes : Bytes
three_bytes = 37 ∷ 80 ∷ 68 ∷ []

abbrev empty_world : World Unit
empty_world = ([], tt)

abbrev scan_blob : BlobObject
scan_blob = record {
  id = 1;
  file_id = 5;
  file_hash = "0123456789abcdef";
  mime_type = none;
  size_bytes = 3;
  storage_key = "01/23/0123456789abcdef";
  storage_backend = "local";
  sha256 = "0123456789abcdef";
  created_at = 60;
}

store_returns :
    (store_blob local_only settings
      (λ bytes. "0123456789abcdef")
      60
      5
      "0123456789abcdef"
      three_bytes
      none
      (one_scan, empty_world)).0
    ≡ ok scan_blob
unfolding store_blob select strip lower is_space get_storage_for safe_key next_id
store_returns = refl

scan_found : get 5 one_scan.files ≡ some scan
unfolding select
scan_found = refl

stored_blob_loads_example :
    load_blob local_only 5
      (store_blob local_only settings
        (λ bytes. "0123456789abcdef")
        60
        5
        "0123456789abcdef"
        three_bytes
        none
        (one_scan, empty_world)).1
    ≡ ok (scan_blob, three_bytes)
unfolding select
stored_blob_loads_example =
    stored_blob_loads local_only settings (λ bytes. "0123456789abcdef") 60 5 scan "0123456789abcdef"
      three_bytes none scan_blob one_scan empty_world (λ client present. cc) (refl, tt) tt
      scan_found refl refl store_returns
