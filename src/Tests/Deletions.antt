-- ===== src/Tests/Deletions.antt =====
-- The theorem on deletions at a small table.
use knowledge_flywheel.Base.{true, false, not, none, some, [], ◌∷◌, ◌≡◌, refl, keep, ok, err}
use knowledge_flywheel.Store.Table.{loaded, select, get}
use knowledge_flywheel.Models.Status.{FileStatus, deleted}
use knowledge_flywheel.Models.Rows.{FileRecord, file_entity}
use knowledge_flywheel.Models.Session.{Session}
use knowledge_flywheel.Execution.Indexing.{of_file}
use knowledge_flywheel.Execution.Reindex.{chunk_rows}
use knowledge_flywheel.Blobs.Storage.{Backends}
use knowledge_flywheel.Blobs.Objects.{load_blob}
use knowledge_flywheel.Files.Handlers.{file_delete, gateway_file_download}
use knowledge_flywheel.Files.Deletion.{deleted_file_not_served}
use knowledge_flywheel.Tests.Samples.{empty_session}

abbrev plan : FileRecord
plan = record {
  id = 9;
  path = "/docs/plan.txt";
  file_hash = "abcdef12";
  size_bytes = 10;
  status = FileStatus.parsed;
  alive = true;
  last_seen_at = 50;
  version = 1;
  category = "通用";
  source_node_id = "pc-1";
}

abbrev one_plan : Session
one_plan = record empty_session { files = loaded plan ∷ [] }

abbrev no_s3 : Backends Unit
no_s3 = record { inside_root = λ key. true; client = none; s3_prefix = "" }

delete_returns : (file_delete 9 one_plan).0 ≡ ok true
unfolding file_delete select
delete_returns = refl

deleted_file_not_served_example :
    let db' = (file_delete 9 one_plan).1 in
    ((f : FileRecord) × (get 9 db'.files ≡ some f) × (f.alive ≡ false) × (f.status ≡ deleted))
    × (gateway_file_download 9 db' ≡ err "current file version not found")
    × (load_blob no_s3 9 (db', ([], tt)) ≡ err "current file version not found")
    × (chunk_rows db' ≡ keep (λ c. not (of_file 9 c)) (chunk_rows one_plan))
deleted_file_not_served_example =
    deleted_file_not_served no_s3 ([], tt) 9 one_plan (refl, tt) tt delete_returns
