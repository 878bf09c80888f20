-- ===== src/Files/Handlers.antt =====
-- file_update, file_delete and gateway_file_download of knowledge-hub/app/main.py, without their HTTP
-- status codes.
use knowledge_flywheel.Base.{
  ℕ, String, Bool, true, false, none, some, List, [], ◌∷◌, ◌++◌, ◌==◌, if◌then◌else◌, map, Result,
  ok, err,
}
use knowledge_flywheel.Store.Table.{get, delete_where}
use knowledge_flywheel.Models.Status.{deleted}
use knowledge_flywheel.Models.Rows.{FileRecord, FileReplica, DocumentChunk, file_entity}
use knowledge_flywheel.Models.Support.{BlobObject}
use knowledge_flywheel.Models.Session.{Session, commit}
use knowledge_flywheel.Parse.Split.{Text}
use knowledge_flywheel.Files.Report.{save_file}
use knowledge_flywheel.Execution.Indexing.{of_file, chunks_of}
use knowledge_flywheel.Blobs.Objects.{is_outdated}

-- `file_update`
unfoldable pub file_update : ℕ → String → Session → Result FileRecord × Session
unfolding save_file
file_update file_id category db = elim (get file_id db.files) [
  | none ↦ (err "file not found", db)
  | some f ↦ (
    ok (record f { category = category }),
    commit (save_file (record f { category = category }) db),
  )
]

-- The rows that go with a file: its chunks, its replicas and its blobs.
unfoldable pub delete_rows : ℕ → Session → Session
delete_rows file_id db = record db {
  document_chunks = delete_where (of_file file_id) db.document_chunks;
  file_replicas = delete_where (λ (r : FileReplica). r.file_id == file_id) db.file_replicas;
  blob_objects = delete_where (λ (b : BlobObject). b.file_id == file_id) db.blob_objects;
}

abbrev pub tombstone : FileRecord → FileRecord
tombstone f = record f { alive = false; status = deleted }

-- `file_delete`
unfoldable pub file_delete : ℕ → Session → Result Bool × Session
unfolding delete_rows save_file
file_delete file_id db = elim (get file_id db.files) [
  | none ↦ (err "file not found", db)
  | some f ↦ (ok true, commit (save_file (tombstone f) (delete_rows file_id db)))
]

-- The answer of a download: the text and its headers.
pub record Download : Type 0 where
  pub content : Text
  pub file_hash : String
  pub version : ℕ
  pub file_id : ℕ

-- `"\n\n".join(...)`
unfoldable pub join_paragraphs : List Text → Text
join_paragraphs [] = []
join_paragraphs (t ∷ []) = t
join_paragraphs (t ∷ u ∷ ts) = t ++ 10 ∷ 10 ∷ join_paragraphs (u ∷ ts)

unfoldable pub assembled : FileRecord → List DocumentChunk → Result Download
unfolding join_paragraphs
assembled f [] = err "file content is not available yet"
assembled f (c ∷ cs) = ok (record {
  content = join_paragraphs (map (λ (d : DocumentChunk). d.content) (c ∷ cs));
  file_hash = f.file_hash;
  version = f.version;
  file_id = f.id;
})

-- `gateway_file_download`
unfoldable pub gateway_file_download : ℕ → Session → Result Download
unfolding assembled chunks_of
gateway_file_download file_id db = elim (get file_id db.files) [
  | none ↦ err "current file version not found"
  | some f ↦
      if is_outdated f
      then err "current file version not found"
      else assembled f (chunks_of f.id f.file_hash db)
]
