-- ===== src/Files/Deletion.antt =====
-- A file after its deletion.
use knowledge_flywheel.Base.{
  ℕ, true, false, not, none, some, ◌≡◌, ◌≢◌, refl, ap, ◌∙◌, keep, Option-cases, inl, inr, ◌==◌, ok,
  err,
}
use knowledge_flywheel.Store.Table.{IsClean, get, delete_where}
use knowledge_flywheel.Store.Laws.{
  first_test, first-flush-put, live_rows-flush, live_rows-delete_where,
}
use knowledge_flywheel.Models.Status.{deleted}
use knowledge_flywheel.Models.Rows.{FileRecord, file_entity}
use knowledge_flywheel.Models.Session.{Session, commit, flush_all}
use knowledge_flywheel.Files.Report.{save_file}
use knowledge_flywheel.Files.Handlers.{delete_rows, tombstone, file_delete, gateway_file_download}
use knowledge_flywheel.Execution.Indexing.{of_file}
use knowledge_flywheel.Execution.Reindex.{chunk_rows}
use knowledge_flywheel.Blobs.Storage.{Backends, World}
use knowledge_flywheel.Blobs.Objects.{load_blob}

module _ (file_id : ℕ) (db : Session) where
  file_delete_found :
      (f : FileRecord)
      → get file_id db.files ≡ some f
      → file_delete file_id db
        ≡ (ok true, commit (save_file (tombstone f) (delete_rows file_id db)))
  unfolding file_delete
  file_delete_found f found = rw (file_delete, found) refl

  deleted_record :
      (f : FileRecord)
      → IsClean db.files
      → get file_id db.files ≡ some f
      → get file_id (file_delete file_id db).1.files ≡ some (tombstone f)
  unfolding commit flush_all save_file delete_rows
  deleted_record f c found =
      ap (λ r. get file_id r.1.files) (file_delete_found f found)
      ∙ first-flush-put (λ (g : FileRecord). g.id == file_id) db.files f (tombstone f) c refl
          (first_test (λ (g : FileRecord). g.id == file_id) db.files f c found) found

  file_delete_missing : get file_id db.files ≡ none → (file_delete file_id db).0 ≢ ok true
  unfolding file_delete
  file_delete_missing missing e = let e' = rw (file_delete, missing) at e in cc

  deleted_chunks :
      (f : FileRecord)
      → IsClean db.document_chunks
      → get file_id db.files ≡ some f
      → chunk_rows (file_delete file_id db).1 ≡ keep (λ c. not (of_file file_id c)) (chunk_rows db)
  unfolding commit flush_all save_file delete_rows
  deleted_chunks f c found =
      ap (λ r. chunk_rows r.1) (file_delete_found f found)
      ∙ live_rows-flush (delete_where (of_file file_id) db.document_chunks)
      ∙ live_rows-delete_where (of_file file_id) db.document_chunks c

-- Over committed files and chunks: once a deletion has returned, its file's record is dead and deleted,
-- neither the text download nor the blob download serves the file, and its chunks are gone, while those
-- of the other files are as they were.
pub deleted_file_not_served :
    {Remote : Type 0} (backends : Backends Remote) (world : World Remote) (file_id : ℕ)
    (db : Session)
    → IsClean db.files
    → IsClean db.document_chunks
    → (file_delete file_id db).0 ≡ ok true
    → let db' = (file_delete file_id db).1 in
      ((f : FileRecord) × (get file_id db'.files ≡ some f)
        × (f.alive ≡ false)
        × (f.status ≡ deleted))
      × (gateway_file_download file_id db' ≡ err "current file version not found")
      × (load_blob backends file_id (db', world) ≡ err "current file version not found")
      × (chunk_rows db' ≡ keep (λ c. not (of_file file_id c)) (chunk_rows db))
unfolding gateway_file_download load_blob
deleted_file_not_served backends world file_id db cf ck e =
    elim (Option-cases (get file_id db.files)) [
      | inl missing ↦ absurd (file_delete_missing file_id db missing e)
      | inr (f, found) ↦
          let record_after = deleted_record file_id db f cf found in
          (
            (tombstone f, record_after, refl, refl),
            rw (gateway_file_download, record_after) refl,
            rw (load_blob, record_after) refl,
            deleted_chunks file_id db f ck found,
          )
    ]
