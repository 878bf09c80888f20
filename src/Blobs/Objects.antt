-- ===== src/Blobs/Objects.antt =====
-- store_blob and load_blob.
use knowledge_flywheel.Base.{
  ℕ, String, Bool, ◌&&◌, ◌||◌, not, Option, none, some, [], ◌==◌, str_eq, if◌then◌else◌, length,
  show, Result, ok, err,
}
use knowledge_flywheel.Config.{Settings}
use knowledge_flywheel.Store.Table.{first, get, add, next_id}
use knowledge_flywheel.Models.Status.{file_is, superseded}
use knowledge_flywheel.Models.Rows.{FileRecord, file_entity}
use knowledge_flywheel.Models.Support.{BlobObject, blob_entity}
use knowledge_flywheel.Models.Session.{Session, flush_all, commit, audit}
use knowledge_flywheel.Blobs.Storage.{
  Bytes, StorageBackend, World, Backends, safe_key, get_storage_for,
}

-- The session, and what the backends store.
abbrev pub Stored : Type 0 → Type 0
Stored Remote = Session × World Remote

abbrev pub is_blob_of : ℕ → String → BlobObject → Bool
is_blob_of file_id file_hash b = b.file_id == file_id && str_eq b.file_hash file_hash

-- The query for the blob of a version.
abbrev pub blob_of : ℕ → String → Session → Option BlobObject
blob_of file_id file_hash db = first (is_blob_of file_id file_hash) db.blob_objects

-- `BlobObject(...)`
unfoldable pub new_blob :
    ℕ → ℕ → String → Option String → ℕ → String → String → Session → BlobObject
new_blob now file_id file_hash mime_type size key backend db = record {
  id = next_id db.blob_objects;
  file_id = file_id;
  file_hash = file_hash;
  mime_type = mime_type;
  size_bytes = size;
  storage_key = key;
  storage_backend = backend;
  sha256 = file_hash;
  created_at = now;
}

unfoldable pub add_blob : BlobObject → Session → Session
add_blob b db = record db { blob_objects = add b db.blob_objects }

-- The row and the object: a write that raises leaves neither, since nothing is committed.
unfoldable pub write_blob :
    {Remote : Type 0}
    → StorageBackend (World Remote)
    → BlobObject
    → Bytes
    → Stored Remote
    → Result BlobObject × Stored Remote
unfolding add_blob
write_blob storage b bytes (db, world) = elim (storage.put b.storage_key bytes world) [
  | err raised ↦ (err raised, (db, world))
  | ok world' ↦ (
    ok b,
    (
      commit (
          audit "node-adapter" "blob.stored" "blob_object" (show b.id) []
            (flush_all (add_blob b db))),
      world',
    ),
  )
]

-- A version that has no blob yet.
unfoldable pub store_new :
    {Remote : Type 0}
    → Backends Remote
    → Settings
    → ℕ
    → ℕ
    → String
    → Bytes
    → Option String
    → Stored Remote
    → Result BlobObject × Stored Remote
unfolding write_blob new_blob
store_new backends s now file_id file_hash bytes mime_type (db, world) =
    elim (get_storage_for backends s.storage_backend) [
      | err raised ↦ (err raised, (db, world))
      | ok storage ↦ elim (safe_key file_hash) [
        | err raised ↦ (err raised, (db, world))
        | ok key ↦
            write_blob storage
              (new_blob now file_id file_hash mime_type (length bytes) key storage.name db) bytes
              (db, world)
      ]
    ]

-- `store_blob`, by the SHA-256 of bytes.
unfoldable pub store_blob :
    {Remote : Type 0}
    → Backends Remote
    → Settings
    → (Bytes → String)
    → ℕ
    → ℕ
    → String
    → Bytes
    → Option String
    → Stored Remote
    → Result BlobObject × Stored Remote
unfolding store_new
store_blob backends s sha256_bytes now file_id file_hash bytes mime_type (db, world) =
    elim (get file_id db.files) [
      | none ↦ (err "file not found", (db, world))
      | some f ↦
          if not (str_eq f.file_hash file_hash)
          then (err "file hash mismatch", (db, world))
          else if not (str_eq (sha256_bytes bytes) file_hash)
          then (err "content hash does not match file hash", (db, world))
          else elim (blob_of file_id file_hash db) [
            | some existing ↦ (ok existing, (db, world))
            | none ↦ store_new backends s now file_id file_hash bytes mime_type (db, world)
          ]
    ]

-- `not record.alive or record.status == "superseded"`
abbrev pub is_outdated : FileRecord → Bool
is_outdated f = not f.alive || file_is f.status superseded

-- The bytes of a blob, from the backend that its row names.
unfoldable pub read_blob :
    {Remote : Type 0} → Backends Remote → BlobObject → World Remote → Result (BlobObject × Bytes)
read_blob backends b world = elim (get_storage_for backends b.storage_backend) [
  | err raised ↦ err raised
  | ok storage ↦ elim (storage.get b.storage_key world) [
    | err raised ↦ err raised
    | ok bytes ↦ ok (b, bytes)
  ]
]

-- `load_blob`
unfoldable pub load_blob :
    {Remote : Type 0} → Backends Remote → ℕ → Stored Remote → Result (BlobObject × Bytes)
unfolding read_blob
load_blob backends file_id (db, world) = elim (get file_id db.files) [
  | none ↦ err "current file version not found"
  | some f ↦
      if is_outdated f
      then err "current file version not found"
      else elim (blob_of file_id f.file_hash db) [
        | none ↦ err "blob not found"
        | some b ↦ read_blob backends b world
      ]
]
