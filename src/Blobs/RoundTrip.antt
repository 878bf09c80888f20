-- ===== src/Blobs/RoundTrip.antt =====
-- load_blob after store_blob.
use knowledge_flywheel.Base.{
  ℕ, String, Bool, true, false, Option, none, some, [], ◌∷◌, ◌≡◌, refl, ap, sym, ◌∙◌, ==_refl,
  str_eq, eq_refl, eq_iff, length, show, Result, ok, err, Result-cases, ok-injective, subst,
  Bool-cases, Option-cases, inl, inr,
}
use knowledge_flywheel.Config.{Settings}
use knowledge_flywheel.Store.Table.{IsClean, get, add, flush}
use knowledge_flywheel.Store.Laws.{flush-IsClean, first_clean_flush, first-flush-add}
use knowledge_flywheel.Models.Rows.{FileRecord, file_entity}
use knowledge_flywheel.Models.Support.{BlobObject, blob_entity}
use knowledge_flywheel.Models.Session.{Session, commit, flush_all, audit}
use knowledge_flywheel.Parse.Split.{strip, is_space}
use knowledge_flywheel.Overrides.Settings.{lower}
use knowledge_flywheel.Blobs.Storage.{
  Bytes, Files, StorageBackend, World, Backends, S3Client, safe_key, local_storage, s3_storage,
  s3_key, put_remote, names_s3, get_storage_for,
}
use knowledge_flywheel.Blobs.Objects.{
  blob_of, is_blob_of, new_blob, add_blob, write_blob, store_new, store_blob, is_outdated,
  read_blob, load_blob,
}

local_is_local : names_s3 "local" ≡ false
unfolding lower strip is_space
local_is_local = refl

s3_is_s3 : names_s3 "s3" ≡ true
unfolding lower strip is_space
s3_is_s3 = refl

module _ {Remote : Type 0} where
  -- The S3 service gives back what was put last under a key.
  abbrev pub IsFaithful : S3Client Remote → Type 0
  IsFaithful client =
      (key : String) (bytes : Bytes) (before after : Remote)
      → client.put_object key bytes before ≡ ok after
      → client.get_object key after ≡ ok bytes

  -- A backend is found by its name, and gives back what was put last under a key.
  abbrev pub IsSoundStorage : Backends Remote → Result (StorageBackend (World Remote)) → Type 0
  IsSoundStorage backends (err raised) = Unit
  IsSoundStorage backends (ok storage) =
      (get_storage_for backends storage.name ≡ ok storage)
      × ((key : String) (bytes : Bytes) (before after : World Remote)
          → storage.put key bytes before ≡ ok after
          → storage.get key after ≡ ok bytes)

  local_storage_gives :
      (inside : String → Bool) (key : String) (bytes : Bytes) (before after : World Remote)
      → (local_storage inside).put key bytes before ≡ ok after
      → (local_storage inside).get key after ≡ ok bytes
  unfolding local_storage
  local_storage_gives inside key bytes before after e = elim (Bool-cases (inside key)) [
    | inr outside ↦ let e' = rw outside at e in cc
    | inl below ↦
        let written = ok-injective ((key, bytes) ∷ before.0, before.1) after (rw below at e) in
        subst (λ (w : World Remote). (local_storage inside).get key w ≡ ok bytes) written
          (rw (below, eq_refl key) refl)
  ]

  put_remote_ok :
      (files : Files) (r : Result Remote) (after : World Remote)
      → put_remote files r ≡ ok after
      → (remote : Remote) × (r ≡ ok remote) × (after ≡ (files, remote))
  put_remote_ok files (err raised) after e = cc
  put_remote_ok files (ok remote) after e =
      (remote, refl, sym (ok-injective (files, remote) after e))

  s3_storage_gives :
      (client : S3Client Remote) (prefix key : String) (bytes : Bytes) (before after : World Remote)
      → IsFaithful client
      → (s3_storage client prefix).put key bytes before ≡ ok after
      → (s3_storage client prefix).get key after ≡ ok bytes
  unfolding s3_storage
  s3_storage_gives client prefix key bytes before after law e =
      let (remote, stored, written) =
        put_remote_ok before.0 (client.put_object (s3_key prefix key) bytes before.1) after e in
      subst (λ (w : World Remote). (s3_storage client prefix).get key w ≡ ok bytes) (sym written)
        (law (s3_key prefix key) bytes before.1 remote stored)

  get_storage_for-IsSoundStorage :
      (backends : Backends Remote) (name : String)
      → ((client : S3Client Remote) → backends.client ≡ some client → IsFaithful client)
      → IsSoundStorage backends (get_storage_for backends name)
  unfolding get_storage_for local_storage s3_storage
  get_storage_for-IsSoundStorage backends name laws = elim (Bool-cases (names_s3 name)) [
    | inr local ↦
        rw (local, get_storage_for)
          (rw (get_storage_for, local_is_local) refl, local_storage_gives backends.inside_root)
    | inl remote ↦ elim (Option-cases backends.client) [
      | inl absent ↦ rw (remote, get_storage_for, absent) tt
      | inr (client, present) ↦
          rw (remote, get_storage_for, present)
            (
              rw (get_storage_for, s3_is_s3) refl,
              λ key bytes before after.
                  s3_storage_gives client backends.s3_prefix key bytes before after
                    (laws client present),
            )
    ]
  ]

module _ {Remote : Type 0} (backends : Backends Remote) where
  read_blob_ok :
      (storage : StorageBackend (World Remote)) (b : BlobObject) (bytes : Bytes)
      (world : World Remote)
      → get_storage_for backends b.storage_backend ≡ ok storage
      → storage.get b.storage_key world ≡ ok bytes
      → read_blob backends b world ≡ ok (b, bytes)
  unfolding read_blob
  read_blob_ok storage b bytes world found given = rw (read_blob, found, given) refl

  load_blob_ok :
      (file_id : ℕ) (f : FileRecord) (b : BlobObject) (db : Session) (world : World Remote)
      → get file_id db.files ≡ some f
      → is_outdated f ≡ false
      → blob_of file_id f.file_hash db ≡ some b
      → load_blob backends file_id (db, world) ≡ read_blob backends b world
  unfolding load_blob
  load_blob_ok file_id f b db world found current has = rw (load_blob, found, current, has) refl

  -- The session after the row was added, with what its look-ups find.
  abbrev after_blob : BlobObject → Session → Session
  after_blob b db =
      commit (
        audit "node-adapter" "blob.stored" "blob_object" (show b.id) [] (flush_all (add_blob b db)))

  after_blob-files :
      (file_id : ℕ) (b : BlobObject) (db : Session)
      → IsClean db.files
      → get file_id (after_blob b db).files ≡ get file_id db.files
  unfolding commit flush_all audit add_blob
  after_blob-files file_id b db c =
      first_clean_flush _ (flush db.files) (flush-IsClean db.files) ∙ first_clean_flush _ db.files c

  after_blob-blob_of :
      (file_id : ℕ) (h : String) (b : BlobObject) (db : Session)
      → IsClean db.blob_objects
      → is_blob_of file_id h b ≡ true
      → blob_of file_id h db ≡ none
      → blob_of file_id h (after_blob b db) ≡ some b
  unfolding commit flush_all audit add_blob
  after_blob-blob_of file_id h b db c own new =
      first_clean_flush (is_blob_of file_id h) (flush (add b db.blob_objects))
        (flush-IsClean (add b db.blob_objects))
      ∙ first-flush-add (is_blob_of file_id h) db.blob_objects b c own new

  write_blob_loads :
      (storage : StorageBackend (World Remote)) (file_id : ℕ) (f : FileRecord)
      (b stored : BlobObject) (bytes : Bytes) (db : Session) (world : World Remote)
      → IsSoundStorage backends (ok storage)
      → IsClean db.files
      → IsClean db.blob_objects
      → get file_id db.files ≡ some f
      → is_outdated f ≡ false
      → blob_of file_id f.file_hash db ≡ none
      → is_blob_of file_id f.file_hash b ≡ true
      → b.storage_backend ≡ storage.name
      → (write_blob storage b bytes (db, world)).0 ≡ ok stored
      → load_blob backends file_id (write_blob storage b bytes (db, world)).1 ≡ ok (stored, bytes)
  unfolding write_blob
  write_blob_loads storage file_id f b stored bytes db world sound cf cb found current new own
        backend e =
      elim (Result-cases (storage.put b.storage_key bytes world)) [
        | inr (text, raised) ↦ let e' = rw (write_blob, raised) at e in cc
        | inl (world', put_in) ↦
            let same = ok-injective b stored (rw (write_blob, put_in) at e) in
            rw (write_blob, put_in)
              (load_blob_ok file_id f b (after_blob b db) world'
                  (after_blob-files file_id b db cf ∙ found) current
                  (after_blob-blob_of file_id f.file_hash b db cb own new)
                ∙ read_blob_ok storage b bytes world'
                    (ap (get_storage_for backends) backend ∙ sound.0)
                    (sound.1 b.storage_key bytes world world' put_in)
                ∙ ap (λ x. ok (x, bytes)) same)
      ]

  store_new_loads :
      (s : Settings) (now file_id : ℕ) (f : FileRecord) (bytes : Bytes) (mime_type : Option String)
      (stored : BlobObject) (db : Session) (world : World Remote)
      → ((client : S3Client Remote) → backends.client ≡ some client → IsFaithful client)
      → IsClean db.files
      → IsClean db.blob_objects
      → get file_id db.files ≡ some f
      → is_outdated f ≡ false
      → blob_of file_id f.file_hash db ≡ none
      → (store_new backends s now file_id f.file_hash bytes mime_type (db, world)).0 ≡ ok stored
      → load_blob backends file_id
          (store_new backends s now file_id f.file_hash bytes mime_type (db, world)).1
        ≡ ok (stored, bytes)
  unfolding store_new new_blob
  store_new_loads s now file_id f bytes mime_type stored db world laws cf cb found current new e =
      elim (Result-cases (get_storage_for backends s.storage_backend)) [
        | inr (text, raised) ↦ let e' = rw (store_new, raised) at e in cc
        | inl (storage, chosen) ↦ elim (Result-cases (safe_key f.file_hash)) [
          | inr (text, raised) ↦ let e' = rw (store_new, chosen, raised) at e in cc
          | inl (key, safe) ↦
              let sound : IsSoundStorage backends (ok storage) =
                subst (IsSoundStorage backends) chosen
                  (get_storage_for-IsSoundStorage backends s.storage_backend laws) in
              let b =
                new_blob now file_id f.file_hash mime_type (length bytes) key storage.name db in
              rw (store_new, chosen, safe)
                (write_blob_loads storage file_id f b stored bytes db world sound cf cb found
                  current new (rw (==_refl file_id, eq_refl f.file_hash) refl) refl
                  (rw (store_new, chosen, safe) at e))
        ]
      ]

-- Where the S3 service, if it is used, gives back what was put: over committed files and blobs, for a
-- file that is alive and not superseded and whose version has no blob, once store_blob has returned a
-- row, load_blob gives that row and the bytes that were stored.
pub stored_blob_loads :
    {Remote : Type 0} (backends : Backends Remote) (s : Settings) (sha256_bytes : Bytes → String)
    (now file_id : ℕ) (f : FileRecord) (file_hash : String) (bytes : Bytes)
    (mime_type : Option String) (stored : BlobObject) (db : Session) (world : World Remote)
    → ((client : S3Client Remote) → backends.client ≡ some client → IsFaithful client)
    → IsClean db.files
    → IsClean db.blob_objects
    → get file_id db.files ≡ some f
    → is_outdated f ≡ false
    → blob_of file_id file_hash db ≡ none
    → (store_blob backends s sha256_bytes now file_id file_hash bytes mime_type (db, world)).0
      ≡ ok stored
    → load_blob backends file_id
        (store_blob backends s sha256_bytes now file_id file_hash bytes mime_type (db, world)).1
      ≡ ok (stored, bytes)
unfolding store_blob
stored_blob_loads backends s sha256_bytes now file_id f file_hash bytes mime_type stored db world
      laws cf cb found current new e =
    elim (Bool-cases (str_eq f.file_hash file_hash)) [
      | inr other ↦ let e' = rw (store_blob, found, other) at e in cc
      | inl same ↦ elim (Bool-cases (str_eq (sha256_bytes bytes) file_hash)) [
        | inr other ↦ let e' = rw (store_blob, found, same, other) at e in cc
        | inl hash ↦
            let version = (eq_iff f.file_hash file_hash).0 same in
            let stores : store_blob backends s sha256_bytes now file_id file_hash bytes mime_type
                  (db, world)
                ≡ store_new backends s now file_id f.file_hash bytes mime_type (db, world) =
              rw (store_blob, found, same, hash, new)
                (ap (λ h. store_new backends s now file_id h bytes mime_type (db, world))
                  (sym version)) in
            rw stores (
              store_new_loads backends s now file_id f bytes mime_type stored db world laws cf cb
                found current (ap (λ h. blob_of file_id h db) version ∙ new)
                (ap (λ r. r.0) (sym stores) ∙ e))
      ]
    ]
