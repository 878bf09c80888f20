-- ===== src/Blobs/Storage.antt =====
-- knowledge-hub/app/storage.py: the backends and the choice between them. Bytes are a list of numbers.
use Prim.Native.Char.{Char}
use text.Mathlib.TextBridge.{of_list}
use knowledge_flywheel.Base.{
  ℕ, String, Bool, Option, none, some, List, [], ◌∷◌, ltb, str_eq, if◌then◌else◌, take, drop,
  length, not, any, keep, Result, ok, err, ◌<>◌,
}
use knowledge_flywheel.Parse.Split.{strip}
use knowledge_flywheel.Overrides.Settings.{codes, text_eq, lower}

abbrev pub Bytes : Type 0
Bytes = List ℕ

-- StorageBackend, over the state of what it stores in.
pub record StorageBackend (World : Type 0) : Type 0 where
  pub name : String
  pub put : String → Bytes → World → Result World
  pub get : String → World → Result Bytes
  pub exists : String → World → Result Bool
  pub delete : String → World → Result World

abbrev pub characters : String → List Char
characters String.[] = []
characters (String.◌∷◌ c s) = c ∷ characters s

-- `_safe_key`
unfoldable pub safe_key : String → Result String
safe_key file_hash =
    let cs = characters file_hash in
    if ltb (length cs) 16
    then err "file hash too short for a storage key"
    else ok (of_list (take 2 cs) <> "/" <> of_list (take 2 (drop 2 cs)) <> "/" <> file_hash)

-- The files below the root, by their key; the latest write stands first.
abbrev pub Files : Type 0
Files = List (String × Bytes)

abbrev pub file_of : String → Files → Option Bytes
file_of key [] = none
file_of key ((k, bytes) ∷ rest) = if str_eq k key then some bytes else file_of key rest

abbrev pub is_file : String → Files → Bool
is_file key files = any (λ (entry : String × Bytes). str_eq entry.0 key) files

abbrev pub unlinked : String → Files → Files
unlinked key files = keep (λ (entry : String × Bytes). not (str_eq entry.0 key)) files

-- The state of both backends: the local files, and what the S3 service stores.
abbrev pub World : Type 0 → Type 0
World Remote = Files × Remote

-- LocalStorage, by whether a key resolves to a path below the root (`_path`).
unfoldable pub local_storage : {Remote : Type 0} → (String → Bool) → StorageBackend (World Remote)
local_storage inside = record {
  name = "local";
  put = λ key bytes (files, remote).
      if inside key
      then ok ((key, bytes) ∷ files, remote)
      else err "storage key escapes the storage root";
  get = λ key (files, remote).
      if inside key
      then elim (file_of key files) [ none ↦ err key | some bytes ↦ ok bytes ]
      else err "storage key escapes the storage root";
  exists = λ key (files, remote).
      if inside key then ok (is_file key files) else err "storage key escapes the storage root";
  delete = λ key (files, remote).
      if inside key
      then ok (unlinked key files, remote)
      else err "storage key escapes the storage root";
}

-- The calls of a boto3 client on the configured bucket.
pub record S3Client (Remote : Type 0) : Type 0 where
  pub put_object : String → Bytes → Remote → Result Remote
  pub get_object : String → Remote → Result Bytes
  pub head_object : String → Remote → Bool
  pub delete_object : String → Remote → Result Remote

-- `_key`, for the prefix without its trailing slashes.
abbrev pub s3_key : String → String → String
s3_key prefix key = if str_eq prefix "" then key else prefix <> "/" <> key

abbrev pub put_remote : {Remote : Type 0} → Files → Result Remote → Result (World Remote)
put_remote files (ok remote) = ok (files, remote)
put_remote files (err raised) = err raised

-- S3Storage
unfoldable pub s3_storage :
    {Remote : Type 0} → S3Client Remote → String → StorageBackend (World Remote)
s3_storage client prefix = record {
  name = "s3";
  put = λ key bytes (files, remote).
      put_remote files (client.put_object (s3_key prefix key) bytes remote);
  get = λ key (files, remote). client.get_object (s3_key prefix key) remote;
  exists = λ key (files, remote). ok (client.head_object (s3_key prefix key) remote);
  delete =
      λ key (files, remote). put_remote files (client.delete_object (s3_key prefix key) remote);
}

-- What the choice reads: the test of paths, the client, none where boto3 cannot be imported, and the
-- prefix.
pub record Backends (Remote : Type 0) : Type 0 where
  pub inside_root : String → Bool
  pub client : Option (S3Client Remote)
  pub s3_prefix : String

-- `name.strip().lower() == "s3"`
abbrev pub names_s3 : String → Bool
names_s3 name = text_eq (lower (strip (codes name))) (codes "s3")

-- `get_storage_for`
unfoldable pub get_storage_for :
    {Remote : Type 0} → Backends Remote → String → Result (StorageBackend (World Remote))
unfolding local_storage s3_storage
get_storage_for backends name =
    if names_s3 name
    then elim backends.client [
      | none ↦ err "boto3 is required for the S3 storage backend"
      | some client ↦ ok (s3_storage client backends.s3_prefix)
    ]
    else ok (local_storage backends.inside_root)
