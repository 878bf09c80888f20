-- ===== src/Models/Support.antt =====
-- The mapped classes of the object store, the retrieval statistics, the settings and the API keys.
use knowledge_flywheel.Base.{ℕ, String, Bool, Option, List}
use knowledge_flywheel.Store.Table.{Entity}

pub record BlobObject : Type 0 where
  pub id : ℕ
  pub file_id : ℕ
  pub file_hash : String
  pub mime_type : Option String
  pub size_bytes : ℕ
  pub storage_key : String
  pub storage_backend : String
  pub sha256 : String
  pub created_at : ℕ

pub record RetrievalLog : Type 0 where
  pub id : ℕ
  pub query : String
  pub normalized_query : String
  pub hit : Bool
  pub chunk_id : Option ℕ
  pub source : String
  pub created_at : ℕ

pub record GapItem : Type 0 where
  pub id : ℕ
  pub normalized_query : String
  pub ask_count : ℕ
  pub no_hit_count : ℕ
  pub status : String
  pub note : Option String
  pub first_seen_at : ℕ
  pub last_seen_at : ℕ

-- The value is a list of code points, since the code looks into it.
pub record SettingsOverride : Type 0 where
  pub id : ℕ
  pub key : String
  pub value : List ℕ
  pub updated_at : ℕ

pub record ApiKey : Type 0 where
  pub id : ℕ
  pub key_id : String
  pub key_hash : String
  pub role : String
  pub label : String
  pub active : Bool
  pub created_at : ℕ
  pub last_used_at : Option ℕ
  pub expires_at : Option ℕ

instance abbrev pub blob_entity : Entity BlobObject
blob_entity = record { id = λ b. b.id }

instance abbrev pub log_entity : Entity RetrievalLog
log_entity = record { id = λ l. l.id }

instance abbrev pub gap_entity : Entity GapItem
gap_entity = record { id = λ g. g.id }

instance abbrev pub override_entity : Entity SettingsOverride
override_entity = record { id = λ s. s.id }

instance abbrev pub api_key_entity : Entity ApiKey
api_key_entity = record { id = λ k. k.id }
