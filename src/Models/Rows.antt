-- ===== src/Models/Rows.antt =====
-- The mapped classes: their columns and the values that a constructor call leaves to defaults.
use knowledge_flywheel.Base.{ℕ, String, Bool, Option, List}
use knowledge_flywheel.Models.Json.{Payload}
use knowledge_flywheel.Models.Status.{
  TaskStatus, FileStatus, ReplicaStatus, AlertStatus, DeliveryStatus, CommandStatus, NodeStatus,
  ProposalStatus,
}
use knowledge_flywheel.Store.Table.{Entity}

-- The load is a float that is only stored and shown: its text.
pub record Node : Type 0 where
  pub id : String
  pub hostname : String
  pub ip_address : Option String
  pub status : NodeStatus
  pub agent_version : String
  pub cpu_percent : String
  pub disk_free_bytes : ℕ
  pub last_seen_at : ℕ
  pub is_replica : Bool

pub record FileRecord : Type 0 where
  pub id : ℕ
  pub path : String
  pub file_hash : String
  pub size_bytes : ℕ
  pub status : FileStatus
  pub alive : Bool
  pub last_seen_at : ℕ
  pub version : ℕ
  pub category : String
  pub source_node_id : String

pub record FileReplica : Type 0 where
  pub id : ℕ
  pub file_id : ℕ
  pub node_id : String
  pub status : ReplicaStatus
  pub file_hash : String
  pub last_seen_at : ℕ

pub record DocumentChunk : Type 0 where
  pub id : ℕ
  pub file_id : ℕ
  pub chunk_index : ℕ
  pub content : List ℕ
  pub content_hash : String
  pub file_hash : String
  pub embedding : Option String
  pub embedding_provider : Option String
  pub embedding_status : String
  pub embedded_at : Option ℕ
  pub hit_count : ℕ
  pub created_at : ℕ

pub record Task : Type 0 where
  pub id : ℕ
  pub idempotency_key : String
  pub kind : String
  pub status : TaskStatus
  pub payload_json : Payload
  pub attempts : ℕ
  pub error : Option String
  pub result_json : Option Payload
  pub claimed_at : Option ℕ
  pub claimed_by : Option String
  pub created_at : ℕ

pub record AlertDelivery : Type 0 where
  pub id : ℕ
  pub alert_id : ℕ
  pub channel : String
  pub status : DeliveryStatus
  pub attempts : ℕ
  pub last_error : Option String
  pub sent_at : Option ℕ
  pub created_at : ℕ
  pub updated_at : ℕ

pub record AuditLog : Type 0 where
  pub actor : String
  pub action : String
  pub resource_type : String
  pub resource_id : String
  pub detail : Payload

pub record Alert : Type 0 where
  pub id : ℕ
  pub fingerprint : String
  pub severity : String
  pub kind : String
  pub resource_type : String
  pub resource_id : String
  pub message : String
  pub status : AlertStatus
  pub acknowledged_by : Option String
  pub acknowledged_at : Option ℕ
  pub resolved_at : Option ℕ
  pub first_seen_at : ℕ
  pub last_seen_at : ℕ

pub record RemoteCommand : Type 0 where
  pub id : ℕ
  pub idempotency_key : String
  pub node_id : String
  pub command_type : String
  pub status : CommandStatus
  pub payload_json : Payload
  pub requested_by : String
  pub result_json : Option Payload
  pub error : Option String
  pub claimed_at : Option ℕ
  pub created_at : ℕ

pub record Proposal : Type 0 where
  pub id : ℕ
  pub kind : String
  pub title : String
  pub body : Payload
  pub status : ProposalStatus
  pub created_by : String
  pub reviewed_by : Option String
  pub reviewed_at : Option ℕ
  pub created_at : ℕ

instance abbrev pub file_entity : Entity FileRecord
file_entity = record { id = λ f. f.id }

instance abbrev pub replica_entity : Entity FileReplica
replica_entity = record { id = λ r. r.id }

instance abbrev pub chunk_entity : Entity DocumentChunk
chunk_entity = record { id = λ c. c.id }

instance abbrev pub task_entity : Entity Task
task_entity = record { id = λ t. t.id }

instance abbrev pub delivery_entity : Entity AlertDelivery
delivery_entity = record { id = λ d. d.id }

instance abbrev pub alert_entity : Entity Alert
alert_entity = record { id = λ a. a.id }

instance abbrev pub command_entity : Entity RemoteCommand
command_entity = record { id = λ c. c.id }

instance abbrev pub proposal_entity : Entity Proposal
proposal_entity = record { id = λ p. p.id }
