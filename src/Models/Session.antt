-- ===== src/Models/Session.antt =====
-- The session: one table for each mapped class, written back together.
use knowledge_flywheel.Base.{String, List, [], ◌∷◌, ◌++◌}
use knowledge_flywheel.Store.Table.{Table, flush}
use knowledge_flywheel.Models.Json.{Payload}
use knowledge_flywheel.Models.Support.{BlobObject, RetrievalLog, GapItem, SettingsOverride, ApiKey}
use knowledge_flywheel.Models.Rows.{
  Node, FileRecord, FileReplica, DocumentChunk, Task, AlertDelivery, AuditLog, Alert, RemoteCommand,
  Proposal,
}

pub record Session : Type 0 where
  pub nodes : Table Node
  pub files : Table FileRecord
  pub file_replicas : Table FileReplica
  pub document_chunks : Table DocumentChunk
  pub tasks : Table Task
  pub alert_deliveries : Table AlertDelivery
  pub alerts : Table Alert
  pub remote_commands : Table RemoteCommand
  pub proposals : Table Proposal
  pub blob_objects : Table BlobObject
  pub retrieval_logs : Table RetrievalLog
  pub gap_items : Table GapItem
  pub settings_overrides : Table SettingsOverride
  pub api_keys : Table ApiKey
  -- Audit entries are only added: oldest first.
  pub audit_logs : List AuditLog

-- `db.flush()`
unfoldable pub flush_all : Session → Session
flush_all db = record {
  nodes = flush db.nodes;
  files = flush db.files;
  file_replicas = flush db.file_replicas;
  document_chunks = flush db.document_chunks;
  tasks = flush db.tasks;
  alert_deliveries = flush db.alert_deliveries;
  alerts = flush db.alerts;
  remote_commands = flush db.remote_commands;
  proposals = flush db.proposals;
  blob_objects = flush db.blob_objects;
  retrieval_logs = flush db.retrieval_logs;
  gap_items = flush db.gap_items;
  settings_overrides = flush db.settings_overrides;
  api_keys = flush db.api_keys;
  audit_logs = db.audit_logs;
}

-- `db.commit()` flushes; the objects are then loaded again with the values just written.
unfoldable pub commit : Session → Session
unfolding flush_all
commit db = flush_all db

-- `db.add(AuditLog(...))`
unfoldable pub audit : String → String → String → String → Payload → Session → Session
audit actor action resource_type resource_id detail db = record db {
  audit_logs =
      db.audit_logs
      ++ (record {
        actor = actor;
        action = action;
        resource_type = resource_type;
        resource_id = resource_id;
        detail = detail;
      })
        ∷ [];
}
