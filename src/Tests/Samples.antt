-- ===== src/Tests/Samples.antt =====
-- Test data: sessions over committed tables.
use knowledge_flywheel.Base.{ℕ, String, Option, none, some, [], ◌∷◌}
use knowledge_flywheel.Store.Table.{loaded}
use knowledge_flywheel.Models.Status.{TaskStatus, AlertStatus, DeliveryStatus}
use knowledge_flywheel.Models.Rows.{Task, Alert, AlertDelivery}
use knowledge_flywheel.Models.Session.{Session}
use knowledge_flywheel.Config.{Settings}

abbrev pub task_of : ℕ → String → TaskStatus → Option ℕ → ℕ → Task
task_of n key status claimed_at created_at = record {
  id = n;
  idempotency_key = key;
  kind = "scan";
  status = status;
  payload_json = [];
  attempts = 0;
  error = none;
  result_json = none;
  claimed_at = claimed_at;
  claimed_by = none;
  created_at = created_at;
}

abbrev pub empty_session : Session
empty_session = record {
  nodes = [];
  files = [];
  file_replicas = [];
  document_chunks = [];
  tasks = [];
  alert_deliveries = [];
  alerts = [];
  remote_commands = [];
  proposals = [];
  blob_objects = [];
  retrieval_logs = [];
  gap_items = [];
  settings_overrides = [];
  api_keys = [];
  audit_logs = [];
}

-- A task that waits, and one whose worker was lost.
abbrev pub waiting_task : Task
waiting_task = task_of 2 "scan:b" TaskStatus.pending none 10

abbrev pub lost_task : Task
lost_task = task_of 1 "scan:a" TaskStatus.running (some 100) 5

abbrev pub two_tasks : Session
two_tasks = record empty_session { tasks = loaded lost_task ∷ loaded waiting_task ∷ [] }

abbrev pub only_lost : Session
only_lost = record empty_session { tasks = loaded lost_task ∷ [] }

abbrev pub settings : Settings
settings = record {
  enabled_alert_channels = "webhook" ∷ "email" ∷ [];
  alert_webhook_url = "http://hooks.local/alerts";
  alert_wecom_webhook = "";
  alert_dingtalk_webhook = "";
  alert_email_smtp_host = "";
  alert_email_from = "";
  alert_email_to = "";
  alert_retry_max = 3;
  alert_retry_backoff_seconds = 60;
  alert_suppress_window_seconds = 3600;
  parse_chunk_chars = 1200;
  fixed_replica_node_ids = "nas-1" ∷ [];
  app_env = "production";
  admin_api_key = "admin-secret";
  mobile_api_key = "";
  mqtt_bridge_api_key = "bridge-secret";
  search_api_key = "";
  download_api_key = "";
  security_secret = "s3cr3t";
  jwt_ttl_seconds = 3600;
  orchestration_mode = "state_machine";
  storage_backend = "local";
  app_version = "dev";
}

abbrev pub missing_file_alert : Alert
missing_file_alert = record {
  id = 4;
  fingerprint = "file.missing:9";
  severity = "warning";
  kind = "file.missing";
  resource_type = "file";
  resource_id = "9";
  message = "file is missing";
  status = AlertStatus.resolved;
  acknowledged_by = none;
  acknowledged_at = none;
  resolved_at = some 90;
  first_seen_at = 50;
  last_seen_at = 60;
}

abbrev pub delivery_of : ℕ → String → DeliveryStatus → ℕ → AlertDelivery
delivery_of n channel status attempts = record {
  id = n;
  alert_id = 4;
  channel = channel;
  status = status;
  attempts = attempts;
  last_error = none;
  sent_at = none;
  created_at = 50;
  updated_at = 50;
}

-- An alert that fires, with a delivery that was refused twice.
abbrev pub one_alert : Session
one_alert = record empty_session {
  alerts = loaded (record missing_file_alert { status = AlertStatus.open_alert }) ∷ [];
  alert_deliveries = loaded (delivery_of 1 "webhook" DeliveryStatus.failed 2) ∷ [];
}

abbrev pub resolved_alert : Session
resolved_alert = record empty_session { alerts = loaded missing_file_alert ∷ [] }
