-- ===== src/Config.antt =====
-- The settings of knowledge-hub/app/config.py that the modelled code reads. A property that splits
-- a comma-separated string (`enabled_alert_channels`, `fixed_replica_node_ids`) stands with its
-- result, a list.
use knowledge_flywheel.Base.{ℕ, String, List}

pub record Settings : Type 0 where
  pub enabled_alert_channels : List String
  pub alert_webhook_url : String
  pub alert_wecom_webhook : String
  pub alert_dingtalk_webhook : String
  pub alert_email_smtp_host : String
  pub alert_email_from : String
  pub alert_email_to : String
  pub alert_retry_max : ℕ
  pub alert_retry_backoff_seconds : ℕ
  pub alert_suppress_window_seconds : ℕ
  pub parse_chunk_chars : ℕ
  pub fixed_replica_node_ids : List String
  pub app_env : String
  pub admin_api_key : String
  pub mobile_api_key : String
  pub mqtt_bridge_api_key : String
  pub search_api_key : String
  pub download_api_key : String
  pub security_secret : String
  pub jwt_ttl_seconds : ℕ
  pub orchestration_mode : String
  pub storage_backend : String
  pub app_version : String
