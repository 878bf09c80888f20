-- ===== src/Alerts.antt =====
-- Alerts: the rows of `_upsert_alert`, `_resolve_alert` and `acknowledge_alert` in
-- knowledge-hub/app/services.py, and their delivery in knowledge-hub/app/alerting.py.
pub mod Delivery
pub mod Board
pub mod Retry
pub mod Upsert
pub mod Frame
pub mod Rows
