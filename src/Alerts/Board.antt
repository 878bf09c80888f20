-- ===== src/Alerts/Board.antt =====
-- The alert rows: _upsert_alert, _resolve_alert, acknowledge_alert.
use knowledge_flywheel.Base.{
  ℕ, String, Option, none, some, [], str_eq, if◌then◌else◌, show, ◌<>◌, Result, ok, err,
}
use knowledge_flywheel.Store.Table.{first, add, put, next_id}
use knowledge_flywheel.Config.{Settings}
use knowledge_flywheel.Models.Status.{AlertStatus, alert_is, open_alert, acknowledged, resolved}
use knowledge_flywheel.Models.Rows.{Alert, alert_entity}
use knowledge_flywheel.Models.Session.{Session, commit, audit}
use knowledge_flywheel.Alerts.Delivery.{ensure_deliveries}

-- What `_upsert_alert` is called with.
pub record AlertReport : Type 0 where
  pub fingerprint : String
  pub severity : String
  pub kind : String
  pub resource_type : String
  pub resource_id : String
  pub message : String

-- `db.scalars(select(Alert).where(Alert.fingerprint == fingerprint)).first()`
abbrev pub alert_of : String → Session → Option Alert
alert_of fingerprint db = first (λ (a : Alert). str_eq a.fingerprint fingerprint) db.alerts

unfoldable pub save_alert : Alert → Session → Session
save_alert a db = record db { alerts = put a db.alerts }

unfoldable pub new_alert : ℕ → AlertReport → Session → Alert
new_alert now r db = record {
  id = next_id db.alerts;
  fingerprint = r.fingerprint;
  severity = r.severity;
  kind = r.kind;
  resource_type = r.resource_type;
  resource_id = r.resource_id;
  message = r.message;
  status = open_alert;
  acknowledged_by = none;
  acknowledged_at = none;
  resolved_at = none;
  first_seen_at = now;
  last_seen_at = now;
}

-- The assignments to an alert that fires again.
unfoldable pub fired_again : ℕ → AlertReport → Alert → Alert
fired_again now r a = record a {
  last_seen_at = now;
  message = r.message;
  severity = r.severity;
  status = if alert_is a.status resolved then open_alert else a.status;
  resolved_at = if alert_is a.status resolved then none else a.resolved_at;
}

-- The first half of `_upsert_alert`: the alert's row.
unfoldable pub upsert_row : ℕ → AlertReport → Option Alert → Session → Alert × Session
unfolding new_alert fired_again save_alert
upsert_row now r none db =
    (new_alert now r db, record db { alerts = add (new_alert now r db) db.alerts })
upsert_row now r (some a) db = (fired_again now r a, save_alert (fired_again now r a) db)

-- `_upsert_alert`
unfoldable pub upsert_alert : ℕ → Settings → AlertReport → Session → Alert × Session
unfolding upsert_row
upsert_alert now s r db =
    let (a, db') = upsert_row now r (alert_of r.fingerprint db) db in
    (a, ensure_deliveries now s a db')

unfoldable pub closed : ℕ → Alert → Alert
closed now a = record a { status = resolved; resolved_at = some now }

-- `_resolve_alert`
unfoldable pub resolve_alert : ℕ → String → Session → Session
unfolding closed save_alert
resolve_alert now fingerprint db = elim (alert_of fingerprint db) [
  | none ↦ db
  | some a ↦ if alert_is a.status resolved then db else save_alert (closed now a) db
]

abbrev pub status_name : AlertStatus → String
status_name open_alert = "open"
status_name acknowledged = "acknowledged"
status_name resolved = "resolved"

unfoldable pub acknowledged_as : ℕ → String → AlertStatus → Alert → Alert
acknowledged_as now actor status a = record a {
  status = status;
  acknowledged_by = some actor;
  acknowledged_at = some now;
  resolved_at = if alert_is status resolved then some now else a.resolved_at;
}

-- `acknowledge_alert`
unfoldable pub acknowledge_alert :
    ℕ → Alert → String → AlertStatus → Session → Result Alert × Session
unfolding acknowledged_as save_alert
acknowledge_alert now a actor status db =
    if alert_is status open_alert
    then (err "alert status must be acknowledged or resolved", db)
    else if alert_is a.status resolved
    then (err "alert already resolved", db)
    else (
      ok (acknowledged_as now actor status a),
      commit (
          audit actor ("alert." <> status_name status) "alert" (show a.id) []
            (save_alert (acknowledged_as now actor status a) db)),
    )
