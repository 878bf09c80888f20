-- ===== src/Tests/Board.antt =====
-- The theorems on alerts and their deliveries at small tables.
use knowledge_flywheel.Base.{length, true, ◌⊎◌, min, some, ◌≡◌, refl, arith, All}
use knowledge_flywheel.Store.Table.{live_rows, select, first, flush}
use knowledge_flywheel.Models.Status.{DeliveryStatus}
use knowledge_flywheel.Models.Rows.{Alert, AlertDelivery}
use knowledge_flywheel.Models.Session.{commit}
use knowledge_flywheel.Alerts.Delivery.{
  Transport, process_alert_deliveries, is_due, ensure_channel, of_channel, recently_sent,
}
use knowledge_flywheel.Alerts.Board.{AlertReport, alert_of, upsert_alert, resolve_alert}
use knowledge_flywheel.Alerts.Retry.{
  IsRound, IsSound, deliveries_of, process_alert_deliveries-IsRound,
}
use knowledge_flywheel.Alerts.Upsert.{
  IsFiring, IsOver, upsert_alert-IsFiring, resolve_alert-IsOver, upsert_alert-IsSound,
  ensure_channel_notifies,
}
use knowledge_flywheel.Alerts.Rows.{IsOneRow, upsert_alert-IsOneRow}
use knowledge_flywheel.Tests.Samples.{settings, one_alert, resolved_alert, missing_file_alert}

-- A transport on which every call fails.
abbrev unreachable : Transport
unreachable channel alert = some "connection refused"

one_alert-IsSound : All (IsSound settings) (deliveries_of one_alert)
unfolding live_rows
one_alert-IsSound = ((omega arith, omega arith), tt)

process_alert_deliveries-IsRound_example :
    let (n, db') = process_alert_deliveries unreachable 100000000 settings 50 one_alert in
    IsRound settings
      (min 50 (length (select (is_due 100000000 settings) one_alert.alert_deliveries)))
      n
      (deliveries_of db')
process_alert_deliveries-IsRound_example =
    process_alert_deliveries-IsRound unreachable 100000000 settings 50 one_alert (omega arith)
      (refl, tt) one_alert-IsSound

abbrev report : AlertReport
report = record {
  fingerprint = "file.missing:9";
  severity = "critical";
  kind = "file.missing";
  resource_type = "file";
  resource_id = "9";
  message = "file is missing again";
}

upsert_alert-IsFiring_example :
    let (a, db') = upsert_alert 120 settings report resolved_alert in
    IsFiring 120 report a × (alert_of "file.missing:9" (commit db') ≡ some a)
upsert_alert-IsFiring_example = upsert_alert-IsFiring 120 settings report resolved_alert (refl, tt)

found_alert : alert_of "file.missing:9" resolved_alert ≡ some missing_file_alert
unfolding select
found_alert = refl

upsert_alert-IsOneRow_example :
    let db' = commit (upsert_alert 120 settings report resolved_alert).1 in
    (b : Alert) × (alert_of "file.missing:9" db' ≡ some b)
    × IsOneRow
        (alert_of "file.missing:9" resolved_alert)
        120
        (live_rows resolved_alert.alerts)
        b
        (live_rows db'.alerts)
upsert_alert-IsOneRow_example = upsert_alert-IsOneRow 120 settings report resolved_alert (refl, tt)

resolve_alert-IsOver_example :
    IsOver (alert_of "file.missing:9" (commit (resolve_alert 130 "file.missing:9" one_alert)))
resolve_alert-IsOver_example = resolve_alert-IsOver 130 "file.missing:9" one_alert (refl, tt)

upsert_alert-IsSound_example :
    All (IsSound settings) (deliveries_of (upsert_alert 120 settings report one_alert).1)
upsert_alert-IsSound_example = upsert_alert-IsSound 120 settings report one_alert one_alert-IsSound

ensure_channel_notifies_example :
    (d : AlertDelivery) × (first
        (of_channel 4 "webhook")
        (flush (ensure_channel 120 settings 4 "webhook" one_alert).alert_deliveries)
      ≡ some d)
    × ((d.status ≡ DeliveryStatus.pending)
        ⊎ (d.status ≡ DeliveryStatus.sent) × (recently_sent 120 settings d ≡ true))
ensure_channel_notifies_example =
    ensure_channel_notifies 120 settings 4 "webhook" one_alert (refl, tt)
