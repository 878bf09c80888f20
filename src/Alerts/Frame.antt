-- ===== src/Alerts/Frame.antt =====
-- The part of the session that reporting and resolving an alert leaves alone.
use knowledge_flywheel.Base.{
  ℕ, String, none, some, List, [], ◌∷◌, ◌≡◌, refl, ◌∙◌, Option, Option-cases, Bool-cases, inl, inr,
}
use knowledge_flywheel.Config.{Settings}
use knowledge_flywheel.Store.Table.{Table, first, get}
use knowledge_flywheel.Models.Status.{DeliveryStatus, alert_is, resolved}
use knowledge_flywheel.Models.Rows.{AlertDelivery, AuditLog, Alert, alert_entity, delivery_entity}
use knowledge_flywheel.Models.Session.{Session, flush_all, audit}
use knowledge_flywheel.Alerts.Delivery.{
  of_channel, recently_sent, refire, save_delivery, ensure_channel, ensure_channels,
  ensure_deliveries,
}
use knowledge_flywheel.Alerts.Board.{
  AlertReport, alert_of, save_alert, upsert_row, upsert_alert, resolve_alert,
}

-- A reading of the session that neither the rows of alerts, of their deliveries and of the audit log
-- nor a flush change.
pub record IsApart {B : Type 0} (view : Session → B) : Type 0 where
  pub same :
      (db : Session) (alerts : Table Alert) (deliveries : Table AlertDelivery)
      (logs : List AuditLog)
      → view (record db { alerts = alerts; alert_deliveries = deliveries; audit_logs = logs })
        ≡ view db
  pub flushed : (db : Session) → view (flush_all db) ≡ view db

module _ {B : Type 0} (view : Session → B) (apart : IsApart view) where
  refire-view :
      (st : DeliveryStatus) (now : ℕ) (s : Settings) (d : AlertDelivery) (db : Session)
      → view (refire st now s d db) ≡ view db
  unfolding refire save_delivery audit
  refire-view DeliveryStatus.pending now s d db = refl
  refire-view DeliveryStatus.sent now s d db = elim (Bool-cases (recently_sent now s d)) [
    | inl lately ↦ rw (lately, refire) (apart.same db _ _ _)
    | inr before ↦ rw (before, refire) (apart.same db _ _ _)
  ]
  refire-view _ now s d db = apart.same db _ _ _

  ensure_channels-view :
      (now : ℕ) (s : Settings) (n : ℕ) (cs : List String) (db : Session)
      → view (ensure_channels now s n cs db) ≡ view db
  unfolding ensure_channels ensure_channel
  ensure_channels-view now s n [] db = refl
  ensure_channels-view now s n (c ∷ cs) db =
      ensure_channels-view now s n cs (ensure_channel now s n c db)
      ∙ elim (Option-cases (first (of_channel n c) db.alert_deliveries)) [
        | inl new ↦ rw (new, ensure_channel) (apart.same db _ _ _)
        | inr (d, old) ↦ rw (old, ensure_channel) (refire-view d.status now s d db)
      ]

  upsert_row-view :
      (now : ℕ) (r : AlertReport) (o : Option Alert) (db : Session)
      → view (upsert_row now r o db).1 ≡ view db
  unfolding upsert_row save_alert
  upsert_row-view now r none db = apart.same db _ _ _
  upsert_row-view now r (some a) db = apart.same db _ _ _

  pub upsert_alert-view :
      (now : ℕ) (s : Settings) (r : AlertReport) (db : Session)
      → view (upsert_alert now s r db).1 ≡ view db
  unfolding upsert_alert ensure_deliveries
  upsert_alert-view now s r db =
      let (a, db') = upsert_row now r (alert_of r.fingerprint db) db in
      let same = upsert_row-view now r (alert_of r.fingerprint db) db in
      elim (Option-cases (get a.id db'.alerts)) [
        | inl new ↦
            rw (new, ensure_deliveries)
              (ensure_channels-view now s a.id s.enabled_alert_channels (flush_all db')
                ∙ apart.flushed db'
                ∙ same)
        | inr (b, old) ↦
            rw (old, ensure_deliveries)
              (ensure_channels-view now s a.id s.enabled_alert_channels db' ∙ same)
      ]

  pub resolve_alert-view :
      (now : ℕ) (fp : String) (db : Session) → view (resolve_alert now fp db) ≡ view db
  unfolding resolve_alert save_alert
  resolve_alert-view now fp db = elim (Option-cases (alert_of fp db)) [
    | inl unknown_alert ↦ rw (unknown_alert, resolve_alert) refl
    | inr (a, found) ↦ elim (Bool-cases (alert_is a.status resolved)) [
      | inl over ↦ rw (found, resolve_alert, over) refl
      | inr firing ↦ rw (found, resolve_alert, firing) (apart.same db _ _ _)
    ]
  ]
