-- ===== src/Alerts/Upsert.antt =====
-- What firing and resolving an alert leave in its row and in the rows of its deliveries.
use knowledge_flywheel.Base.{
  All-append, ==_refl, eq_iff, ℕ, String, true, Option, none, some, List, [], ◌∷◌, ◌≡◌, ◌≢◌, refl,
  ap, arith, All, Option-cases, Bool-cases, inl, inr, ◌⊎◌, ◌∙◌, str_eq, eq_refl,
}
use knowledge_flywheel.Store.Table.{IsClean, first, get, flush}
use knowledge_flywheel.Store.Laws.{
  first_clean_flush, live_rows-flush, live_rows-put, live_rows-add, All-replace_row, first_test,
  first-flush-put, first-flush-add, flush-flush,
}
use knowledge_flywheel.Config.{Settings}
use knowledge_flywheel.Models.Status.{DeliveryStatus, alert_is, resolved, sent}
use knowledge_flywheel.Models.Rows.{Alert, AlertDelivery, alert_entity, delivery_entity}
use knowledge_flywheel.Models.Session.{Session, commit, flush_all, audit}
use knowledge_flywheel.Alerts.Delivery.{
  save_delivery, new_delivery, refire, recently_sent, ensure_channel, ensure_channels,
  ensure_deliveries, of_channel,
}
use knowledge_flywheel.Alerts.Board.{
  AlertReport, alert_of, save_alert, new_alert, fired_again, upsert_row, upsert_alert, closed,
  resolve_alert,
}
use knowledge_flywheel.Alerts.Retry.{deliveries_of, IsSound}

refire-alerts :
    (st : DeliveryStatus) (now : ℕ) (s : Settings) (d : AlertDelivery) (db : Session)
    → (refire st now s d db).alerts ≡ db.alerts
unfolding refire save_delivery audit
refire-alerts DeliveryStatus.pending now s d db = refl
refire-alerts sent now s d db = ground arith
refire-alerts _ now s d db = refl

ensure_channel-alerts :
    (now : ℕ) (s : Settings) (n : ℕ) (c : String) (db : Session)
    → (ensure_channel now s n c db).alerts ≡ db.alerts
unfolding ensure_channel
ensure_channel-alerts now s n c db =
    elim (Option-cases (first (of_channel n c) db.alert_deliveries)) [
      | inl new ↦ rw (new, ensure_channel)
      | inr (d, old) ↦ rw (old, ensure_channel) (refire-alerts d.status now s d db)
    ]

ensure_channels-alerts :
    (now : ℕ) (s : Settings) (n : ℕ) (cs : List String) (db : Session)
    → (ensure_channels now s n cs db).alerts ≡ db.alerts
unfolding ensure_channels
ensure_channels-alerts now s n [] db = refl
ensure_channels-alerts now s n (c ∷ cs) db =
    ensure_channels-alerts now s n cs (ensure_channel now s n c db)
    ∙ ensure_channel-alerts now s n c db

-- Deliveries touch no alert, and at most flush the alerts.
pub ensure_deliveries-alerts :
    (now : ℕ) (s : Settings) (a : Alert) (db : Session)
    → flush (ensure_deliveries now s a db).alerts ≡ flush db.alerts
unfolding ensure_deliveries flush_all
ensure_deliveries-alerts now s a db = elim (Option-cases (get a.id db.alerts)) [
  | inl new ↦
      rw (new, ensure_deliveries)
        (ap flush (ensure_channels-alerts now s a.id s.enabled_alert_channels (flush_all db))
          ∙ flush-flush db.alerts)
  | inr (b, old) ↦
      rw (old, ensure_deliveries)
        (ap flush (ensure_channels-alerts now s a.id s.enabled_alert_channels db))
]

-- What a report makes of the alert.
pub record IsFiring (now : ℕ) (r : AlertReport) (a : Alert) : Type 0 where
  pub fingerprint : a.fingerprint ≡ r.fingerprint
  pub unresolved : a.status ≢ resolved
  pub message : a.message ≡ r.message
  pub severity : a.severity ≡ r.severity
  pub seen : a.last_seen_at ≡ now

new_alert-IsFiring :
    (now : ℕ) (r : AlertReport) (db : Session) → IsFiring now r (new_alert now r db)
unfolding new_alert
new_alert-IsFiring now r db = ground arith

fired_again-IsFiring :
    (now : ℕ) (r : AlertReport) (a : Alert)
    → a.fingerprint ≡ r.fingerprint
    → IsFiring now r (fired_again now r a)
unfolding fired_again
fired_again-IsFiring now r a h = ground arith

new_alert_test :
    (now : ℕ) (r : AlertReport) (db : Session)
    → str_eq (new_alert now r db).fingerprint r.fingerprint ≡ true
unfolding new_alert
new_alert_test now r db = eq_refl r.fingerprint

fired_again_id : (now : ℕ) (r : AlertReport) (a : Alert) → (fired_again now r a).id ≡ a.id
unfolding fired_again
fired_again_id now r a = refl

fired_again_test :
    (now : ℕ) (r : AlertReport) (a : Alert)
    → str_eq a.fingerprint r.fingerprint ≡ true
    → str_eq (fired_again now r a).fingerprint r.fingerprint ≡ true
unfolding fired_again
fired_again_test now r a h = h

upsert_row-IsFiring :
    (now : ℕ) (r : AlertReport) (o : Option Alert) (db : Session)
    → IsClean db.alerts
    → alert_of r.fingerprint db ≡ o
    → let (a, db') = upsert_row now r o db in
      IsFiring now r a
      × (first (λ (x : Alert). str_eq x.fingerprint r.fingerprint) (flush db'.alerts) ≡ some a)
unfolding upsert_row save_alert
upsert_row-IsFiring now r none db c e = (
  new_alert-IsFiring now r db,
  first-flush-add (λ (x : Alert). str_eq x.fingerprint r.fingerprint) db.alerts (new_alert now r db)
      c (new_alert_test now r db) e,
)
upsert_row-IsFiring now r (some a) db c e =
    let test : str_eq a.fingerprint r.fingerprint ≡ true =
      first_test (λ (x : Alert). str_eq x.fingerprint r.fingerprint) db.alerts a c e in
    (
      fired_again-IsFiring now r a ((eq_iff a.fingerprint r.fingerprint).0 test),
      first-flush-put (λ (x : Alert). str_eq x.fingerprint r.fingerprint) db.alerts a
          (fired_again now r a) c (fired_again_id now r a) (fired_again_test now r a test) e,
    )

-- Over committed alerts: once the caller commits, the alert that `_upsert_alert` returned is the
-- one that its fingerprint finds: not resolved, with the message, severity and time of this
-- report.
pub upsert_alert-IsFiring :
    (now : ℕ) (s : Settings) (r : AlertReport) (db : Session)
    → IsClean db.alerts
    → let (a, db') = upsert_alert now s r db in
      IsFiring now r a × (alert_of r.fingerprint (commit db') ≡ some a)
unfolding upsert_alert commit
upsert_alert-IsFiring now s r db c =
    let (a, db') = upsert_row now r (alert_of r.fingerprint db) db in
    let (firing, found) = upsert_row-IsFiring now r (alert_of r.fingerprint db) db c refl in
    (
      firing,
      ap (first (λ (x : Alert). str_eq x.fingerprint r.fingerprint))
            (ensure_deliveries-alerts now s a db')
          ∙ found,
    )

closed_test :
    (now : ℕ) (fp : String) (a : Alert)
    → str_eq a.fingerprint fp ≡ true
    → str_eq (closed now a).fingerprint fp ≡ true
unfolding closed
closed_test now fp a h = h

closed_id : (now : ℕ) (a : Alert) → (closed now a).id ≡ a.id
unfolding closed
closed_id now a = refl

closed_resolved : (now : ℕ) (a : Alert) → (closed now a).status ≡ resolved
unfolding closed
closed_resolved now a = refl

abbrev pub IsOver : Option Alert → Type 0
IsOver none = Unit
IsOver (some a) = a.status ≡ resolved

-- Over committed alerts: once the caller commits, `_resolve_alert` has left the alert that the
-- fingerprint finds resolved, or the fingerprint finds none.
pub resolve_alert-IsOver :
    (now : ℕ) (fp : String) (db : Session)
    → IsClean db.alerts
    → IsOver (alert_of fp (commit (resolve_alert now fp db)))
unfolding resolve_alert commit save_alert
resolve_alert-IsOver now fp db c = elim (Option-cases (alert_of fp db)) [
  | inl unknown_alert ↦
      rw (unknown_alert, resolve_alert)
        (rw (first_clean_flush (λ (x : Alert). str_eq x.fingerprint fp) db.alerts c ∙ unknown_alert)
          tt)
  | inr (a, found) ↦ elim (Bool-cases (alert_is a.status resolved)) [
    | inl over ↦
        rw (found, resolve_alert, over)
          (rw (first_clean_flush (λ (x : Alert). str_eq x.fingerprint fp) db.alerts c ∙ found)
            (ground arith))
    | inr firing ↦
        rw (found, resolve_alert, firing)
          (rw
            (first-flush-put (λ (x : Alert). str_eq x.fingerprint fp) db.alerts a (closed now a) c
              (closed_id now a)
              (closed_test now fp a
                (first_test (λ (x : Alert). str_eq x.fingerprint fp) db.alerts a c found))
              found)
            (closed_resolved now a))
  ]
]

refire-IsSound :
    (st : DeliveryStatus) (now : ℕ) (s : Settings) (d : AlertDelivery) (db : Session)
    → All (IsSound s) (deliveries_of db)
    → All (IsSound s) (deliveries_of (refire st now s d db))
unfolding refire save_delivery audit
refire-IsSound DeliveryStatus.pending now s d db h = h
refire-IsSound sent now s d db h = elim (Bool-cases (recently_sent now s d)) [
  | inl lately ↦ rw (lately, refire) h
  | inr before ↦
      rw (before, refire, live_rows-put) (All-replace_row (IsSound s) _ (deliveries_of db) refl h)
]
refire-IsSound _ now s d db h =
    rw live_rows-put (All-replace_row (IsSound s) _ (deliveries_of db) refl h)

upsert_row-deliveries :
    (now : ℕ) (r : AlertReport) (o : Option Alert) (db : Session)
    → (upsert_row now r o db).1.alert_deliveries ≡ db.alert_deliveries
unfolding upsert_row save_alert
upsert_row-deliveries now r none db = refl
upsert_row-deliveries now r (some a) db = refl

new_delivery_test :
    (now n : ℕ) (c : String) (db : Session) → of_channel n c (new_delivery now n c db) ≡ true
unfolding new_delivery
new_delivery_test now n c db = rw (==_refl n, eq_refl c)

new_delivery_pending :
    (now n : ℕ) (c : String) (db : Session)
    → (new_delivery now n c db).status ≡ DeliveryStatus.pending
unfolding new_delivery
new_delivery_pending now n c db = refl

refire_notifies :
    (st : DeliveryStatus) (now : ℕ) (s : Settings) (n : ℕ) (c : String) (d : AlertDelivery)
    (db : Session)
    → IsClean db.alert_deliveries
    → d.status ≡ st
    → first (of_channel n c) db.alert_deliveries ≡ some d
    → (d' : AlertDelivery) × (first (of_channel n c) (flush (refire st now s d db).alert_deliveries)
        ≡ some d')
      × ((d'.status ≡ DeliveryStatus.pending)
          ⊎ (d'.status ≡ sent) × (recently_sent now s d' ≡ true))
unfolding refire save_delivery audit
refire_notifies DeliveryStatus.pending now s n c d db clean e found =
    (d, first_clean_flush (of_channel n c) db.alert_deliveries clean ∙ found, inl e)
refire_notifies sent now s n c d db clean e found = elim (Bool-cases (recently_sent now s d)) [
  | inl lately ↦
      rw (lately, refire)
        (d, first_clean_flush (of_channel n c) db.alert_deliveries clean ∙ found, inr (e, lately))
  | inr before ↦
      rw (before, refire)
        (
          _,
          first-flush-put (of_channel n c) db.alert_deliveries d _ clean refl
              (first_test (of_channel n c) db.alert_deliveries d clean found) found,
          inl refl,
        )
]
refire_notifies _ now s n c d db clean e found = (
  _,
  first-flush-put (of_channel n c) db.alert_deliveries d _ clean refl
      (first_test (of_channel n c) db.alert_deliveries d clean found) found,
  inl refl,
)

ensure_channel-IsSound :
    (now : ℕ) (s : Settings) (n : ℕ) (c : String) (db : Session)
    → All (IsSound s) (deliveries_of db)
    → All (IsSound s) (deliveries_of (ensure_channel now s n c db))
unfolding ensure_channel new_delivery
ensure_channel-IsSound now s n c db h =
    elim (Option-cases (first (of_channel n c) db.alert_deliveries)) [
      | inl new ↦
          rw (new, ensure_channel, live_rows-add)
            (All-append (IsSound s) (deliveries_of db) _ h (refl, tt))
      | inr (d, old) ↦ rw (old, ensure_channel) (refire-IsSound d.status now s d db h)
    ]

ensure_channels-IsSound :
    (now : ℕ) (s : Settings) (n : ℕ) (cs : List String) (db : Session)
    → All (IsSound s) (deliveries_of db)
    → All (IsSound s) (deliveries_of (ensure_channels now s n cs db))
unfolding ensure_channels
ensure_channels-IsSound now s n [] db h = h
ensure_channels-IsSound now s n (c ∷ cs) db h =
    ensure_channels-IsSound now s n cs _ (ensure_channel-IsSound now s n c db h)

-- Reporting an alert keeps every delivery row sound: where each row fits the retry limit before,
-- it does afterwards.
pub upsert_alert-IsSound :
    (now : ℕ) (s : Settings) (r : AlertReport) (db : Session)
    → All (IsSound s) (deliveries_of db)
    → All (IsSound s) (deliveries_of (upsert_alert now s r db).1)
unfolding upsert_alert ensure_deliveries flush_all
upsert_alert-IsSound now s r db h =
    let (a, db') = upsert_row now r (alert_of r.fingerprint db) db in
    let h' : All (IsSound s) (deliveries_of db') =
      rw (upsert_row-deliveries now r (alert_of r.fingerprint db) db) h in
    elim (Option-cases (get a.id db'.alerts)) [
      | inl new ↦
          rw (new, ensure_deliveries)
            (ensure_channels-IsSound now s a.id s.enabled_alert_channels _ (rw live_rows-flush h'))
      | inr (b, old) ↦
          rw (old, ensure_deliveries)
            (ensure_channels-IsSound now s a.id s.enabled_alert_channels db' h')
    ]

-- Over committed delivery rows: after the loop has served a channel and the session is flushed,
-- the alert has a row for that channel, and the row waits to be sent or was sent within the
-- suppression window.
pub ensure_channel_notifies :
    (now : ℕ) (s : Settings) (n : ℕ) (c : String) (db : Session)
    → IsClean db.alert_deliveries
    → (d : AlertDelivery) × (first
          (of_channel n c)
          (flush (ensure_channel now s n c db).alert_deliveries)
        ≡ some d)
      × ((d.status ≡ DeliveryStatus.pending) ⊎ (d.status ≡ sent) × (recently_sent now s d ≡ true))
unfolding ensure_channel
ensure_channel_notifies now s n c db clean =
    elim (Option-cases (first (of_channel n c) db.alert_deliveries)) [
      | inl new ↦
          rw (new, ensure_channel)
            (
              new_delivery now n c db,
              first-flush-add (of_channel n c) db.alert_deliveries (new_delivery now n c db) clean
                  (new_delivery_test now n c db) new,
              inl (new_delivery_pending now n c db),
            )
      | inr (d, old) ↦
          rw (old, ensure_channel) (refire_notifies d.status now s n c d db clean refl old)
    ]
