-- ===== src/Alerts/Rows.antt =====
-- The alert table after a report.
use knowledge_flywheel.Base.{
  subst, arith, ℕ, Option, none, some, List, [], ◌∷◌, ◌++◌, ◌≡◌, ◌≢◌, refl, sym, ap, ◌∙◌,
  Bool-cases, inl, inr, ◌⊎◌,
}
use knowledge_flywheel.Store.Table.{IsClean, live_rows}
use knowledge_flywheel.Store.Laws.{live_rows-flush, live_rows-put, live_rows-add, replace_row}
use knowledge_flywheel.Config.{Settings}
use knowledge_flywheel.Models.Status.{alert_is, open_alert, resolved}
use knowledge_flywheel.Models.Rows.{Alert, alert_entity}
use knowledge_flywheel.Models.Session.{Session, commit, flush_all}
use knowledge_flywheel.Alerts.Board.{
  AlertReport, alert_of, save_alert, new_alert, fired_again, upsert_row, upsert_alert,
}
use knowledge_flywheel.Alerts.Upsert.{upsert_alert-IsFiring, ensure_deliveries-alerts}

-- What a report keeps of an alert whose row is there.
abbrev IsKept : Alert → Alert → Type 0
IsKept a b =
    (b.id ≡ a.id)
    × (b.first_seen_at ≡ a.first_seen_at)
    × (b.acknowledged_by ≡ a.acknowledged_by)
    × (b.acknowledged_at ≡ a.acknowledged_at)
    × ((a.status ≡ resolved) × (b.status ≡ open_alert) × (b.resolved_at ≡ none)
        ⊎ (a.status ≢ resolved) × (b.status ≡ a.status) × (b.resolved_at ≡ a.resolved_at))

-- The rows before and after a report that left the alert `b`, by what its fingerprint found before.
abbrev pub IsOneRow : Option Alert → ℕ → List Alert → Alert → List Alert → Type 0
IsOneRow none now before b after =
    (after ≡ before ++ b ∷ [])
    × (b.status ≡ open_alert)
    × (b.first_seen_at ≡ now)
    × (b.acknowledged_by ≡ none)
    × (b.resolved_at ≡ none)
IsOneRow (some a) now before b after = (after ≡ replace_row b before) × IsKept a b

fired_again-IsKept : (now : ℕ) (r : AlertReport) (a : Alert) → IsKept a (fired_again now r a)
unfolding fired_again
fired_again-IsKept now r a = elim (Bool-cases (alert_is a.status resolved)) [
  | inl over ↦ rw over (refl, refl, refl, refl, inl (ground arith, refl, refl))
  | inr firing ↦ rw firing (refl, refl, refl, refl, inr (ground arith, refl, refl))
]

upsert_row-IsOneRow :
    (now : ℕ) (r : AlertReport) (o : Option Alert) (db : Session)
    → let (b, db') = upsert_row now r o db in
      IsOneRow o now (live_rows db.alerts) b (live_rows db'.alerts)
unfolding upsert_row new_alert save_alert
upsert_row-IsOneRow now r none db =
    (live_rows-add (new_alert now r db) db.alerts, refl, refl, refl, refl)
upsert_row-IsOneRow now r (some a) db =
    (live_rows-put (fired_again now r a) db.alerts, fired_again-IsKept now r a)

-- The deliveries and the commit leave the alerts as they are.
upsert_alert-alerts :
    (now : ℕ) (s : Settings) (r : AlertReport) (db : Session)
    → live_rows (commit (upsert_alert now s r db).1).alerts
      ≡ live_rows (upsert_row now r (alert_of r.fingerprint db) db).1.alerts
unfolding upsert_alert commit flush_all
upsert_alert-alerts now s r db =
    let (a, db') = upsert_row now r (alert_of r.fingerprint db) db in
    ap live_rows (ensure_deliveries-alerts now s a db') ∙ live_rows-flush db'.alerts

-- Over committed alerts: once the caller commits a report, its fingerprint finds an alert, and the
-- alert table changed by that alert only. Where the fingerprint found none before, the table has one
-- more row, an open alert that nobody acknowledged, first seen now. Where it found one, no row was
-- added: the row keeps its key, its first report and its acknowledgement; if it was resolved it is open
-- again, with no time of resolution, and otherwise it keeps its status and that time.
pub upsert_alert-IsOneRow :
    (now : ℕ) (s : Settings) (r : AlertReport) (db : Session)
    → IsClean db.alerts
    → let db' = commit (upsert_alert now s r db).1 in
      (b : Alert) × (alert_of r.fingerprint db' ≡ some b)
      × IsOneRow (alert_of r.fingerprint db) now (live_rows db.alerts) b (live_rows db'.alerts)
unfolding upsert_alert
upsert_alert-IsOneRow now s r db clean =
    let o = alert_of r.fingerprint db in
    (
      (upsert_row now r o db).0,
      (upsert_alert-IsFiring now s r db clean).1,
      subst (IsOneRow o now (live_rows db.alerts) (upsert_row now r o db).0)
          (sym (upsert_alert-alerts now s r db)) (upsert_row-IsOneRow now r o db),
    )
