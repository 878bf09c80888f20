-- ===== src/Alerts/Retry.antt =====
-- The retry state machine of a delivery row.
use knowledge_flywheel.Base.{
  length-take, min, ◌∙◌, ◌∙◌, ◌∙◌, ◌∙◌, ◌∙◌, ◌||◌, All-both, ◌∙◌, length, length, length, length,
  length, length, subst, ℕ, ◌+◌, ◌≤◌, ◌<◌, String, true, false, Option, none, some, List, [], ◌∷◌,
  ◌≡◌, ◌≢◌, refl, ap, arith, All, All-mono, All-take, take, length, Option-cases, Bool-cases, inl,
  inr, ◌⊎◌, ◌∙◌,
}
use knowledge_flywheel.Store.Table.{Table, IsClean, select, get, live_rows}
use knowledge_flywheel.Store.Laws.{
  All-keep, replace_row, live_rows-flush, live_rows-put, All-replace_row, select_clean, keep-All,
}
use knowledge_flywheel.Store.Order.{length-sort_by, sort_by, sort_by-All}
use knowledge_flywheel.Config.{Settings}
use knowledge_flywheel.Models.Status.{
  DeliveryStatus, delivery_is, alert_is, resolved, failed, sent, dead_letter, suppressed,
}
use knowledge_flywheel.Models.Rows.{Alert, AlertDelivery, alert_entity, delivery_entity}
use knowledge_flywheel.Models.Session.{Session, commit, audit}
use knowledge_flywheel.Alerts.Delivery.{
  process_for, Transport, build_notifiers, save_delivery, delivered, audit_delivered, attempt_for,
  attempt_delivery, Counts, no_counts, count_attempt, is_due, is_exhausted, process_one,
  process_rows, delivery_before, process_alert_deliveries,
}

abbrev pub deliveries_of : Session → List AlertDelivery
deliveries_of db = live_rows db.alert_deliveries

-- How many attempts a row in each status has behind it, below a limit.
abbrev pub Fits : ℕ → DeliveryStatus → ℕ → Type 0
Fits limit DeliveryStatus.pending n = n ≡ 0
Fits limit failed n = (0 < n) × (n < limit)
Fits limit sent n = (0 < n) × (n ≤ limit)
Fits limit dead_letter n = n ≡ limit
Fits limit suppressed n = n ≤ limit

-- A waiting row has no attempt behind it, a failed one some and fewer than ALERT_RETRY_MAX, a sent
-- one at most that many, and a dead letter exactly that many.
abbrev pub IsSound : Settings → AlertDelivery → Type 0
IsSound s d = Fits s.alert_retry_max d.status d.attempts

-- The row is one that the query for due rows looks for.
abbrev pub IsOpen : AlertDelivery → Type 0
IsOpen d = (d.status ≡ DeliveryStatus.pending) ⊎ (d.status ≡ failed)

open_below :
    (s : Settings) (d : AlertDelivery)
    → 0 < s.alert_retry_max
    → IsOpen d
    → IsSound s d
    → d.attempts < s.alert_retry_max
open_below s d m (inl e) h = ground (arith, subst (λ x. Fits s.alert_retry_max x d.attempts) e h)
open_below s d m (inr e) h = (subst (λ x. Fits s.alert_retry_max x d.attempts) e h).1

delivered-IsSound :
    (now : ℕ) (s : Settings) (o : Option String) (d : AlertDelivery)
    → d.attempts < s.alert_retry_max
    → IsSound s (delivered now s o d)
unfolding delivered
delivered-IsSound now s none d h = omega arith
delivered-IsSound now s (some text) d h = ground arith

attempt_for-IsSound :
    (send : Transport) (now : ℕ) (s : Settings) (o : Option Alert) (d : AlertDelivery)
    (db : Session)
    → d.attempts < s.alert_retry_max
    → IsSound s (attempt_for send now s o d db).0
unfolding attempt_for
attempt_for-IsSound send now s none d db h = omega arith
attempt_for-IsSound send now s (some a) d db h = elim (Bool-cases (alert_is a.status resolved)) [
  | inl over ↦ rw over (omega arith)
  | inr firing ↦ rw firing (delivered-IsSound now s (send d.channel a) d h)
]

audit_delivered-deliveries :
    (o : Option String) (d : AlertDelivery) (db : Session)
    → (audit_delivered o d db).alert_deliveries ≡ db.alert_deliveries
unfolding audit_delivered audit
audit_delivered-deliveries none d db = refl
audit_delivered-deliveries (some text) d db = refl

attempt_for-rows :
    (send : Transport) (now : ℕ) (s : Settings) (o : Option Alert) (d : AlertDelivery)
    (db : Session)
    → deliveries_of (attempt_for send now s o d db).1
      ≡ replace_row (attempt_for send now s o d db).0 (deliveries_of db)
unfolding attempt_for save_delivery
attempt_for-rows send now s none d db = live_rows-put _ db.alert_deliveries
attempt_for-rows send now s (some a) d db = elim (Bool-cases (alert_is a.status resolved)) [
  | inl over ↦ rw over (live_rows-put _ db.alert_deliveries)
  | inr firing ↦ rw firing (
      ap live_rows (audit_delivered-deliveries (send d.channel a) d _)
      ∙ live_rows-put (delivered now s (send d.channel a) d) db.alert_deliveries)
]

-- The outcomes that are counted, together.
abbrev pub outcomes : Counts → ℕ
outcomes n = n.sent_count + n.failed_count + n.dead_letter_count + n.suppressed_count

attempt_ended :
    (send : Transport) (now : ℕ) (s : Settings) (o : Option Alert) (d : AlertDelivery)
    (db : Session)
    → (attempt_for send now s o d db).0.status ≢ DeliveryStatus.pending
unfolding attempt_for delivered
attempt_ended send now s none d db = λ e. cc
attempt_ended send now s (some a) d db = ground (arith, Option-cases (send d.channel a))

count_attempt-outcomes :
    (st : DeliveryStatus) (n : Counts)
    → st ≢ DeliveryStatus.pending
    → ((count_attempt st n).processed ≡ n.processed + 1)
      × (outcomes (count_attempt st n) ≡ outcomes n + 1)
unfolding count_attempt
count_attempt-outcomes DeliveryStatus.pending n h = absurd (h refl)
count_attempt-outcomes sent n h = omega arith
count_attempt-outcomes failed n h = omega arith
count_attempt-outcomes dead_letter n h = omega arith
count_attempt-outcomes suppressed n h = omega arith

not_exhausted :
    (s : Settings) (d : AlertDelivery)
    → 0 < s.alert_retry_max
    → IsOpen d
    → IsSound s d
    → is_exhausted s d ≡ false
not_exhausted s d m o h = let below = open_below s d m o h in ground arith

-- What one round of the loop keeps, on a row that is open and sound.
process_one_lem :
    (send : Transport) (now : ℕ) (s : Settings) (d : AlertDelivery) (n : Counts) (db : Session)
    → 0 < s.alert_retry_max
    → IsOpen d
    → IsSound s d
    → All (IsSound s) (deliveries_of db)
    → All (IsSound s) (deliveries_of (process_one send now s d (n, db)).1)
      × ((process_one send now s d (n, db)).0.processed ≡ n.processed + 1)
      × (outcomes (process_one send now s d (n, db)).0 ≡ outcomes n + 1)
unfolding process_one attempt_delivery
process_one_lem send now s d n db m o h all =
    let alert = get d.alert_id db.alerts in
    let (counted, summed) =
      count_attempt-outcomes (attempt_for send now s alert d db).0.status n
        (attempt_ended send now s alert d db) in
    rw (not_exhausted s d m o h) (
      rw attempt_for-rows (
          All-replace_row (IsSound s) _ (deliveries_of db)
            (attempt_for-IsSound send now s alert d db (open_below s d m o h)) all),
      counted,
      summed,
    )

process_rows_lem :
    (send : Transport) (now : ℕ) (s : Settings) (ds : List AlertDelivery) (n : Counts)
    (db : Session)
    → 0 < s.alert_retry_max
    → All (λ d. IsOpen d × IsSound s d) ds
    → All (IsSound s) (deliveries_of db)
    → All (IsSound s) (deliveries_of (process_rows send now s ds (n, db)).1)
      × ((process_rows send now s ds (n, db)).0.processed ≡ n.processed + length ds)
      × (outcomes (process_rows send now s ds (n, db)).0 ≡ outcomes n + length ds)
unfolding process_rows
process_rows_lem send now s [] n db m due all = (all, omega arith, omega arith)
process_rows_lem send now s (d ∷ ds) n db m due all =
    let (n', db') = process_one send now s d (n, db) in
    let (all', p, q) = process_one_lem send now s d n db m due.0.0 due.0.1 all in
    let (all'', p', q') = process_rows_lem send now s ds n' db' m due.1 all' in
    (all'', omega (arith, p, p'), omega (arith, q, q'))

due-IsOpen : (now : ℕ) (s : Settings) (d : AlertDelivery) → is_due now s d ≡ true → IsOpen d
due-IsOpen now s d h = open_status d (ground arith)
  where
    open_status :
        (d : AlertDelivery)
        → (delivery_is d.status DeliveryStatus.pending || delivery_is d.status failed) ≡ true
        → IsOpen d
    open_status d h = ground arith

due_rows :
    (now : ℕ) (s : Settings) (db : Session)
    → IsClean db.alert_deliveries
    → All (IsSound s) (deliveries_of db)
    → All (λ d. IsOpen d × IsSound s d) (select (is_due now s) db.alert_deliveries)
due_rows now s db c h = rw (select_clean (is_due now s) db.alert_deliveries c) (
    All-both IsOpen (IsSound s) _
      (All-mono _ _ _ (due-IsOpen now s) (keep-All (is_due now s) (deliveries_of db)))
      (All-keep (IsSound s) (is_due now s) (deliveries_of db) h))

no_notifier_due :
    (now : ℕ) (s : Settings) (rs : Table AlertDelivery)
    → build_notifiers s ≡ []
    → select (is_due now s) rs ≡ []
unfolding select
no_notifier_due now s [] e = refl
no_notifier_due now s (r ∷ rs) e = elim (Option-cases r.stored) [
  | inl new ↦ rw (new, no_notifier_due now s rs e)
  | inr (d, old) ↦
      let out : is_due now s d ≡ false = rw e (ground arith) in
      rw (old, out, no_notifier_due now s rs e)
]

-- What a run of `process_alert_deliveries` promises of its counters and of the rows it leaves.
pub record IsRound (s : Settings) (due : ℕ) (n : Counts) (rows : List AlertDelivery) : Type 0 where
  pub all_processed : n.processed ≡ due
  pub all_counted : outcomes n ≡ due
  pub sound : All (IsSound s) rows

process_for-IsRound :
    (ns : List String) (send : Transport) (now : ℕ) (s : Settings) (limit : ℕ) (db : Session)
    → build_notifiers s ≡ ns
    → 0 < s.alert_retry_max
    → IsClean db.alert_deliveries
    → All (IsSound s) (deliveries_of db)
    → let (n, db') = process_for ns send now s limit db in
      IsRound s
        (min limit (length (select (is_due now s) db.alert_deliveries)))
        n
        (deliveries_of db')
unfolding process_for commit
process_for-IsRound [] send now s limit db e m c h =
    rw (no_notifier_due now s db.alert_deliveries e)
      (record { all_processed = omega arith; all_counted = omega arith; sound = h })
process_for-IsRound (x ∷ xs) send now s limit db e m c h =
    let due = select (is_due now s) db.alert_deliveries in
    let rows = take limit (sort_by delivery_before due) in
    let good : All (λ d. IsOpen d × IsSound s d) rows =
      All-take _ limit _ (sort_by-All delivery_before _ due (due_rows now s db c h)) in
    let (sound, counted, summed) = process_rows_lem send now s rows no_counts db m good h in
    let size : length rows ≡ min limit (length due) =
      length-take limit (sort_by delivery_before due)
      ∙ ap (min limit) (length-sort_by delivery_before due) in
    record {
      all_processed = omega (arith, counted, size);
      all_counted = omega (arith, summed, size);
      sound = rw live_rows-flush sound;
    }

-- With ALERT_RETRY_MAX above zero, on committed rows that are sound: a round processes the due rows
-- up to the limit, counts each under exactly one of sent, failed, dead letter and suppressed, and
-- leaves every row sound. So a failed row has fewer attempts than the limit, and a row is a dead
-- letter only after exactly that many attempts, whatever the transport does.
pub process_alert_deliveries-IsRound :
    (send : Transport) (now : ℕ) (s : Settings) (limit : ℕ) (db : Session)
    → 0 < s.alert_retry_max
    → IsClean db.alert_deliveries
    → All (IsSound s) (deliveries_of db)
    → let (n, db') = process_alert_deliveries send now s limit db in
      IsRound s
        (min limit (length (select (is_due now s) db.alert_deliveries)))
        n
        (deliveries_of db')
unfolding process_alert_deliveries
process_alert_deliveries-IsRound send now s limit db =
    process_for-IsRound (build_notifiers s) send now s limit db refl
