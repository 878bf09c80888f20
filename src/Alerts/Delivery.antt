-- ===== src/Alerts/Delivery.antt =====
-- knowledge-hub/app/alerting.py: ensure_deliveries, _attempt_delivery, process_alert_deliveries.
-- `updated_at` has `onupdate=utcnow`: a row that is changed and does not set it gets the time of the
-- flush, here the time of the call.
use knowledge_flywheel.Base.{
  ℕ, ◌+◌, String, Bool, false, ◌&&◌, ◌||◌, not, Option, none, some, List, [], ◌∷◌, ltb, leb, ◌==◌,
  str_eq, if◌then◌else◌, any, take, show, ◌++◌,
}
use knowledge_flywheel.Store.Table.{select, first, get, add, put, next_id}
use knowledge_flywheel.Store.Order.{sort_by}
use knowledge_flywheel.Config.{Settings}
use knowledge_flywheel.Models.Json.{str}
use knowledge_flywheel.Models.Status.{
  DeliveryStatus, delivery_is, alert_is, resolved, failed, sent, dead_letter, suppressed,
}
use knowledge_flywheel.Models.Rows.{Alert, AlertDelivery, alert_entity, delivery_entity}
use knowledge_flywheel.Models.Session.{Session, commit, flush_all, audit}
use knowledge_flywheel.Tasks.Queue.{seconds}

-- `notifier.send(alert)` of a channel: nothing, or the text of the exception it raised. The network
-- and the mail server are not part of the program.
abbrev pub Transport : Type 0
Transport = String → Alert → Option String

abbrev is_set : String → Bool
is_set s = not (str_eq s "")

-- `build_notifiers`: the channels that have a notifier.
unfoldable pub build_notifiers : Settings → List String
build_notifiers s =
    let enabled = λ (c : String). any (str_eq c) s.enabled_alert_channels in
    (if enabled "webhook" && is_set s.alert_webhook_url then "webhook" ∷ [] else [])
    ++ ((if enabled "wecom" && is_set s.alert_wecom_webhook then "wecom" ∷ [] else [])
        ++ ((if enabled "dingtalk" && is_set s.alert_dingtalk_webhook then "dingtalk" ∷ [] else [])
            ++ (if enabled "email"
                  && (is_set s.alert_email_smtp_host
                      && (is_set s.alert_email_from && is_set s.alert_email_to))
                then "email" ∷ []
                else [])))

abbrev pub of_channel : ℕ → String → AlertDelivery → Bool
of_channel alert_id channel d = d.alert_id == alert_id && str_eq d.channel channel

unfoldable pub save_delivery : AlertDelivery → Session → Session
save_delivery d db = record db { alert_deliveries = put d db.alert_deliveries }

unfoldable pub new_delivery : ℕ → ℕ → String → Session → AlertDelivery
new_delivery now alert_id channel db = record {
  id = next_id db.alert_deliveries;
  alert_id = alert_id;
  channel = channel;
  status = DeliveryStatus.pending;
  attempts = 0;
  last_error = none;
  sent_at = none;
  created_at = now;
  updated_at = now;
}

-- `sent_at is not None and (now - sent_at) < window`
abbrev pub recently_sent : ℕ → Settings → AlertDelivery → Bool
recently_sent now s d = elim d.sent_at [
  | none ↦ false
  | some sent_at ↦ ltb now (sent_at + seconds s.alert_suppress_window_seconds)
]

-- The body of the loop for a channel whose row exists, by the row's status.
unfoldable pub refire : DeliveryStatus → ℕ → Settings → AlertDelivery → Session → Session
unfolding save_delivery
refire DeliveryStatus.pending now s d db = db
refire sent now s d db =
    if recently_sent now s d
    then audit "alerting" "alert_delivery.suppressed" "alert_delivery" (show d.id)
        (("channel", str d.channel) ∷ []) db
    else save_delivery
        (record d { status = DeliveryStatus.pending; attempts = 0; updated_at = now }) db
refire _ now s d db =
    save_delivery
      (record d {
        status = DeliveryStatus.pending;
        last_error = none;
        attempts = 0;
        updated_at = now;
      })
      db

-- The body of the loop of `ensure_deliveries`.
unfoldable pub ensure_channel : ℕ → Settings → ℕ → String → Session → Session
unfolding new_delivery refire
ensure_channel now s alert_id channel db =
    elim (first (of_channel alert_id channel) db.alert_deliveries) [
      | none ↦ record db {
        alert_deliveries = add (new_delivery now alert_id channel db) db.alert_deliveries;
      }
      | some d ↦ refire d.status now s d db
    ]

unfoldable pub ensure_channels : ℕ → Settings → ℕ → List String → Session → Session
unfolding ensure_channel
ensure_channels now s alert_id [] db = db
ensure_channels now s alert_id (c ∷ cs) db =
    ensure_channels now s alert_id cs (ensure_channel now s alert_id c db)

-- `ensure_deliveries`, without the list of rows that it returns to no caller. An alert that was
-- added and not flushed has no key yet: the session is flushed first.
unfoldable pub ensure_deliveries : ℕ → Settings → Alert → Session → Session
unfolding ensure_channels
ensure_deliveries now s alert db =
    ensure_channels now s alert.id s.enabled_alert_channels
      (elim (get alert.id db.alerts) [ none ↦ flush_all db | some _ ↦ db ])

-- The row after `notifier.send` ended, by what it raised.
unfoldable pub delivered : ℕ → Settings → Option String → AlertDelivery → AlertDelivery
delivered now s (some text) d = record d {
  attempts = d.attempts + 1;
  last_error = some text;
  status = if ltb (d.attempts + 1) s.alert_retry_max then failed else dead_letter;
  updated_at = now;
}
delivered now s none d = record d {
  attempts = d.attempts + 1;
  last_error = none;
  status = sent;
  sent_at = some now;
  updated_at = now;
}

-- The audit entry that `_attempt_delivery` writes then.
unfoldable pub audit_delivered : Option String → AlertDelivery → Session → Session
audit_delivered (some text) d db =
    audit "alerting" "alert_delivery.failed" "alert_delivery" (show d.id)
      (("channel", str d.channel) ∷ ("error", str text) ∷ []) db
audit_delivered none d db =
    audit "alerting" "alert_delivery.sent" "alert_delivery" (show d.id)
      (("channel", str d.channel) ∷ []) db

abbrev pub parked : ℕ → String → AlertDelivery → AlertDelivery
parked now text d = record d { status = suppressed; last_error = some text; updated_at = now }

-- `_attempt_delivery`, on the alert that `db.get` found: the row it leaves, and the session.
unfoldable pub attempt_for :
    Transport → ℕ → Settings → Option Alert → AlertDelivery → Session → AlertDelivery × Session
unfolding delivered audit_delivered save_delivery
attempt_for send now s none d db =
    (parked now "alert missing" d, save_delivery (parked now "alert missing" d) db)
attempt_for send now s (some alert) d db =
    if alert_is alert.status resolved
    then (
      parked now "alert resolved before delivery" d,
      save_delivery (parked now "alert resolved before delivery" d) db,
    )
    else (
      delivered now s (send d.channel alert) d,
      audit_delivered (send d.channel alert) d
          (save_delivery (delivered now s (send d.channel alert) d) db),
    )

unfoldable pub attempt_delivery :
    Transport → ℕ → Settings → AlertDelivery → Session → AlertDelivery × Session
unfolding attempt_for
attempt_delivery send now s d db = attempt_for send now s (get d.alert_id db.alerts) d db

-- The counters that `process_alert_deliveries` returns.
pub record Counts : Type 0 where
  pub processed : ℕ
  pub sent_count : ℕ
  pub failed_count : ℕ
  pub dead_letter_count : ℕ
  pub suppressed_count : ℕ

abbrev pub no_counts : Counts
no_counts = record {
  processed = 0;
  sent_count = 0;
  failed_count = 0;
  dead_letter_count = 0;
  suppressed_count = 0;
}

-- `counts[delivery.status] = counts.get(delivery.status, 0) + 1`, after `processed += 1`. An attempt
-- leaves no row pending.
unfoldable pub count_attempt : DeliveryStatus → Counts → Counts
count_attempt DeliveryStatus.pending n = record n { processed = n.processed + 1 }
count_attempt sent n = record n { processed = n.processed + 1; sent_count = n.sent_count + 1 }
count_attempt failed n = record n { processed = n.processed + 1; failed_count = n.failed_count + 1 }
count_attempt dead_letter n = record n {
  processed = n.processed + 1;
  dead_letter_count = n.dead_letter_count + 1;
}
count_attempt suppressed n = record n {
  processed = n.processed + 1;
  suppressed_count = n.suppressed_count + 1;
}

-- The `where` clause of the query.
abbrev pub is_due : ℕ → Settings → AlertDelivery → Bool
is_due now s d =
    (delivery_is d.status DeliveryStatus.pending || delivery_is d.status failed)
    && (any (str_eq d.channel) (build_notifiers s)
        && ((delivery_is d.status DeliveryStatus.pending && d.attempts == 0)
            || ltb (d.updated_at + seconds s.alert_retry_backoff_seconds) now))

abbrev pub is_exhausted : Settings → AlertDelivery → Bool
is_exhausted s d = delivery_is d.status DeliveryStatus.pending && leb s.alert_retry_max d.attempts

-- The body of the loop.
unfoldable pub process_one :
    Transport → ℕ → Settings → AlertDelivery → Counts × Session → Counts × Session
unfolding count_attempt attempt_delivery save_delivery
process_one send now s d (n, db) =
    let (d', db') = attempt_delivery send now s d db in
    if is_exhausted s d
    then (
      record n { dead_letter_count = n.dead_letter_count + 1 },
      save_delivery (record d { status = dead_letter; updated_at = now }) db,
    )
    else (count_attempt d'.status n, db')

unfoldable pub process_rows :
    Transport → ℕ → Settings → List AlertDelivery → Counts × Session → Counts × Session
unfolding process_one
process_rows send now s [] acc = acc
process_rows send now s (d ∷ ds) acc = process_rows send now s ds (process_one send now s d acc)

-- `order_by(AlertDelivery.created_at, AlertDelivery.id)`
abbrev pub delivery_before : AlertDelivery → AlertDelivery → Bool
delivery_before a b =
    ltb a.created_at b.created_at || (a.created_at == b.created_at && leb a.id b.id)

-- `process_alert_deliveries`, by the channels that have a notifier.
unfoldable pub process_for : List String → Transport → ℕ → Settings → ℕ → Session → Counts × Session
unfolding process_rows
process_for [] send now s limit db = (no_counts, db)
process_for (_ ∷ _) send now s limit db =
    let (n, db') =
      process_rows send now s
        (take limit (sort_by delivery_before (select (is_due now s) db.alert_deliveries)))
        (no_counts, db) in
    (n, commit db')

-- `process_alert_deliveries`
unfoldable pub process_alert_deliveries : Transport → ℕ → Settings → ℕ → Session → Counts × Session
unfolding process_for
process_alert_deliveries send now s limit db = process_for (build_notifiers s) send now s limit db
