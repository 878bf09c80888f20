-- ===== src/Nodes/Liveness.antt =====
-- heartbeat and refresh_node_statuses: the rows of the nodes and the offline alerts.
use knowledge_flywheel.Base.{
  ℕ, String, Bool, false, Option, none, some, List, [], ◌∷◌, ◌≡◌, refl, ap, sym, ◌∙◌, arith,
  Bool-cases, Option-cases, inl, inr, str_eq, eq_refl,
}
use knowledge_flywheel.Store.Table.{
  get, head?, Row, Table, IsClean, select, first, for_each, flush, live_rows,
}
use knowledge_flywheel.Store.Laws.{
  live_rows-flush, live_rows-for_each, update_where, first-flush-add,
}
use knowledge_flywheel.Config.{Settings}
use knowledge_flywheel.Models.Status.{
  DeliveryStatus, AlertStatus, node_is, alert_is, online, offline,
}
use knowledge_flywheel.Models.Rows.{Node, Alert, AlertDelivery, alert_entity}
use knowledge_flywheel.Models.Session.{Session, commit, flush_all, audit}
use knowledge_flywheel.Alerts.Delivery.{
  refire, save_delivery, ensure_channel, ensure_channels, ensure_deliveries, of_channel,
}
use knowledge_flywheel.Alerts.Board.{
  upsert_alert, upsert_row, AlertReport, upsert_alert, alert_of, resolve_alert, save_alert,
}
use knowledge_flywheel.Alerts.Upsert.{IsOver, resolve_alert-IsOver}
use knowledge_flywheel.Commands.Queue.{node_of}
use knowledge_flywheel.Nodes.Status.{
  NodeHeartbeat, put_node, keep_node, heard, offline_key, heartbeat, is_silent, turned_off,
  refresh_alerts, every_node, refresh_node_statuses,
}

abbrev has_id : String → Node → Bool
has_id node_id n = str_eq n.id node_id

select_skip :
    (p : Node → Bool) (r : Row Node) (rs : Table Node)
    → Path (Option Node) r.stored (some r.live)
    → p r.live ≡ false
    → select p (r ∷ rs) ≡ select p rs
unfolding select
select_skip p r rs c other = ground (arith, c, other)

first-flush-put_node :
    (n a : Node) (rs : Table Node)
    → IsClean rs
    → first (has_id n.id) rs ≡ some a
    → first (has_id n.id) (flush (put_node n rs)) ≡ some n
unfolding put_node flush select
first-flush-put_node n a [] c e = cc
first-flush-put_node n a (r ∷ rs) c e = elim (Bool-cases (str_eq r.live.id n.id)) [
  | inl own ↦ simp (own, eq_refl n.id) refl
  | inr other ↦
      let found = ap head? (sym (select_skip (has_id n.id) r rs c.0 other)) ∙ e in
      simp other (first-flush-put_node n a rs c.1 found)
]

resolve_alert-nodes :
    (now : ℕ) (fp : String) (db : Session) → (resolve_alert now fp db).nodes ≡ db.nodes
unfolding resolve_alert save_alert
resolve_alert-nodes now fp db = elim (Option-cases (alert_of fp db)) [
  | inl unknown_alert ↦ rw (unknown_alert, resolve_alert) refl
  | inr (a, found) ↦ elim (Bool-cases (alert_is a.status AlertStatus.resolved)) [
    | inl over ↦ rw (found, resolve_alert, over) refl
    | inr firing ↦ rw (found, resolve_alert, firing) refl
  ]
]

keep_node-alerts :
    (o : Option Node) (n : Node) (db : Session) → (keep_node o n db).alerts ≡ db.alerts
unfolding keep_node
keep_node-alerts none n db = refl
keep_node-alerts (some a) n db = refl

keep_node_found :
    (n : Node) (o : Option Node) (db : Session)
    → IsClean db.nodes
    → node_of n.id db ≡ o
    → first (has_id n.id) (flush (keep_node o n db).nodes) ≡ some n
unfolding keep_node
keep_node_found n none db c e = first-flush-add (has_id n.id) db.nodes n c (eq_refl n.id) e
keep_node_found n (some a) db c e = first-flush-put_node n a db.nodes c e

-- Over committed nodes and alerts: after a heartbeat the node's key finds the node that it returns,
-- online and seen now with the reported host name, and the node's offline alert, where there is
-- one, is resolved.
pub heartbeat_online :
    (now : ℕ) (d : NodeHeartbeat) (db : Session)
    → IsClean db.nodes
    → IsClean db.alerts
    → let (n, db') = heartbeat now d db in
      (node_of d.node_id db' ≡ some n)
      × (n.status ≡ online)
      × (n.last_seen_at ≡ now)
      × (n.hostname ≡ d.hostname)
      × IsOver (alert_of (offline_key d.node_id) db')
unfolding heartbeat heard commit
heartbeat_online now d db c ca =
    let n = heard now d d.hostname online in
    let db1 = keep_node (node_of d.node_id db) n db in
    (
      ap (λ rs. first (has_id d.node_id) (flush rs))
            (resolve_alert-nodes now (offline_key d.node_id) db1)
          ∙ keep_node_found n (node_of d.node_id db) db c refl,
      refl,
      refl,
      refl,
      resolve_alert-IsOver now (offline_key d.node_id) db1
          (rw (keep_node-alerts (node_of d.node_id db) n db) ca),
    )

abbrev pub nodes_of : Session → List Node
nodes_of db = live_rows db.nodes

refire-nodes :
    (st : DeliveryStatus) (now : ℕ) (s : Settings) (d : AlertDelivery) (db : Session)
    → (refire st now s d db).nodes ≡ db.nodes
unfolding refire save_delivery audit
refire-nodes DeliveryStatus.pending now s d db = refl
refire-nodes DeliveryStatus.sent now s d db = ground arith
refire-nodes _ now s d db = refl

ensure_channels-nodes :
    (now : ℕ) (s : Settings) (n : ℕ) (cs : List String) (db : Session)
    → (ensure_channels now s n cs db).nodes ≡ db.nodes
unfolding ensure_channels ensure_channel
ensure_channels-nodes now s n [] db = refl
ensure_channels-nodes now s n (c ∷ cs) db =
    ensure_channels-nodes now s n cs (ensure_channel now s n c db)
    ∙ elim (Option-cases (first (of_channel n c) db.alert_deliveries)) [
      | inl new ↦ rw (new, ensure_channel) refl
      | inr (d, old) ↦ rw (old, ensure_channel) (refire-nodes d.status now s d db)
    ]

-- An alert leaves the objects of the nodes alone.
upsert_alert-nodes :
    (now : ℕ) (s : Settings) (r : AlertReport) (db : Session)
    → nodes_of (upsert_alert now s r db).1 ≡ nodes_of db
unfolding upsert_alert ensure_deliveries flush_all upsert_row save_alert
upsert_alert-nodes now s r db =
    let (a, db') = upsert_row now r (alert_of r.fingerprint db) db in
    let same : nodes_of db' ≡ nodes_of db = upsert_row-nodes (alert_of r.fingerprint db) in
    elim (Option-cases (get a.id db'.alerts)) [
      | inl new ↦
          rw (new, ensure_deliveries)
            (ap live_rows
                (ensure_channels-nodes now s a.id s.enabled_alert_channels (flush_all db'))
              ∙ live_rows-flush _
              ∙ same)
      | inr (b, old) ↦
          rw (old, ensure_deliveries)
            (ap live_rows (ensure_channels-nodes now s a.id s.enabled_alert_channels db') ∙ same)
    ]
  where
    upsert_row-nodes : (o : Option Alert) → nodes_of (upsert_row now r o db).1 ≡ nodes_of db
    upsert_row-nodes none = refl
    upsert_row-nodes (some a) = refl

refresh_alerts-nodes :
    (now : ℕ) (s : Settings) (offline_after : ℕ) (ns : List Node) (db : Session)
    → nodes_of (refresh_alerts now s offline_after ns db) ≡ nodes_of db
unfolding refresh_alerts
refresh_alerts-nodes now s offline_after [] db = refl
refresh_alerts-nodes now s offline_after (n ∷ ns) db =
    refresh_alerts-nodes now s offline_after ns _
    ∙ elim (Bool-cases (is_silent now offline_after n)) [
      | inl silent ↦ rw silent (upsert_alert-nodes now s _ db)
      | inr recent ↦ elim (Bool-cases (node_is n.status online)) [
        | inl up ↦ rw (recent, up) (ap live_rows (resolve_alert-nodes now (offline_key n.id) db))
        | inr down ↦ rw (recent, down) refl
      ]
    ]

every_turned_off :
    (now offline_after : ℕ) (ns : List Node)
    → update_where every_node (turned_off now offline_after) ns
      ≡ update_where (is_silent now offline_after) (λ n. record n { status = offline }) ns
unfolding turned_off
every_turned_off now offline_after [] = refl
every_turned_off now offline_after (n ∷ ns) =
    ap (◌∷◌ (turned_off now offline_after n)) (every_turned_off now offline_after ns)

-- Over committed nodes: the sweep puts exactly the nodes offline that were last seen more than the
-- given number of seconds before now, and leaves every other node and field as it was, whatever
-- alerts it raises or resolves.
pub refresh_node_statuses-rows :
    (now : ℕ) (s : Settings) (offline_after : ℕ) (db : Session)
    → IsClean db.nodes
    → nodes_of (refresh_node_statuses now s offline_after db)
      ≡ update_where
          (is_silent now offline_after)
          (λ n. record n { status = offline })
          (nodes_of db)
unfolding refresh_node_statuses commit
refresh_node_statuses-rows now s offline_after db c =
    live_rows-flush _
    ∙ refresh_alerts-nodes now s offline_after (select every_node db.nodes)
        (record db { nodes = for_each every_node (turned_off now offline_after) db.nodes })
    ∙ live_rows-for_each every_node (turned_off now offline_after) db.nodes c
    ∙ every_turned_off now offline_after (nodes_of db)
