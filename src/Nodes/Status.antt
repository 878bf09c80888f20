-- ===== src/Nodes/Status.antt =====
-- The operations on node rows.
use knowledge_flywheel.Base.{
  ◌+◌, ℕ, String, Bool, true, Option, none, some, List, [], ◌∷◌, ltb, str_eq, if◌then◌else◌, show,
  ◌<>◌,
}
use knowledge_flywheel.Store.Table.{Table, select, for_each, add}
use knowledge_flywheel.Config.{Settings}
use knowledge_flywheel.Models.Json.{str}
use knowledge_flywheel.Models.Status.{NodeStatus, node_is, online, offline}
use knowledge_flywheel.Models.Rows.{Node}
use knowledge_flywheel.Models.Session.{Session, flush_all, commit, audit}
use knowledge_flywheel.Tasks.Queue.{seconds}
use knowledge_flywheel.Alerts.Board.{AlertReport, upsert_alert, resolve_alert}
use knowledge_flywheel.Commands.Queue.{node_of}

pub record NodeHeartbeat : Type 0 where
  pub node_id : String
  pub hostname : String
  pub ip_address : Option String
  pub agent_version : String
  pub cpu_percent : String
  pub disk_free_bytes : ℕ
  pub is_replica : Bool

-- The fields that the class adds to NodeHeartbeat.
pub record NodeStatusEvent : Type 0 where
  pub beat : NodeHeartbeat
  pub status : NodeStatus
  pub reason : Option String

-- Assignments to the attributes of the object with this node's key.
unfoldable pub put_node : Node → Table Node → Table Node
put_node n [] = []
put_node n (r ∷ rs) = (if str_eq r.live.id n.id then record r { live = n } else r) ∷ put_node n rs

-- `db.add(node)`, for the object that `db.get` found or for a new one.
unfoldable pub keep_node : Option Node → Node → Session → Session
unfolding put_node
keep_node none n db = record db { nodes = add n db.nodes }
keep_node (some _) n db = record db { nodes = put_node n db.nodes }

-- The node after a report, by the host name that it gets.
unfoldable pub heard : ℕ → NodeHeartbeat → String → NodeStatus → Node
heard now d hostname status = record {
  id = d.node_id;
  hostname = hostname;
  ip_address = d.ip_address;
  status = status;
  agent_version = d.agent_version;
  cpu_percent = d.cpu_percent;
  disk_free_bytes = d.disk_free_bytes;
  last_seen_at = now;
  is_replica = d.is_replica;
}

abbrev pub offline_key : String → String
offline_key node_id = "node.offline:" <> node_id

-- `heartbeat`
unfoldable pub heartbeat : ℕ → NodeHeartbeat → Session → Node × Session
unfolding keep_node heard resolve_alert
heartbeat now d db =
    let n = heard now d d.hostname online in
    (n, commit (resolve_alert now (offline_key d.node_id) (keep_node (node_of d.node_id db) n db)))

-- `a or b`, for texts.
abbrev pub text_or : String → String → String
text_or a b = if str_eq a "" then b else a

-- `data.hostname or node.hostname`: a new node starts with `data.hostname or data.node_id`.
abbrev pub event_hostname : Option Node → NodeHeartbeat → String
event_hostname none d = text_or d.hostname d.node_id
event_hostname (some n) d = text_or d.hostname n.hostname

abbrev pub reason_text : Option String → String
reason_text none = ""
reason_text (some reason) = reason

abbrev pub offline_report : String → String → AlertReport
offline_report node_id message = record {
  fingerprint = offline_key node_id;
  severity = "high";
  kind = "node_offline";
  resource_type = "node";
  resource_id = node_id;
  message = message;
}

-- The alert of a status event.
unfoldable pub event_alert : ℕ → Settings → NodeStatusEvent → Session → Session
unfolding upsert_alert resolve_alert
event_alert now s event db =
    if node_is event.status online
    then resolve_alert now (offline_key event.beat.node_id) db
    else (upsert_alert now s
        (offline_report event.beat.node_id (
          "节点 "
          <> event.beat.node_id
          <> " 已离线："
          <> text_or (reason_text event.reason) "status event"))
        db).1

abbrev pub node_status_text : NodeStatus → String
node_status_text online = "online"
node_status_text offline = "offline"

-- `apply_node_status_event`
unfoldable pub apply_node_status_event : ℕ → Settings → NodeStatusEvent → Session → Node × Session
unfolding keep_node heard event_alert
apply_node_status_event now s event db =
    let found = node_of event.beat.node_id db in
    let n = heard now event.beat (event_hostname found event.beat) event.status in
    let db' = flush_all (event_alert now s event (keep_node found n db)) in
    (
      n,
      commit (
          audit "mqtt-bridge" ("node." <> node_status_text event.status) "node" event.beat.node_id
            (if str_eq (reason_text event.reason) ""
              then []
              else ("reason", str (reason_text event.reason)) ∷ [])
            db'),
    )

-- `(now - seen).total_seconds() > offline_after`
abbrev pub is_silent : ℕ → ℕ → Node → Bool
is_silent now offline_after n = ltb (n.last_seen_at + seconds offline_after) now

unfoldable pub turned_off : ℕ → ℕ → Node → Node
turned_off now offline_after n =
    if is_silent now offline_after n then record n { status = offline } else n

-- The alerts of the loop over the nodes.
unfoldable pub refresh_alerts : ℕ → Settings → ℕ → List Node → Session → Session
unfolding upsert_alert resolve_alert
refresh_alerts now s offline_after [] db = db
refresh_alerts now s offline_after (n ∷ ns) db = refresh_alerts now s offline_after ns (
    if is_silent now offline_after n
    then (upsert_alert now s
        (offline_report n.id ("节点 " <> n.id <> " 超过 " <> show offline_after <> " 秒未上报")) db).1
    else if node_is n.status online
    then resolve_alert now (offline_key n.id) db
    else db)

abbrev pub every_node : Node → Bool
every_node n = true

-- `refresh_node_statuses`
unfoldable pub refresh_node_statuses : ℕ → Settings → ℕ → Session → Session
unfolding turned_off refresh_alerts
refresh_node_statuses now s offline_after db = commit (
    refresh_alerts now s offline_after (select every_node db.nodes)
      (record db { nodes = for_each every_node (turned_off now offline_after) db.nodes }))
