-- ===== src/Tests/Fleet.antt =====
-- The theorems on nodes at a small table.
use knowledge_flywheel.Base.{false, true, none, some, [], ◌∷◌, ◌≡◌, refl}
use knowledge_flywheel.Store.Table.{loaded}
use knowledge_flywheel.Store.Laws.{update_where}
use knowledge_flywheel.Models.Status.{online, offline}
use knowledge_flywheel.Models.Rows.{Node}
use knowledge_flywheel.Models.Session.{Session}
use knowledge_flywheel.Alerts.Board.{alert_of}
use knowledge_flywheel.Alerts.Upsert.{IsOver}
use knowledge_flywheel.Commands.Queue.{node_of}
use knowledge_flywheel.Nodes.Status.{
  NodeHeartbeat, heartbeat, offline_key, is_silent, refresh_node_statuses,
}
use knowledge_flywheel.Nodes.Liveness.{nodes_of, heartbeat_online, refresh_node_statuses-rows}
use knowledge_flywheel.Tests.Samples.{settings, missing_file_alert, empty_session}

abbrev quiet_node : Node
quiet_node = record {
  id = "pc-1";
  hostname = "desk";
  ip_address = none;
  status = online;
  agent_version = "1.0";
  cpu_percent = "3.5";
  disk_free_bytes = 0;
  last_seen_at = 90;
  is_replica = false;
}

abbrev one_node : Session
one_node = record empty_session {
  nodes = loaded quiet_node ∷ [];
  alerts = loaded (record missing_file_alert { fingerprint = "node.offline:pc-1" }) ∷ [];
}

abbrev beat : NodeHeartbeat
beat = record {
  node_id = "pc-1";
  hostname = "desk-2";
  ip_address = some "10.0.0.8";
  agent_version = "1.1";
  cpu_percent = "4.0";
  disk_free_bytes = 1000;
  is_replica = true;
}

heartbeat_online_example :
    let (n, db') = heartbeat 200 beat one_node in
    (node_of "pc-1" db' ≡ some n)
    × (n.status ≡ online)
    × (n.last_seen_at ≡ 200)
    × (n.hostname ≡ "desk-2")
    × IsOver (alert_of (offline_key "pc-1") db')
heartbeat_online_example = heartbeat_online 200 beat one_node (refl, tt) (refl, tt)

refresh_node_statuses-rows_example :
    nodes_of (refresh_node_statuses 200000000 settings 90 one_node)
    ≡ update_where (is_silent 200000000 90) (λ n. record n { status = offline }) (nodes_of one_node)
refresh_node_statuses-rows_example =
    refresh_node_statuses-rows 200000000 settings 90 one_node (refl, tt)
