-- ===== src/Nodes.antt =====
-- The nodes of knowledge-hub/app/services.py: heartbeat, apply_node_status_event and
-- refresh_node_statuses. A node that reports is online and its offline alert is resolved; one that is
-- silent for too long goes offline and raises that alert.
pub mod Status
pub mod Liveness
