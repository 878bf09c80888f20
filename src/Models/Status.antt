-- ===== src/Models/Status.antt =====
-- The values of the status columns. `◌_is` is the comparison of two of them.
use knowledge_flywheel.Base.{ℕ, String, Bool, ◌==◌}

pub data TaskStatus : Type 0 where
  pending running waiting success failed cancelled : TaskStatus

pub data FileStatus : Type 0 where
  reported registered parsing parsed parse_failed missing superseded deleted : FileStatus

pub data ReplicaStatus : Type 0 where
  healthy missing : ReplicaStatus

pub data AlertStatus : Type 0 where
  open_alert acknowledged resolved : AlertStatus

pub data DeliveryStatus : Type 0 where
  pending failed sent dead_letter suppressed : DeliveryStatus

pub data CommandStatus : Type 0 where
  queued running success failed : CommandStatus

pub data NodeStatus : Type 0 where
  online offline : NodeStatus

pub data ProposalStatus : Type 0 where
  pending approved rejected : ProposalStatus

abbrev pub task_code : TaskStatus → ℕ
task_code TaskStatus.pending = 0
task_code TaskStatus.running = 1
task_code TaskStatus.waiting = 2
task_code TaskStatus.success = 3
task_code TaskStatus.failed = 4
task_code TaskStatus.cancelled = 5

abbrev pub task_is : TaskStatus → TaskStatus → Bool
task_is s t = task_code s == task_code t

unfoldable pub task_text : TaskStatus → String
task_text TaskStatus.pending = "pending"
task_text TaskStatus.running = "running"
task_text TaskStatus.waiting = "waiting"
task_text TaskStatus.success = "success"
task_text TaskStatus.failed = "failed"
task_text TaskStatus.cancelled = "cancelled"

abbrev pub file_code : FileStatus → ℕ
file_code FileStatus.reported = 0
file_code FileStatus.registered = 1
file_code FileStatus.parsing = 2
file_code FileStatus.parsed = 3
file_code FileStatus.parse_failed = 4
file_code FileStatus.missing = 5
file_code FileStatus.superseded = 6
file_code FileStatus.deleted = 7

abbrev pub file_is : FileStatus → FileStatus → Bool
file_is s t = file_code s == file_code t

abbrev pub replica_code : ReplicaStatus → ℕ
replica_code ReplicaStatus.healthy = 0
replica_code ReplicaStatus.missing = 1

abbrev pub replica_is : ReplicaStatus → ReplicaStatus → Bool
replica_is s t = replica_code s == replica_code t

abbrev pub alert_code : AlertStatus → ℕ
alert_code AlertStatus.open_alert = 0
alert_code AlertStatus.acknowledged = 1
alert_code AlertStatus.resolved = 2

abbrev pub alert_is : AlertStatus → AlertStatus → Bool
alert_is s t = alert_code s == alert_code t

abbrev pub delivery_code : DeliveryStatus → ℕ
delivery_code DeliveryStatus.pending = 0
delivery_code DeliveryStatus.failed = 1
delivery_code DeliveryStatus.sent = 2
delivery_code DeliveryStatus.dead_letter = 3
delivery_code DeliveryStatus.suppressed = 4

abbrev pub delivery_is : DeliveryStatus → DeliveryStatus → Bool
delivery_is s t = delivery_code s == delivery_code t

abbrev pub command_code : CommandStatus → ℕ
command_code CommandStatus.queued = 0
command_code CommandStatus.running = 1
command_code CommandStatus.success = 2
command_code CommandStatus.failed = 3

abbrev pub command_is : CommandStatus → CommandStatus → Bool
command_is s t = command_code s == command_code t

abbrev pub node_code : NodeStatus → ℕ
node_code NodeStatus.online = 0
node_code NodeStatus.offline = 1

abbrev pub node_is : NodeStatus → NodeStatus → Bool
node_is s t = node_code s == node_code t

abbrev pub proposal_code : ProposalStatus → ℕ
proposal_code ProposalStatus.pending = 0
proposal_code ProposalStatus.approved = 1
proposal_code ProposalStatus.rejected = 2

abbrev pub proposal_is : ProposalStatus → ProposalStatus → Bool
proposal_is s t = proposal_code s == proposal_code t
