-- ===== src/Commands/Ack.antt =====
-- acknowledge_remote_command, and the handler node_command_ack.
use knowledge_flywheel.Base.{
  ℕ, String, Bool, true, false, ◌&&◌, ◌||◌, not, Option, none, some, [], ◌∷◌, ◌==◌, str_eq,
  if◌then◌else◌, show, Result, ok, err, ◌<>◌,
}
use knowledge_flywheel.Store.Table.{Table, first, get, add, put, next_id}
use knowledge_flywheel.Models.Json.{Json, null, bool, num, str, compound, get_field, as_num}
use knowledge_flywheel.Models.Status.{CommandStatus, ReplicaStatus, TaskStatus, command_is, queued}
use knowledge_flywheel.Models.Rows.{
  FileRecord, FileReplica, Task, RemoteCommand, file_entity, replica_entity, task_entity,
  command_entity,
}
use knowledge_flywheel.Models.Session.{Session, commit, audit}
use knowledge_flywheel.Tasks.Queue.{save_task}
use knowledge_flywheel.Commands.Queue.{CommandAck, save_command}

-- `left == right` of two JSON values: Python's `True` is 1 and `False` is 0. Two compound values
-- are compared by their texts.
unfoldable pub json_eq : Json → Json → Bool
json_eq null null = true
json_eq (str s) (str t) = str_eq s t
json_eq (compound s) (compound t) = str_eq s t
json_eq (num m) v = elim (as_num v) [ none ↦ false | some n ↦ m == n ]
json_eq (bool b) v = elim (as_num v) [ none ↦ false | some n ↦ (if b then 1 else 0) == n ]
json_eq _ _ = false

-- `value is True`
abbrev pub is_true : Json → Bool
is_true (bool true) = true
is_true _ = false

unfoldable pub command_text : CommandStatus → String
command_text CommandStatus.queued = "queued"
command_text CommandStatus.running = "running"
command_text CommandStatus.success = "success"
command_text CommandStatus.failed = "failed"

-- `command.status not in {"queued", "running"}`, negated.
abbrev pub is_open : RemoteCommand → Bool
is_open c = command_is c.status queued || command_is c.status CommandStatus.running

-- The first assignments.
unfoldable pub acknowledged_with : ℕ → CommandAck → RemoteCommand → RemoteCommand
acknowledged_with now ack c = record c {
  status = ack.status;
  result_json = some ack.result;
  error = ack.error;
  claimed_at = if command_is ack.status CommandStatus.running then some now else none;
}

unfoldable pub failed_command : String → RemoteCommand → RemoteCommand
failed_command text c = record c { status = CommandStatus.failed; error = some text }

unfoldable pub failed_repair : String → Task → Task
failed_repair text t = record t { status = TaskStatus.failed; error = some text }

-- `db.scalars(select(FileReplica).where(file_id, node_id)).first()`
abbrev pub replica_of : ℕ → String → Session → Option FileReplica
replica_of file_id node_id db =
    first (λ (r : FileReplica). r.file_id == file_id && str_eq r.node_id node_id) db.file_replicas

unfoldable pub new_replica : ℕ → FileRecord → String → Table FileReplica → FileReplica
new_replica now file node_id replicas = record {
  id = next_id replicas;
  file_id = file.id;
  node_id = node_id;
  status = ReplicaStatus.healthy;
  file_hash = file.file_hash;
  last_seen_at = now;
}

unfoldable pub healed : ℕ → FileRecord → FileReplica → FileReplica
healed now file r = record r {
  file_hash = file.file_hash;
  status = ReplicaStatus.healthy;
  last_seen_at = now;
}

-- The replica's row of a verified repair, new or healthy again.
unfoldable pub heal_replica : ℕ → FileRecord → String → Session → Session
unfolding new_replica healed
heal_replica now file node_id db = elim (replica_of file.id node_id db) [
  | none ↦ record db {
    file_replicas = add (new_replica now file node_id db.file_replicas) db.file_replicas;
  }
  | some r ↦ record db { file_replicas = put (healed now file r) db.file_replicas }
]

-- The command, its repair task and the session, as an acknowledgement leaves them.
pub record Settled : Type 0 where
  pub command : RemoteCommand
  pub repair : Task
  pub after : Session

unfoldable pub rejected_repair : String → RemoteCommand → Task → Session → Settled
unfolding failed_command failed_repair
rejected_repair text c t db = record {
  command = failed_command text c;
  repair = failed_repair text t;
  after = db;
}

-- A verified acknowledgement, by the file that the payload names.
unfoldable pub settle_verified : ℕ → RemoteCommand → Task → Option FileRecord → Session → Settled
unfolding rejected_repair heal_replica
settle_verified now c t none db = rejected_repair "replica repair file lineage changed" c t db
settle_verified now c t (some file) db =
    if json_eq (str file.file_hash) (get_field "file_hash" c.payload_json)
    then record {
      command = c;
      repair = record t { status = TaskStatus.success; error = none };
      after = heal_replica now file c.node_id db;
    }
    else rejected_repair "replica repair file lineage changed" c t db

abbrev pub is_verified : CommandAck → RemoteCommand → Bool
is_verified ack c =
    is_true (get_field "verified" ack.result)
    && json_eq (get_field "file_hash" ack.result) (get_field "file_hash" c.payload_json)

-- `data.error or "replica sync command failed"`
abbrev pub failure_text : Option String → String
failure_text none = "replica sync command failed"
failure_text (some text) = if str_eq text "" then "replica sync command failed" else text

-- The branches on the status of a `sync_replica` acknowledgement.
unfoldable pub settle_by :
    CommandStatus → ℕ → CommandAck → RemoteCommand → Task → Option FileRecord → Session → Settled
unfolding rejected_repair settle_verified failed_repair
settle_by CommandStatus.success now ack c t file db =
    if is_verified ack c
    then settle_verified now c t file db
    else rejected_repair "sync ACK must include verified=true and matching file_hash" c t db
settle_by CommandStatus.failed now ack c t file db = record {
  command = c;
  repair = failed_repair (failure_text ack.error) t;
  after = db;
}
settle_by _ now ack c t file db = record { command = c; repair = t; after = db }

-- `db.get(A, payload.get(key))`
abbrev pub task_named : Json → Session → Option Task
task_named v db = elim (as_num v) [ none ↦ none | some n ↦ get n db.tasks ]

abbrev pub file_named : Json → Session → Option FileRecord
file_named v db = elim (as_num v) [ none ↦ none | some n ↦ get n db.files ]

unfoldable pub audit_ack : RemoteCommand → Session → Session
unfolding command_text
audit_ack c db =
    audit c.node_id ("remote_command." <> command_text c.status) "remote_command" (show c.id)
      (elim c.error [
        | none ↦ []
        | some text ↦ if str_eq text "" then [] else ("error", str text) ∷ []
      ])
      db

-- `repair_task.claimed_at = None`, `repair_task.claimed_by = None`
unfoldable pub released : Task → Task
released t = record t { claimed_at = none; claimed_by = none }

-- The end of the function, with the objects that a repair has changed.
unfoldable pub finish_settled : Settled → Result RemoteCommand × Session
unfolding released save_task save_command audit_ack
finish_settled s = (
  ok s.command,
  commit (audit_ack s.command (save_command s.command (save_task (released s.repair) s.after))),
)

-- A `sync_replica` command, by its repair task: it raises where the task is not there, with the
-- command's object already changed.
unfoldable pub settle_sync :
    ℕ → CommandAck → RemoteCommand → Option Task → Session → Result RemoteCommand × Session
unfolding settle_by finish_settled save_command
settle_sync now ack c none db = (err "replica repair task not found", save_command c db)
settle_sync now ack c (some t) db =
    finish_settled
      (settle_by ack.status now ack c t (file_named (get_field "file_id" c.payload_json) db) db)

-- `acknowledge_remote_command`
unfoldable pub acknowledge_remote_command :
    ℕ → RemoteCommand → CommandAck → Session → Result RemoteCommand × Session
unfolding acknowledged_with settle_sync save_command audit_ack
acknowledge_remote_command now command ack db =
    let c = acknowledged_with now ack command in
    if not (is_open command)
    then (err "command already completed", db)
    else if str_eq c.command_type "sync_replica"
    then settle_sync now ack c (task_named (get_field "repair_task_id" c.payload_json) db) db
    else (ok c, commit (audit_ack c (save_command c db)))

-- `node_command_ack`, without its HTTP status codes.
unfoldable pub node_command_ack :
    ℕ → String → ℕ → CommandAck → Session → Result RemoteCommand × Session
unfolding acknowledge_remote_command
node_command_ack now node_id command_id ack db = elim (get command_id db.remote_commands) [
  | none ↦ (err "remote command not found", db)
  | some c ↦
      if str_eq c.node_id node_id
      then acknowledge_remote_command now c ack db
      else (err "remote command not found", db)
]
