-- ===== src/Commands/Queue.antt =====
-- The operations on command rows.
use knowledge_flywheel.Base.{
  ℕ, ◌+◌, String, Bool, false, ◌&&◌, ◌||◌, Option, none, some, List, [], ◌∷◌, ltb, leb, ◌==◌,
  str_eq, show, Result, ok, err,
}
use knowledge_flywheel.Store.Table.{select, first, for_each, add, put, next_id}
use knowledge_flywheel.Store.Order.{least}
use knowledge_flywheel.Models.Json.{str, Payload}
use knowledge_flywheel.Models.Status.{CommandStatus, command_is, queued}
use knowledge_flywheel.Models.Rows.{
  Node, RemoteCommand, file_entity, replica_entity, task_entity, command_entity,
}
use knowledge_flywheel.Models.Session.{Session, flush_all, commit, audit}
use knowledge_flywheel.Tasks.Queue.{seconds}

pub record CommandCreate : Type 0 where
  pub node_id : String
  pub command_type : String
  pub idempotency_key : String
  pub payload : Payload
  pub requested_by : String

pub record CommandAck : Type 0 where
  pub status : CommandStatus
  pub result : Payload
  pub error : Option String

abbrev pub command_by_key : String → Session → Option RemoteCommand
command_by_key key db =
    first (λ (c : RemoteCommand). str_eq c.idempotency_key key) db.remote_commands

-- `db.get(Node, node_id)`
abbrev pub node_of : String → Session → Option Node
node_of node_id db = first (λ (n : Node). str_eq n.id node_id) db.nodes

unfoldable pub save_command : RemoteCommand → Session → Session
save_command c db = record db { remote_commands = put c db.remote_commands }

unfoldable pub new_command : ℕ → CommandCreate → Session → RemoteCommand
new_command now request db = record {
  id = next_id db.remote_commands;
  idempotency_key = request.idempotency_key;
  node_id = request.node_id;
  command_type = request.command_type;
  status = queued;
  payload_json = request.payload;
  requested_by = request.requested_by;
  result_json = none;
  error = none;
  claimed_at = none;
  created_at = now;
}

unfoldable pub add_command : RemoteCommand → Session → Session
add_command c db = record db { remote_commands = add c db.remote_commands }

-- `create_remote_command`
unfoldable pub create_remote_command : ℕ → CommandCreate → Session → Result RemoteCommand × Session
unfolding new_command add_command
create_remote_command now request db = elim (command_by_key request.idempotency_key db) [
  | some existing ↦ (ok existing, db)
  | none ↦ elim (node_of request.node_id db) [
    | none ↦ (err "node not found", db)
    | some _ ↦ (
      ok (new_command now request db),
      commit (
          audit request.requested_by "remote_command.queued" "remote_command"
            (show (new_command now request db).id) []
            (flush_all (add_command (new_command now request db) db))),
    )
  ]
]

-- The query for the node's commands whose claim lease expired.
abbrev pub is_expired : ℕ → ℕ → String → RemoteCommand → Bool
is_expired now lease_seconds node_id c =
    str_eq c.node_id node_id
    && (command_is c.status CommandStatus.running && elim c.claimed_at [
      | none ↦ false
      | some claimed_at ↦ ltb (claimed_at + seconds lease_seconds) now
    ])

abbrev pub is_queued : String → RemoteCommand → Bool
is_queued node_id c = str_eq c.node_id node_id && command_is c.status queued

unfoldable pub requeued_command : RemoteCommand → RemoteCommand
requeued_command c = record c {
  status = queued;
  claimed_at = none;
  error = some "claim lease expired; command requeued";
}

abbrev pub audit_expired : List RemoteCommand → Session → Session
audit_expired [] db = db
audit_expired (c ∷ cs) db = audit_expired cs (
    audit "system" "remote_command.requeued" "remote_command" (show c.id)
      (("reason", str "lease_expired") ∷ []) db)

-- The loop over `stale`, and `if stale: db.flush()`.
unfoldable pub requeue_listed : ℕ → ℕ → String → List RemoteCommand → Session → Session
unfolding requeued_command
requeue_listed now lease_seconds node_id [] db = db
requeue_listed now lease_seconds node_id (c ∷ cs) db = flush_all (
    audit_expired (c ∷ cs) (record db {
      remote_commands =
          for_each (is_expired now lease_seconds node_id) requeued_command db.remote_commands;
    }))

unfoldable pub requeue_expired : ℕ → ℕ → String → Session → Session
unfolding requeue_listed
requeue_expired now lease_seconds node_id db =
    requeue_listed now lease_seconds node_id
      (select (is_expired now lease_seconds node_id) db.remote_commands) db

-- `order_by(RemoteCommand.created_at, RemoteCommand.id)`
abbrev pub queued_before : RemoteCommand → RemoteCommand → Bool
queued_before a b = ltb a.created_at b.created_at || (a.created_at == b.created_at && leb a.id b.id)

abbrev pub next_queued : String → Session → Option RemoteCommand
next_queued node_id db = least queued_before (select (is_queued node_id) db.remote_commands)

unfoldable pub sent_out : ℕ → RemoteCommand → RemoteCommand
sent_out now c = record c { status = CommandStatus.running; claimed_at = some now }

-- The rest of `claim_next_remote_command`, from `if not command:` on.
unfoldable pub claim_queued :
    ℕ → String → Option RemoteCommand → Session → Option RemoteCommand × Session
unfolding sent_out save_command
claim_queued now node_id none db = (none, db)
claim_queued now node_id (some c) db = (
  some (sent_out now c),
  commit (
      audit node_id "remote_command.claimed" "remote_command" (show c.id) []
        (save_command (sent_out now c) db)),
)

-- `claim_next_remote_command`
unfoldable pub claim_next_remote_command : ℕ → String → ℕ → Session → Option RemoteCommand × Session
unfolding requeue_expired claim_queued
claim_next_remote_command now node_id lease_seconds db =
    let db' = requeue_expired now lease_seconds node_id db in
    claim_queued now node_id (next_queued node_id db') db'
