-- ===== src/Tests/Remote.antt =====
-- The theorems on remote commands at small tables.
use knowledge_flywheel.Base.{
  ℕ, true, false, Option, none, some, List, [], ◌∷◌, ◌≡◌, ◌⊎◌, refl, All, ok, if◌then◌else◌,
}
use knowledge_flywheel.Store.Table.{select, loaded, live_rows}
use knowledge_flywheel.Store.Laws.{replace_row}
use knowledge_flywheel.Models.Json.{Payload, str, num, bool, get_field}
use knowledge_flywheel.Models.Status.{CommandStatus, TaskStatus, NodeStatus, FileStatus}
use knowledge_flywheel.Models.Rows.{RemoteCommand, Task, FileRecord, Node, command_entity}
use knowledge_flywheel.Models.Session.{Session}
use knowledge_flywheel.Commands.Queue.{
  new_command, CommandCreate, CommandAck, is_expired, claim_next_remote_command,
  create_remote_command,
}
use knowledge_flywheel.Commands.Ack.{json_eq, file_named, task_named, acknowledge_remote_command}
use knowledge_flywheel.Commands.Claims.{
  commands_of, is_available, swept_rows, IsChosen, claim_next_remote_command_outcome,
}
use knowledge_flywheel.Commands.Repair.{is_proved, IsSyncEnd, sync_ack_outcome}
use knowledge_flywheel.Commands.Final.{
  Event, polled, reported, run, IsRowOf, completed_command_final,
}
use knowledge_flywheel.Commands.Creation.{create_remote_command_idempotent}
use knowledge_flywheel.Tests.Samples.{empty_session, task_of}

abbrev repair_payload : Payload
repair_payload = ("repair_task_id", num 1) ∷ ("file_id", num 9) ∷ ("file_hash", str "abcdef12") ∷ []

abbrev command_of : ℕ → CommandStatus → Option ℕ → RemoteCommand
command_of n status claimed_at = record {
  id = n;
  idempotency_key = "sync:9";
  node_id = "nas-1";
  command_type = "sync_replica";
  status = status;
  payload_json = repair_payload;
  requested_by = "replica-policy";
  result_json = none;
  error = none;
  claimed_at = claimed_at;
  created_at = n;
}

-- The command was sent to its node and never acknowledged.
abbrev lost_command : RemoteCommand
lost_command = command_of 5 CommandStatus.running (some 100)

abbrev repair_task : Task
repair_task = task_of 1 "replica:9" TaskStatus.waiting none 10

abbrev repaired_file : FileRecord
repaired_file = record {
  id = 9;
  path = "/docs/plan.txt";
  file_hash = "abcdef12";
  size_bytes = 10;
  status = FileStatus.parsed;
  alive = true;
  last_seen_at = 50;
  version = 1;
  category = "通用";
  source_node_id = "pc-1";
}

abbrev nas_node : Node
nas_node = record {
  id = "nas-1";
  hostname = "nas";
  ip_address = none;
  status = NodeStatus.online;
  agent_version = "1.0";
  cpu_percent = "0";
  disk_free_bytes = 0;
  last_seen_at = 90;
  is_replica = true;
}

abbrev one_repair : Session
one_repair = record empty_session {
  nodes = loaded nas_node ∷ [];
  files = loaded repaired_file ∷ [];
  tasks = loaded repair_task ∷ [];
  remote_commands = loaded lost_command ∷ [];
}

claim_next_remote_command_outcome_example :
    (All (λ u. is_available 400000000 300 "nas-1" u ≡ false) (commands_of one_repair)
      × (claim_next_remote_command 400000000 "nas-1" 300 one_repair ≡ (none, one_repair)))
    ⊎ ((c : RemoteCommand) × IsChosen 400000000 300 "nas-1" (commands_of one_repair) c
        × (t : RemoteCommand) × (t ≡ record c {
          status = CommandStatus.running;
          claimed_at = some 400000000;
          error =
              if is_expired 400000000 300 "nas-1" c
              then some "claim lease expired; command requeued"
              else c.error;
        })
        × ((claim_next_remote_command 400000000 "nas-1" 300 one_repair).0 ≡ some t)
        × (commands_of (claim_next_remote_command 400000000 "nas-1" 300 one_repair).1
            ≡ replace_row t (swept_rows 400000000 300 "nas-1" (commands_of one_repair))))
claim_next_remote_command_outcome_example =
    claim_next_remote_command_outcome 400000000 300 "nas-1" one_repair (refl, tt)

abbrev success_report : CommandAck
success_report = record {
  status = CommandStatus.success;
  result = ("verified", bool true) ∷ ("file_hash", str "abcdef12") ∷ [];
  error = none;
}

repair_found :
    task_named (get_field "repair_task_id" lost_command.payload_json) one_repair ≡ some repair_task
unfolding get_field select
repair_found = refl

sync_ack_outcome_example :
    let file = file_named (get_field "file_id" lost_command.payload_json) one_repair in
    let (result, db') = acknowledge_remote_command 200 lost_command success_report one_repair in
    IsSyncEnd 200 success_report file lost_command repair_task one_repair result db'
sync_ack_outcome_example =
    sync_ack_outcome 200 success_report lost_command repair_task one_repair tt refl refl refl
      repair_found

-- The report of the example proves the repair.
report_proved :
    is_proved success_report lost_command
      (file_named (get_field "file_id" lost_command.payload_json) one_repair)
    ≡ true
unfolding get_field select json_eq
report_proved = refl

abbrev done_command : RemoteCommand
done_command = command_of 5 CommandStatus.success none

abbrev one_done : Session
one_done = record one_repair { remote_commands = loaded done_command ∷ [] }

abbrev later_requests : List Event
later_requests = reported 300 "nas-1" 5 success_report ∷ polled 400000000 300 "nas-1" ∷ []

one_done-IsRowOf : All (IsRowOf done_command) (commands_of one_done)
unfolding live_rows
one_done-IsRowOf = (λ same. refl, tt)

completed_command_final_example :
    All (IsRowOf done_command) (commands_of (run later_requests one_done))
completed_command_final_example =
    completed_command_final done_command later_requests one_done refl (refl, tt) one_done-IsRowOf

abbrev restart_request : CommandCreate
restart_request = record {
  node_id = "nas-1";
  command_type = "restart_agent";
  idempotency_key = "restart:1";
  payload = [];
  requested_by = "admin";
}

restart_made :
    (create_remote_command 20 restart_request one_repair).0
    ≡ ok (new_command 20 restart_request one_repair)
unfolding create_remote_command select new_command
restart_made = refl

create_remote_command_idempotent_example :
    create_remote_command 30 restart_request (create_remote_command 20 restart_request one_repair).1
    ≡ create_remote_command 20 restart_request one_repair
create_remote_command_idempotent_example =
    create_remote_command_idempotent 20 30 restart_request restart_request one_repair
      (new_command 20 restart_request one_repair) (refl, tt) refl restart_made
