-- ===== src/Commands/Repair.antt =====
-- The acknowledgement of a replica repair.
use knowledge_flywheel.Base.{
  ℕ, String, Bool, true, false, ◌&&◌, Option, none, some, ◌≡◌, ◌⊎◌, refl, ap, ◌∙◌, Option-cases,
  Bool-cases, &&-true, inl, inr, Result, ok, str_eq, ◌==◌, ==_refl, eq_refl,
}
use knowledge_flywheel.Store.Table.{Table, IsClean, first, flush, live_rows}
use knowledge_flywheel.Store.Laws.{
  live_rows-flush, live_rows-put, replace_row, first-flush-add, first-flush-put, first_test,
}
use knowledge_flywheel.Models.Json.{str, get_field}
use knowledge_flywheel.Models.Status.{CommandStatus, ReplicaStatus, TaskStatus}
use knowledge_flywheel.Models.Rows.{
  FileRecord, FileReplica, Task, RemoteCommand, task_entity, replica_entity,
}
use knowledge_flywheel.Models.Session.{Session, commit, audit}
use knowledge_flywheel.Tasks.Queue.{save_task}
use knowledge_flywheel.Tasks.Claims.{tasks_of}
use knowledge_flywheel.Commands.Queue.{CommandAck, save_command}
use knowledge_flywheel.Commands.Ack.{
  json_eq, is_verified, is_open, acknowledged_with, failed_command, failed_repair, replica_of,
  new_replica, healed, heal_replica, Settled, rejected_repair, settle_verified, settle_by,
  settle_sync, task_named, file_named, audit_ack, released, finish_settled,
  acknowledge_remote_command,
}

-- The node's row for the file is healthy and has its hash.
pub record IsHealed (now : ℕ) (file : FileRecord) (node : String) (db : Session) : Type 0 where
  pub row : FileReplica
  pub found : replica_of file.id node db ≡ some row
  pub healthy : row.status ≡ ReplicaStatus.healthy
  pub same_hash : row.file_hash ≡ file.file_hash
  pub seen : row.last_seen_at ≡ now

abbrev of_file_node : ℕ → String → FileReplica → Bool
of_file_node n node r = r.file_id == n && str_eq r.node_id node

new_replica_test :
    (now : ℕ) (f : FileRecord) (node : String) (rs : Table FileReplica)
    → of_file_node f.id node (new_replica now f node rs) ≡ true
unfolding new_replica
new_replica_test now f node rs = rw (==_refl f.id) (eq_refl node)

healed_test :
    (now : ℕ) (f : FileRecord) (n : ℕ) (node : String) (r : FileReplica)
    → of_file_node n node r ≡ true
    → of_file_node n node (healed now f r) ≡ true
unfolding healed
healed_test now f n node r h = h

healed_id : (now : ℕ) (f : FileRecord) (r : FileReplica) → (healed now f r).id ≡ r.id
unfolding healed
healed_id now f r = refl

-- A healed row is what the node and the file find, once the session is flushed.
heal_replica_found :
    (now : ℕ) (f : FileRecord) (node : String) (db : Session)
    → IsClean db.file_replicas
    → (r : FileReplica) × (first
          (of_file_node f.id node)
          (flush (heal_replica now f node db).file_replicas)
        ≡ some r)
      × (r.status ≡ ReplicaStatus.healthy)
      × (r.file_hash ≡ f.file_hash)
      × (r.last_seen_at ≡ now)
unfolding heal_replica new_replica healed
heal_replica_found now f node db c = elim (Option-cases (replica_of f.id node db)) [
  | inl fresh ↦
      rw (fresh, heal_replica)
        (
          new_replica now f node db.file_replicas,
          first-flush-add (of_file_node f.id node) db.file_replicas
              (new_replica now f node db.file_replicas) c
              (new_replica_test now f node db.file_replicas) fresh,
          refl,
          refl,
          refl,
        )
  | inr (r, found) ↦
      rw (found, heal_replica)
        (
          healed now f r,
          first-flush-put (of_file_node f.id node) db.file_replicas r (healed now f r) c
              (healed_id now f r)
              (healed_test now f f.id node r
                (first_test (of_file_node f.id node) db.file_replicas r c found))
              found,
          refl,
          refl,
          refl,
        )
]

heal_replica-tasks :
    (now : ℕ) (f : FileRecord) (node : String) (db : Session)
    → (heal_replica now f node db).tasks ≡ db.tasks
unfolding heal_replica
heal_replica-tasks now f node db = elim (Option-cases (replica_of f.id node db)) [
  | inl fresh ↦ rw (fresh, heal_replica) refl
  | inr (r, found) ↦ rw (found, heal_replica) refl
]

-- The row of the repair task, when the repair has ended.
abbrev pub ended : TaskStatus → Option String → Task → Task
ended status error t = record t {
  status = status;
  error = error;
  claimed_at = none;
  claimed_by = none;
}

-- The acknowledgement proves the repair: it is verified with the hash of the command, and the file
-- that the command names still has this hash.
abbrev pub is_proved : CommandAck → RemoteCommand → Option FileRecord → Bool
is_proved ack c none = false
is_proved ack c (some f) =
    is_verified ack c && json_eq (str f.file_hash) (get_field "file_hash" c.payload_json)

finish-tables :
    (s : Settled)
    → ((finish_settled s).0 ≡ ok s.command)
      × ((finish_settled s).1.file_replicas ≡ flush s.after.file_replicas)
      × (tasks_of (finish_settled s).1 ≡ replace_row (released s.repair) (live_rows s.after.tasks))
unfolding finish_settled commit audit_ack audit save_command save_task
finish-tables s = (refl, refl, live_rows-flush _ ∙ live_rows-put (released s.repair) s.after.tasks)

settle_proved :
    (now : ℕ) (ack : CommandAck) (c : RemoteCommand) (t : Task) (f : FileRecord) (db : Session)
    → is_proved ack c (some f) ≡ true
    → settle_by CommandStatus.success now ack c t (some f) db ≡ record {
      command = c;
      repair = record t { status = TaskStatus.success; error = none };
      after = heal_replica now f c.node_id db;
    }
unfolding settle_by settle_verified
settle_proved now ack c t f db h =
    let (verified, same) = &&-true (is_verified ack c) _ h in rw (verified, settle_by, same) refl

settle_unproved :
    (now : ℕ) (ack : CommandAck) (c : RemoteCommand) (t : Task) (o : Option FileRecord)
    (db : Session)
    → is_proved ack c o ≡ false
    → (text : String) × (settle_by CommandStatus.success now ack c t o db
        ≡ rejected_repair text c t db)
unfolding settle_by settle_verified
settle_unproved now ack c t o db h = elim (Bool-cases (is_verified ack c)) [
  | inr unverified ↦ (
    "sync ACK must include verified=true and matching file_hash",
    rw (unverified, settle_by) refl,
  )
  | inl verified ↦ (
    "replica repair file lineage changed",
    elim o
          as (λ o.
            is_proved ack c o ≡ false
            → settle_by CommandStatus.success now ack c t o db
              ≡ rejected_repair "replica repair file lineage changed" c t db) [
                | none ↦ λ _. rw (verified, settle_by) refl
                | some f ↦ λ k.
                    let changed : json_eq (str f.file_hash) (get_field "file_hash" c.payload_json)
                        ≡ false =
                      rw verified at k in
                    rw (verified, settle_by, changed) refl
              ]
        h,
  )
]

ack_settles :
    (now : ℕ) (ack : CommandAck) (c : RemoteCommand) (t : Task) (db : Session)
    → is_open c ≡ true
    → str_eq c.command_type "sync_replica" ≡ true
    → task_named (get_field "repair_task_id" c.payload_json) db ≡ some t
    → acknowledge_remote_command now c ack db
      ≡ finish_settled (
          settle_by ack.status now ack
            (acknowledged_with now ack c)
            t
            (file_named (get_field "file_id" c.payload_json) db)
            db)
unfolding acknowledge_remote_command acknowledged_with settle_sync
ack_settles now ack c t db h sync found = rw (h, sync, found) refl

-- What a proved and an unproved report of success leave, by the object of the command.
abbrev pub IsProvedEnd :
    ℕ → Option FileRecord → RemoteCommand → Task → Session → RemoteCommand → Session → Type 0
IsProvedEnd now file c t db c' db' =
    (f : FileRecord) × (file ≡ some f)
    × (c'.status ≡ CommandStatus.success)
    × IsHealed now f c.node_id db'
    × (tasks_of db' ≡ replace_row (ended TaskStatus.success none t) (tasks_of db))

abbrev pub IsUnprovedEnd : Task → Session → RemoteCommand → Session → Type 0
IsUnprovedEnd t db c' db' =
    (c'.status ≡ CommandStatus.failed)
    × (db'.file_replicas ≡ flush db.file_replicas)
    × (tasks_of db' ≡ replace_row (ended TaskStatus.failed c'.error t) (tasks_of db))

finish_proved :
    (now : ℕ) (c c' : RemoteCommand) (t : Task) (f : FileRecord) (db : Session) (s : Settled)
    → IsClean db.file_replicas
    → c'.status ≡ CommandStatus.success
    → s ≡ record {
      command = c';
      repair = record t { status = TaskStatus.success; error = none };
      after = heal_replica now f c.node_id db;
    }
    → ((finish_settled s).0 ≡ ok c') × IsProvedEnd now (some f) c t db c' (finish_settled s).1
unfolding released
finish_proved now c c' t f db s clean success e =
    let (result, replicas, rows) = finish-tables s in
    let (row, found, healthy, same, seen) = heal_replica_found now f c.node_id db clean in
    (
      result ∙ ap (λ x. ok x.command) e,
      (
        f,
        refl,
        success,
        record {
          row = row;
          found =
              ap (first (of_file_node f.id c.node_id))
                (replicas ∙ ap (λ x. flush x.after.file_replicas) e)
              ∙ found;
          healthy = healthy;
          same_hash = same;
          seen = seen;
        },
        rows
            ∙ ap (λ x. replace_row (released x.repair) (live_rows x.after.tasks)) e
            ∙ ap (λ ts. replace_row (ended TaskStatus.success none t) (live_rows ts))
                (heal_replica-tasks now f c.node_id db),
      ),
    )

finish_unproved :
    (text : String) (c : RemoteCommand) (t : Task) (db : Session) (s : Settled)
    → s ≡ rejected_repair text c t db
    → ((finish_settled s).0 ≡ ok (failed_command text c))
      × IsUnprovedEnd t db (failed_command text c) (finish_settled s).1
unfolding released rejected_repair failed_command failed_repair
finish_unproved text c t db s e =
    let (result, replicas, rows) = finish-tables s in
    (
      result ∙ ap (λ x. ok x.command) e,
      (
        refl,
        replicas ∙ ap (λ x. flush x.after.file_replicas) e,
        rows ∙ ap (λ x. replace_row (released x.repair) (live_rows x.after.tasks)) e,
      ),
    )

-- The two ends, by whether the report proves the repair.
abbrev pub IsSyncEnd :
    ℕ
    → CommandAck
    → Option FileRecord
    → RemoteCommand
    → Task
    → Session
    → Result RemoteCommand
    → Session
    → Type 0
IsSyncEnd now ack file c t db result db' =
    (c' : RemoteCommand) × (result ≡ ok c')
    × ((is_proved ack c file ≡ true) × IsProvedEnd now file c t db c' db'
        ⊎ (is_proved ack c file ≡ false) × IsUnprovedEnd t db c' db')

settle_end :
    (now : ℕ) (ack : CommandAck) (file : Option FileRecord) (c : RemoteCommand) (t : Task)
    (db : Session)
    → IsClean db.file_replicas
    → ack.status ≡ CommandStatus.success
    → let s = settle_by CommandStatus.success now ack (acknowledged_with now ack c) t file db in
      IsSyncEnd now ack file c t db (finish_settled s).0 (finish_settled s).1
unfolding acknowledged_with
settle_end now ack none c t db clean success =
    let (text, e) = settle_unproved now ack (acknowledged_with now ack c) t none db refl in
    let (result, end) = finish_unproved text (acknowledged_with now ack c) t db _ e in
    (failed_command text (acknowledged_with now ack c), result, inr (refl, end))
settle_end now ack (some f) c t db clean success = elim (Bool-cases (is_proved ack c (some f))) [
  | inl proved ↦
      let (result, end) =
        finish_proved now c (acknowledged_with now ack c) t f db _ clean success
          (settle_proved now ack (acknowledged_with now ack c) t f db proved) in
      (acknowledged_with now ack c, result, inl (proved, end))
  | inr unproved ↦
      let (text, e) =
        settle_unproved now ack (acknowledged_with now ack c) t (some f) db unproved in
      let (result, end) = finish_unproved text (acknowledged_with now ack c) t db _ e in
      (failed_command text (acknowledged_with now ack c), result, inr (unproved, end))
]

-- A node that reports success of a replica repair, where the replica rows are committed, the
-- command is open and its repair task is there. If the report is verified with the hash of the
-- command and the file still has that hash, the command and the task succeed and the node's row
-- for the file is healthy with the file's hash. Otherwise the command and the task fail with one
-- and the same error and the replicas stay as they were. In both cases the task loses its claim.
pub sync_ack_outcome :
    (now : ℕ) (ack : CommandAck) (c : RemoteCommand) (t : Task) (db : Session)
    → IsClean db.file_replicas
    → ack.status ≡ CommandStatus.success
    → is_open c ≡ true
    → str_eq c.command_type "sync_replica" ≡ true
    → task_named (get_field "repair_task_id" c.payload_json) db ≡ some t
    → let file = file_named (get_field "file_id" c.payload_json) db in
      let (result, db') = acknowledge_remote_command now c ack db in
      (c' : RemoteCommand) × (result ≡ ok c')
      × ((is_proved ack c file ≡ true) × IsProvedEnd now file c t db c' db'
          ⊎ (is_proved ack c file ≡ false) × IsUnprovedEnd t db c' db')
sync_ack_outcome now ack c t db clean success open_command sync found =
    let file = file_named (get_field "file_id" c.payload_json) db in
    let e =
      ack_settles now ack c t db open_command sync found
      ∙ ap (λ x. finish_settled (settle_by x now ack (acknowledged_with now ack c) t file db))
          success in
    rw e (settle_end now ack file c t db clean success)
