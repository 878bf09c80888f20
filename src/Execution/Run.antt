-- ===== src/Execution/Run.antt =====
-- run_task_once, run_task_by_id and queue_file_content_parse.
use knowledge_flywheel.Base.{
  ℕ, String, not, Option, none, some, [], ◌∷◌, str_eq, if◌then◌else◌, show, Result, ok, err, ◌<>◌,
}
use knowledge_flywheel.Store.Table.{get}
use knowledge_flywheel.Models.Json.{num, str, Payload, get_field}
use knowledge_flywheel.Models.Status.{TaskStatus, file_is, task_is, parsed, parsing, parse_failed}
use knowledge_flywheel.Models.Rows.{FileRecord, Task, file_entity, task_entity}
use knowledge_flywheel.Models.Session.{Session, commit}
use knowledge_flywheel.Tasks.Queue.{
  TaskCreate, new_task, add_task, save_task, task_by_key, audit_task, claim_next_task,
  claim_task_by_id,
}
use knowledge_flywheel.Alerts.Board.{AlertReport, upsert_alert, resolve_alert}
use knowledge_flywheel.Files.Report.{save_file, parse_key}
use knowledge_flywheel.Commands.Ack.{json_eq, file_named}
use knowledge_flywheel.Overrides.Settings.{codes}
use knowledge_flywheel.Execution.Setup.{Executor}
use knowledge_flywheel.Execution.Kinds.{execute_task_payload}

-- The assignments after a payload that returned.
unfoldable pub completed : Task → Payload → Task
completed task result = record task {
  result_json = some result;
  error = none;
  status = if str_eq task.kind "replica_repair" then TaskStatus.waiting else TaskStatus.success;
  claimed_at = none;
  claimed_by = none;
}

-- The assignments after a payload that raised.
unfoldable pub failed_with : Task → String → Task
failed_with task raised = record task {
  status = TaskStatus.failed;
  error = some raised;
  claimed_at = none;
  claimed_by = none;
}

abbrev pub failure_key : Task → String
failure_key task = "task.failed:" <> show task.id

abbrev pub failure_report : Task → String → AlertReport
failure_report task raised = record {
  fingerprint = failure_key task;
  severity = "high";
  kind = "task_failed";
  resource_type = "task";
  resource_id = show task.id;
  message = "任务 #" <> show task.id <> " (" <> task.kind <> ") 执行失败：" <> raised;
}

-- The mark that a failed parse leaves on the file, where the hash is still the task's.
unfoldable pub mark_unparsed : Task → Session → Session
unfolding save_file
mark_unparsed task db = elim (file_named (get_field "file_id" task.payload_json) db) [
  | none ↦ db
  | some f ↦
      if json_eq (str f.file_hash) (get_field "file_hash" task.payload_json)
      then save_file (record f { status = parse_failed }) db
      else db
]

-- The action of the audit entry.
abbrev pub completed_action : Task → String
completed_action task = if task_is task.status TaskStatus.waiting then "dispatched" else "success"

-- The rest of a run, by what the payload ended with: `detail` goes to the audit entry, `mark` is done
-- to the files after a failure.
unfoldable pub settle_run :
    Executor
    → String
    → Payload
    → (Session → Session)
    → Task
    → Result Payload × Session
    → Task × Session
unfolding completed failed_with audit_task save_task
settle_run env worker_id detail mark task (ok result, db) =
    let t = completed task result in
    (
      t,
      commit (
          resolve_alert env.now (failure_key t)
            (audit_task t (completed_action t) worker_id detail (save_task t db))),
    )
settle_run env worker_id detail mark task (err raised, db) =
    let t = failed_with task raised in
    (
      t,
      commit
          (upsert_alert env.now env.settings (failure_report t raised) (
            audit_task t "failed" worker_id (("error", str raised) ∷ detail)
              (mark (save_task t db)))).1,
    )

abbrev pub run_mark : Task → Session → Session
run_mark task db = if str_eq task.kind "file_parse" then mark_unparsed task db else db

-- A run of a claimed task.
unfoldable pub run_claimed :
    Executor
    → String
    → Payload
    → (Task → Session → Session)
    → Option Task × Session
    → Option Task × Session
unfolding settle_run execute_task_payload
run_claimed env worker_id detail mark (none, db) = (none, db)
run_claimed env worker_id detail mark (some task, db) =
    let (t, db') =
      settle_run env worker_id detail (mark task) task (execute_task_payload env task db) in
    (some t, db')

-- `run_task_once`
unfoldable pub run_task_once : Executor → String → ℕ → Session → Option Task × Session
unfolding run_claimed mark_unparsed
run_task_once env worker_id lease_seconds db =
    run_claimed env worker_id [] run_mark (claim_next_task env.now worker_id lease_seconds db)

-- `run_task_by_id`
unfoldable pub run_task_by_id : Executor → ℕ → String → ℕ → Session → Option Task × Session
unfolding run_claimed
run_task_by_id env task_id worker_id lease_seconds db =
    run_claimed env worker_id (("delivery", str "celery") ∷ []) (λ task db. db)
      (claim_task_by_id env.now task_id worker_id lease_seconds db)

abbrev pub parse_request : FileRecord → String → TaskCreate
parse_request f content = record {
  kind = "file_parse";
  idempotency_key = parse_key f;
  payload = ("file_id", num f.id) ∷ ("file_hash", str f.file_hash) ∷ ("content", str content) ∷ [];
}

abbrev pub parse_again : Task → Task
parse_again task = record task { status = TaskStatus.pending; error = none; result_json = none }

-- The parse task of a version: a new one, or the failed one again.
unfoldable pub ensure_parse_task : ℕ → FileRecord → String → Option Task → Session → Task × Session
unfolding new_task add_task save_task
ensure_parse_task now f content none db =
    (new_task now (parse_request f content) db, add_task now (parse_request f content) db)
ensure_parse_task now f content (some task) db =
    if task_is task.status TaskStatus.failed
    then (parse_again task, save_task (parse_again task) db)
    else (task, db)

abbrev pub as_parsing : FileRecord → FileRecord
as_parsing f = if file_is f.status parsed then f else record f { status = parsing }

unfoldable pub queue_parse : Executor → FileRecord → String → Session → Task × Session
unfolding ensure_parse_task save_file
queue_parse env f content db =
    let (task, db') = ensure_parse_task env.now f content (task_by_key (parse_key f) db) db in
    (task, commit (save_file (as_parsing f) db'))

-- `queue_file_content_parse`
unfoldable pub queue_file_content_parse :
    Executor → ℕ → String → String → String → Session → Result Task × Session
unfolding queue_parse
queue_file_content_parse env file_id source_node_id file_hash content db =
    elim (get file_id db.files) [
      | none ↦ (err "file not found", db)
      | some f ↦
          if not (str_eq f.source_node_id source_node_id)
          then (err "file source node mismatch", db)
          else if not (str_eq f.file_hash file_hash)
          then (err "file hash mismatch", db)
          else if not (str_eq (env.sha256 (codes content)) file_hash)
          then (err "content hash does not match file hash", db)
          else let (task, db') = queue_parse env f content db in (ok task, db')
    ]
