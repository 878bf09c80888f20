-- ===== src/Execution/Settled.antt =====
-- What a run leaves of its task and of the task's alert.
use knowledge_flywheel.Base.{
  ℕ, String, none, some, [], ◌∷◌, ◌≡◌, refl, All, Option, Option-cases, Bool-cases, inl, inr,
  if◌then◌else◌, str_eq, Result, ok, err, ◌||◌,
}
use knowledge_flywheel.Store.Table.{live_rows, put, get}
use knowledge_flywheel.Store.Laws.{flush-IsClean, live_rows-flush, live_rows-put, replace_row_self}
use knowledge_flywheel.Models.Json.{str, Payload, get_field}
use knowledge_flywheel.Models.Status.{TaskStatus, task_is, running, pending}
use knowledge_flywheel.Models.Rows.{Task, Alert, task_entity}
use knowledge_flywheel.Models.Session.{Session, flush_all, commit, audit}
use knowledge_flywheel.Tasks.Queue.{
  save_task, audit_task, claim_next_task, claim_task_by_id, claim_pending, claim_found,
  next_pending, requeue_stale, lease_held,
}
use knowledge_flywheel.Tasks.Claims.{tasks_of}
use knowledge_flywheel.Files.Report.{save_file}
use knowledge_flywheel.Alerts.Board.{alert_of, upsert_alert, resolve_alert}
use knowledge_flywheel.Alerts.Upsert.{IsFiring, IsOver, upsert_alert-IsFiring, resolve_alert-IsOver}
use knowledge_flywheel.Alerts.Frame.{IsApart, upsert_alert-view, resolve_alert-view}
use knowledge_flywheel.Commands.Ack.{json_eq, file_named}
use knowledge_flywheel.Execution.Setup.{Executor}
use knowledge_flywheel.Execution.Kinds.{execute_task_payload}
use knowledge_flywheel.Execution.Run.{
  completed, failed_with, failure_key, failure_report, mark_unparsed, completed_action, settle_run,
  run_mark, run_claimed, run_task_once, run_task_by_id,
}
use knowledge_flywheel.Execution.Quiet.{IsQuiet, IsTidy}
use knowledge_flywheel.Execution.Clean.{execute_task_payload-IsQuiet}

tasks_of-IsApart : IsApart tasks_of
unfolding flush_all
tasks_of-IsApart = record {
  same = λ db alerts deliveries logs. refl;
  flushed = λ db. live_rows-flush db.tasks;
}

-- The task and its alert after a run, by what the payload ended with.
abbrev pub IsSettledBy : Executor → Task → Result Payload → Task → Session → Type 0
IsSettledBy env task (ok result) t db =
    (t.status
      ≡ (if str_eq task.kind "replica_repair" then TaskStatus.waiting else TaskStatus.success))
    × (t.error ≡ none)
    × (t.result_json ≡ some result)
    × IsOver (alert_of (failure_key task) db)
IsSettledBy env task (err raised) t db =
    (t.status ≡ TaskStatus.failed)
    × (t.error ≡ some raised)
    × (t.result_json ≡ task.result_json)
    × (a : Alert) × (alert_of (failure_key task) db ≡ some a)
    × IsFiring env.now (failure_report task raised) a

-- The task keeps its key and has no worker, the table holds it as it was returned, and it is settled.
abbrev pub IsSettled : Executor → Task → Result Payload → Task → Session → Type 0
IsSettled env task result t db =
    (t.id ≡ task.id)
    × (t.claimed_at ≡ none)
    × (t.claimed_by ≡ none)
    × All (λ (u : Task). u.id ≡ task.id → u ≡ t) (tasks_of db)
    × IsSettledBy env task result t db

-- A change to the session that touches neither tasks nor alerts.
abbrev IsMark : (Session → Session) → Type 0
IsMark mark = (db : Session) → ((mark db).tasks ≡ db.tasks) × ((mark db).alerts ≡ db.alerts)

mark_unparsed-IsMark : (task : Task) → IsMark (mark_unparsed task)
unfolding mark_unparsed save_file
mark_unparsed-IsMark task db =
    elim (Option-cases (file_named (get_field "file_id" task.payload_json) db)) [
      | inl gone ↦ rw (gone, mark_unparsed) (refl, refl)
      | inr (f, found) ↦
          elim (Bool-cases (json_eq (str f.file_hash) (get_field "file_hash" task.payload_json))) [
            | inl same ↦ rw (found, mark_unparsed, same) (refl, refl)
            | inr other ↦ rw (found, mark_unparsed, other) (refl, refl)
          ]
    ]

run_mark-IsMark : (task : Task) → IsMark (run_mark task)
run_mark-IsMark task db = elim (Bool-cases (str_eq task.kind "file_parse")) [
  | inl parse ↦ rw parse (mark_unparsed-IsMark task db)
  | inr other ↦ rw other (refl, refl)
]

-- The table after the last assignments to the task.
saved_rows :
    (t : Task) (db : Session) → All (λ (u : Task). u.id ≡ t.id → u ≡ t) (live_rows (put t db.tasks))
saved_rows t db = rw live_rows-put (replace_row_self (λ u. u ≡ t) t (live_rows db.tasks) refl)

settle_run-IsSettled :
    (env : Executor) (worker_id : String) (detail : Payload) (mark : Session → Session)
    (task : Task) (result : Result Payload) (db : Session)
    → IsMark mark
    → IsQuiet db
    → let (t, db') = settle_run env worker_id detail mark task (result, db) in
      IsSettled env task result t db'
unfolding settle_run completed failed_with audit_task audit save_task commit
settle_run-IsSettled env worker_id detail mark task (ok result) db marks quiet =
    let t = completed task result in
    let db1 = audit_task t (completed_action t) worker_id detail (save_task t db) in
    (
      refl,
      refl,
      refl,
      rw
          (
            tasks_of-IsApart.flushed (resolve_alert env.now (failure_key t) db1),
            resolve_alert-view tasks_of tasks_of-IsApart env.now (failure_key t) db1,
          )
          (saved_rows t db),
      (refl, refl, refl, resolve_alert-IsOver env.now (failure_key t) db1 quiet),
    )
settle_run-IsSettled env worker_id detail mark task (err raised) db marks quiet =
    let t = failed_with task raised in
    let db1 =
      audit_task t "failed" worker_id (("error", str raised) ∷ detail) (mark (save_task t db)) in
    let marked = marks (save_task t db) in
    let (firing, found) =
      upsert_alert-IsFiring env.now env.settings (failure_report t raised) db1
        (rw (marked.1) quiet) in
    (
      refl,
      refl,
      refl,
      rw
          (
            tasks_of-IsApart.flushed
                (upsert_alert env.now env.settings (failure_report t raised) db1).1,
            upsert_alert-view tasks_of tasks_of-IsApart env.now env.settings
                (failure_report t raised) db1,
            marked.0,
          )
          (saved_rows t db),
      (refl, refl, refl, _, found, firing),
    )

-- A run is the claim, and what becomes of the claimed task.
abbrev pub Settles : Executor → Option Task × Session → Option Task × Session → Type 0
Settles env (none, db) run = run ≡ (none, db)
Settles env (some task, db) run =
    (t : Task) × (run.0 ≡ some t) × IsSettled env task (execute_task_payload env task db).0 t run.1

run_claimed-Settles :
    (env : Executor) (worker_id : String) (detail : Payload) (mark : Task → Session → Session)
    (claim : Option Task × Session)
    → IsTidy env
    → ((task : Task) → IsMark (mark task))
    → IsQuiet claim.1
    → Settles env claim (run_claimed env worker_id detail mark claim)
unfolding run_claimed
run_claimed-Settles env worker_id detail mark (none, db) tidy marks quiet = refl
run_claimed-Settles env worker_id detail mark (some task, db) tidy marks quiet = (
  _,
  refl,
  settle_run-IsSettled env worker_id detail (mark task) task (execute_task_payload env task db).0
      (execute_task_payload env task db).1 (marks task)
      (execute_task_payload-IsQuiet env tidy task db quiet),
)

claim_next_task-IsQuiet :
    (now : ℕ) (worker_id : String) (lease : ℕ) (db : Session)
    → IsQuiet (claim_next_task now worker_id lease db).1
unfolding claim_next_task claim_pending commit flush_all
claim_next_task-IsQuiet now worker_id lease db =
    elim (Option-cases (next_pending (requeue_stale now lease db))) [
      | inl idle ↦ rw (idle, claim_next_task) (flush-IsClean _)
      | inr (task, found) ↦ rw (found, claim_next_task) (flush-IsClean _)
    ]

claim_found-IsQuiet :
    (now : ℕ) (worker_id : String) (lease : ℕ) (o : Option Task) (db : Session)
    → IsQuiet db
    → IsQuiet (claim_found now worker_id lease o db).1
unfolding claim_found commit flush_all
claim_found-IsQuiet now worker_id lease none db quiet = quiet
claim_found-IsQuiet now worker_id lease (some task) db quiet =
    elim (Bool-cases (lease_held now lease task)) [
      | inl held ↦ rw (held, claim_found) quiet
      | inr free ↦ elim (Bool-cases (task_is task.status pending || task_is task.status running)) [
        | inl open_task ↦ rw (free, claim_found, open_task) (flush-IsClean _)
        | inr over ↦ rw (free, claim_found, over) quiet
      ]
    ]

-- Over committed alerts, where a graph leaves none to flush if none of its nodes does: a run of a polling worker, and
-- one of a broker delivery, is nothing but its claim where that takes no task. Otherwise the claimed
-- task has no worker afterwards, and the table holds it as it was returned. Where its payload returned,
-- it has the result and no error, it is waiting if it is a replica repair and a success otherwise, and
-- the alert of its failure, if its key finds one, is resolved. Where the payload raised, it has failed with the text
-- that was raised and the result it had, and an alert with that text fires.
pub runs_settle :
    (env : Executor) (task_id : ℕ) (worker_id : String) (lease : ℕ) (db : Session)
    → IsTidy env
    → IsQuiet db
    → Settles env
        (claim_next_task env.now worker_id lease db)
        (run_task_once env worker_id lease db)
      × Settles env
          (claim_task_by_id env.now task_id worker_id lease db)
          (run_task_by_id env task_id worker_id lease db)
unfolding run_task_once run_task_by_id claim_task_by_id
runs_settle env task_id worker_id lease db tidy quiet = (
  run_claimed-Settles env worker_id [] run_mark (claim_next_task env.now worker_id lease db) tidy
      run_mark-IsMark (claim_next_task-IsQuiet env.now worker_id lease db),
  run_claimed-Settles env worker_id (("delivery", str "celery") ∷ []) (λ task db. db)
      (claim_task_by_id env.now task_id worker_id lease db) tidy (λ task db. (refl, refl))
      (claim_found-IsQuiet env.now worker_id lease (get task_id db.tasks) db quiet),
)
