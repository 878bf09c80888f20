-- ===== src/Files/Registration.antt =====
-- The register task: the branch of report_file for a version that is reported again.
use knowledge_flywheel.Base.{
  ℕ, String, Bool, true, false, ◌&&◌, Option, none, some, ◌≡◌, ◌≢◌, ◌⊎◌, refl, ap, ◌∙◌, Bool-cases,
  Option-cases, inl, inr, str_eq, eq_refl, if◌then◌else◌, ◌==◌, show, ◌<>◌,
}
use knowledge_flywheel.Store.Table.{IsClean, first, flush}
use knowledge_flywheel.Store.Laws.{first-flush-add, first-flush-put, first_clean_flush, first_test}
use knowledge_flywheel.Models.Status.{TaskStatus, task_is, alert_is, AlertStatus}
use knowledge_flywheel.Models.Rows.{FileRecord, FileReplica, Task, task_entity}
use knowledge_flywheel.Models.Session.{Session, commit, audit}
use knowledge_flywheel.Tasks.Queue.{add_task, save_task, task_by_key, audit_task, new_task}
use knowledge_flywheel.Alerts.Board.{resolve_alert, alert_of, save_alert}
use knowledge_flywheel.Files.Report.{
  FileReport, is_version, is_indexed, is_back, refreshed, register_key, parse_key, register_request,
  ensure_registered, upsert_file_replica, save_file, report_again, report_file,
}

abbrev has_key : String → Task → Bool
has_key key t = str_eq t.idempotency_key key

resolve_alert-tasks :
    (now : ℕ) (fp : String) (db : Session) → (resolve_alert now fp db).tasks ≡ db.tasks
unfolding resolve_alert save_alert
resolve_alert-tasks now fp db = elim (Option-cases (alert_of fp db)) [
  | inl unknown_alert ↦ rw (unknown_alert, resolve_alert) refl
  | inr (a, found) ↦ elim (Bool-cases (alert_is a.status AlertStatus.resolved)) [
    | inl over ↦ rw (found, resolve_alert, over) refl
    | inr firing ↦ rw (found, resolve_alert, firing) refl
  ]
]

upsert_file_replica-tasks :
    (f : FileRecord) (node hash : String) (now : ℕ) (db : Session)
    → (upsert_file_replica f node hash now db).tasks ≡ db.tasks
unfolding upsert_file_replica
upsert_file_replica-tasks f node hash now db =
    elim (Option-cases
      (first (λ (r : FileReplica). r.file_id == f.id && str_eq r.node_id node) db.file_replicas)) [
        | inl fresh ↦ rw (fresh, upsert_file_replica) refl
        | inr (r, found) ↦ rw (found, upsert_file_replica) refl
      ]

-- The version is indexed, or a register task with its key is there and has not failed.
abbrev pub IsRegistered : FileRecord → Session → Type 0
IsRegistered f db =
    (is_indexed f.status ≡ true)
    ⊎ ((t : Task) × (task_by_key (register_key f) db ≡ some t) × (t.status ≢ TaskStatus.failed))

not_failed : (t : Task) → task_is t.status TaskStatus.failed ≡ false → t.status ≢ TaskStatus.failed
not_failed t h e = cc (rw e at h)

resolved_tasks :
    (b : Bool) (db1 db2 db : Session)
    → db2.tasks ≡ db1.tasks
    → db1.tasks ≡ db.tasks
    → (if b then db2 else db1).tasks ≡ db.tasks
resolved_tasks true db1 db2 db h k = h ∙ k
resolved_tasks false db1 db2 db h k = k

register_task_there :
    (now : ℕ) (report : FileReport) (o : Option Task) (f : FileRecord) (db : Session)
    → IsClean db.tasks
    → is_indexed f.status ≡ false
    → task_by_key (register_key f) db ≡ o
    → (t : Task) × (first
          (has_key (register_key f))
          (flush (ensure_registered now report o f db).tasks)
        ≡ some t)
      × (t.status ≢ TaskStatus.failed)
unfolding ensure_registered add_task new_task save_task audit_task audit
register_task_there now report none f db c open_file e = rw open_file (
  new_task now (register_request f) db,
  first-flush-add (has_key (register_key f)) db.tasks (new_task now (register_request f) db) c
      (eq_refl (register_key f)) e,
  λ bad. cc,
)
register_task_there now report (some t) f db c open_file e =
    elim (Bool-cases (task_is t.status TaskStatus.failed)) [
      | inl failed_task ↦
          let again : Task = record t {
            status = TaskStatus.pending;
            error = none;
            result_json = none;
          } in
          simp (open_file, failed_task)
            (
              again,
              first-flush-put (has_key (register_key f)) db.tasks t again c refl
                  (first_test (has_key (register_key f)) db.tasks t c e) e,
              λ bad. cc,
            )
      | inr fine ↦
          simp (open_file, fine)
            (t, first_clean_flush (has_key (register_key f)) db.tasks c ∙ e, not_failed t fine)
    ]

refreshed-IsRegistered :
    (now : ℕ) (report : FileReport) (task parse_task : Option Task) (f : FileRecord) (db : Session)
    → IsClean db.tasks
    → task_by_key (register_key f) db ≡ task
    → let (f', db') = report_again now report task parse_task f db in IsRegistered f' db'
unfolding report_again commit save_file refreshed
refreshed-IsRegistered now report task parse_task f db c e =
    let f' = refreshed now report task parse_task f in
    let db1 = save_file f' db in
    let db2 = resolve_alert now ("file.missing:" <> show f'.id) db1 in
    let db3 = if is_back task parse_task f.status then db2 else db1 in
    let same : db3.tasks ≡ db.tasks =
      resolved_tasks (is_back task parse_task f.status) db1 db2 db
        (resolve_alert-tasks now ("file.missing:" <> show f'.id) db1) refl in
    elim (Bool-cases (is_indexed f'.status)) [
      | inl indexed ↦ inl indexed
      | inr open_file ↦
          let (t, found, fine) =
            register_task_there now report task f' db3 (rw same c) open_file
              (ap (first (has_key (register_key f'))) same ∙ same_key e) in
          inr (
            t,
            ap (λ ts. first (has_key (register_key f')) (flush ts))
                  (upsert_file_replica-tasks f' report.node_id report.file_hash now _)
                ∙ found,
            fine,
          )
    ]
  where
    same_key :
        task_by_key (register_key f) db ≡ task
        → task_by_key (register_key (refreshed now report task parse_task f)) db ≡ task
    same_key h = h

-- Over committed tasks, a report of a version that the table has: the file it returns is indexed, or
-- a register task with its key is stored and has not failed.
pub report_again-IsRegistered :
    (now : ℕ) (report : FileReport) (f : FileRecord) (db : Session)
    → IsClean db.tasks
    → first (is_version report.path report.file_hash) db.files ≡ some f
    → let (f', db') = report_file now report db in IsRegistered f' db'
unfolding report_file
report_again-IsRegistered now report f db c known =
    rw (known, report_file)
      (refreshed-IsRegistered now report (task_by_key (register_key f) db)
        (task_by_key (parse_key f) db) f db c refl)
