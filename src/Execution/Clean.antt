-- ===== src/Execution/Clean.antt =====
-- Executing a payload leaves no alert to flush.
use knowledge_flywheel.Base.{
  ℕ, String, not, ◌||◌, none, some, List, [], ◌∷◌, ◌≡◌, refl, Option, Option-cases, Bool-cases, inl,
  inr, ◌==◌, Result, ok, err, Result-cases,
}
use knowledge_flywheel.Store.Laws.{flush-IsClean}
use knowledge_flywheel.Models.Json.{Json, num, get_field}
use knowledge_flywheel.Models.Status.{CommandStatus, command_is}
use knowledge_flywheel.Models.Rows.{Task, FileRecord, RemoteCommand, DocumentChunk}
use knowledge_flywheel.Models.Session.{Session, flush_all, audit}
use knowledge_flywheel.Tasks.Queue.{add_task, save_task, task_by_key}
use knowledge_flywheel.Files.Report.{save_file}
use knowledge_flywheel.Commands.Queue.{add_command, save_command, command_by_key}
use knowledge_flywheel.Commands.Ack.{file_named}
use knowledge_flywheel.Execution.Setup.{Executor, lineage, is_truthy}
use knowledge_flywheel.Execution.Indexing.{replace_chunks, embed_chunks}
use knowledge_flywheel.Execution.Pipeline.{PipelineRun, run_file_pipeline}
use knowledge_flywheel.Execution.Kinds.{
  TaskKind, noop, file_register, file_parse, file_embed, dify_ingest, replica_repair, pipeline_run,
  backup, unknown_kind, kind_of, execute_kind, execute_register, ensure_embed_task, parsed_chunks,
  execute_parse, embed_record, embed_listed, execute_embed, execute_ingest, dispatch_sync,
  repair_target, execute_repair, pipeline_result, execute_pipeline, execute_backup,
  execute_task_payload, sync_key, embed_key,
}
use knowledge_flywheel.Execution.Quiet.{IsQuiet, IsTidy, run_file_pipeline-IsQuiet}

execute_register-IsQuiet :
    (task : Task) (db : Session) → IsQuiet db → IsQuiet (execute_register task db).1
unfolding execute_register save_file
execute_register-IsQuiet task db c =
    elim (Result-cases (
      lineage (get_field "file_id" task.payload_json) (get_field "file_hash" task.payload_json)
        db)) [
          | inl (f, found) ↦ rw (found, execute_register) c
          | inr (text, raised) ↦ rw (raised, execute_register) c
        ]

ensure_embed_task-alerts :
    (now : ℕ) (f : FileRecord) (db : Session) → (ensure_embed_task now f db).alerts ≡ db.alerts
unfolding ensure_embed_task add_task
ensure_embed_task-alerts now f db = elim (Option-cases (task_by_key (embed_key f) db)) [
  | inl new ↦ rw (new, ensure_embed_task) refl
  | inr (t, old) ↦ rw (old, ensure_embed_task) refl
]

execute_parse-IsQuiet :
    (env : Executor) (task : Task) (db : Session)
    → IsQuiet db
    → IsQuiet (execute_parse env task db).1
unfolding execute_parse save_file replace_chunks
execute_parse-IsQuiet env task db c =
    let file_id = get_field "file_id" task.payload_json in
    elim (Result-cases (lineage file_id (get_field "file_hash" task.payload_json) db)) [
      | inr (text, raised) ↦ rw (raised, execute_parse) c
      | inl (f, found) ↦
          elim (Result-cases
            (parsed_chunks env file_id (get_field "content" task.payload_json) f)) [
              | inr (text, raised) ↦ rw (found, execute_parse, raised) c
              | inl (chunks, split) ↦
                  rw (found, execute_parse, split) (rw (ensure_embed_task-alerts env.now f _) c)
            ]
    ]

embed_listed-alerts :
    (env : Executor) (file_id : Json) (f : FileRecord) (chunks : List DocumentChunk) (db : Session)
    → (embed_listed env file_id f chunks db).1.alerts ≡ db.alerts
unfolding embed_listed embed_chunks
embed_listed-alerts env file_id f [] db = refl
embed_listed-alerts env file_id f (c ∷ cs) db = refl

execute_embed-IsQuiet :
    (env : Executor) (task : Task) (db : Session)
    → IsQuiet db
    → IsQuiet (execute_embed env task db).1
unfolding execute_embed
execute_embed-IsQuiet env task db c =
    let file_id = get_field "file_id" task.payload_json in
    elim (Result-cases (embed_record file_id (get_field "file_hash" task.payload_json) db)) [
      | inr (text, raised) ↦ rw (raised, execute_embed) c
      | inl (f, found) ↦ rw (found, execute_embed) (rw (embed_listed-alerts env file_id f _ db) c)
    ]

execute_ingest-IsQuiet :
    (env : Executor) (task : Task) (db : Session)
    → IsQuiet db
    → IsQuiet (execute_ingest env task db).1
unfolding execute_ingest
execute_ingest-IsQuiet env task db c =
    elim (Result-cases (env.int_of (get_field "file_id" task.payload_json))) [
      | inr (text, raised) ↦ rw (raised, execute_ingest) c
      | inl (n, read) ↦ elim (Option-cases (file_named (num n) db)) [
        | inl gone ↦ rw (read, execute_ingest, gone) c
        | inr (f, found) ↦ elim (Result-cases (env.ingest_file_to_dify n db)) [
          | inr (text, raised) ↦ rw (read, execute_ingest, found, raised) c
          | inl (r, sent) ↦ rw (read, execute_ingest, found, sent) c
        ]
      ]
    ]

dispatch_sync-IsQuiet :
    (now : ℕ) (task : Task) (f : FileRecord) (target : String) (o : Option RemoteCommand)
    (db : Session)
    → IsQuiet db
    → IsQuiet (dispatch_sync now task f target o db).1
unfolding dispatch_sync add_command save_command audit flush_all
dispatch_sync-IsQuiet now task f target none db c = flush-IsClean db.alerts
dispatch_sync-IsQuiet now task f target (some old) db c =
    elim (Bool-cases (command_is old.status CommandStatus.failed)) [
      | inl failed_before ↦ rw (failed_before, dispatch_sync) c
      | inr open_command ↦ rw (open_command, dispatch_sync) c
    ]

execute_repair-IsQuiet :
    (now : ℕ) (task : Task) (db : Session) → IsQuiet db → IsQuiet (execute_repair now task db).1
unfolding execute_repair save_task
execute_repair-IsQuiet now task db c =
    elim (Result-cases (
      lineage (get_field "file_id" task.payload_json) (get_field "file_hash" task.payload_json)
        db)) [
          | inr (text, raised) ↦ rw (raised, execute_repair) c
          | inl (f, found) ↦
              elim (Result-cases
                (repair_target (get_field "target_node_id" task.payload_json) db)) [
                  | inr (text, raised) ↦ rw (found, execute_repair, raised) c
                  | inl (target, enabled) ↦
                      rw (found, execute_repair, enabled)
                        (dispatch_sync-IsQuiet now task f target (command_by_key (sync_key task) db)
                          db c)
                ]
        ]

pipeline_result-session :
    (env : Executor) (r : Result PipelineRun × Session) → (pipeline_result env r).1 ≡ r.1
pipeline_result-session env (ok run, db) = refl
pipeline_result-session env (err text, db) = refl

execute_pipeline-IsQuiet :
    (env : Executor)
    → IsTidy env
    → (task : Task) (db : Session) → IsQuiet db
    → IsQuiet (execute_pipeline env task db).1
unfolding execute_pipeline
execute_pipeline-IsQuiet env tidy task db c =
    let file_hash = get_field "file_hash" task.payload_json in
    elim (Result-cases (env.int_of (get_field "file_id" task.payload_json))) [
      | inr (text, raised) ↦ rw (raised, execute_pipeline) c
      | inl (n, read) ↦ elim (Bool-cases (n == 0 || not (is_truthy file_hash))) [
        | inl bad ↦ rw (read, execute_pipeline, bad) c
        | inr good ↦
            rw (read, execute_pipeline, good)
              (rw (pipeline_result-session env (run_file_pipeline env _ db)) (
                run_file_pipeline-IsQuiet env tidy
                  (record {
                    file_id = n;
                    file_hash = file_hash;
                    content = get_field "content" task.payload_json;
                  })
                  db c))
      ]
    ]

execute_backup-IsQuiet :
    (env : Executor) (db : Session) → IsQuiet db → IsQuiet (execute_backup env db).1
execute_backup-IsQuiet env db c = elim (Result-cases env.perform_backup) [
  | inl (r, saved) ↦ rw saved c
  | inr (text, raised) ↦ rw raised c
]

execute_kind-IsQuiet :
    (env : Executor)
    → IsTidy env
    → (kind : TaskKind) (task : Task) (db : Session) → IsQuiet db
    → IsQuiet (execute_kind kind env task db).1
unfolding execute_kind
execute_kind-IsQuiet env tidy noop task db c = c
execute_kind-IsQuiet env tidy file_register task db c = execute_register-IsQuiet task db c
execute_kind-IsQuiet env tidy file_parse task db c = execute_parse-IsQuiet env task db c
execute_kind-IsQuiet env tidy file_embed task db c = execute_embed-IsQuiet env task db c
execute_kind-IsQuiet env tidy dify_ingest task db c = execute_ingest-IsQuiet env task db c
execute_kind-IsQuiet env tidy replica_repair task db c = execute_repair-IsQuiet env.now task db c
execute_kind-IsQuiet env tidy pipeline_run task db c = execute_pipeline-IsQuiet env tidy task db c
execute_kind-IsQuiet env tidy backup task db c = execute_backup-IsQuiet env db c
execute_kind-IsQuiet env tidy unknown_kind task db c = c

pub execute_task_payload-IsQuiet :
    (env : Executor)
    → IsTidy env
    → (task : Task) (db : Session) → IsQuiet db
    → IsQuiet (execute_task_payload env task db).1
unfolding execute_task_payload
execute_task_payload-IsQuiet env tidy task db c =
    execute_kind-IsQuiet env tidy (kind_of task.kind) task db c
