-- ===== src/Execution/Kinds.antt =====
-- execute_task_payload: one branch for each kind of task.
use knowledge_flywheel.Base.{
  ℕ, String, ◌||◌, not, Option, none, some, List, [], ◌∷◌, ◌==◌, str_eq, if◌then◌else◌, length,
  show, Result, ok, err, ◌<>◌,
}
use knowledge_flywheel.Models.Json.{Json, num, str, compound, Payload, get_field, as_str}
use knowledge_flywheel.Models.Status.{TaskStatus, CommandStatus, command_is, registered, parsed}
use knowledge_flywheel.Models.Rows.{FileRecord, DocumentChunk, Task, RemoteCommand}
use knowledge_flywheel.Models.Session.{Session, flush_all, audit}
use knowledge_flywheel.Tasks.Queue.{add_task, save_task, task_by_key}
use knowledge_flywheel.Files.Report.{save_file}
use knowledge_flywheel.Commands.Queue.{
  CommandCreate, command_by_key, node_of, save_command, new_command, add_command,
}
use knowledge_flywheel.Commands.Ack.{json_eq, file_named}
use knowledge_flywheel.Execution.Setup.{
  Executor, Stages, shown_json, is_truthy, content_text, lineage,
}
use knowledge_flywheel.Execution.Indexing.{
  replace_chunks, checked_chunks, chunks_of, embed_chunks, providers_of, is_degraded,
}
use knowledge_flywheel.Execution.Pipeline.{PipelineRun, run_file_pipeline}

-- `file_register`
unfoldable pub execute_register : Task → Session → Result Payload × Session
unfolding lineage save_file
execute_register task db =
    elim (lineage (get_field "file_id" task.payload_json) (get_field "file_hash" task.payload_json)
      db) [
        | err raised ↦ (err raised, db)
        | ok f ↦ (
          ok (
              ("execution", str "file_register")
              ∷ ("file_id", num f.id)
              ∷ ("file_hash", str f.file_hash)
              ∷ ("status", str "registered")
              ∷ []),
          save_file (record f { status = registered }) db,
        )
      ]

abbrev pub embed_key : FileRecord → String
embed_key f = "file-embed:" <> show f.id <> ":" <> f.file_hash

-- The embedding task of a file that was parsed, once for each version.
unfoldable pub ensure_embed_task : ℕ → FileRecord → Session → Session
unfolding add_task
ensure_embed_task now f db = elim (task_by_key (embed_key f) db) [
  | some _ ↦ db
  | none ↦
      add_task now
        (record {
          kind = "file_embed";
          idempotency_key = embed_key f;
          payload = ("file_id", num f.id) ∷ ("file_hash", str f.file_hash) ∷ [];
        })
        db
]

-- The content of a parse: the check of its type, then of its hash, and the split.
unfoldable pub parsed_chunks : Executor → Json → Json → FileRecord → Result (List (List ℕ))
unfolding checked_chunks
parsed_chunks env file_id content f = elim (content_text content) [
  | none ↦ err "file parse content is required"
  | some text ↦ checked_chunks env (shown_json file_id) text f
]

-- `file_parse`
unfoldable pub execute_parse : Executor → Task → Session → Result Payload × Session
unfolding lineage parsed_chunks replace_chunks save_file ensure_embed_task
execute_parse env task db =
    let file_id = get_field "file_id" task.payload_json in
    elim (lineage file_id (get_field "file_hash" task.payload_json) db) [
      | err raised ↦ (err raised, db)
      | ok f ↦ elim (parsed_chunks env file_id (get_field "content" task.payload_json) f) [
        | err raised ↦ (err raised, db)
        | ok chunks ↦ (
          ok (
              ("execution", str "file_parse")
              ∷ ("file_id", num f.id)
              ∷ ("file_hash", str f.file_hash)
              ∷ ("chunks", num (length chunks))
              ∷ ("status", str "parsed")
              ∷ ("embedding_task", str (embed_key f))
              ∷ []),
          ensure_embed_task env.now f
              (save_file (record f { status = parsed }) (replace_chunks env f chunks db)),
        )
      ]
    ]

-- `record is None or record.file_hash != expected_hash`
unfoldable pub embed_record : Json → Json → Session → Result FileRecord
embed_record file_id expected_hash db = elim (file_named file_id db) [
  | none ↦ err ("file hash lineage mismatch for embedding: " <> shown_json file_id)
  | some f ↦
      if json_eq (str f.file_hash) expected_hash
      then ok f
      else err ("file hash lineage mismatch for embedding: " <> shown_json file_id)
]

unfoldable pub embed_listed :
    Executor → Json → FileRecord → List DocumentChunk → Session → Result Payload × Session
unfolding embed_chunks providers_of
embed_listed env file_id f [] db =
    (err ("no chunks available for embedding: " <> shown_json file_id), db)
embed_listed env file_id f (c ∷ cs) db =
    let providers = providers_of env (c ∷ cs) in
    (
      ok (
          ("execution", str "file_embed")
          ∷ ("file_id", num f.id)
          ∷ ("file_hash", str f.file_hash)
          ∷ ("chunks", num (length (c ∷ cs)))
          ∷ ("providers", compound (env.json_list providers))
          ∷ ("status", str (if is_degraded providers then "degraded" else "ready"))
          ∷ []),
      embed_chunks env f.id f.file_hash db,
    )

-- `file_embed`
unfoldable pub execute_embed : Executor → Task → Session → Result Payload × Session
unfolding embed_record embed_listed chunks_of
execute_embed env task db =
    let file_id = get_field "file_id" task.payload_json in
    elim (embed_record file_id (get_field "file_hash" task.payload_json) db) [
      | err raised ↦ (err raised, db)
      | ok f ↦ embed_listed env file_id f (chunks_of f.id f.file_hash db) db
    ]

-- `dify_ingest`
unfoldable pub execute_ingest : Executor → Task → Session → Result Payload × Session
execute_ingest env task db = elim (env.int_of (get_field "file_id" task.payload_json)) [
  | err raised ↦ (err raised, db)
  | ok file_id ↦ elim (file_named (num file_id) db) [
    | none ↦ (err ("file record not found: " <> show file_id), db)
    | some _ ↦ elim (env.ingest_file_to_dify file_id db) [
      | err raised ↦ (err raised, db)
      | ok result ↦ (ok (("execution", str "dify_ingest") ∷ ("file_id", num file_id) ∷ result), db)
    ]
  ]
]

abbrev pub sync_key : Task → String
sync_key task = "replica-sync:" <> show task.id

abbrev pub sync_request : Task → FileRecord → String → CommandCreate
sync_request task f target_node_id = record {
  node_id = target_node_id;
  command_type = "sync_replica";
  idempotency_key = sync_key task;
  payload =
      ("repair_task_id", num task.id)
      ∷ ("file_id", num f.id)
      ∷ ("file_hash", str f.file_hash)
      ∷ ("relative_path", str f.path)
      ∷ [];
  requested_by = "replica-worker";
}

abbrev pub retried : RemoteCommand → RemoteCommand
retried c = record c {
  status = CommandStatus.queued;
  error = none;
  result_json = none;
  claimed_at = none;
}

-- The command of a repair: a new one, or the failed one again.
unfoldable pub dispatch_sync :
    ℕ → Task → FileRecord → String → Option RemoteCommand → Session → RemoteCommand × Session
unfolding new_command add_command save_command
dispatch_sync now task f target none db =
    let c = new_command now (sync_request task f target) db in
    (
      c,
      audit "replica-worker" "remote_command.queued" "remote_command" (show c.id)
          (("repair_task_id", num task.id) ∷ []) (flush_all (add_command c db)),
    )
dispatch_sync now task f target (some c) db =
    if command_is c.status CommandStatus.failed
    then (
      retried c,
      audit "replica-worker" "remote_command.requeued" "remote_command" (show c.id)
          (("repair_task_id", num task.id) ∷ ("reason", str "operator_retry") ∷ [])
          (save_command (retried c) db),
    )
    else (c, db)

-- `target is None or not target.is_replica`
unfoldable pub repair_target : Json → Session → Result String
repair_target target_node_id db = elim (as_str target_node_id) [
  | none ↦ err ("target node is not an enabled replica: " <> shown_json target_node_id)
  | some node_id ↦ elim (node_of node_id db) [
    | none ↦ err ("target node is not an enabled replica: " <> node_id)
    | some n ↦
        if n.is_replica
        then ok node_id
        else err ("target node is not an enabled replica: " <> node_id)
  ]
]

-- `replica_repair`
unfoldable pub execute_repair : ℕ → Task → Session → Result Payload × Session
unfolding lineage repair_target dispatch_sync save_task
execute_repair now task db =
    elim (lineage (get_field "file_id" task.payload_json) (get_field "file_hash" task.payload_json)
      db) [
        | err raised ↦ (err raised, db)
        | ok f ↦ elim (repair_target (get_field "target_node_id" task.payload_json) db) [
          | err raised ↦ (err raised, db)
          | ok target ↦
              let (c, db') =
                dispatch_sync now task f target (command_by_key (sync_key task) db) db in
              (
                ok (
                    ("execution", str "replica_repair_dispatched")
                    ∷ ("command_id", num c.id)
                    ∷ ("repair_task_id", num task.id)
                    ∷ ("target_node_id", str target)
                    ∷ ("status", str "waiting")
                    ∷ []),
                save_task (record task { status = TaskStatus.waiting }) db',
              )
        ]
      ]

-- The stages of a pipeline run, as one JSON object.
abbrev pub stages_json : Executor → Stages → Payload
stages_json env [] = []
stages_json env ((name, stage) ∷ stages) =
    (name, compound (env.json_text stage)) ∷ stages_json env stages

abbrev pub pipeline_result : Executor → Result PipelineRun × Session → Result Payload × Session
pipeline_result env (err raised, db) = (err raised, db)
pipeline_result env (ok run, db) = (
  ok (
      ("execution", str "pipeline_run")
      ∷ ("orchestration", str run.orchestration)
      ∷ ("stages", compound (env.json_text (stages_json env run.stages)))
      ∷ []),
  db,
)

-- `pipeline_run`
unfoldable pub execute_pipeline : Executor → Task → Session → Result Payload × Session
unfolding run_file_pipeline is_truthy
execute_pipeline env task db = elim (env.int_of (get_field "file_id" task.payload_json)) [
  | err raised ↦ (err raised, db)
  | ok file_id ↦
      let file_hash = get_field "file_hash" task.payload_json in
      if file_id == 0 || not (is_truthy file_hash)
      then (err "pipeline_run requires file_id and file_hash", db)
      else pipeline_result env (
          run_file_pipeline env
            (record {
              file_id = file_id;
              file_hash = file_hash;
              content = get_field "content" task.payload_json;
            })
            db)
]

-- `backup`: the backup of the result is the parameter's.
abbrev pub execute_backup : Executor → Session → Result Payload × Session
execute_backup env db = elim env.perform_backup [
  | err raised ↦ (err raised, db)
  | ok result ↦ (ok (("execution", str "backup") ∷ result), db)
]

-- The kinds of task that have a branch, and the rest.
pub data TaskKind : Type 0 where
  noop file_register file_parse file_embed dify_ingest replica_repair pipeline_run backup
        unknown_kind :
      TaskKind

-- The tests of `task.kind`, in their order.
unfoldable pub kind_of : String → TaskKind
kind_of kind =
    if str_eq kind "noop"
    then noop
    else if str_eq kind "file_register"
    then file_register
    else if str_eq kind "file_parse"
    then file_parse
    else if str_eq kind "file_embed"
    then file_embed
    else if str_eq kind "dify_ingest"
    then dify_ingest
    else if str_eq kind "replica_repair"
    then replica_repair
    else if str_eq kind "pipeline_run"
    then pipeline_run
    else if str_eq kind "backup"
    then backup
    else unknown_kind

unfoldable pub execute_kind : TaskKind → Executor → Task → Session → Result Payload × Session
unfolding execute_register execute_parse execute_embed execute_ingest execute_repair
    execute_pipeline
execute_kind noop env task db = (
  ok (("execution", str "noop") ∷ ("payload", compound (env.json_text task.payload_json)) ∷ []),
  db,
)
execute_kind file_register env task db = execute_register task db
execute_kind file_parse env task db = execute_parse env task db
execute_kind file_embed env task db = execute_embed env task db
execute_kind dify_ingest env task db = execute_ingest env task db
execute_kind replica_repair env task db = execute_repair env.now task db
execute_kind pipeline_run env task db = execute_pipeline env task db
execute_kind backup env task db = execute_backup env db
execute_kind unknown_kind env task db =
    (err ("task executor not installed for kind: " <> task.kind), db)

-- `execute_task_payload`
unfoldable pub execute_task_payload : Executor → Task → Session → Result Payload × Session
unfolding execute_kind kind_of
execute_task_payload env task db = execute_kind (kind_of task.kind) env task db
