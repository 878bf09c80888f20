-- ===== src/Execution/Pipeline.antt =====
-- knowledge-hub/app/langgraph_flow.py: the four nodes, in order or as a graph.
use knowledge_flywheel.Base.{
  ℕ, ◌+◌, String, Bool, true, false, ◌&&◌, ◌||◌, not, Option, none, some, List, [], ◌∷◌, str_eq,
  if◌then◌else◌, map, ◌&&◌, length, show, Result, ok, err, ◌<>◌,
}
use knowledge_flywheel.Models.Json.{Json, null, bool, num, str, compound, Payload, as_str}
use knowledge_flywheel.Models.Status.{
  FileStatus, file_is, registered, parsed, parsing, parse_failed,
}
use knowledge_flywheel.Models.Rows.{FileRecord, DocumentChunk}
use knowledge_flywheel.Models.Session.{Session, commit}
use knowledge_flywheel.Parse.Split.{Text}
use knowledge_flywheel.Tasks.Queue.{TaskCreate, add_task, task_by_key}
use knowledge_flywheel.Files.Report.{save_file}
use knowledge_flywheel.Commands.Ack.{json_eq, file_named}
use knowledge_flywheel.Execution.Setup.{Executor, State, Stage, Stages, content_text, lineage}
use knowledge_flywheel.Execution.Indexing.{
  replace_chunks, checked_chunks, chunks_of, embed_chunks, providers_of,
}

-- `record.status not in {"parsed", "parsing", "parse_failed"}`
abbrev pub is_unread : FileStatus → Bool
is_unread s = not (file_is s parsed || (file_is s parsing || file_is s parse_failed))

unfoldable pub as_registered : FileRecord → FileRecord
as_registered f = if is_unread f.status then record f { status = registered } else f

-- `_register_node`
unfoldable pub register_node : Stage
unfolding as_registered lineage save_file
register_node state db = elim (lineage (num state.file_id) state.file_hash db) [
  | err raised ↦ (err raised, db)
  | ok f ↦ (
    ok (("register", str "ok") ∷ ("registered", bool true) ∷ []),
    commit (save_file (as_registered f) db),
  )
]

-- `record is None or record.file_hash != file_hash`
unfoldable pub current_record : State → Session → Result FileRecord
current_record state db = elim (file_named (num state.file_id) db) [
  | none ↦ err ("file hash lineage mismatch for file: " <> show state.file_id)
  | some f ↦
      if json_eq (str f.file_hash) state.file_hash
      then ok f
      else err ("file hash lineage mismatch for file: " <> show state.file_id)
]

-- `_parse_node`, where there is a content.
unfoldable pub parse_text : Executor → State → Text → Session → Result Payload × Session
unfolding current_record checked_chunks replace_chunks save_file
parse_text env state text db = elim (current_record state db) [
  | err raised ↦ (err raised, db)
  | ok f ↦ elim (checked_chunks env (show state.file_id) text f) [
    | err raised ↦ (err raised, db)
    | ok chunks ↦ (
      ok (("parse", str "ok") ∷ ("chunks", num (length chunks)) ∷ []),
      commit (save_file (record f { status = parsed }) (replace_chunks env f chunks db)),
    )
  ]
]

-- `_parse_node`, where the content is not None, by the text that passed its check.
unfoldable pub parse_content : Executor → State → Option Text → Session → Result Payload × Session
unfolding parse_text
parse_content env state none db =
    (err ("pipeline parse content is required for file: " <> show state.file_id), db)
parse_content env state (some text) db = parse_text env state text db

-- `content is None`
abbrev pub is_null : Json → Bool
is_null null = true
is_null _ = false

-- `_parse_node`
unfoldable pub parse_node : Executor → Stage
unfolding parse_content
parse_node env state db =
    if is_null state.content
    then (
      ok (("parse", str "skipped") ∷ ("reason", str "no content supplied to the pipeline") ∷ []),
      db,
    )
    else parse_content env state (content_text state.content) db

unfoldable pub embed_found :
    Executor → ℕ → String → List DocumentChunk → Session → Result Payload × Session
unfolding embed_chunks providers_of
embed_found env file_id file_hash [] db =
    (ok (("embed", str "skipped") ∷ ("reason", str "no chunks available") ∷ []), db)
embed_found env file_id file_hash (c ∷ cs) db = (
  ok (
      ("embed", str "ok")
      ∷ ("chunks", num (length (c ∷ cs)))
      ∷ ("providers", compound (env.json_list (providers_of env (c ∷ cs))))
      ∷ []),
  commit (embed_chunks env file_id file_hash db),
)

-- The hash in the query for chunks: a value that is no text equals none.
abbrev pub hash_or_empty : Json → String
hash_or_empty v = elim (as_str v) [ none ↦ "" | some s ↦ s ]

-- `_embed_node`
unfoldable pub embed_node : Executor → Stage
unfolding embed_found chunks_of
embed_node env state db =
    let file_hash = hash_or_empty state.file_hash in
    embed_found env state.file_id file_hash (chunks_of state.file_id file_hash db) db

abbrev pub repair_key : ℕ → String → String → String
repair_key file_id file_hash node_id =
    "replica-repair:" <> show file_id <> ":" <> file_hash <> ":" <> node_id

abbrev pub repair_request : ℕ → String → String → TaskCreate
repair_request file_id file_hash node_id = record {
  kind = "replica_repair";
  idempotency_key = repair_key file_id file_hash node_id;
  payload =
      ("file_id", num file_id)
      ∷ ("file_hash", str file_hash)
      ∷ ("target_node_id", str node_id)
      ∷ [];
}

-- The repair task of one node, and whether it was added.
unfoldable pub queue_repair : ℕ → ℕ → String → String → Session → Bool × Session
unfolding add_task
queue_repair now file_id file_hash node_id db =
    elim (task_by_key (repair_key file_id file_hash node_id) db) [
      | some _ ↦ (false, db)
      | none ↦ (true, add_task now (repair_request file_id file_hash node_id) db)
    ]

-- The loop over the nodes that hold replicas, with the number of tasks that it adds.
unfoldable pub queue_repairs : ℕ → ℕ → String → List String → Session → ℕ × Session
unfolding queue_repair
queue_repairs now file_id file_hash [] db = (0, db)
queue_repairs now file_id file_hash (node_id ∷ node_ids) db =
    let (added, db') = queue_repair now file_id file_hash node_id db in
    let (n, db'') = queue_repairs now file_id file_hash node_ids db' in
    ((if added then 1 else 0) + n, db'')

-- `_replica_node`
unfoldable pub replica_node : Executor → Stage
unfolding current_record queue_repairs
replica_node env state db = elim (current_record state db) [
  | err raised ↦ (err raised, db)
  | ok f ↦
      let nodes = env.settings.fixed_replica_node_ids in
      let (queued, db') = queue_repairs env.now state.file_id f.file_hash nodes db in
      (
        ok (
            ("replica", str "ok")
            ∷ ("repairs_queued", num queued)
            ∷ ("replica_nodes", compound (env.json_list nodes))
            ∷ []),
        commit db',
      )
]

-- _PIPELINE_NODES
unfoldable pub pipeline_nodes : Executor → List (String × Stage)
unfolding register_node parse_node embed_node replica_node
pipeline_nodes env =
    ("register", register_node)
    ∷ ("parse", parse_node env)
    ∷ ("embed", embed_node env)
    ∷ ("replica", replica_node env)
    ∷ []

-- The rest of the loop, after a node that returned.
abbrev pub then_stage : String → Payload → Result Stages × Session → Result Stages × Session
then_stage name stage (ok stages, db) = (ok ((name, stage) ∷ stages), db)
then_stage name stage (err raised, db) = (err raised, db)

-- `_run_sequential`: a node that raises ends the loop; what the nodes before it committed stays.
unfoldable pub run_sequential : List (String × Stage) → State → Session → Result Stages × Session
run_sequential [] state db = (ok [], db)
run_sequential ((name, node) ∷ nodes) state db =
    let (result, db') = node state db in
    let rest = run_sequential nodes state db' in
    elim result [ err raised ↦ (err raised, db') | ok stage ↦ then_stage name stage rest ]

-- What `run_file_pipeline` returns.
pub record PipelineRun : Type 0 where
  pub orchestration : String
  pub stages : Stages

abbrev pub with_mode : String → Result Stages × Session → Result PipelineRun × Session
with_mode mode (ok stages, db) = (ok (record { orchestration = mode; stages = stages }), db)
with_mode mode (err raised, db) = (err raised, db)

-- The graph, and the sequence where the graph raises.
abbrev pub or_fallback : Executor → State → Result Stages × Session → Result PipelineRun × Session
or_fallback env state (ok stages, db) = with_mode "langgraph" (ok stages, db)
or_fallback env state (err raised, db) =
    with_mode "state_machine_fallback" (run_sequential (pipeline_nodes env) state db)

unfoldable pub run_state_machine : Executor → State → Session → Result PipelineRun × Session
unfolding run_sequential pipeline_nodes
run_state_machine env state db =
    with_mode "state_machine" (run_sequential (pipeline_nodes env) state db)

-- `run_file_pipeline`
unfoldable pub run_file_pipeline : Executor → State → Session → Result PipelineRun × Session
unfolding run_state_machine run_sequential pipeline_nodes
run_file_pipeline env state db = elim env.langgraph [
  | none ↦ run_state_machine env state db
  | some invoke ↦
      if str_eq env.settings.orchestration_mode "langgraph"
      then or_fallback env state (invoke (pipeline_nodes env) state db)
      else run_state_machine env state db
]

-- What `orchestration_status` returns.
pub record OrchestrationStatus : Type 0 where
  pub configured_mode : String
  pub langgraph_available : Bool
  pub effective_mode : String
  pub pipeline : List String

-- `langgraph_available`
abbrev pub is_available : Executor → Bool
is_available env = elim env.langgraph [ none ↦ false | some _ ↦ true ]

-- `orchestration_status`
unfoldable pub orchestration_status : Executor → OrchestrationStatus
unfolding pipeline_nodes
orchestration_status env = record {
  configured_mode = env.settings.orchestration_mode;
  langgraph_available = is_available env;
  effective_mode =
      if str_eq env.settings.orchestration_mode "langgraph" && is_available env
      then "langgraph"
      else "state_machine";
  pipeline = map (λ (node : String × Stage). node.0) (pipeline_nodes env);
}
