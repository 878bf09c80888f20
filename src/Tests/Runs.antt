-- ===== src/Tests/Runs.antt =====
-- The theorems on runs and the pipeline at small tables, with a toy hash and a toy embedding.
use knowledge_flywheel.Base.{
  subst, ℕ, true, none, some, List, [], ◌∷◌, ◌++◌, ◌≡◌, refl, not, keep, ok, err,
}
use knowledge_flywheel.Store.Table.{flush, put, add, delete_where, loaded, select}
use knowledge_flywheel.Models.Json.{null, num, str, compound, Payload, get_field}
use knowledge_flywheel.Models.Status.{FileStatus, TaskStatus}
use knowledge_flywheel.Models.Rows.{FileRecord, DocumentChunk, Task}
use knowledge_flywheel.Store.Order.{sort_by}
use knowledge_flywheel.Models.Session.{Session, commit}
use knowledge_flywheel.Parse.Split.{Text, split_text, is_space}
use knowledge_flywheel.Tasks.Queue.{claim_next_task, claim_task_by_id}
use knowledge_flywheel.Commands.Ack.{file_named, json_eq}
use knowledge_flywheel.Execution.Setup.{Executor, Embedding, State, content_text}
use knowledge_flywheel.Execution.Indexing.{of_file}
use knowledge_flywheel.Execution.Pipeline.{
  run_file_pipeline, run_sequential, current_record, replica_node,
}
use knowledge_flywheel.Execution.Kinds.{execute_pipeline, execute_parse, embed_key}
use knowledge_flywheel.Execution.Run.{run_task_once, run_task_by_id}
use knowledge_flywheel.Execution.Quiet.{IsQuiet, IsTidy, run_sequential-IsQuiet}
use mathlib.Core.Option.{some-injective}
use knowledge_flywheel.Execution.Settled.{Settles, runs_settle}
use knowledge_flywheel.Execution.Reindex.{chunk_rows, IsIndexOf, execute_parse_reindexes}
use knowledge_flywheel.Execution.Repairs.{HasRepairs, replica_node_again}
use knowledge_flywheel.Tests.Samples.{empty_session, settings}

abbrev toy_embedding : Embedding
toy_embedding = record { vector = "[]"; provider = "hash"; status = "degraded" }

abbrev worker_parts : Executor
worker_parts = record {
  settings = settings;
  now = 400;
  sha256 = λ text. "f00d";
  embed_text = λ text. toy_embedding;
  json_text = λ payload. "{}";
  json_list = λ texts. "[]";
  int_of = λ value. err "int() argument must be a string";
  ingest_file_to_dify = λ file_id db. err "Dify is not configured";
  perform_backup = ok [];
  langgraph = none;
}

abbrev note : FileRecord
note = record {
  id = 9;
  path = "/docs/note.txt";
  file_hash = "f00d";
  size_bytes = 3;
  status = FileStatus.parsing;
  alive = true;
  last_seen_at = 50;
  version = 1;
  category = "通用";
  source_node_id = "pc-1";
}

abbrev old_chunk : ℕ → ℕ → DocumentChunk
old_chunk n file_id = record {
  id = n;
  file_id = file_id;
  chunk_index = 0;
  content = 120 ∷ [];
  content_hash = "x";
  file_hash = "x";
  embedding = none;
  embedding_provider = none;
  embedding_status = "pending";
  embedded_at = none;
  hit_count = 0;
  created_at = 10;
}

-- The file has a chunk of another version, and so has another file.
abbrev one_note : Session
one_note = record empty_session {
  files = loaded note ∷ [];
  document_chunks = loaded (old_chunk 1 9) ∷ loaded (old_chunk 2 8) ∷ [];
}

abbrev parse_task : Task
parse_task = record {
  id = 3;
  idempotency_key = "file-parse:9:f00d";
  kind = "file_parse";
  status = TaskStatus.running;
  payload_json = ("file_id", num 9) ∷ ("file_hash", str "f00d") ∷ ("content", str "abc") ∷ [];
  attempts = 1;
  error = none;
  result_json = none;
  claimed_at = some 390;
  claimed_by = some "worker-1";
  created_at = 20;
}

abbrev parse_result : Payload
parse_result =
    ("execution", str "file_parse")
    ∷ ("file_id", num 9)
    ∷ ("file_hash", str "f00d")
    ∷ ("chunks", num 1)
    ∷ ("status", str "parsed")
    ∷ ("embedding_task", str (embed_key note))
    ∷ []

parse_returns : (execute_parse worker_parts parse_task one_note).0 ≡ ok parse_result
unfolding execute_parse get_field select json_eq split_text is_space
parse_returns = refl

execute_parse_reindexes_example :
    (f : FileRecord) × (file_named (get_field "file_id" parse_task.payload_json) one_note ≡ some f)
    × (text : Text) × (content_text (get_field "content" parse_task.payload_json) ≡ some text)
    × (worker_parts.sha256 text ≡ f.file_hash)
    × (chunks : List Text) × (split_text 1200 text ≡ ok chunks)
    × (new : List DocumentChunk) × (chunk_rows (execute_parse worker_parts parse_task one_note).1
        ≡ keep (λ c. not (of_file f.id c)) (chunk_rows one_note) ++ new)
    × IsIndexOf worker_parts f 0 chunks new
execute_parse_reindexes_example =
    execute_parse_reindexes worker_parts parse_task one_note parse_result (refl, (refl, tt))
      parse_returns

-- A worker with the graph library, which here runs the nodes in turn.
abbrev graph_parts : Executor
graph_parts = record worker_parts {
  settings = record settings { orchestration_mode = "langgraph" };
  int_of = λ value. ok 9;
  langgraph = some run_sequential;
}

graph_parts-IsTidy : IsTidy graph_parts
graph_parts-IsTidy invoke present nodes tidy state db quiet =
    subst (λ run. IsQuiet (run nodes state db).1) (some-injective run_sequential invoke present)
      (run_sequential-IsQuiet nodes state db tidy quiet)

abbrev pipeline_task : Task
pipeline_task = record parse_task {
  kind = "pipeline_run";
  status = TaskStatus.pending;
  claimed_at = none;
  claimed_by = none;
}

abbrev one_pipeline : Session
one_pipeline = record one_note { tasks = loaded pipeline_task ∷ [] }

runs_settle_example :
    Settles graph_parts
      (claim_next_task 400 "worker-1" 120 one_pipeline)
      (run_task_once graph_parts "worker-1" 120 one_pipeline)
    × Settles graph_parts
        (claim_task_by_id 400 3 "worker-1" 120 one_pipeline)
        (run_task_by_id graph_parts 3 "worker-1" 120 one_pipeline)
runs_settle_example = runs_settle graph_parts 3 "worker-1" 120 one_pipeline graph_parts-IsTidy tt

-- The sample run goes through the graph.
graph_runs :
    (execute_pipeline graph_parts pipeline_task one_pipeline).0
    ≡ ok (
        ("execution", str "pipeline_run")
        ∷ ("orchestration", str "langgraph")
        ∷ ("stages", compound "{}")
        ∷ [])
unfolding execute_pipeline run_file_pipeline select json_eq split_text is_space get_field
    run_sequential commit flush put sort_by add delete_where
graph_runs = refl

abbrev note_state : State
note_state = record { file_id = 9; file_hash = str "f00d"; content = null }

abbrev first_result : Payload
first_result =
    ("replica", str "ok") ∷ ("repairs_queued", num 1) ∷ ("replica_nodes", compound "[]") ∷ []

replica_returns : (replica_node worker_parts note_state one_note).0 ≡ ok first_result
unfolding replica_node select json_eq
replica_returns = refl

replica_node_again_example :
    let db' = (replica_node worker_parts note_state one_note).1 in
    (f : FileRecord) × (current_record note_state one_note ≡ ok f)
    × HasRepairs worker_parts 9 f.file_hash db'
    × ((replica_node worker_parts note_state db').0
        ≡ ok (
            ("replica", str "ok")
            ∷ ("repairs_queued", num 0)
            ∷ ("replica_nodes", compound "[]")
            ∷ []))
    × ((replica_node worker_parts note_state db').1.tasks ≡ db'.tasks)
replica_node_again_example =
    replica_node_again worker_parts note_state one_note first_result (refl, tt) tt replica_returns
