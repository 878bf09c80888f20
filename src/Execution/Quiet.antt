-- ===== src/Execution/Quiet.antt =====
-- The pipeline leaves no alert to flush.
use knowledge_flywheel.Base.{
  ℕ, String, none, some, List, [], ◌∷◌, ◌≡◌, refl, Option, Option-cases, Bool-cases, inl, inr,
  str_eq, Result, ok, err, Result-cases, All, show,
}
use knowledge_flywheel.Store.Table.{IsClean}
use knowledge_flywheel.Store.Laws.{flush-IsClean}
use knowledge_flywheel.Models.Json.{num, Payload}
use knowledge_flywheel.Models.Rows.{DocumentChunk}
use knowledge_flywheel.Models.Session.{Session, flush_all, commit}
use knowledge_flywheel.Execution.Setup.{Executor, State, Stage, Stages, lineage}
use knowledge_flywheel.Execution.Indexing.{checked_chunks}
use knowledge_flywheel.Execution.Pipeline.{
  register_node, current_record, parse_text, parse_node, parse_content, is_null, embed_found,
  embed_node, replica_node, pipeline_nodes, then_stage, run_sequential, with_mode, or_fallback,
  run_state_machine, run_file_pipeline,
}

abbrev pub IsQuiet : Session → Type 0
IsQuiet db = IsClean db.alerts

pub commit-IsQuiet : (db : Session) → IsQuiet (commit db)
unfolding commit flush_all
commit-IsQuiet db = flush-IsClean db.alerts

register_node-IsQuiet :
    (state : State) (db : Session) → IsQuiet db → IsQuiet (register_node state db).1
unfolding register_node
register_node-IsQuiet state db c =
    elim (Result-cases (lineage (num state.file_id) state.file_hash db)) [
      | inl (f, found) ↦ rw (found, register_node) (commit-IsQuiet _)
      | inr (text, raised) ↦ rw (raised, register_node) c
    ]

parse_text-IsQuiet :
    (env : Executor) (state : State) (text : List ℕ) (db : Session)
    → IsQuiet db
    → IsQuiet (parse_text env state text db).1
unfolding parse_text
parse_text-IsQuiet env state text db c = elim (Result-cases (current_record state db)) [
  | inr (reason, raised) ↦ rw (raised, parse_text) c
  | inl (f, found) ↦ elim (Result-cases (checked_chunks env (show state.file_id) text f)) [
    | inr (reason, raised) ↦ rw (found, parse_text, raised) c
    | inl (chunks, split) ↦ rw (found, parse_text, split) (commit-IsQuiet _)
  ]
]

parse_content-IsQuiet :
    (env : Executor) (state : State) (o : Option (List ℕ)) (db : Session)
    → IsQuiet db
    → IsQuiet (parse_content env state o db).1
unfolding parse_content
parse_content-IsQuiet env state none db c = c
parse_content-IsQuiet env state (some text) db c = parse_text-IsQuiet env state text db c

parse_node-IsQuiet :
    (env : Executor) (state : State) (db : Session)
    → IsQuiet db
    → IsQuiet (parse_node env state db).1
unfolding parse_node
parse_node-IsQuiet env state db c = elim (Bool-cases (is_null state.content)) [
  | inl skipped ↦ rw (skipped, parse_node) c
  | inr given ↦ rw (given, parse_node) (parse_content-IsQuiet env state _ db c)
]

embed_found-IsQuiet :
    (env : Executor) (n : ℕ) (h : String) (chunks : List DocumentChunk) (db : Session)
    → IsQuiet db
    → IsQuiet (embed_found env n h chunks db).1
unfolding embed_found
embed_found-IsQuiet env n h [] db c = c
embed_found-IsQuiet env n h (x ∷ xs) db c = commit-IsQuiet _

replica_node-IsQuiet :
    (env : Executor) (state : State) (db : Session)
    → IsQuiet db
    → IsQuiet (replica_node env state db).1
unfolding replica_node
replica_node-IsQuiet env state db c = elim (Result-cases (current_record state db)) [
  | inl (f, found) ↦ rw (found, replica_node) (commit-IsQuiet _)
  | inr (text, raised) ↦ rw (raised, replica_node) c
]

-- A stage that leaves no alert to flush.
abbrev pub IsTidyStage : (String × Stage) → Type 0
IsTidyStage (name, node) = (state : State) (db : Session) → IsQuiet db → IsQuiet (node state db).1

pipeline_nodes-IsTidyStage : (env : Executor) → All IsTidyStage (pipeline_nodes env)
unfolding pipeline_nodes embed_node
pipeline_nodes-IsTidyStage env = (
  register_node-IsQuiet,
  (
    parse_node-IsQuiet env,
    (
      (λ state db c. embed_found-IsQuiet env state.file_id _ _ db c),
      (replica_node-IsQuiet env, tt),
    ),
  ),
)

then_stage-session :
    (name : String) (p : Payload) (rest : Result Stages × Session)
    → (then_stage name p rest).1 ≡ rest.1
then_stage-session name p (ok stages, db) = refl
then_stage-session name p (err text, db) = refl

pub run_sequential-IsQuiet :
    (nodes : List (String × Stage)) (state : State) (db : Session)
    → All IsTidyStage nodes
    → IsQuiet db
    → IsQuiet (run_sequential nodes state db).1
unfolding run_sequential
run_sequential-IsQuiet [] state db tidy c = c
run_sequential-IsQuiet ((name, node) ∷ nodes) state db tidy c =
    let c' = tidy.0 state db c in
    elim (Result-cases (node state db).0) [
      | inr (text, raised) ↦ rw (raised, run_sequential) c'
      | inl (p, returned) ↦
          rw (returned, run_sequential)
            (rw (then_stage-session name p (run_sequential nodes state (node state db).1))
              (run_sequential-IsQuiet nodes state (node state db).1 tidy.1 c'))
    ]

with_mode-session : (mode : String) (r : Result Stages × Session) → (with_mode mode r).1 ≡ r.1
with_mode-session mode (ok stages, db) = refl
with_mode-session mode (err text, db) = refl

-- The graph library, where it is installed, only runs the nodes that it is given: where none of them
-- leaves an alert to flush, nor does the graph.
abbrev pub IsTidy : Executor → Type 0
IsTidy env =
    (invoke : List (String × Stage) → State → Session → Result Stages × Session)
    → env.langgraph ≡ some invoke
    → (nodes : List (String × Stage)) → All IsTidyStage nodes
    → (state : State) (db : Session) → IsQuiet db
    → IsQuiet (invoke nodes state db).1

run_state_machine-IsQuiet :
    (env : Executor) (state : State) (db : Session)
    → IsQuiet db
    → IsQuiet (run_state_machine env state db).1
unfolding run_state_machine
run_state_machine-IsQuiet env state db c =
    rw (with_mode-session "state_machine" (run_sequential (pipeline_nodes env) state db))
      (run_sequential-IsQuiet (pipeline_nodes env) state db (pipeline_nodes-IsTidyStage env) c)

or_fallback-IsQuiet :
    (env : Executor) (state : State) (r : Result Stages × Session)
    → IsQuiet r.1
    → IsQuiet (or_fallback env state r).1
or_fallback-IsQuiet env state (ok stages, db) c = c
or_fallback-IsQuiet env state (err text, db) c =
    rw (with_mode-session "state_machine_fallback" (run_sequential (pipeline_nodes env) state db))
      (run_sequential-IsQuiet (pipeline_nodes env) state db (pipeline_nodes-IsTidyStage env) c)

pub run_file_pipeline-IsQuiet :
    (env : Executor)
    → IsTidy env
    → (state : State) (db : Session) → IsQuiet db
    → IsQuiet (run_file_pipeline env state db).1
unfolding run_file_pipeline
run_file_pipeline-IsQuiet env tidy state db c = elim (Option-cases env.langgraph) [
  | inl absent ↦ rw (absent, run_file_pipeline) (run_state_machine-IsQuiet env state db c)
  | inr (invoke, present) ↦ elim (Bool-cases (str_eq env.settings.orchestration_mode "langgraph")) [
    | inl chosen ↦
        rw (present, run_file_pipeline, chosen)
          (or_fallback-IsQuiet env state (invoke (pipeline_nodes env) state db)
            (tidy invoke present (pipeline_nodes env) (pipeline_nodes-IsTidyStage env) state db c))
    | inr sequence ↦
        rw (present, run_file_pipeline, sequence) (run_state_machine-IsQuiet env state db c)
  ]
]
