-- ===== src/Lib.antt =====
-- A model of knowledge-hub, the server of a knowledge base that keeps a file index, a task
-- queue for its workers, alerts with notifications, and commands for edge nodes.
--
-- All parts work on one SQLAlchemy session (knowledge-hub/app/db.py,
-- knowledge-hub/app/models.py). A request handler or a worker calls one operation of
-- knowledge-hub/app/services.py or knowledge-hub/app/alerting.py, which queries rows, changes
-- objects and commits. An operation is a function from the session to its result and the
-- session after it.
--
-- Store: the session. A table is a list of rows, each with what the database stores and the
-- object that the session holds. The production sessions have autoflush=False, so a query tests
-- what is stored while a change only touches the object, until flush or commit.
--
-- Models: the mapped classes (models.py) and the session over their tables (db.py).
--
-- Config: the fields of Settings (config.py) that the modelled operations read.
--
-- Tasks: the task queue of services.py. Tasks.Queue has create_task, transition_task,
-- claim_next_task and claim_task_by_id. Tasks.Claims holds lemmas on a claim, Tasks.Exclusion
-- and Tasks.Poll the properties of claims, Tasks.Lifecycle those of transitions, Tasks.Creation
-- those of creation.
--
-- Alerts: Alerts.Board has _upsert_alert, _resolve_alert and acknowledge_alert of services.py;
-- Alerts.Delivery has build_notifiers, ensure_deliveries, _attempt_delivery and
-- process_alert_deliveries of alerting.py. An alert that is reported reconciles its delivery
-- rows; the notifier of a channel is a parameter (Transport) that returns the text of the
-- exception it raised, if it raised one. Alerts.Retry, Alerts.Upsert and Alerts.Rows hold the
-- properties.
--
-- Parse: Parse.Split has _split_text of services.py, on lists of code points; Parse.Bounds and
-- Parse.Content hold its properties. The loop that cuts a long paragraph runs on fuel, the
-- length of the paragraph: each round takes at least one character where the limit is above
-- zero, so that many rounds are enough.
--
-- Commands: the remote commands of services.py and the handler node_command_ack of
-- knowledge-hub/app/main.py. Commands.Queue has create_remote_command and
-- claim_next_remote_command, Commands.Ack has acknowledge_remote_command, which settles the
-- task and the replica row of a repair. Commands.Claims, Commands.Repair, Commands.Final and
-- Commands.Creation hold the properties. A request that raises closes its session without a
-- commit. json_eq compares texts, numbers and truth values as Python does, and lists, objects
-- and other numbers by the text that stands for them in the model.
--
-- Files: report_file and _upsert_file_replica of services.py, in Files.Report. Files.Versions
-- holds what a new version of a path does to the other versions, Files.Registration what
-- becomes of the register task of a version that is reported again. Nothing rules out a path
-- that was reported under an older hash once more: that version becomes alive beside the newer
-- one, as in the code.
--
-- Nodes: heartbeat, apply_node_status_event and refresh_node_statuses of services.py, in
-- Nodes.Status; Nodes.Liveness holds the properties. The load of a node is a float that is only
-- stored, and stands as its text.
--
-- Proposals: review_proposal of services.py and its handler, in Proposals.Review;
-- Proposals.Once holds the property.
--
-- Overrides: settings_store.py. Overrides.Settings has get_effective_setting, list_overrides,
-- set_override and mask_secret on lists of code points; Overrides.Refinement takes the table
-- for a function from keys to texts, Overrides.Mask is about the mask.
--
-- Security: security.py and the guards of knowledge-hub/app/main.py. Security.Keys has the API
-- keys, Security.Tokens the signed tokens, Security.Guards authorize and the guards of a role;
-- Security.Granted has what they ask of a request, and lemmas on it; Security.Revocation,
-- Security.RoundTrip and Security.Closed hold the properties. SHA-256, HMAC, base64, JSON and
-- the random parts of a key are parameters. lower maps the ASCII letters only. verify_token
-- raises on a token with a character outside ASCII, which the model takes for any other text,
-- and on an exp that int() refuses, for which the model's loads returns nothing; in neither
-- case does the code let the request through.
--
-- Execution: how a claimed task runs. Execution.Setup has what a run takes from outside,
-- Execution.Indexing the chunks of a file, Execution.Pipeline langgraph_flow.py,
-- Execution.Kinds execute_task_payload, Execution.Run run_task_once, run_task_by_id and
-- queue_file_content_parse. A node of the pipeline opens its own session, which ends without a
-- commit where the node raises; since the worker commits its claim before, the nodes see the
-- same committed tables. The keys of chunks, which are deleted, are referred to by no table.
-- Execution.Quiet and Execution.Clean hold lemmas, Execution.Settled, Execution.Reindex and
-- Execution.Repairs the properties. Python's int of a value is a parameter, and stands for no
-- negative number.
--
-- Blobs: storage.py in Blobs.Storage, store_blob and load_blob of services.py in Blobs.Objects,
-- over the session and what the backends store; Blobs.RoundTrip holds the property. A path that
-- resolves below the root is taken for the key it came from.
--
-- Replicas: reconcile_file_liveness of services.py in Replicas.Sweep, replica_policy_health in
-- Replicas.Health; Replicas.Records holds lemmas, Replicas.Swept the property. A cutoff before
-- the first instant is compared as the sum on the other side.
--
-- Updater: updater.py. Updater.Release has the release check, Updater.Update perform_update
-- over the update's state, the downloaded file and whether the restart was started;
-- Updater.Outcomes holds the property. Other programs' files are not modelled.
--
-- Files.Handlers has file_update, file_delete and gateway_file_download of main.py;
-- Files.Deletion holds the property.
--
-- Proposals.Harness has review_document of dsh_client.py, Proposals.Drafts
-- create_dsh_review_proposal of services.py; Proposals.Drafted holds the property. The body of
-- a proposal is the dictionary that is written as JSON.
--
-- Base has the shared Boolean tests, list lemmas and results, Tests the data and the small
-- tables on which the theorems are applied.
--
-- Instants are natural numbers of microseconds, and the time that an operation reads is an
-- argument. Numbers are unbounded, as in Python; the database's integer columns are not
-- narrowed. Each operation is one transaction: the row locks of PostgreSQL make the claims of
-- concurrent workers a sequence of calls, which the lists of claims in Tasks.Exclusion stand
-- for. A commit that violates a unique column is not modelled as an error.
--
-- Not modelled: search, whose scores are floats, the gap list, and the choice between the
-- broker and polling. Left out as input and output only: the rest of the HTTP interface, the
-- clients of Dify and the embedding server, the MQTT bridge, backups, scripts, and the edge
-- agent, which is a separate program.
pub mod Base
pub mod Store
pub mod Models
pub mod Tasks
pub mod Config
pub mod Alerts
pub mod Blobs
pub mod Commands
pub mod Execution
pub mod Files
pub mod Nodes
pub mod Overrides
pub mod Parse
pub mod Proposals
pub mod Replicas
pub mod Security
pub mod Updater
pub mod Tests
