-- ===== src/Files/Report.antt =====
-- The operations of a file report.
use knowledge_flywheel.Base.{
  ℕ, ◌+◌, String, Bool, true, false, ◌&&◌, ◌||◌, not, Option, none, some, List, [], ◌∷◌, ltb, leb,
  ◌==◌, str_eq, if◌then◌else◌, show, ◌<>◌,
}
use knowledge_flywheel.Store.Table.{Table, select, first, for_each, add, put, next_id}
use knowledge_flywheel.Store.Order.{sort_by}
use knowledge_flywheel.Models.Json.{str, num}
use knowledge_flywheel.Models.Status.{
  FileStatus, ReplicaStatus, TaskStatus, file_is, task_is, reported, registered, parsing, parsed,
  parse_failed, superseded,
}
use knowledge_flywheel.Models.Rows.{
  FileRecord, FileReplica, Task, file_entity, replica_entity, task_entity,
}
use knowledge_flywheel.Models.Session.{Session, flush_all, commit, audit}
use knowledge_flywheel.Tasks.Queue.{TaskCreate, add_task, save_task, task_by_key, audit_task}
use knowledge_flywheel.Alerts.Board.{resolve_alert}

pub record FileReport : Type 0 where
  pub node_id : String
  pub path : String
  pub file_hash : String
  pub size_bytes : ℕ
  pub category : String

-- `data.category or ...`
abbrev pub category_of : String → String
category_of c = if str_eq c "" then "未分类" else c

abbrev pub is_version : String → String → FileRecord → Bool
is_version path file_hash f = str_eq f.path path && str_eq f.file_hash file_hash

abbrev pub has_path : String → FileRecord → Bool
has_path path f = str_eq f.path path

unfoldable pub save_file : FileRecord → Session → Session
save_file f db = record db { files = put f db.files }

-- `_upsert_file_replica`
unfoldable pub upsert_file_replica : FileRecord → String → String → ℕ → Session → Session
upsert_file_replica file node_id file_hash now db =
    elim (first (λ (r : FileReplica). r.file_id == file.id && str_eq r.node_id node_id)
      db.file_replicas) [
        | none ↦ record db {
          file_replicas =
              add
                (record {
                  id = next_id db.file_replicas;
                  file_id = file.id;
                  node_id = node_id;
                  status = ReplicaStatus.healthy;
                  file_hash = file_hash;
                  last_seen_at = now;
                })
                db.file_replicas;
        }
        | some r ↦ record db {
          file_replicas =
              put
                (record r {
                  file_hash = file_hash;
                  status = ReplicaStatus.healthy;
                  last_seen_at = now;
                })
                db.file_replicas;
        }
      ]

abbrev pub has_succeeded : Option Task → Bool
has_succeeded none = false
has_succeeded (some t) = task_is t.status TaskStatus.success

-- `existing.status in {"registered", "parsing", "parsed"}`
abbrev pub is_indexed : FileStatus → Bool
is_indexed s = file_is s registered || (file_is s parsing || file_is s parsed)

-- Whether the report takes the branch for a missing file, which resolves its alert.
abbrev pub is_back : Option Task → Option Task → FileStatus → Bool
is_back task parse_task s =
    not (has_succeeded parse_task)
    && (not (has_succeeded task && not (file_is s parsing || file_is s parse_failed))
        && file_is s FileStatus.missing)

-- The status of a version that is reported again.
unfoldable pub reported_status : Option Task → Option Task → FileStatus → FileStatus
reported_status task parse_task s =
    let s' =
      if has_succeeded parse_task
      then parsed
      else if has_succeeded task && not (file_is s parsing || file_is s parse_failed)
      then registered
      else s in
    if is_indexed s' then s' else reported

unfoldable pub refreshed : ℕ → FileReport → Option Task → Option Task → FileRecord → FileRecord
unfolding reported_status
refreshed now report task parse_task f = record f {
  source_node_id = report.node_id;
  size_bytes = report.size_bytes;
  alive = true;
  last_seen_at = now;
  category = category_of report.category;
  status = reported_status task parse_task f.status;
}

abbrev pub register_key : FileRecord → String
register_key f = "file-register:" <> show f.id <> ":" <> f.file_hash

abbrev pub parse_key : FileRecord → String
parse_key f = "file-parse:" <> show f.id <> ":" <> f.file_hash

abbrev pub register_request : FileRecord → TaskCreate
register_request f = record {
  kind = "file_register";
  idempotency_key = register_key f;
  payload = ("file_id", num f.id) ∷ ("file_hash", str f.file_hash) ∷ [];
}

-- The register task of a version that is reported again, and not indexed yet.
unfoldable pub ensure_registered : ℕ → FileReport → Option Task → FileRecord → Session → Session
unfolding add_task save_task audit_task
ensure_registered now report none f db =
    if is_indexed f.status then db else add_task now (register_request f) db
ensure_registered now report (some t) f db =
    if not (is_indexed f.status) && task_is t.status TaskStatus.failed
    then audit_task t "requeued" report.node_id (("reason", str "file_report_repeated") ∷ [])
        (save_task (record t { status = TaskStatus.pending; error = none; result_json = none }) db)
    else db

-- The branch for a version that is known.
unfoldable pub report_again :
    ℕ → FileReport → Option Task → Option Task → FileRecord → Session → FileRecord × Session
unfolding refreshed save_file resolve_alert ensure_registered upsert_file_replica
report_again now report task parse_task existing db =
    let f = refreshed now report task parse_task existing in
    let db1 = save_file f db in
    let db2 = resolve_alert now ("file.missing:" <> show f.id) db1 in
    let db3 =
      ensure_registered now report task f
        (if is_back task parse_task existing.status then db2 else db1) in
    (f, commit (upsert_file_replica f report.node_id report.file_hash now db3))

-- `order_by(FileRecord.version.desc(), FileRecord.id.desc())`
abbrev pub newer_first : FileRecord → FileRecord → Bool
newer_first a b = ltb b.version a.version || (a.version == b.version && leb b.id a.id)

abbrev pub next_version : List FileRecord → ℕ
next_version [] = 1
next_version (f ∷ _) = f.version + 1

unfoldable pub retired : FileRecord → FileRecord
retired f = if f.alive then record f { alive = false; status = superseded } else f

abbrev pub audit_retired : FileReport → List FileRecord → Session → Session
audit_retired report [] db = db
audit_retired report (f ∷ fs) db = audit_retired report fs (
    if f.alive
    then audit report.node_id "file.superseded" "file" (show f.id)
        (("new_file_hash", str report.file_hash) ∷ []) db
    else db)

unfoldable pub new_file : ℕ → FileReport → ℕ → Table FileRecord → FileRecord
new_file now report version files = record {
  id = next_id files;
  path = report.path;
  file_hash = report.file_hash;
  size_bytes = report.size_bytes;
  status = reported;
  alive = true;
  last_seen_at = now;
  version = version;
  category = category_of report.category;
  source_node_id = report.node_id;
}

-- The branch for a version that is new, by the prior versions of its path.
unfoldable pub report_new : ℕ → FileReport → List FileRecord → Session → FileRecord × Session
unfolding retired new_file add_task upsert_file_replica
report_new now report prior_versions db =
    let f = new_file now report (next_version prior_versions) db.files in
    let db1 =
      audit_retired report prior_versions
        (record db { files = add f (for_each (has_path report.path) retired db.files) }) in
    (
      f,
      commit (
          upsert_file_replica f report.node_id report.file_hash now
            (add_task now (register_request f) (flush_all db1))),
    )

abbrev pub prior_versions_of : String → Session → List FileRecord
prior_versions_of path db = sort_by newer_first (select (has_path path) db.files)

-- `report_file`
unfoldable pub report_file : ℕ → FileReport → Session → FileRecord × Session
unfolding report_again report_new
report_file now report db = elim (first (is_version report.path report.file_hash) db.files) [
  | some f ↦
      report_again now report (task_by_key (register_key f) db) (task_by_key (parse_key f) db) f db
  | none ↦ report_new now report (prior_versions_of report.path db) db
]
