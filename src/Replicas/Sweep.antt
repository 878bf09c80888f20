-- ===== src/Replicas/Sweep.antt =====
-- reconcile_file_liveness.
use knowledge_flywheel.Base.{
  ℕ, ◌+◌, String, Bool, true, false, ◌&&◌, ◌||◌, not, none, some, List, [], ◌∷◌, ◌==◌, ltb, str_eq,
  if◌then◌else◌, any, keep, map, length, show, ◌<>◌,
}
use knowledge_flywheel.Config.{Settings}
use knowledge_flywheel.Store.Table.{select, for_each}
use knowledge_flywheel.Models.Json.{str, num}
use knowledge_flywheel.Models.Status.{
  FileStatus, ReplicaStatus, file_is, replica_is, superseded, reported,
}
use knowledge_flywheel.Models.Rows.{FileRecord, FileReplica}
use knowledge_flywheel.Models.Session.{Session, commit, audit}
use knowledge_flywheel.Tasks.Queue.{seconds}
use knowledge_flywheel.Alerts.Board.{AlertReport, upsert_alert, resolve_alert}
use knowledge_flywheel.Files.Report.{save_file}
use knowledge_flywheel.Commands.Queue.{node_of}
use knowledge_flywheel.Execution.Pipeline.{queue_repair}

-- The sweep's clock and limits: `missing_after` is in seconds.
pub record Watch : Type 0 where
  pub now : ℕ
  pub missing_after : ℕ
  pub settings : Settings

-- `node is not None and node.is_replica`
abbrev pub is_enabled : Session → String → Bool
is_enabled db node_id = elim (node_of node_id db) [ none ↦ false | some n ↦ n.is_replica ]

-- `seen < cutoff`
abbrev pub is_overdue : Watch → ℕ → Bool
is_overdue w seen = ltb (seen + seconds w.missing_after) w.now

-- The test for a file that is marked missing now.
abbrev pub turns_missing : Watch → FileRecord → Bool
turns_missing w f =
    is_overdue w f.last_seen_at && (f.alive || not (file_is f.status FileStatus.missing))

-- The test for a file that is back.
abbrev pub turns_alive : Watch → FileRecord → Bool
turns_alive w f = not (is_overdue w f.last_seen_at) && not f.alive

abbrev pub gone : FileRecord → FileRecord
gone f = record f { alive = false; status = FileStatus.missing }

abbrev pub back : FileRecord → FileRecord
back f = record f {
  alive = true;
  status = if file_is f.status FileStatus.missing then reported else f.status;
}

abbrev pub missing_key : FileRecord → String
missing_key f = "file.missing:" <> show f.id

abbrev pub missing_report : Watch → FileRecord → AlertReport
missing_report w f = record {
  fingerprint = missing_key f;
  severity = "high";
  kind = "file_missing";
  resource_type = "file";
  resource_id = show f.id;
  message = "文件 " <> f.path <> " 在 " <> show w.missing_after <> " 秒内未被源节点确认";
}

-- The first half of the loop's body: the file as it is then, and the session.
unfoldable pub sweep_file : Watch → FileRecord → Session → FileRecord × Session
unfolding save_file
sweep_file w f db =
    if turns_missing w f
    then (
      gone f,
      (upsert_alert w.now w.settings (missing_report w f) (
          audit "system" "file.missing" "file" (show f.id) (("path", str f.path) ∷ [])
            (save_file (gone f) db))).1,
    )
    else if turns_alive w f
    then (
      back f,
      resolve_alert w.now (missing_key f) (
          audit "system" "file.recovered" "file" (show f.id) (("path", str f.path) ∷ [])
            (save_file (back f) db)),
    )
    else (f, db)

abbrev pub replica_of_file : FileRecord → FileReplica → Bool
replica_of_file f r = r.file_id == f.id

abbrev pub is_lost : Watch → FileReplica → Bool
is_lost w r = is_overdue w r.last_seen_at && not (replica_is r.status ReplicaStatus.missing)

abbrev pub lost : Watch → FileReplica → FileReplica
lost w r = if is_lost w r then record r { status = ReplicaStatus.missing } else r

abbrev pub audit_lost : FileRecord → List FileReplica → Session → Session
audit_lost f [] db = db
audit_lost f (r ∷ rs) db = audit_lost f rs (
    audit "system" "file_replica.missing" "file_replica" (show r.id)
      (("file_id", num f.id) ∷ ("node_id", str r.node_id) ∷ []) db)

-- The loop over the file's replicas, with the number that it marks.
unfoldable pub sweep_replicas : Watch → FileRecord → Session → ℕ × Session
sweep_replicas w f db =
    let marked = keep (is_lost w) (select (replica_of_file f) db.file_replicas) in
    (
      length marked,
      audit_lost f marked
          (record db { file_replicas = for_each (replica_of_file f) (lost w) db.file_replicas }),
    )

-- The nodes of the replicas that the database has as healthy: what was marked in this sweep and not
-- flushed is among them.
abbrev pub healthy_nodes : FileRecord → Session → List String
healthy_nodes f db =
    map (λ (r : FileReplica). r.node_id)
      (select (λ r. replica_of_file f r && replica_is r.status ReplicaStatus.healthy)
        db.file_replicas)

-- The loop over the desired nodes that hold no healthy replica.
unfoldable pub queue_missing_repairs : ℕ → FileRecord → List String → Session → ℕ × Session
unfolding queue_repair
queue_missing_repairs now f [] db = (0, db)
queue_missing_repairs now f (node_id ∷ node_ids) db =
    let (added, db') = queue_repair now f.id f.file_hash node_id db in
    let (n, db'') = queue_missing_repairs now f node_ids db' in ((if added then 1 else 0) + n, db'')

unfoldable pub sweep_repairs : ℕ → List String → FileRecord → Session → ℕ × Session
unfolding queue_missing_repairs
sweep_repairs now desired f db =
    if f.alive
    then queue_missing_repairs now f
        (keep (λ node_id. not (any (str_eq node_id) (healthy_nodes f db))) desired) db
    else (0, db)

pub record SweepCounts : Type 0 where
  pub marked_missing : ℕ
  pub recovered : ℕ
  pub replica_missing : ℕ
  pub repair_queued : ℕ

abbrev pub one_if : Bool → ℕ
one_if b = if b then 1 else 0

-- The loop's body, for a file that is not superseded.
unfoldable pub sweep_one : Watch → List String → FileRecord → Session → SweepCounts × Session
unfolding sweep_file sweep_replicas sweep_repairs
sweep_one w desired f db =
    let (f', db1) = sweep_file w f db in
    let (lost_replicas, db2) = sweep_replicas w f' db1 in
    let (queued, db3) = sweep_repairs w.now desired f' db2 in
    (
      record {
        marked_missing = one_if (turns_missing w f);
        recovered = one_if (turns_alive w f);
        replica_missing = lost_replicas;
        repair_queued = queued;
      },
      db3,
    )

abbrev pub add_counts : SweepCounts → SweepCounts → SweepCounts
add_counts c d = record {
  marked_missing = c.marked_missing + d.marked_missing;
  recovered = c.recovered + d.recovered;
  replica_missing = c.replica_missing + d.replica_missing;
  repair_queued = c.repair_queued + d.repair_queued;
}

abbrev pub no_counts : SweepCounts
no_counts = record { marked_missing = 0; recovered = 0; replica_missing = 0; repair_queued = 0 }

-- The loop over the file records.
unfoldable pub sweep_files : Watch → List String → List FileRecord → Session → SweepCounts × Session
unfolding sweep_one
sweep_files w desired [] db = (no_counts, db)
sweep_files w desired (f ∷ fs) db =
    let (c, db') =
      if file_is f.status superseded then (no_counts, db) else sweep_one w desired f db in
    let (cs, db'') = sweep_files w desired fs db' in (add_counts c cs, db'')

pub record SweepReport : Type 0 where
  pub checked : ℕ
  pub counts : SweepCounts
  pub invalid_replica_nodes : List String

abbrev pub any_file : FileRecord → Bool
any_file f = true

-- `reconcile_file_liveness`
unfoldable pub reconcile_file_liveness : Watch → List String → Session → SweepReport × Session
unfolding sweep_files
reconcile_file_liveness w replica_node_ids db =
    let desired = keep (is_enabled db) replica_node_ids in
    let (counts, db') = sweep_files w desired (select any_file db.files) db in
    (
      record {
        checked = length (select any_file (commit db').files);
        counts = counts;
        invalid_replica_nodes = keep (λ node_id. not (is_enabled db node_id)) replica_node_ids;
      },
      commit db',
    )
