-- ===== src/Replicas/Health.antt =====
-- replica_policy_health.
use knowledge_flywheel.Base.{
  ℕ, ◌*◌, String, Bool, ◌&&◌, ◌||◌, not, Option, none, some, List, ◌==◌, str_eq, if◌then◌else◌, any,
  keep, length,
}
use knowledge_flywheel.Store.Table.{select}
use knowledge_flywheel.Models.Status.{
  TaskStatus, ReplicaStatus, replica_is, task_is, pending, running, waiting,
}
use knowledge_flywheel.Models.Rows.{FileRecord, FileReplica, Task}
use knowledge_flywheel.Models.Session.{Session}
use knowledge_flywheel.Replicas.Sweep.{is_enabled}

-- The rate is the quotient of the healthy replicas and the expected ones, which is rounded to four
-- digits; none is the rate 1, where nothing is expected.
pub record PolicyHealth : Type 0 where
  pub configured_nodes : List String
  pub valid_nodes : List String
  pub invalid_nodes : List String
  pub total_files : ℕ
  pub healthy_replicas : ℕ
  pub expected_replicas : ℕ
  pub health_rate : Option (ℕ × ℕ)
  pub pending_repairs : ℕ
  pub failed_repairs : ℕ

abbrev pub is_healthy_on : List String → FileReplica → Bool
is_healthy_on nodes r = replica_is r.status ReplicaStatus.healthy && any (str_eq r.node_id) nodes

abbrev pub is_repair : Task → Bool
is_repair t = str_eq t.kind "replica_repair"

abbrev pub is_open_repair : Task → Bool
is_open_repair t =
    is_repair t
    && (task_is t.status pending || (task_is t.status running || task_is t.status waiting))

-- `replica_policy_health`
unfoldable pub replica_policy_health : Session → List String → PolicyHealth
replica_policy_health db node_ids =
    let valid = keep (is_enabled db) node_ids in
    let total = length (select (λ (f : FileRecord). f.alive) db.files) in
    let healthy = length (select (is_healthy_on valid) db.file_replicas) in
    let expected = total * length valid in
    record {
      configured_nodes = node_ids;
      valid_nodes = valid;
      invalid_nodes = keep (λ node_id. not (is_enabled db node_id)) node_ids;
      total_files = total;
      healthy_replicas = healthy;
      expected_replicas = expected;
      health_rate = if expected == 0 then none else some (healthy, expected);
      pending_repairs = length (select is_open_repair db.tasks);
      failed_repairs =
          length (select (λ t. is_repair t && task_is t.status TaskStatus.failed) db.tasks);
    }
