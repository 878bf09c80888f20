-- ===== src/Tasks/Queue.antt =====
-- The operations on task rows.
use knowledge_flywheel.Base.{
  ℕ, ◌+◌, ◌*◌, String, Bool, true, false, ◌&&◌, ◌||◌, Option, none, some, List, [], ◌∷◌, ltb, leb,
  ◌==◌, str_eq, if◌then◌else◌, any, ◌<>◌, show, Result, ok, err,
}
use knowledge_flywheel.Store.Table.{select, first, get, for_each, add, put, next_id}
use knowledge_flywheel.Store.Order.{least}
use knowledge_flywheel.Models.Json.{str, Payload}
use knowledge_flywheel.Models.Status.{
  TaskStatus, pending, running, waiting, success, failed, cancelled, task_is, task_text,
}
use knowledge_flywheel.Models.Rows.{Task, task_entity}
use knowledge_flywheel.Models.Session.{Session, commit, audit}

-- `timedelta(seconds=n)`, in microseconds.
abbrev pub seconds : ℕ → ℕ
seconds n = n * 1000000

-- TASK_TRANSITIONS
unfoldable pub task_transitions : TaskStatus → List TaskStatus
task_transitions pending = running ∷ cancelled ∷ []
task_transitions running = success ∷ failed ∷ pending ∷ []
task_transitions waiting = success ∷ failed ∷ pending ∷ []
task_transitions failed = pending ∷ []
task_transitions success = []
task_transitions cancelled = []

-- `_audit_task`
unfoldable pub audit_task : Task → String → String → Payload → Session → Session
audit_task task action actor detail db =
    audit actor ("task." <> action) "task" (show task.id) detail db

pub record TaskCreate : Type 0 where
  pub kind : String
  pub idempotency_key : String
  pub payload : Payload

-- `Task(kind=..., idempotency_key=..., payload_json=...)` with the column defaults.
unfoldable pub new_task : ℕ → TaskCreate → Session → Task
new_task now request db = record {
  id = next_id db.tasks;
  idempotency_key = request.idempotency_key;
  kind = request.kind;
  status = pending;
  payload_json = request.payload;
  attempts = 0;
  error = none;
  result_json = none;
  claimed_at = none;
  claimed_by = none;
  created_at = now;
}

-- `db.add(Task(...))`
unfoldable pub add_task : ℕ → TaskCreate → Session → Session
unfolding new_task
add_task now request db = record db { tasks = add (new_task now request db) db.tasks }

-- `db.scalars(select(Task).where(Task.idempotency_key == key)).first()`
abbrev pub task_by_key : String → Session → Option Task
task_by_key key db = first (λ (t : Task). str_eq t.idempotency_key key) db.tasks

-- `task.attribute = ...`, for the object of this row.
unfoldable pub save_task : Task → Session → Session
save_task task db = record db { tasks = put task db.tasks }

-- `create_task`
unfoldable pub create_task : ℕ → TaskCreate → Session → Task × Session
unfolding new_task add_task
create_task now request db = elim (task_by_key request.idempotency_key db) [
  | some existing ↦ (existing, db)
  | none ↦ (new_task now request db, commit (add_task now request db))
]

-- The assignments of `transition_task`.
unfoldable pub transitioned : Task → TaskStatus → Option String → Task
transitioned task new_status error = record task {
  status = new_status;
  error = error;
  claimed_at = if task_is new_status running then task.claimed_at else none;
  claimed_by = if task_is new_status running then task.claimed_by else none;
  attempts = if task_is new_status running then task.attempts + 1 else task.attempts;
}

-- `transition_task`
unfoldable pub transition_task : Task → TaskStatus → Option String → Session → Result Task × Session
unfolding task_transitions transitioned save_task
transition_task task new_status error db =
    if any (task_is new_status) (task_transitions task.status)
    then (
      ok (transitioned task new_status error),
      commit (save_task (transitioned task new_status error) db),
    )
    else (
      err ("invalid task transition " <> task_text task.status <> " -> " <> task_text new_status),
      db,
    )

-- `Task.claimed_at.is_(None) | (Task.claimed_at < lease_deadline)`, where the deadline is
-- `now - timedelta(seconds=lease_seconds)`.
abbrev pub lease_over : ℕ → ℕ → Option ℕ → Bool
lease_over now lease_seconds none = true
lease_over now lease_seconds (some claimed_at) = ltb (claimed_at + seconds lease_seconds) now

-- The query for the tasks whose worker lease expired.
abbrev pub is_stale : ℕ → ℕ → Task → Bool
is_stale now lease_seconds t = task_is t.status running && lease_over now lease_seconds t.claimed_at

abbrev pub is_pending : Task → Bool
is_pending t = task_is t.status pending

unfoldable pub requeued : Task → Task
requeued task = record task {
  status = pending;
  claimed_at = none;
  claimed_by = none;
  error = some "worker lease expired; task requeued";
}

abbrev pub audit_requeued : List Task → Session → Session
audit_requeued [] db = db
audit_requeued (t ∷ ts) db =
    audit_requeued ts (audit_task t "requeued" "system" (("reason", str "lease_expired") ∷ []) db)

-- The loop over `stale`.
unfoldable pub requeue_stale : ℕ → ℕ → Session → Session
unfolding requeued
requeue_stale now lease_seconds db =
    let stale = select (is_stale now lease_seconds) db.tasks in
    audit_requeued stale
      (record db { tasks = for_each (is_stale now lease_seconds) requeued db.tasks })

-- `order_by(Task.created_at, Task.id)`
abbrev pub created_before : Task → Task → Bool
created_before a b =
    ltb a.created_at b.created_at || (a.created_at == b.created_at && leb a.id b.id)

unfoldable pub claimed : Task → String → ℕ → Task
claimed task worker_id now = record task {
  status = running;
  attempts = task.attempts + 1;
  claimed_at = some now;
  claimed_by = some worker_id;
  error = none;
}

-- The task that the query for pending tasks gives first.
abbrev pub next_pending : Session → Option Task
next_pending db = least created_before (select is_pending db.tasks)

-- The rest of `claim_next_task`, from `if not task:` on.
unfoldable pub claim_pending : ℕ → String → Option Task → Session → Option Task × Session
unfolding claimed save_task audit_task
claim_pending now worker_id none db = (none, commit db)
claim_pending now worker_id (some task) db = (
  some (claimed task worker_id now),
  commit (audit_task task "claimed" worker_id [] (save_task (claimed task worker_id now) db)),
)

-- `claim_next_task`
unfoldable pub claim_next_task : ℕ → String → ℕ → Session → Option Task × Session
unfolding requeue_stale claim_pending
claim_next_task now worker_id lease_seconds db =
    let db' = requeue_stale now lease_seconds db in
    claim_pending now worker_id (next_pending db') db'

-- `task.status == "running" and claimed_at is not None and claimed_at >= lease_deadline`
abbrev pub lease_held : ℕ → ℕ → Task → Bool
lease_held now lease_seconds t = elim t.claimed_at [
  | none ↦ false
  | some claimed_at ↦ task_is t.status running && leb now (claimed_at + seconds lease_seconds)
]

-- The rest of `claim_task_by_id`, from `if task is None:` on.
unfoldable pub claim_found : ℕ → String → ℕ → Option Task → Session → Option Task × Session
unfolding claimed save_task audit_task
claim_found now worker_id lease_seconds none db = (none, db)
claim_found now worker_id lease_seconds (some task) db =
    if lease_held now lease_seconds task
    then (none, db)
    else if task_is task.status pending || task_is task.status running
    then (
      some (claimed task worker_id now),
      commit (
          audit_task task "claimed" worker_id (("delivery", str "celery") ∷ []) (
            save_task (claimed task worker_id now) (
              if task_is task.status running
              then audit_task task "requeued" worker_id
                  (("reason", str "celery_lease_expired") ∷ []) db
              else db))),
    )
    else (none, db)

-- `claim_task_by_id`
unfoldable pub claim_task_by_id : ℕ → ℕ → String → ℕ → Session → Option Task × Session
unfolding claim_found
claim_task_by_id now task_id worker_id lease_seconds db =
    claim_found now worker_id lease_seconds (get task_id db.tasks) db
