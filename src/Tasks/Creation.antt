-- ===== src/Tasks/Creation.antt =====
-- create_task: calls with one key, and the unique columns of the table.
use knowledge_flywheel.Base.{
  All-map, map, AllDistinct-snoc, map-snoc, AllDistinct, ℕ, String, none, some, List, [], ◌∷◌, ◌≡◌,
  ◌≢◌, refl, arith, Option-cases, Bool-cases, inl, inr, keep, str_eq, eq_refl, All, eq_iff,
  All-mono,
}
use knowledge_flywheel.Store.Table.{IsClean, head?, next_id}
use knowledge_flywheel.Store.Laws.{
  first-flush-add, select_clean, live_rows-flush, live_rows-add, next_id_fresh,
}
use knowledge_flywheel.Models.Rows.{Task, task_entity}
use knowledge_flywheel.Models.Session.{Session, commit}
use knowledge_flywheel.Tasks.Queue.{TaskCreate, new_task, add_task, task_by_key, create_task}
use knowledge_flywheel.Tasks.Claims.{tasks_of}

create_task_new :
    (now : ℕ) (request : TaskCreate) (db : Session)
    → task_by_key request.idempotency_key db ≡ none
    → create_task now request db ≡ (new_task now request db, commit (add_task now request db))
unfolding create_task
create_task_new now request db e = rw (e, create_task)

create_task_old :
    (now : ℕ) (request : TaskCreate) (db : Session) (t : Task)
    → task_by_key request.idempotency_key db ≡ some t
    → create_task now request db ≡ (t, db)
unfolding create_task
create_task_old now request db t e = rw (e, create_task)

-- A key that the committed table did not have is found on the row that was added.
task_by_key-new :
    (now : ℕ) (request : TaskCreate) (db : Session)
    → IsClean db.tasks
    → task_by_key request.idempotency_key db ≡ none
    → task_by_key request.idempotency_key (commit (add_task now request db))
      ≡ some (new_task now request db)
unfolding commit add_task
task_by_key-new now request db c e =
    first-flush-add (λ (t : Task). str_eq t.idempotency_key request.idempotency_key) db.tasks
      (new_task now request db) c (eq_refl request.idempotency_key) e

new_task-key :
    (now : ℕ) (request : TaskCreate) (db : Session)
    → (new_task now request db).id ≡ next_id db.tasks
unfolding new_task
new_task-key now request db = refl

-- From a table with nothing left to flush: a second call with the same key, at any time and with
-- any kind and payload, returns the task of the first call and changes nothing.
pub create_task_idempotent :
    (now later : ℕ) (request again : TaskCreate) (db : Session)
    → IsClean db.tasks
    → again.idempotency_key ≡ request.idempotency_key
    → create_task later again (create_task now request db).1 ≡ create_task now request db
create_task_idempotent now later request again db c same =
    elim (Option-cases (task_by_key request.idempotency_key db)) [
      | inl fresh ↦
          let made = create_task_new now request db fresh in
          rw made (
            create_task_old later again (commit (add_task now request db)) (new_task now request db)
              (rw same (task_by_key-new now request db c fresh)))
      | inr (t, found) ↦
          rw (create_task_old now request db t found)
            (create_task_old later again db t (rw same found))
    ]

-- The unique columns of the task table: the primary key and the idempotency key.
pub record IsKeyed (ts : List Task) : Type 0 where
  pub ids : AllDistinct (map (λ (t : Task). t.id) ts)
  pub keys : AllDistinct (map (λ (t : Task). t.idempotency_key) ts)

no_such_key :
    (key : String) (ts : List Task)
    → head? (keep (λ (t : Task). str_eq t.idempotency_key key) ts) ≡ none
    → All (λ (t : Task). t.idempotency_key ≢ key) ts
no_such_key key [] e = tt
no_such_key key (t ∷ ts) e = elim (Bool-cases (str_eq t.idempotency_key key)) [
  | inl hit ↦ cc (rw hit at e)
  | inr miss ↦
      (λ same. cc ((eq_iff t.idempotency_key key).1 same), no_such_key key ts (rw miss at e))
]

-- From a table with nothing left to flush whose primary keys and idempotency keys are distinct,
-- `create_task` leaves rows whose primary keys and idempotency keys are distinct.
pub create_task-IsKeyed :
    (now : ℕ) (request : TaskCreate) (db : Session)
    → IsClean db.tasks
    → IsKeyed (tasks_of db)
    → IsKeyed (tasks_of (create_task now request db).1)
unfolding new_task add_task commit
create_task-IsKeyed now request db c k =
    elim (Option-cases (task_by_key request.idempotency_key db)) [
      | inl fresh ↦
          rw (create_task_new now request db fresh, live_rows-flush, live_rows-add)
            (record {
              ids = rw map-snoc (
                  AllDistinct-snoc _ _
                    (All-map _ _ (tasks_of db) (
                      All-mono _ _ (tasks_of db) (λ t below e. omega arith)
                        (next_id_fresh db.tasks)))
                    k.ids);
              keys = rw map-snoc (
                  AllDistinct-snoc _ _
                    (All-map _ _ (tasks_of db) (
                      no_such_key request.idempotency_key (tasks_of db)
                        (rw (select_clean _ db.tasks c) at fresh)))
                    k.keys);
            })
      | inr (t, found) ↦ rw (create_task_old now request db t found) k
    ]
