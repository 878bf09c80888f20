-- ===== src/Execution/Repairs.antt =====
-- The repair tasks that the pipeline queues, when it runs again.
use knowledge_flywheel.Base.{
  ℕ, String, Bool, true, ◌||◌, some, List, [], ◌∷◌, ◌++◌, ◌≡◌, ◌≢◌, refl, ap, sym, ◌∙◌, arith, All,
  All-mono, any, keep, Option-cases, Bool-cases, inl, inr, str_eq, eq_refl, ok, err, Result-cases,
}
use knowledge_flywheel.Store.Table.{Table, IsClean, live_rows, select, head?, add, flush, get}
use knowledge_flywheel.Store.Laws.{
  flush-flush, select_clean, flush-IsClean, live_rows-flush, live_rows-add, select-add,
  first_clean_flush,
}
use knowledge_flywheel.Models.Json.{str, num, compound, Payload}
use knowledge_flywheel.Models.Rows.{Task, FileRecord, task_entity, file_entity}
use knowledge_flywheel.Models.Session.{Session, commit, flush_all}
use knowledge_flywheel.Tasks.Queue.{new_task, add_task, task_by_key}
use knowledge_flywheel.Commands.Ack.{file_named}
use knowledge_flywheel.Execution.Setup.{Executor, State}
use knowledge_flywheel.Execution.Pipeline.{
  current_record, repair_key, repair_request, queue_repair, queue_repairs, replica_node,
}

abbrev has_task_key : String → Task → Bool
has_task_key key t = str_eq t.idempotency_key key

-- The table has a task with this key.
abbrev Has : Table Task → String → Type 0
Has rs key = any (has_task_key key) (live_rows rs) ≡ true

any_snoc : (p : Task → Bool) (xs : List Task) (t : Task) → any p (xs ++ t ∷ []) ≡ (any p xs || p t)
any_snoc p [] t = ground arith
any_snoc p (x ∷ xs) t = ground (arith, any_snoc p xs t)

Has-add : (key : String) (t : Task) (rs : Table Task) → Has rs key → Has (add t rs) key
Has-add key t rs h =
    ap (any (has_task_key key)) (live_rows-add t rs)
    ∙ any_snoc (has_task_key key) (live_rows rs) t
    ∙ rw h refl

Has-add_self :
    (key : String) (t : Task) (rs : Table Task) → has_task_key key t ≡ true → Has (add t rs) key
Has-add_self key t rs own =
    ap (any (has_task_key key)) (live_rows-add t rs)
    ∙ any_snoc (has_task_key key) (live_rows rs) t
    ∙ (let here = own in ground arith)

found_any :
    (p : Task → Bool) (xs : List Task) (t : Task) → head? (keep p xs) ≡ some t → any p xs ≡ true
found_any p [] t e = cc
found_any p (x ∷ xs) t e = elim (Bool-cases (p x)) [
  | inl hit ↦ rw hit refl
  | inr miss ↦ rw miss (found_any p xs t (rw miss at e))
]

any_found :
    (p : Task → Bool) (xs : List Task) → any p xs ≡ true → (t : Task) × (head? (keep p xs) ≡ some t)
any_found p [] h = cc
any_found p (x ∷ xs) h = elim (Bool-cases (p x)) [
  | inl hit ↦ rw hit (x, refl)
  | inr miss ↦ rw miss (any_found p xs (rw miss at h))
]

-- Every query of the tasks finds in `b` what it finds in `a`, and `b` has the keys of `a`.
record Extends (a b : Table Task) : Type 0 where
  same : (p : Task → Bool) → select p b ≡ select p a
  more : (key : String) → Has a key → Has b key

Extends-add : (a b : Table Task) (t : Task) → Extends a b → Extends a (add t b)
Extends-add a b t x = record {
  same = λ p. select-add p b t ∙ x.same p;
  more = λ key h. Has-add key t b (x.more key h);
}

module _ (now file_id : ℕ) (file_hash : String) where
  queue_repair-Extends :
      (a : Table Task) (node_id : String) (db : Session)
      → IsClean a
      → Extends a db.tasks
      → Extends a (queue_repair now file_id file_hash node_id db).1.tasks
        × Has
            (queue_repair now file_id file_hash node_id db).1.tasks
            (repair_key file_id file_hash node_id)
  unfolding queue_repair add_task new_task
  queue_repair-Extends a node_id db c x =
      let key = repair_key file_id file_hash node_id in
      elim (Option-cases (task_by_key key db)) [
        | inl new ↦
            rw (new, queue_repair)
              (
                Extends-add a db.tasks _ x,
                Has-add_self key (new_task now (repair_request file_id file_hash node_id) db)
                    db.tasks (eq_refl key),
              )
        | inr (t, old) ↦
            rw (old, queue_repair)
              (
                x,
                x.more key (
                    found_any (has_task_key key) (live_rows a) t (
                      ap head? (sym (select_clean (has_task_key key) a c))
                      ∙ ap head? (sym (x.same (has_task_key key)))
                      ∙ old)),
              )
      ]

  queue_repairs-Has :
      (a : Table Task) (key : String) (node_ids : List String) (db : Session)
      → IsClean a
      → Extends a db.tasks
      → Has db.tasks key
      → Has (queue_repairs now file_id file_hash node_ids db).1.tasks key
  unfolding queue_repairs queue_repair add_task
  queue_repairs-Has a key [] db c x h = h
  queue_repairs-Has a key (n ∷ ns) db c x h =
      let (x', own) = queue_repair-Extends a n db c x in
      queue_repairs-Has a key ns (queue_repair now file_id file_hash n db).1 c x'
        (elim (Option-cases (task_by_key (repair_key file_id file_hash n) db)) [
          | inl new ↦ rw (new, queue_repair) (Has-add key _ db.tasks h)
          | inr (t, old) ↦ rw (old, queue_repair) h
        ])

  -- Every node of the list has its task.
  queue_repairs-All :
      (a : Table Task) (node_ids : List String) (db : Session)
      → IsClean a
      → Extends a db.tasks
      → All
          (λ n.
            Has
              (queue_repairs now file_id file_hash node_ids db).1.tasks
              (repair_key file_id file_hash n))
          node_ids
  unfolding queue_repairs
  queue_repairs-All a [] db c x = tt
  queue_repairs-All a (n ∷ ns) db c x =
      let (x', own) = queue_repair-Extends a n db c x in
      let db' = (queue_repair now file_id file_hash n db).1 in
      (
        queue_repairs-Has a (repair_key file_id file_hash n) ns db' c x' own,
        queue_repairs-All a ns db' c x',
      )

module _ (now file_id : ℕ) (file_hash : String) where
  -- Where every node has its task, none is added.
  queue_repairs_again :
      (node_ids : List String) (db : Session)
      → IsClean db.tasks
      → All (λ n. Has db.tasks (repair_key file_id file_hash n)) node_ids
      → queue_repairs now file_id file_hash node_ids db ≡ (0, db)
  unfolding queue_repairs queue_repair
  queue_repairs_again [] db c h = refl
  queue_repairs_again (n ∷ ns) db c h =
      let key = repair_key file_id file_hash n in
      let (t, found) = any_found (has_task_key key) (live_rows db.tasks) h.0 in
      let old : task_by_key key db ≡ some t =
        ap head? (select_clean (has_task_key key) db.tasks c) ∙ found in
      rw (queue_repairs, queue_repair, old) (rw (queue_repairs_again ns db c h.1) refl)

  queue_repairs-files :
      (node_ids : List String) (db : Session)
      → (queue_repairs now file_id file_hash node_ids db).1.files ≡ db.files
  unfolding queue_repairs queue_repair add_task
  queue_repairs-files [] db = refl
  queue_repairs-files (n ∷ ns) db =
      queue_repairs-files ns (queue_repair now file_id file_hash n db).1
      ∙ elim (Option-cases (task_by_key (repair_key file_id file_hash n) db)) [
        | inl new ↦ rw (new, queue_repair) refl
        | inr (t, old) ↦ rw (old, queue_repair) refl
      ]

current_record_files :
    (state : State) (db db' : Session)
    → file_named (num state.file_id) db' ≡ file_named (num state.file_id) db
    → current_record state db' ≡ current_record state db
unfolding current_record
current_record_files state db db' e = rw (current_record, e) refl

-- The tasks of the nodes' repairs are there.
abbrev pub HasRepairs : Executor → ℕ → String → Session → Type 0
HasRepairs env file_id file_hash db =
    All (λ n. Has db.tasks (repair_key file_id file_hash n)) env.settings.fixed_replica_node_ids

Has-flush : (rs : Table Task) (key : String) → Has rs key → Has (flush rs) key
Has-flush rs key h = ap (any (has_task_key key)) (live_rows-flush rs) ∙ h

abbrev replica_result : Executor → ℕ → Payload
replica_result env queued =
    ("replica", str "ok")
    ∷ ("repairs_queued", num queued)
    ∷ ("replica_nodes", compound (env.json_list env.settings.fixed_replica_node_ids))
    ∷ []

-- A node that finds the record, by what its loop does.
replica_node_ok :
    (env : Executor) (state : State) (db : Session) (f : FileRecord)
    → current_record state db ≡ ok f
    → let (queued, db') =
        queue_repairs env.now state.file_id f.file_hash env.settings.fixed_replica_node_ids db in
      replica_node env state db ≡ (ok (replica_result env queued), commit db')
unfolding replica_node
replica_node_ok env state db f found = rw (replica_node, found) refl

replica_node_idle :
    (env : Executor) (state : State) (db : Session) (f : FileRecord)
    → current_record state db ≡ ok f
    → IsClean db.tasks
    → HasRepairs env state.file_id f.file_hash db
    → replica_node env state db ≡ (ok (replica_result env 0), commit db)
replica_node_idle env state db f found clean there =
    let idle =
      queue_repairs_again env.now state.file_id f.file_hash env.settings.fixed_replica_node_ids db
        clean there in
    replica_node_ok env state db f found
    ∙ ap (λ (p : ℕ × Session). (ok (replica_result env p.0), commit p.1)) idle

replica_node_refuses :
    (env : Executor) (state : State) (db : Session) (text : String) (result : Payload)
    → current_record state db ≡ err text
    → (replica_node env state db).0 ≢ ok result
unfolding replica_node
replica_node_refuses env state db text result raised e =
    let e' = rw (replica_node, raised) at e in cc

-- Over committed files and tasks: once the replica node of the pipeline has returned, each replica node
-- of the settings has a repair task for the file's version, and running the node again adds none and
-- leaves the tasks as they are.
pub replica_node_again :
    (env : Executor) (state : State) (db : Session) (result : Payload)
    → IsClean db.files
    → IsClean db.tasks
    → (replica_node env state db).0 ≡ ok result
    → let db' = (replica_node env state db).1 in
      (f : FileRecord) × (current_record state db ≡ ok f)
      × HasRepairs env state.file_id f.file_hash db'
      × ((replica_node env state db').0
          ≡ ok (
              ("replica", str "ok")
              ∷ ("repairs_queued", num 0)
              ∷ ("replica_nodes", compound (env.json_list env.settings.fixed_replica_node_ids))
              ∷ []))
      × ((replica_node env state db').1.tasks ≡ db'.tasks)
unfolding commit flush_all
replica_node_again env state db result cf ct e = elim (Result-cases (current_record state db)) [
  | inr (text, raised) ↦ absurd (replica_node_refuses env state db text result raised e)
  | inl (f, found) ↦
      let nodes = env.settings.fixed_replica_node_ids in
      let db1 = (queue_repairs env.now state.file_id f.file_hash nodes db).1 in
      let there : HasRepairs env state.file_id f.file_hash (commit db1) =
        All-mono _ _ nodes (λ n h. Has-flush db1.tasks (repair_key state.file_id f.file_hash n) h)
          (queue_repairs-All env.now state.file_id f.file_hash db.tasks nodes db ct
            (record { same = λ p. refl; more = λ key h. h })) in
      let again : current_record state (commit db1) ≡ ok f =
        current_record_files state db (commit db1) (
          ap (λ rs. get state.file_id (flush rs))
            (queue_repairs-files env.now state.file_id f.file_hash nodes db)
          ∙ first_clean_flush _ db.files cf)
        ∙ found in
      let idle = replica_node_idle env state (commit db1) f again (flush-IsClean db1.tasks) there in
      rw (replica_node_ok env state db f found)
        (f, found, there, ap (λ r. r.0) idle, ap (λ r. r.1.tasks) idle ∙ flush-flush db1.tasks)
]
