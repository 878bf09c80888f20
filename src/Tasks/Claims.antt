-- ===== src/Tasks/Claims.antt =====
-- The task table before and after a claim.
use knowledge_flywheel.Base.{
  ℕ, String, Bool, true, false, none, some, List, [], ◌∷◌, ◌≡◌, refl, ap, ◌∙◌, arith, keep, All,
  Option-cases, Bool-cases, not, ◌&&◌, ◌||◌, if◌then◌else◌, inl, inr,
}
use knowledge_flywheel.Store.Table.{IsClean, select, for_each, flush, put, live_rows}
use knowledge_flywheel.Store.Laws.{
  select-for_each_disjoint, live_rows-flush, live_rows-put, live_rows-for_each, flush-IsClean,
  update_where, replace_row, All-update_where, All-replace_row, select_clean, keep-All, All-keep,
}
use knowledge_flywheel.Store.Order.{least, least-All}
use knowledge_flywheel.Models.Status.{pending, running, task_is}
use knowledge_flywheel.Models.Json.{str}
use knowledge_flywheel.Models.Rows.{Task, task_entity}
use knowledge_flywheel.Models.Session.{Session, commit, audit}
use knowledge_flywheel.Tasks.Queue.{
  audit_task, is_stale, is_pending, requeued, audit_requeued, requeue_stale, created_before,
  next_pending, claimed, claim_pending, claim_found, claim_next_task, lease_held,
}

audit_requeued-tasks : (ts : List Task) (db : Session) → (audit_requeued ts db).tasks ≡ db.tasks
unfolding audit_task audit
audit_requeued-tasks [] db = refl
audit_requeued-tasks (t ∷ ts) db = audit_requeued-tasks ts _

abbrev pub tasks_of : Session → List Task
tasks_of db = live_rows db.tasks

requeue_stale-tasks :
    (now lease : ℕ) (db : Session)
    → (requeue_stale now lease db).tasks ≡ for_each (is_stale now lease) requeued db.tasks
unfolding requeue_stale
requeue_stale-tasks now lease db = rw audit_requeued-tasks

stale_not_pending : (now lease : ℕ) (t : Task) → is_stale now lease t ≡ true → is_pending t ≡ false
stale_not_pending now lease t h = ground arith

-- The query for pending tasks does not see the tasks requeued in the same call.
requeue_stale-next_pending :
    (now lease : ℕ) (db : Session) → next_pending (requeue_stale now lease db) ≡ next_pending db
requeue_stale-next_pending now lease db =
    ap (λ rs. least created_before (select is_pending rs)) (requeue_stale-tasks now lease db)
    ∙ ap (least created_before) (
        select-for_each_disjoint is_pending (is_stale now lease) requeued db.tasks
          (stale_not_pending now lease))

-- The objects of the task table after a claim that found `t`.
abbrev pub after_claim : ℕ → ℕ → Task → List Task → List Task
after_claim now lease t ts = replace_row t (update_where (is_stale now lease) requeued ts)

-- The first pending task has what every stored pending task has.
pub next_pending-All :
    (P : Task → Type 0) (db : Session) (t : Task)
    → IsClean db.tasks
    → All P (keep is_pending (tasks_of db))
    → next_pending db ≡ some t
    → P t
next_pending-All P db t c h e =
    least-All created_before P _ t (rw (select_clean is_pending db.tasks c) h) e

pub next_pending_test :
    (db : Session) (t : Task) → IsClean db.tasks → next_pending db ≡ some t → is_pending t ≡ true
next_pending_test db t c e =
    next_pending-All (λ u. is_pending u ≡ true) db t c (keep-All is_pending (tasks_of db)) e

pub next_pending_row :
    (P : Task → Type 0) (db : Session) (t : Task)
    → IsClean db.tasks
    → All P (tasks_of db)
    → next_pending db ≡ some t
    → P t
next_pending_row P db t c h e = next_pending-All P db t c (All-keep P is_pending (tasks_of db) h) e

claim_pending-tasks :
    (now : ℕ) (worker : String) (t : Task) (db : Session)
    → (claim_pending now worker (some t) db).1.tasks ≡ flush (put (claimed t worker now) db.tasks)
unfolding claim_pending commit audit
claim_pending-tasks now worker t db = refl

-- Where no task is pending, a claim only requeues.
pub claim_next_task-none :
    (now : ℕ) (worker : String) (lease : ℕ) (db : Session)
    → next_pending db ≡ none
    → ((claim_next_task now worker lease db).0 ≡ none)
      × ((claim_next_task now worker lease db).1.tasks
          ≡ flush (for_each (is_stale now lease) requeued db.tasks))
unfolding claim_next_task commit
claim_next_task-none now worker lease db e =
    rw (requeue_stale-next_pending now lease db, e)
      (refl, ap flush (requeue_stale-tasks now lease db))

-- Otherwise it returns the first pending task.
pub claim_next_task-some :
    (now : ℕ) (worker : String) (lease : ℕ) (db : Session) (t : Task)
    → next_pending db ≡ some t
    → ((claim_next_task now worker lease db).0 ≡ some (claimed t worker now))
      × ((claim_next_task now worker lease db).1.tasks
          ≡ flush (put (claimed t worker now) (for_each (is_stale now lease) requeued db.tasks)))
unfolding claim_next_task commit audit
claim_next_task-some now worker lease db t e =
    rw (requeue_stale-next_pending now lease db, e)
      (refl, ap (λ rs. flush (put (claimed t worker now) rs)) (requeue_stale-tasks now lease db))

-- What the table holds then, as lists of objects.
pub claim_next_task_rows :
    (now : ℕ) (worker : String) (lease : ℕ) (db : Session) (t : Task)
    → IsClean db.tasks
    → next_pending db ≡ some t
    → tasks_of (claim_next_task now worker lease db).1
      ≡ after_claim now lease (claimed t worker now) (tasks_of db)
claim_next_task_rows now worker lease db t c e =
    ap live_rows (claim_next_task-some now worker lease db t e).1
    ∙ live_rows-flush _
    ∙ live_rows-put (claimed t worker now) _
    ∙ ap (replace_row (claimed t worker now)) (live_rows-for_each _ requeued db.tasks c)

pub claim_next_task-none_rows :
    (now : ℕ) (worker : String) (lease : ℕ) (db : Session)
    → IsClean db.tasks
    → next_pending db ≡ none
    → tasks_of (claim_next_task now worker lease db).1
      ≡ update_where (is_stale now lease) requeued (tasks_of db)
claim_next_task-none_rows now worker lease db c e =
    ap live_rows (claim_next_task-none now worker lease db e).1
    ∙ live_rows-flush _
    ∙ live_rows-for_each _ requeued db.tasks c

-- A claim commits.
pub claim_next_task-IsClean :
    (now : ℕ) (worker : String) (lease : ℕ) (db : Session)
    → IsClean (claim_next_task now worker lease db).1.tasks
claim_next_task-IsClean now worker lease db = elim (Option-cases (next_pending db)) [
  | inl n ↦ rw ((claim_next_task-none now worker lease db n).1) (flush-IsClean _)
  | inr (t, e) ↦ rw ((claim_next_task-some now worker lease db t e).1) (flush-IsClean _)
]

-- What holds of every row, where `requeued` and `claimed` keep it, holds after a claim.
pub claim_next_task-All :
    (P Q : Task → Type 0) (now : ℕ) (worker : String) (lease : ℕ) (db : Session)
    → IsClean db.tasks
    → ((u : Task) → is_stale now lease u ≡ true → P u → Q (requeued u))
    → ((u : Task) → is_stale now lease u ≡ false → P u → Q u)
    → ((u : Task) → is_pending u ≡ true → P u → Q (claimed u worker now))
    → All P (tasks_of db)
    → All Q (tasks_of (claim_next_task now worker lease db).1)
claim_next_task-All P Q now worker lease db c stale other taken h =
    let swept : All Q (update_where (is_stale now lease) requeued (tasks_of db)) =
      All-update_where P Q (is_stale now lease) requeued (tasks_of db) stale other h in
    elim (Option-cases (next_pending db)) [
      | inl n ↦ rw (claim_next_task-none_rows now worker lease db c n) swept
      | inr (t, e) ↦ rw (claim_next_task_rows now worker lease db t c e) (
          All-replace_row Q (claimed t worker now) _
            (taken t (next_pending_test db t c e) (next_pending_row P db t c h e)) swept)
    ]

-- Whether `claim_task_by_id` takes the task it found.
abbrev pub claimable : ℕ → ℕ → Task → Bool
claimable now lease t =
    not (lease_held now lease t) && (task_is t.status pending || task_is t.status running)

audited-tasks :
    (b : Bool) (worker : String) (t : Task) (db : Session)
    → (if b
        then audit_task t "requeued" worker (("reason", str "celery_lease_expired") ∷ []) db
        else db).tasks
      ≡ db.tasks
unfolding audit_task audit
audited-tasks true worker t db = refl
audited-tasks false worker t db = refl

pub claim_found_taken :
    (now : ℕ) (worker : String) (lease : ℕ) (t : Task) (db : Session)
    → claimable now lease t ≡ true
    → ((claim_found now worker lease (some t) db).0 ≡ some (claimed t worker now))
      × ((claim_found now worker lease (some t) db).1.tasks
          ≡ flush (put (claimed t worker now) db.tasks))
unfolding claim_found commit audit
claim_found_taken now worker lease t db h =
    let held : lease_held now lease t ≡ false = ground arith in
    let open_task : (task_is t.status pending || task_is t.status running) ≡ true = ground arith in
    rw (held, open_task)
      (refl, ap (λ rs. flush (put (claimed t worker now) rs)) (audited-tasks _ worker t db))

pub claim_found_refused :
    (now : ℕ) (worker : String) (lease : ℕ) (t : Task) (db : Session)
    → claimable now lease t ≡ false
    → claim_found now worker lease (some t) db ≡ (none, db)
unfolding claim_found
claim_found_refused now worker lease t db h = elim (Bool-cases (lease_held now lease t)) [
  | inl held ↦ rw held
  | inr over ↦
      let closed : (task_is t.status pending || task_is t.status running) ≡ false = ground arith in
      rw (over, closed)
]
