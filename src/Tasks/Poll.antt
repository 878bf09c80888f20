-- ===== src/Tasks/Poll.antt =====
-- Which task a poll takes, and what becomes of tasks whose lease is over.
use mathlib.Core.Option.{some-injective}
use knowledge_flywheel.Base.{
  All-of_keep, ℕ, String, true, false, none, some, List, [], ◌∷◌, ◌≡◌, ◌≢◌, refl, sym, ◌∙◌, arith,
  All, All-mono, All-units, ◌+◌, ◌↔◌, subst, All-Member, Member, Option-cases, inl, inr,
}
use knowledge_flywheel.Store.Table.{IsClean}
use knowledge_flywheel.Store.Laws.{select_clean, update_where, replace_row}
use knowledge_flywheel.Store.Order.{least_is_first, least-eq-none}
use knowledge_flywheel.Models.Status.{pending, running}
use knowledge_flywheel.Models.Rows.{Task, task_entity}
use knowledge_flywheel.Models.Session.{Session}
use knowledge_flywheel.Tasks.Queue.{
  is_stale, is_pending, requeued, created_before, next_pending, claimed, claim_next_task,
}
use knowledge_flywheel.Tasks.Claims.{
  tasks_of, claim_next_task-All, claim_next_task-IsClean, claim_next_task_rows,
  claim_next_task-none_rows, claim_next_task-some, claim_next_task-none, next_pending_test,
  next_pending_row,
}

created_before_trans :
    (a b c : Task)
    → created_before a b ≡ true
    → created_before b c ≡ true
    → created_before a c ≡ true
created_before_trans a b c h k = ground arith

created_before_total : (a b : Task) → created_before a b ≡ false → created_before b a ≡ true
created_before_total a b h = ground arith

next_pending_first :
    (db : Session) (t : Task)
    → IsClean db.tasks
    → next_pending db ≡ some t
    → All (λ u. is_pending u ≡ true → created_before t u ≡ true) (tasks_of db)
next_pending_first db t c e =
    All-of_keep (λ u. created_before t u ≡ true) is_pending (tasks_of db)
      (rw (← select_clean is_pending db.tasks c)
        (least_is_first created_before created_before_trans created_before_total _ t e))

next_pending-none :
    (db : Session)
    → IsClean db.tasks
    → next_pending db ≡ none
    → All (λ u. is_pending u ≡ false) (tasks_of db)
next_pending-none db c e =
    All-mono _ _ (tasks_of db) (λ u h. ground (arith, h))
      (All-of_keep (λ u. ⊥) is_pending (tasks_of db)
        (rw (sym (select_clean is_pending db.tasks c) ∙ least-eq-none created_before _ e) tt))

is_pending_iff : (u : Task) → u.status ≡ pending → is_pending u ≡ true
is_pending_iff u h = ground arith

pending_of : (u : Task) → is_pending u ≡ true → u.status ≡ pending
pending_of u h = ground arith

-- Where a poll of a table with nothing left to flush returns a task, that is the row that was
-- pending and comes first by creation time and key among the pending rows; it is returned running,
-- claimed by the worker at that time, with one attempt more and no error. Afterwards the rows are
-- those before it, with each row whose lease is over requeued and that row put in its place.
pub claim_next_task_takes_first :
    (now : ℕ) (worker : String) (lease : ℕ) (db : Session) (t' : Task)
    → IsClean db.tasks
    → (claim_next_task now worker lease db).0 ≡ some t'
    → (t : Task) × Member t (tasks_of db)
      × (t.status ≡ pending)
      × All (λ u. u.status ≡ pending → created_before t u ≡ true) (tasks_of db)
      × (t' ≡ record t {
        status = running;
        attempts = t.attempts + 1;
        claimed_at = some now;
        claimed_by = some worker;
        error = none;
      })
      × (tasks_of (claim_next_task now worker lease db).1
          ≡ replace_row t' (update_where (is_stale now lease) requeued (tasks_of db)))
unfolding claimed
claim_next_task_takes_first now worker lease db t' c e = elim (Option-cases (next_pending db)) [
  | inl n ↦ cc ((claim_next_task-none now worker lease db n).0)
  | inr (t, found) ↦
      let got : t' ≡ claimed t worker now =
        some-injective _ _ (sym e ∙ (claim_next_task-some now worker lease db t found).0) in
      (
        t,
        next_pending_row (λ u. Member u (tasks_of db)) db t c (All-Member (tasks_of db)) found,
        pending_of t (next_pending_test db t c found),
        All-mono _ _ (tasks_of db) (λ u h p. h (is_pending_iff u p))
            (next_pending_first db t c found),
        got,
        rw got (claim_next_task_rows now worker lease db t c found),
      )
]

-- A poll of a table with nothing left to flush returns nothing exactly where no row is pending.
pub claim_next_task-none_iff :
    (now : ℕ) (worker : String) (lease : ℕ) (db : Session)
    → IsClean db.tasks
    → ((claim_next_task now worker lease db).0 ≡ none) ↔ All (λ u. u.status ≢ pending) (tasks_of db)
claim_next_task-none_iff now worker lease db c = (
  λ e. elim (Option-cases (next_pending db)) [
    | inl n ↦
        All-mono _ _ (tasks_of db) (λ u h p. cc (is_pending_iff u p)) (next_pending-none db c n)
    | inr (t, found) ↦ cc ((claim_next_task-some now worker lease db t found).0)
  ],
  λ idle. elim (Option-cases (next_pending db)) [
    | inl n ↦ (claim_next_task-none now worker lease db n).0
    | inr (t, found) ↦ absurd (
        next_pending_row (λ u. u.status ≢ pending) db t c idle found
          (pending_of t (next_pending_test db t c found)))
  ],
)

-- After a poll of a table with nothing left to flush, no running row has a lease that is over at
-- that time.
pub claim_next_task_sweeps :
    (now : ℕ) (worker : String) (lease : ℕ) (db : Session)
    → IsClean db.tasks
    → All (λ u. is_stale now lease u ≡ false) (tasks_of (claim_next_task now worker lease db).1)
unfolding requeued claimed
claim_next_task_sweeps now worker lease db c =
    claim_next_task-All (λ u. Unit) (λ u. is_stale now lease u ≡ false) now worker lease db c
      (λ u s _. ground arith) (λ u s _. s) (λ u p _. ground arith) (All-units (tasks_of db))

stale_waits :
    (now lease : ℕ) (ts : List Task) (u : Task)
    → Member u ts
    → is_stale now lease u ≡ true
    → ¬ All (λ v. v.status ≢ pending) (update_where (is_stale now lease) requeued ts)
unfolding requeued
stale_waits now lease [] u m s h = m
stale_waits now lease (x ∷ ts) u (inl e) s h =
    let s' : is_stale now lease x ≡ true = rw e at s in (rw s' at (h.0)) refl
stale_waits now lease (x ∷ ts) u (inr m) s h = stale_waits now lease ts u m s h.1

-- Recovery of a task whose worker died takes two polls. Where the table has nothing left to
-- flush, some row runs with a lease that is over and no row is pending, a poll returns nothing,
-- and the next poll, by any worker at any time, returns a task.
pub recovery_takes_two_polls :
    (now later : ℕ) (worker worker' : String) (lease lease' : ℕ) (db : Session) (u : Task)
    → IsClean db.tasks
    → All (λ v. v.status ≢ pending) (tasks_of db)
    → Member u (tasks_of db)
    → is_stale now lease u ≡ true
    → let (first_result, db') = claim_next_task now worker lease db in
      (first_result ≡ none) × ((claim_next_task later worker' lease' db').0 ≢ none)
recovery_takes_two_polls now later worker worker' lease lease' db u c idle m s =
    let nothing = (claim_next_task-none_iff now worker lease db c).1 idle in
    (
      nothing,
      λ again. stale_waits now lease (tasks_of db) u m s (
          subst (All (λ v. v.status ≢ pending)) (swept nothing) (
            (claim_next_task-none_iff later worker' lease' (claim_next_task now worker lease db).1
                (claim_next_task-IsClean now worker lease db)).0
              again)),
    )
  where
    swept :
        (claim_next_task now worker lease db).0 ≡ none
        → tasks_of (claim_next_task now worker lease db).1
          ≡ update_where (is_stale now lease) requeued (tasks_of db)
    swept nothing = elim (Option-cases (next_pending db)) [
      | inl n ↦ claim_next_task-none_rows now worker lease db c n
      | inr (t, found) ↦ cc ((claim_next_task-some now worker lease db t found).0)
    ]
