-- ===== src/Tasks/Exclusion.antt =====
-- Claims one after the other: claim_next_task by polling workers and claim_task_by_id for broker
-- deliveries, in any order.
use knowledge_flywheel.Base.{
  ℕ, ◌+◌, ◌≤◌, String, true, Option, none, some, List, [], ◌∷◌, ◌≡◌, ◌≢◌, refl, sym, ◌∙◌, arith,
  All, Option-cases, Bool-cases, inl, inr,
}
use mathlib.Core.Option.{some-injective}
use knowledge_flywheel.Store.Table.{IsClean, get}
use knowledge_flywheel.Store.Laws.{
  live_rows-flush, live_rows-put, flush-IsClean, All-replace_row, replace_row_self, first-All,
}
use knowledge_flywheel.Models.Status.{running}
use knowledge_flywheel.Models.Rows.{Task, task_entity}
use knowledge_flywheel.Models.Session.{Session}
use knowledge_flywheel.Tasks.Queue.{
  seconds, requeued, next_pending, claimed, claim_found, claim_next_task, claim_task_by_id,
}
use knowledge_flywheel.Tasks.Claims.{
  tasks_of, claim_next_task-All, claim_next_task-IsClean, claim_next_task_rows,
  claim_next_task-some, claim_next_task-none, next_pending_test, next_pending_row, claimable,
  claim_found_taken, claim_found_refused,
}

-- One claim: a worker's poll, or a delivery of the broker for one task.
pub record Claim : Type 0 where
  pub now : ℕ
  pub worker_id : String
  pub lease_seconds : ℕ
  pub delivery : Option ℕ

unfoldable pub claim : Claim → Session → Option Task × Session
claim c db = elim c.delivery [
  | none ↦ claim_next_task c.now c.worker_id c.lease_seconds db
  | some task_id ↦ claim_task_by_id c.now task_id c.worker_id c.lease_seconds db
]

-- The results of claims that follow one another.
unfoldable pub claims : List Claim → Session → List (Option Task)
claims [] db = []
claims (c ∷ cs) db = (claim c db).0 ∷ claims cs (claim c db).1

-- Every row with this key is running, claimed at that time.
abbrev pub IsHeld : ℕ → ℕ → Task → Type 0
IsHeld k at u = u.id ≡ k → (u.status ≡ running) × (u.claimed_at ≡ some at)

abbrev pub NotTask : ℕ → Option Task → Type 0
NotTask k none = Unit
NotTask k (some u) = u.id ≢ k

-- The claim comes before the lease from `at` is over.
abbrev pub Within : ℕ → Claim → Type 0
Within at c = c.now ≤ at + seconds c.lease_seconds

module _ (k at : ℕ) where
  next_kept :
      (now : ℕ) (worker : String) (lease : ℕ) (db : Session)
      → now ≤ at + seconds lease
      → IsClean db.tasks
      → All (IsHeld k at) (tasks_of db)
      → All (IsHeld k at) (tasks_of (claim_next_task now worker lease db).1)
  unfolding requeued claimed
  next_kept now worker lease db w c h =
      claim_next_task-All (IsHeld k at) (IsHeld k at) now worker lease db c
        (λ u s held e. ground (arith, held e)) (λ u s held. held)
        (λ u p held e. ground (arith, held e)) h

  next_other :
      (now : ℕ) (worker : String) (lease : ℕ) (db : Session)
      → IsClean db.tasks
      → All (IsHeld k at) (tasks_of db)
      → NotTask k (claim_next_task now worker lease db).0
  unfolding claimed
  next_other now worker lease db c h = elim (Option-cases (next_pending db)) [
    | inl n ↦ rw ((claim_next_task-none now worker lease db n).0) tt
    | inr (t, e) ↦ rw ((claim_next_task-some now worker lease db t e).0) λ same.
        ground (arith, next_pending_test db t c e, next_pending_row (IsHeld k at) db t c h e same)
  ]

  not_held_taken :
      (now lease : ℕ) (t : Task)
      → now ≤ at + seconds lease
      → IsHeld k at t
      → claimable now lease t ≡ true
      → t.id ≢ k
  not_held_taken now lease t w held taken same = let (is_running, since) = held same in ground arith

  -- A delivery for a task that is not claimed leaves the held rows as they are.
  found_kept :
      (now : ℕ) (worker : String) (lease : ℕ) (o : Option Task) (db : Session)
      → now ≤ at + seconds lease
      → ((t : Task) → o ≡ some t → IsHeld k at t)
      → IsClean db.tasks
      → All (IsHeld k at) (tasks_of db)
      → All (IsHeld k at) (tasks_of (claim_found now worker lease o db).1)
        × IsClean (claim_found now worker lease o db).1.tasks
        × NotTask k (claim_found now worker lease o db).0
  unfolding claim_found claimed
  found_kept now worker lease none db w held c h = (h, c, tt)
  found_kept now worker lease (some t) db w held c h = elim (Bool-cases (claimable now lease t)) [
    | inl taken ↦
        let other : t.id ≢ k = not_held_taken now lease t w (held t refl) taken in
        let (result, rows) = claim_found_taken now worker lease t db taken in
        rw (result, rows)
          (
            rw (live_rows-flush, live_rows-put)
                (All-replace_row (IsHeld k at) (claimed t worker now) _
                  (λ same. absurd (other same)) h),
            flush-IsClean _,
            other,
          )
    | inr refused ↦ rw (claim_found_refused now worker lease t db refused) (h, c, tt)
  ]

  -- One claim within the lease: the row stays held, and the claim gets another task or none.
  claim_kept :
      (cl : Claim) (db : Session)
      → Within at cl
      → IsClean db.tasks
      → All (IsHeld k at) (tasks_of db)
      → All (IsHeld k at) (tasks_of (claim cl db).1)
        × IsClean (claim cl db).1.tasks
        × NotTask k (claim cl db).0
  unfolding claim claim_task_by_id
  claim_kept cl db w c h = elim (Option-cases cl.delivery) [
    | inl poll ↦
        rw (poll, claim)
          (
            next_kept cl.now cl.worker_id cl.lease_seconds db w c h,
            claim_next_task-IsClean cl.now cl.worker_id cl.lease_seconds db,
            next_other cl.now cl.worker_id cl.lease_seconds db c h,
          )
    | inr (n, delivered) ↦
        rw (delivered, claim)
          (found_kept cl.now cl.worker_id cl.lease_seconds (get n db.tasks) db w
            (λ t e. first-All (IsHeld k at) _ db.tasks t h e) c h)
  ]

  claims_other :
      (cs : List Claim) (db : Session)
      → All (Within at) cs
      → IsClean db.tasks
      → All (IsHeld k at) (tasks_of db)
      → All (NotTask k) (claims cs db)
  unfolding claims
  claims_other [] db w c h = tt
  claims_other (cl ∷ cs) db w c h =
      let (h', c', other) = claim_kept cl db w.0 c h in
      (other, claims_other cs (claim cl db).1 w.1 c' h')

-- The claimed row is held from then on.
claim_next_task-IsHeld :
    (now : ℕ) (worker : String) (lease : ℕ) (db : Session) (t : Task)
    → IsClean db.tasks
    → (claim_next_task now worker lease db).0 ≡ some t
    → All (IsHeld t.id now) (tasks_of (claim_next_task now worker lease db).1)
unfolding claimed
claim_next_task-IsHeld now worker lease db t c e = elim (Option-cases (next_pending db)) [
  | inl n ↦ cc ((claim_next_task-none now worker lease db n).0)
  | inr (u, found) ↦
      let got : t ≡ claimed u worker now =
        some-injective _ _ (sym e ∙ (claim_next_task-some now worker lease db u found).0) in
      rw (claim_next_task_rows now worker lease db u c found, got)
        (replace_row_self (λ v. (v.status ≡ running) × (v.claimed_at ≡ some now))
          (claimed u worker now) _ (refl, refl))
]

-- From a table with nothing left to flush: once a poll at `now` returns a task, no later poll or
-- broker delivery, in any order and by any workers, returns that task again as long as each of
-- them comes no later than `now` plus its lease time.
pub claims_exclusive :
    (now : ℕ) (worker : String) (lease : ℕ) (db : Session) (t : Task) (cs : List Claim)
    → IsClean db.tasks
    → (claim_next_task now worker lease db).0 ≡ some t
    → All (Within now) cs
    → All (NotTask t.id) (claims cs (claim_next_task now worker lease db).1)
claims_exclusive now worker lease db t cs c e w =
    claims_other t.id now cs (claim_next_task now worker lease db).1 w
      (claim_next_task-IsClean now worker lease db)
      (claim_next_task-IsHeld now worker lease db t c e)
