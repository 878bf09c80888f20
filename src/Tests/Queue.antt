-- ===== src/Tests/Queue.antt =====
-- The theorems on the task queue at small tables.
use knowledge_flywheel.Base.{
  ◌+◌, true, ◌↔◌, false, ◌⊎◌, Member, String, Option, none, some, List, [], ◌∷◌, ◌≡◌, ◌≢◌, refl,
  inl, arith, ok, err, All,
}
use knowledge_flywheel.Store.Table.{live_rows, select, for_each}
use knowledge_flywheel.Store.Laws.{update_where, replace_row}
use knowledge_flywheel.Store.Order.{least}
use knowledge_flywheel.Models.Status.{TaskStatus, pending, running, success, failed}
use knowledge_flywheel.Models.Rows.{Task, task_entity}
use knowledge_flywheel.Tasks.Queue.{
  requeued, claim_next_task, create_task, TaskCreate, transition_task, created_before, is_stale,
}
use knowledge_flywheel.Tasks.Claims.{tasks_of}
use knowledge_flywheel.Tasks.Exclusion.{Claim, claims, NotTask, claims_exclusive}
use knowledge_flywheel.Tasks.Poll.{
  claim_next_task_takes_first, claim_next_task-none_iff, claim_next_task_sweeps,
  recovery_takes_two_polls,
}
use knowledge_flywheel.Tasks.Lifecycle.{
  here, Step, Steps, IsMoved, transition_task_outcome, transitions, transitions-Steps,
  transitions_final,
}
use knowledge_flywheel.Tasks.Creation.{IsKeyed, create_task_idempotent, create_task-IsKeyed}
use knowledge_flywheel.Tests.Samples.{task_of, waiting_task, lost_task, two_tasks, only_lost}

abbrev taken_task : Task
taken_task = record waiting_task {
  status = running;
  attempts = 1;
  claimed_at = some 200;
  claimed_by = some "worker-1";
}

two_tasks_claim : (claim_next_task 200 "worker-1" 300 two_tasks).0 ≡ some taken_task
unfolding claim_next_task select for_each least
two_tasks_claim = refl

abbrev later_claims : List Claim
later_claims =
    (record { now = 900; worker_id = "worker-2"; lease_seconds = 300; delivery = some 2 })
    ∷ (record { now = 1000; worker_id = "worker-3"; lease_seconds = 300; delivery = none })
    ∷ []

claims_exclusive_example :
    All (NotTask 2) (claims later_claims (claim_next_task 200 "worker-1" 300 two_tasks).1)
claims_exclusive_example =
    claims_exclusive 200 "worker-1" 300 two_tasks taken_task later_claims (refl, (refl, tt))
      two_tasks_claim (omega arith, (omega arith, tt))

claim_next_task_takes_first_example :
    (t : Task) × Member t (tasks_of two_tasks)
    × (t.status ≡ pending)
    × All (λ u. u.status ≡ pending → created_before t u ≡ true) (tasks_of two_tasks)
    × (taken_task ≡ record t {
      status = running;
      attempts = t.attempts + 1;
      claimed_at = some 200;
      claimed_by = some "worker-1";
      error = none;
    })
    × (tasks_of (claim_next_task 200 "worker-1" 300 two_tasks).1
        ≡ replace_row taken_task (update_where (is_stale 200 300) requeued (tasks_of two_tasks)))
claim_next_task_takes_first_example =
    claim_next_task_takes_first 200 "worker-1" 300 two_tasks taken_task (refl, (refl, tt))
      two_tasks_claim

claim_next_task-none_iff_example :
    ((claim_next_task 200 "worker-1" 300 only_lost).0 ≡ none)
    ↔ All (λ u. u.status ≢ pending) (tasks_of only_lost)
claim_next_task-none_iff_example = claim_next_task-none_iff 200 "worker-1" 300 only_lost (refl, tt)

claim_next_task_sweeps_example :
    All
      (λ u. is_stale 400000000 300 u ≡ false)
      (tasks_of (claim_next_task 400000000 "worker-1" 300 two_tasks).1)
claim_next_task_sweeps_example =
    claim_next_task_sweeps 400000000 "worker-1" 300 two_tasks (refl, (refl, tt))

recovery_takes_two_polls_example :
    let (first_result, db') = claim_next_task 400000000 "worker-1" 300 only_lost in
    (first_result ≡ none) × ((claim_next_task 400000001 "worker-2" 300 db').0 ≢ none)
unfolding live_rows
recovery_takes_two_polls_example =
    recovery_takes_two_polls 400000000 400000001 "worker-1" "worker-2" 300 300 only_lost lost_task
      (refl, tt) (λ e. cc, tt) (inl refl) refl

transition_task_outcome_example :
    (Step waiting_task.status running
      × (t' : Task) × IsMoved waiting_task running none t'
      × ((transition_task waiting_task running none two_tasks).0 ≡ ok t')
      × (tasks_of (transition_task waiting_task running none two_tasks).1
          ≡ replace_row t' (tasks_of two_tasks)))
    ⊎ ((¬ Step waiting_task.status running)
        × (text : String) × (transition_task waiting_task running none two_tasks
            ≡ (err text, two_tasks)))
transition_task_outcome_example = transition_task_outcome waiting_task running none two_tasks

abbrev asked : List (TaskStatus × Option String)
asked = (running, none) ∷ (failed, some "timeout") ∷ (success, none) ∷ (pending, none) ∷ []

transitions-Steps_example : Steps pending (transitions waiting_task asked two_tasks).status
transitions-Steps_example = transitions-Steps waiting_task asked two_tasks here

abbrev finished_task : Task
finished_task = task_of 3 "scan:c" success none 1

transitions_final_example : transitions finished_task asked two_tasks ≡ finished_task
transitions_final_example = transitions_final finished_task asked two_tasks (inl refl)

abbrev request : TaskCreate
request = record { kind = "scan"; idempotency_key = "scan:d"; payload = [] }

abbrev same_key : TaskCreate
same_key = record { kind = "parse_file"; idempotency_key = "scan:d"; payload = [] }

create_task_idempotent_example :
    create_task 30 same_key (create_task 20 request two_tasks).1 ≡ create_task 20 request two_tasks
create_task_idempotent_example =
    create_task_idempotent 20 30 request same_key two_tasks (refl, (refl, tt)) refl

only_lost-IsKeyed : IsKeyed (tasks_of only_lost)
unfolding live_rows
only_lost-IsKeyed = record { ids = (tt, tt); keys = (tt, tt) }

create_task-IsKeyed_example : IsKeyed (tasks_of (create_task 20 request only_lost).1)
create_task-IsKeyed_example = create_task-IsKeyed 20 request only_lost (refl, tt) only_lost-IsKeyed
