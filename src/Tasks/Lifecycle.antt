-- ===== src/Tasks/Lifecycle.antt =====
-- The state machine of task statuses: TASK_TRANSITIONS against a relation, and what
-- `transition_task` does on both branches.
use knowledge_flywheel.Base.{
  String, Bool, true, false, Option, none, List, [], ◌∷◌, ◌≡◌, ◌≢◌, refl, any, ok, err, Bool-cases,
  inl, inr, ◌+◌, ◌⊎◌, subst, ◌<>◌, ◌∙◌,
}
use knowledge_flywheel.Store.Laws.{live_rows-flush, live_rows-put, replace_row}
use knowledge_flywheel.Models.Status.{
  TaskStatus, pending, running, waiting, success, failed, cancelled, task_is, task_text,
}
use knowledge_flywheel.Models.Rows.{Task, task_entity}
use knowledge_flywheel.Models.Session.{Session, commit}
use knowledge_flywheel.Tasks.Queue.{task_transitions, transitioned, save_task, transition_task}
use knowledge_flywheel.Tasks.Claims.{tasks_of}

-- The life of a task: it is started or cancelled, it ends, it is put back, it is retried.
pub data Step : TaskStatus → TaskStatus → Type 0 where
  start : Step pending running
  cancel : Step pending cancelled
  succeed : Step running success
  fail : Step running failed
  put_back : Step running pending
  repaired : Step waiting success
  not_repaired : Step waiting failed
  repair_again : Step waiting pending
  retry : Step failed pending

-- The steps from one status to another, one after the other.
pub data Steps (s : TaskStatus) : TaskStatus → Type 0 where
  here : Steps s s
  next : {t u : TaskStatus} → Steps s t → Step t u → Steps s u

allowed : TaskStatus → TaskStatus → Bool
unfolding task_transitions
allowed s t = any (task_is t) (task_transitions s)

Step-allowed : {s t : TaskStatus} → Step s t → allowed s t ≡ true
unfolding allowed
Step-allowed start = refl
Step-allowed cancel = refl
Step-allowed succeed = refl
Step-allowed fail = refl
Step-allowed put_back = refl
Step-allowed repaired = refl
Step-allowed not_repaired = refl
Step-allowed repair_again = refl
Step-allowed retry = refl

allowed-Step : (s t : TaskStatus) → allowed s t ≡ true → Step s t
unfolding allowed
allowed-Step pending running h = start
allowed-Step pending cancelled h = cancel
allowed-Step running success h = succeed
allowed-Step running failed h = fail
allowed-Step running pending h = put_back
allowed-Step waiting success h = repaired
allowed-Step waiting failed h = not_repaired
allowed-Step waiting pending h = repair_again
allowed-Step failed pending h = retry
allowed-Step _ _ h = cc

not-Step : (s t : TaskStatus) → allowed s t ≡ false → ¬ Step s t
not-Step s t refused step = cc (Step-allowed step)

-- What an accepted transition makes of a task.
pub record IsMoved (t : Task) (s : TaskStatus) (error : Option String) (t' : Task) : Type 0 where
  pub key : t'.id ≡ t.id
  pub status : t'.status ≡ s
  pub error_set : t'.error ≡ error
  pub claim :
      (s ≡ running) × (t'.attempts ≡ t.attempts + 1) × (t'.claimed_at ≡ t.claimed_at)
      ⊎ (s ≢ running) × (t'.attempts ≡ t.attempts) × (t'.claimed_at ≡ none) × (t'.claimed_by ≡ none)

transitioned-IsMoved :
    (t : Task) (s : TaskStatus) (error : Option String) → IsMoved t s error (transitioned t s error)
unfolding transitioned
transitioned-IsMoved t running error = record {
  key = refl;
  status = refl;
  error_set = refl;
  claim = inl (refl, refl, refl);
}
transitioned-IsMoved t _ error = record {
  key = refl;
  status = refl;
  error_set = refl;
  claim = inr (λ e. cc, refl, refl, refl);
}

-- `transition_task` accepts exactly the steps of the life cycle. On an accepted one it returns the
-- task with the new status and error, whose attempts grow by one if it now runs and which
-- otherwise keeps its attempts and loses its claim, and the table holds it in place of its row. On
-- a refused one it raises and the session is as it was.
pub transition_task_outcome :
    (t : Task) (s : TaskStatus) (error : Option String) (db : Session)
    → (Step t.status s
        × (t' : Task) × IsMoved t s error t'
        × ((transition_task t s error db).0 ≡ ok t')
        × (tasks_of (transition_task t s error db).1 ≡ replace_row t' (tasks_of db)))
      ⊎ ((¬ Step t.status s) × (text : String) × (transition_task t s error db ≡ (err text, db)))
unfolding transition_task allowed save_task commit
transition_task_outcome t s error db = elim (Bool-cases (allowed t.status s)) [
  | inl accepted ↦ inl (
    allowed-Step t.status s accepted,
    transitioned t s error,
    transitioned-IsMoved t s error,
    rw accepted,
    rw accepted (live_rows-flush _ ∙ live_rows-put (transitioned t s error) db.tasks),
  )
  | inr refused ↦ inr (
    not-Step t.status s refused,
    "invalid task transition " <> task_text t.status <> " -> " <> task_text s,
    rw refused,
  )
]

-- The task after a series of requested transitions; a refused one changes nothing.
unfoldable pub transitions : Task → List (TaskStatus × Option String) → Session → Task
transitions t [] db = t
transitions t ((s, error) ∷ cs) db = elim (transition_task t s error db).0 [
  | ok t' ↦ transitions t' cs (transition_task t s error db).1
  | err text ↦ transitions t cs db
]

-- Whatever transitions are requested, the status moves along the life cycle only.
pub transitions-Steps :
    (t : Task) (cs : List (TaskStatus × Option String)) (db : Session) {s : TaskStatus}
    → Steps s t.status
    → Steps s (transitions t cs db).status
unfolding transitions
transitions-Steps t [] db path = path
transitions-Steps t ((s, error) ∷ cs) db path = elim (transition_task_outcome t s error db) [
  | inl (step, t', moved, result, rows) ↦
      rw (result, transitions) (transitions-Steps t' cs _ (rw moved.status (next path step)))
  | inr (refused, text, result) ↦ rw (result, transitions) (transitions-Steps t cs db path)
]

success_final : {t : TaskStatus} → ¬ Step success t
success_final step = elim step [ ]

cancelled_final : {t : TaskStatus} → ¬ Step cancelled t
cancelled_final step = elim step [ ]

final_no-Step : (s t : TaskStatus) → ((s ≡ success) ⊎ (s ≡ cancelled)) → ¬ Step s t
final_no-Step s t (inl e) step = success_final (subst (λ x. Step x t) e step)
final_no-Step s t (inr e) step = cancelled_final (subst (λ x. Step x t) e step)

-- A task that succeeded or was cancelled is never changed again by requested transitions.
pub transitions_final :
    (t : Task) (cs : List (TaskStatus × Option String)) (db : Session)
    → ((t.status ≡ success) ⊎ (t.status ≡ cancelled))
    → transitions t cs db ≡ t
unfolding transitions
transitions_final t [] db final = refl
transitions_final t ((s, error) ∷ cs) db final = elim (transition_task_outcome t s error db) [
  | inl (step, t', moved, result, rows) ↦ absurd (final_no-Step t.status s final step)
  | inr (refused, text, result) ↦ rw (result, transitions) (transitions_final t cs db final)
]
