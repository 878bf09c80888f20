-- ===== src/Commands/Final.antt =====
-- Polls and acknowledgements one after the other: claim_next_remote_command and the handler
-- node_command_ack on the rows of completed commands.
use knowledge_flywheel.Base.{
  All-at, ℕ, String, true, false, Option, none, some, List, [], ◌∷◌, ◌≡◌, ◌≢◌, ◌⊎◌, refl, ap, sym,
  ◌∙◌, arith, Option-cases, Bool-cases, inl, inr, Result, ok, err, str_eq, All,
}
use knowledge_flywheel.Store.Table.{IsClean, get, flush, put}
use knowledge_flywheel.Store.Laws.{
  live_rows-flush, live_rows-put, All-replace_row, first-All, flush-IsClean, All-update_where,
}
use knowledge_flywheel.Models.Json.{str, get_field}
use knowledge_flywheel.Models.Status.{CommandStatus}
use knowledge_flywheel.Models.Rows.{
  FileRecord, Task, RemoteCommand, task_entity, replica_entity, command_entity,
}
use knowledge_flywheel.Models.Session.{Session, commit, audit}
use knowledge_flywheel.Tasks.Queue.{save_task}
use knowledge_flywheel.Commands.Queue.{
  CommandAck, save_command, claim_next_remote_command, is_expired, requeued_command,
}
use knowledge_flywheel.Commands.Ack.{
  json_eq, is_verified, is_open, acknowledged_with, failed_command, replica_of, heal_replica,
  Settled, rejected_repair, settle_verified, settle_by, settle_sync, file_named, audit_ack,
  finish_settled, acknowledge_remote_command, node_command_ack,
}
use knowledge_flywheel.Commands.Claims.{
  commands_of, swept_rows, is_available, claim_next_remote_command_outcome,
  claim_next_remote_command-IsClean,
}

heal_replica-commands :
    (now : ℕ) (f : FileRecord) (node : String) (db : Session)
    → (heal_replica now f node db).remote_commands ≡ db.remote_commands
unfolding heal_replica
heal_replica-commands now f node db = elim (Option-cases (replica_of f.id node db)) [
  | inl fresh ↦ rw (fresh, heal_replica) refl
  | inr (r, found) ↦ rw (found, heal_replica) refl
]

-- An acknowledgement that is settled writes the row of its own command and no other.
abbrev IsOwn : RemoteCommand → Session → Settled → Type 0
IsOwn c db s = (s.command.id ≡ c.id) × (s.after.remote_commands ≡ db.remote_commands)

settle_verified-IsOwn :
    (now : ℕ) (c : RemoteCommand) (t : Task) (o : Option FileRecord) (db : Session)
    → IsOwn c db (settle_verified now c t o db)
unfolding settle_verified rejected_repair failed_command
settle_verified-IsOwn now c t none db = (refl, refl)
settle_verified-IsOwn now c t (some f) db =
    elim (Bool-cases (json_eq (str f.file_hash) (get_field "file_hash" c.payload_json))) [
      | inl same ↦ rw (same, settle_verified) (refl, heal_replica-commands now f c.node_id db)
      | inr changed ↦ rw (changed, settle_verified) (refl, refl)
    ]

settle_by-IsOwn :
    (s : CommandStatus) (now : ℕ) (ack : CommandAck) (c : RemoteCommand) (t : Task)
    (o : Option FileRecord) (db : Session)
    → IsOwn c db (settle_by s now ack c t o db)
unfolding settle_by rejected_repair failed_command
settle_by-IsOwn CommandStatus.success now ack c t o db = elim (Bool-cases (is_verified ack c)) [
  | inl verified ↦ rw (verified, settle_by) (settle_verified-IsOwn now c t o db)
  | inr unverified ↦ rw (unverified, settle_by) (refl, refl)
]
settle_by-IsOwn CommandStatus.failed now ack c t o db = (refl, refl)
settle_by-IsOwn CommandStatus.queued now ack c t o db = (refl, refl)
settle_by-IsOwn CommandStatus.running now ack c t o db = (refl, refl)

-- The table after a call that raised or wrote the row of `c`.
abbrev IsOneRow : RemoteCommand → Session → Result RemoteCommand → Session → Type 0
IsOneRow c db result db' =
    ((text : String) × (result ≡ err text))
    ⊎ ((c' : RemoteCommand) × (c'.id ≡ c.id)
        × (db'.remote_commands ≡ flush (put c' db.remote_commands)))

settle_sync-IsOneRow :
    (now : ℕ) (ack : CommandAck) (c : RemoteCommand) (o : Option Task) (db : Session)
    → IsOneRow c db (settle_sync now ack c o db).0 (settle_sync now ack c o db).1
unfolding settle_sync finish_settled commit audit_ack audit save_command save_task
settle_sync-IsOneRow now ack c none db = inl ("replica repair task not found", refl)
settle_sync-IsOneRow now ack c (some t) db =
    let file = file_named (get_field "file_id" c.payload_json) db in
    let s = settle_by ack.status now ack c t file db in
    let (same, rows) = settle_by-IsOwn ack.status now ack c t file db in
    inr (s.command, same, ap (λ rs. flush (put s.command rs)) rows)

acknowledge-IsOneRow :
    (now : ℕ) (c : RemoteCommand) (ack : CommandAck) (db : Session)
    → IsOneRow c db
        (acknowledge_remote_command now c ack db).0
        (acknowledge_remote_command now c ack db).1
unfolding acknowledge_remote_command acknowledged_with commit audit_ack audit save_command
acknowledge-IsOneRow now c ack db = elim (Bool-cases (is_open c)) [
  | inr over ↦ rw (over, acknowledge_remote_command) (inl ("command already completed", refl))
  | inl live ↦ elim (Bool-cases (str_eq c.command_type "sync_replica")) [
    | inl sync ↦
        rw (live, acknowledge_remote_command, sync)
          (settle_sync-IsOneRow now ack (acknowledged_with now ack c) _ db)
    | inr plain ↦
        rw (live, acknowledge_remote_command, plain) (inr (acknowledged_with now ack c, refl, refl))
  ]
]

acknowledge_completed :
    (now : ℕ) (c : RemoteCommand) (ack : CommandAck) (db : Session)
    → is_open c ≡ false
    → acknowledge_remote_command now c ack db ≡ (err "command already completed", db)
unfolding acknowledge_remote_command
acknowledge_completed now c ack db over = rw (over, acknowledge_remote_command) refl

-- A request of a node: a poll, or an acknowledgement.
pub data Event : Type 0 where
  polled : ℕ → ℕ → String → Event
  reported : ℕ → String → ℕ → CommandAck → Event

-- What a request leaves in the database: the session of one that raised is closed without a commit.
unfoldable pub kept : Result RemoteCommand → Session → Session → Session
kept (ok c) db' db = db'
kept (err text) db' db = db

unfoldable pub handle : Event → Session → Session
unfolding kept
handle (polled now lease node) db = (claim_next_remote_command now node lease db).1
handle (reported now node n ack) db =
    let (result, db') = node_command_ack now node n ack db in kept result db' db

unfoldable pub run : List Event → Session → Session
unfolding handle
run [] db = db
run (e ∷ es) db = run es (handle e db)

-- The row with the key of `c`, where there is one, is `c`.
abbrev pub IsRowOf : RemoteCommand → RemoteCommand → Type 0
IsRowOf c u = u.id ≡ c.id → u ≡ c

available-open :
    (now lease : ℕ) (node : String) (u : RemoteCommand)
    → is_available now lease node u ≡ true
    → is_open u ≡ true
available-open now lease node u h = ground arith

expired-open :
    (now lease : ℕ) (node : String) (u : RemoteCommand)
    → is_expired now lease node u ≡ true
    → is_open u ≡ true
expired-open now lease node u h = ground arith

module _ (c : RemoteCommand) (over : is_open c ≡ false) where
  not_closed : (u : RemoteCommand) → is_open u ≡ true → IsRowOf c u → u.id ≢ c.id
  not_closed u live h same = cc (sym live ∙ ap is_open (h same) ∙ over)

  polled_kept :
      (now lease : ℕ) (node : String) (db : Session)
      → IsClean db.remote_commands
      → All (IsRowOf c) (commands_of db)
      → All (IsRowOf c) (commands_of (claim_next_remote_command now node lease db).1)
  unfolding requeued_command
  polled_kept now lease node db clean h =
      elim (claim_next_remote_command_outcome now lease node db clean) [
        | inl (idle, same) ↦ rw same h
        | inr (u, chosen, t, running_u, result, rows) ↦
            let other : u.id ≢ c.id =
              not_closed u (available-open now lease node u chosen.available)
                (All-at (IsRowOf c) u (commands_of db) h chosen.member) in
            rw rows (
              All-replace_row (IsRowOf c) t (swept_rows now lease node (commands_of db))
                (λ same. absurd (other (ap (λ (v : RemoteCommand). v.id) (sym running_u) ∙ same)))
                (All-update_where (IsRowOf c) (IsRowOf c) (is_expired now lease node)
                  requeued_command (commands_of db)
                  (λ v hit k same. absurd (not_closed v (expired-open now lease node v hit) k same))
                  (λ v miss k. k) h))
      ]

  one_row_kept :
      (u : RemoteCommand) (result : Result RemoteCommand) (db db' : Session)
      → u.id ≢ c.id
      → IsClean db.remote_commands
      → All (IsRowOf c) (commands_of db)
      → IsOneRow u db result db'
      → All (IsRowOf c) (commands_of (kept result db' db))
        × IsClean (kept result db' db).remote_commands
  unfolding kept
  one_row_kept u (err text) db db' other clean h one = (h, clean)
  one_row_kept u (ok x) db db' other clean h (inl (text, raised)) = cc
  one_row_kept u (ok x) db db' other clean h (inr (c', same, rows)) = rw rows (
    rw (live_rows-flush, live_rows-put)
        (All-replace_row (IsRowOf c) c' (commands_of db) (λ e. absurd (other (sym same ∙ e))) h),
    flush-IsClean _,
  )

  reported_kept :
      (now : ℕ) (node : String) (n : ℕ) (ack : CommandAck) (db : Session)
      → IsClean db.remote_commands
      → All (IsRowOf c) (commands_of db)
      → All (IsRowOf c) (commands_of (handle (reported now node n ack) db))
        × IsClean (handle (reported now node n ack) db).remote_commands
  unfolding handle node_command_ack kept
  reported_kept now node n ack db clean h = elim (Option-cases (get n db.remote_commands)) [
    | inl unknown_command ↦ rw (unknown_command, node_command_ack, kept) (h, clean)
    | inr (u, found) ↦ elim (Bool-cases (str_eq u.node_id node)) [
      | inr foreign ↦ rw (found, node_command_ack, foreign, kept) (h, clean)
      | inl own ↦
          rw (found, node_command_ack, own)
            (elim (Bool-cases (is_open u)) [
              | inr closed ↦ rw (acknowledge_completed now u ack db closed, kept) (h, clean)
              | inl live ↦
                  one_row_kept u (acknowledge_remote_command now u ack db).0 db
                    (acknowledge_remote_command now u ack db).1
                    (not_closed u live (first-All (IsRowOf c) _ db.remote_commands u h found)) clean
                    h (acknowledge-IsOneRow now u ack db)
            ])
    ]
  ]

  handle-kept :
      (e : Event) (db : Session)
      → IsClean db.remote_commands
      → All (IsRowOf c) (commands_of db)
      → All (IsRowOf c) (commands_of (handle e db)) × IsClean (handle e db).remote_commands
  unfolding handle
  handle-kept (polled now lease node) db clean h = (
    polled_kept now lease node db clean h,
    claim_next_remote_command-IsClean now lease node db clean,
  )
  handle-kept (reported now node n ack) db clean h = reported_kept now node n ack db clean h

-- Over committed rows: polls and acknowledgements, in any order, leave the row of a command that has
-- succeeded or failed as it is.
pub completed_command_final :
    (c : RemoteCommand) (es : List Event) (db : Session)
    → is_open c ≡ false
    → IsClean db.remote_commands
    → All (IsRowOf c) (commands_of db)
    → All (IsRowOf c) (commands_of (run es db))
unfolding run
completed_command_final c [] db over clean h = h
completed_command_final c (e ∷ es) db over clean h =
    let (h', clean') = handle-kept c over e db clean h in
    completed_command_final c es (handle e db) over clean' h'
