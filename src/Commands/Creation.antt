-- ===== src/Commands/Creation.antt =====
-- create_remote_command, called twice with one key.
use knowledge_flywheel.Base.{
  Bool, ℕ, String, none, some, ◌≡◌, refl, ap, ◌∙◌, sym, Option-cases, inl, inr, ok, err, str_eq,
  eq_refl,
}
use knowledge_flywheel.Store.Table.{IsClean, first, add}
use knowledge_flywheel.Store.Laws.{first-flush-add, flush-flush}
use knowledge_flywheel.Models.Rows.{Node, RemoteCommand}
use knowledge_flywheel.Models.Session.{Session, commit, flush_all, audit}
use knowledge_flywheel.Commands.Queue.{
  CommandCreate, command_by_key, node_of, new_command, add_command, create_remote_command,
}

abbrev has_key : String → RemoteCommand → Bool
has_key key c = str_eq c.idempotency_key key

create_old :
    (now : ℕ) (request : CommandCreate) (db : Session) (c : RemoteCommand)
    → command_by_key request.idempotency_key db ≡ some c
    → create_remote_command now request db ≡ (ok c, db)
unfolding create_remote_command
create_old now request db c e = rw (e, create_remote_command) refl

-- The new row is what its key finds, once it is committed.
create_new :
    (now : ℕ) (request : CommandCreate) (db : Session) (n : Node)
    → IsClean db.remote_commands
    → command_by_key request.idempotency_key db ≡ none
    → node_of request.node_id db ≡ some n
    → ((create_remote_command now request db).0 ≡ ok (new_command now request db))
      × (command_by_key request.idempotency_key (create_remote_command now request db).1
          ≡ some (new_command now request db))
unfolding create_remote_command new_command add_command flush_all commit audit
create_new now request db n c fresh node =
    rw (fresh, create_remote_command, node)
      (
        refl,
        ap (first (has_key request.idempotency_key))
              (flush-flush (add (new_command now request db) db.remote_commands))
            ∙ first-flush-add (has_key request.idempotency_key) db.remote_commands
                (new_command now request db) c (eq_refl request.idempotency_key) fresh,
      )

create_refused :
    (now : ℕ) (request : CommandCreate) (db : Session)
    → command_by_key request.idempotency_key db ≡ none
    → node_of request.node_id db ≡ none
    → create_remote_command now request db ≡ (err "node not found", db)
unfolding create_remote_command
create_refused now request db fresh node = rw (fresh, create_remote_command, node) refl

-- Over committed commands: once a call has returned a command, a second call with the same key, at
-- any time and with any node, type and payload, returns that command and changes nothing.
pub create_remote_command_idempotent :
    (now later : ℕ) (request again : CommandCreate) (db : Session) (c : RemoteCommand)
    → IsClean db.remote_commands
    → again.idempotency_key ≡ request.idempotency_key
    → (create_remote_command now request db).0 ≡ ok c
    → create_remote_command later again (create_remote_command now request db).1
      ≡ create_remote_command now request db
create_remote_command_idempotent now later request again db c clean same made =
    elim (Option-cases (command_by_key request.idempotency_key db)) [
      | inr (old, found) ↦
          rw (create_old now request db old found) (create_old later again db old (rw same found))
      | inl fresh ↦ elim (Option-cases (node_of request.node_id db)) [
        | inl missing ↦ cc (rw (create_refused now request db fresh missing) at made)
        | inr (n, node) ↦
            let (result, found) = create_new now request db n clean fresh node in
            create_old later again (create_remote_command now request db).1
              (new_command now request db) (rw same found)
            ∙ ap (λ r. (r, (create_remote_command now request db).1)) (sym result)
      ]
    ]
