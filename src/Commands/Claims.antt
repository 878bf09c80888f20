-- ===== src/Commands/Claims.antt =====
-- What a node's poll for its next command returns and leaves.
use knowledge_flywheel.Base.{
  ◌↔◌, ℕ, String, Bool, true, false, ◌||◌, none, some, List, [], ◌∷◌, ◌≡◌, ◌⊎◌, refl, ap, sym, ◌∙◌,
  arith, keep, All, All-mono, All-of_keep, All-Member, Member, Option-cases, Bool-cases, inl, inr,
  if◌then◌else◌,
}
use knowledge_flywheel.Store.Table.{IsClean, select, flush, put, live_rows}
use knowledge_flywheel.Store.Laws.{
  live_rows-flush, live_rows-put, live_rows-for_each, flush-IsClean, update_where, replace_row,
  select_clean, keep-All, All-keep,
}
use knowledge_flywheel.Store.Order.{least, least-All, least_is_first, least-eq-none}
use knowledge_flywheel.Models.Status.{CommandStatus}
use knowledge_flywheel.Models.Rows.{RemoteCommand, command_entity}
use knowledge_flywheel.Models.Session.{Session, commit, audit, flush_all}
use knowledge_flywheel.Commands.Queue.{
  is_expired, is_queued, requeued_command, audit_expired, requeue_listed, requeue_expired,
  queued_before, next_queued, sent_out, claim_next_remote_command, save_command,
}

abbrev pub commands_of : Session → List RemoteCommand
commands_of db = live_rows db.remote_commands

audit_expired-commands :
    (cs : List RemoteCommand) (db : Session)
    → (audit_expired cs db).remote_commands ≡ db.remote_commands
unfolding audit
audit_expired-commands [] db = refl
audit_expired-commands (c ∷ cs) db = audit_expired-commands cs _

update_where_none :
    {A : Type 0} (p : A → Bool) (f : A → A) (xs : List A)
    → keep p xs ≡ []
    → update_where p f xs ≡ xs
update_where_none p f [] e = refl
update_where_none p f (x ∷ xs) e = elim (Bool-cases (p x)) [
  | inl hit ↦ cc (rw hit at e)
  | inr miss ↦ rw miss (ap (◌∷◌ x) (update_where_none p f xs (rw miss at e)))
]

-- The commands that a poll may send out: those that wait, and those whose lease is over.
abbrev pub is_available : ℕ → ℕ → String → RemoteCommand → Bool
is_available now lease node c = is_queued node c || is_expired now lease node c

-- The objects after the loop over the expired commands.
abbrev pub swept_rows : ℕ → ℕ → String → List RemoteCommand → List RemoteCommand
swept_rows now lease node cs = update_where (is_expired now lease node) requeued_command cs

module _ (now lease : ℕ) (node : String) where
  requeue_listed-rows :
      (cs : List RemoteCommand) (db : Session)
      → IsClean db.remote_commands
      → keep (is_expired now lease node) (commands_of db) ≡ cs
      → (commands_of (requeue_listed now lease node cs db)
          ≡ swept_rows now lease node (commands_of db))
        × IsClean (requeue_listed now lease node cs db).remote_commands
  unfolding requeue_listed flush_all audit
  requeue_listed-rows [] db c e =
      (sym (update_where_none (is_expired now lease node) requeued_command (commands_of db) e), c)
  requeue_listed-rows (x ∷ cs) db c e = (
    live_rows-flush _
        ∙ ap live_rows (audit_expired-commands cs _)
        ∙ live_rows-for_each (is_expired now lease node) requeued_command db.remote_commands c,
    flush-IsClean _,
  )

  requeue_expired-rows :
      (db : Session)
      → IsClean db.remote_commands
      → (commands_of (requeue_expired now lease node db)
          ≡ swept_rows now lease node (commands_of db))
        × IsClean (requeue_expired now lease node db).remote_commands
  unfolding requeue_expired
  requeue_expired-rows db c =
      requeue_listed-rows (select (is_expired now lease node) db.remote_commands) db c
        (sym (select_clean (is_expired now lease node) db.remote_commands c))

  -- Where no command of the node has an expired lease, the sweep does not touch the session.
  requeue_expired_idle :
      (db : Session)
      → IsClean db.remote_commands
      → keep (is_expired now lease node) (commands_of db) ≡ []
      → requeue_expired now lease node db ≡ db
  unfolding requeue_expired requeue_listed
  requeue_expired_idle db c e =
      rw (select_clean (is_expired now lease node) db.remote_commands c, e) refl

  next_queued_swept :
      (db : Session)
      → IsClean db.remote_commands
      → next_queued node (requeue_expired now lease node db)
        ≡ least queued_before (keep (is_queued node) (swept_rows now lease node (commands_of db)))
  next_queued_swept db c =
      let (rows, clean) = requeue_expired-rows db c in
      ap (least queued_before)
        (select_clean (is_queued node) _ clean ∙ ap (keep (is_queued node)) rows)

swept : ℕ → ℕ → String → RemoteCommand → RemoteCommand
swept now lease node c = if is_expired now lease node c then requeued_command c else c

queued_before_trans :
    (a b c : RemoteCommand)
    → queued_before a b ≡ true
    → queued_before b c ≡ true
    → queued_before a c ≡ true
queued_before_trans a b c h k = ground arith

queued_before_total : (a b : RemoteCommand) → queued_before a b ≡ false → queued_before b a ≡ true
queued_before_total a b h = ground arith

module _ (now lease : ℕ) (node : String) where
  -- The sweep makes exactly the available commands wait, and does not move them in the order.
  swept-queued :
      (c : RemoteCommand) → is_queued node (swept now lease node c) ≡ is_available now lease node c
  unfolding swept requeued_command
  swept-queued c = ground arith

  swept-before :
      (c u : RemoteCommand)
      → queued_before (swept now lease node c) (swept now lease node u) ≡ queued_before c u
  unfolding swept requeued_command
  swept-before c u = elim (Bool-cases (is_expired now lease node c)) [
    | inl e ↦ elim (Bool-cases (is_expired now lease node u)) [
      | inl e' ↦ rw (e, e') refl
      | inr e' ↦ rw (e, e') refl
    ]
    | inr e ↦ elim (Bool-cases (is_expired now lease node u)) [
      | inl e' ↦ rw (e, e') refl
      | inr e' ↦ rw (e, e') refl
    ]
  ]

  All-swept_rows :
      (P : RemoteCommand → Type 0) (cs : List RemoteCommand)
      → All P (swept_rows now lease node cs) ↔ All (λ c. P (swept now lease node c)) cs
  unfolding swept
  All-swept_rows P [] = (λ h. h, λ h. h)
  All-swept_rows P (c ∷ cs) =
      (λ h. (h.0, (All-swept_rows P cs).0 h.1), λ h. (h.0, (All-swept_rows P cs).1 h.1))

  -- The command of the table that a poll sends out.
  pub record IsChosen (cs : List RemoteCommand) (c : RemoteCommand) : Type 0 where
    pub member : Member c cs
    pub available : is_available now lease node c ≡ true
    pub first : All (λ u. is_available now lease node u ≡ true → queued_before c u ≡ true) cs

  next_queued-IsChosen :
      (cs : List RemoteCommand) (t : RemoteCommand)
      → least queued_before (keep (is_queued node) (swept_rows now lease node cs)) ≡ some t
      → (c : RemoteCommand) × (t ≡ swept now lease node c) × IsChosen cs c
  next_queued-IsChosen cs t e =
      let waiting = keep (is_queued node) (swept_rows now lease node cs) in
      let (c, origin, m) = least-All queued_before IsSwept waiting t swept_all e in
      let queue : is_queued node t ≡ true =
        least-All queued_before (λ v. is_queued node v ≡ true) waiting t
          (keep-All (is_queued node) (swept_rows now lease node cs)) e in
      let before : All (λ v. is_queued node v ≡ true → queued_before t v ≡ true)
          (swept_rows now lease node cs) =
        All-of_keep (λ v. queued_before t v ≡ true) (is_queued node) (swept_rows now lease node cs)
          (least_is_first queued_before queued_before_trans queued_before_total waiting t e) in
      (
        c,
        origin,
        record {
          member = m;
          available = rw (← swept-queued c, ← origin) queue;
          first =
              All-mono _ _ cs
                (λ u h open_u.
                  sym (swept-before c u)
                  ∙ ap (λ v. queued_before v (swept now lease node u)) (sym origin)
                  ∙ h (swept-queued u ∙ open_u))
                ((All-swept_rows (λ v. is_queued node v ≡ true → queued_before t v ≡ true) cs).0
                  before);
        },
      )
    where
      IsSwept : RemoteCommand → Type 0
      IsSwept v = (c : RemoteCommand) × (v ≡ swept now lease node c) × Member c cs

      swept_all : All IsSwept (keep (is_queued node) (swept_rows now lease node cs))
      swept_all =
          All-keep IsSwept (is_queued node) (swept_rows now lease node cs)
            ((All-swept_rows IsSwept cs).1 (All-mono _ _ cs (λ c m. (c, refl, m)) (All-Member cs)))

  next_queued-none :
      (cs : List RemoteCommand)
      → least queued_before (keep (is_queued node) (swept_rows now lease node cs)) ≡ none
      → All (λ c. is_available now lease node c ≡ false) cs
  next_queued-none cs e =
      All-mono _ _ cs (λ u h. refused (swept now lease node u) u refl h)
        ((All-swept_rows (λ v. is_queued node v ≡ true → ⊥) cs).0 (
          All-of_keep (λ v. ⊥) (is_queued node) (swept_rows now lease node cs)
            (rw (least-eq-none queued_before _ e) tt)))
    where
      refused :
          (v u : RemoteCommand)
          → v ≡ swept now lease node u
          → (is_queued node v ≡ true → ⊥)
          → is_available now lease node u ≡ false
      refused v u e h = elim (Bool-cases (is_available now lease node u)) [
        | inl open_u ↦ absurd (h (ap (is_queued node) e ∙ swept-queued u ∙ open_u))
        | inr shut ↦ shut
      ]

claim_idle :
    (now lease : ℕ) (node : String) (db : Session)
    → next_queued node (requeue_expired now lease node db) ≡ none
    → claim_next_remote_command now node lease db ≡ (none, requeue_expired now lease node db)
unfolding claim_next_remote_command
claim_idle now lease node db e = rw e refl

claim_found :
    (now lease : ℕ) (node : String) (db : Session) (t : RemoteCommand)
    → next_queued node (requeue_expired now lease node db) ≡ some t
    → ((claim_next_remote_command now node lease db).0 ≡ some (sent_out now t))
      × ((claim_next_remote_command now node lease db).1.remote_commands
          ≡ flush (put (sent_out now t) (requeue_expired now lease node db).remote_commands))
unfolding claim_next_remote_command commit audit save_command
claim_found now lease node db t e = rw e (refl, refl)

keep_none : {A : Type 0} (p : A → Bool) (xs : List A) → All (λ x. p x ≡ false) xs → keep p xs ≡ []
keep_none p [] h = refl
keep_none p (x ∷ xs) h = rw (h.0) (keep_none p xs h.1)

unavailable-not-expired :
    (now lease : ℕ) (node : String) (c : RemoteCommand)
    → is_available now lease node c ≡ false
    → is_expired now lease node c ≡ false
unavailable-not-expired now lease node c h = ground arith

sent_out-swept :
    (now lease : ℕ) (node : String) (c : RemoteCommand)
    → sent_out now (swept now lease node c) ≡ record c {
      status = CommandStatus.running;
      claimed_at = some now;
      error =
          if is_expired now lease node c
          then some "claim lease expired; command requeued"
          else c.error;
    }
unfolding sent_out swept requeued_command
sent_out-swept now lease node c = elim (Bool-cases (is_expired now lease node c)) [
  | inl e ↦ rw e refl
  | inr e ↦ rw e refl
]

-- A poll of a node over committed commands, all cases. Either no command of the node waits or has
-- an expired lease, and the poll returns nothing and leaves the session as it was. Or it returns
-- the available command that comes first by creation time and key, running since now, with the
-- requeue text as its error if its lease had expired; every expired command of the node waits
-- again, and that row is put in its place.
pub claim_next_remote_command_outcome :
    (now lease : ℕ) (node : String) (db : Session)
    → IsClean db.remote_commands
    → (All (λ u. is_available now lease node u ≡ false) (commands_of db)
        × (claim_next_remote_command now node lease db ≡ (none, db)))
      ⊎ ((c : RemoteCommand) × IsChosen now lease node (commands_of db) c
          × (t : RemoteCommand) × (t ≡ record c {
            status = CommandStatus.running;
            claimed_at = some now;
            error =
                if is_expired now lease node c
                then some "claim lease expired; command requeued"
                else c.error;
          })
          × ((claim_next_remote_command now node lease db).0 ≡ some t)
          × (commands_of (claim_next_remote_command now node lease db).1
              ≡ replace_row t (swept_rows now lease node (commands_of db))))
claim_next_remote_command_outcome now lease node db c =
    elim (Option-cases (next_queued node (requeue_expired now lease node db))) [
      | inl idle ↦
          let none_open : All (λ u. is_available now lease node u ≡ false) (commands_of db) =
            next_queued-none now lease node (commands_of db)
              (sym (next_queued_swept now lease node db c) ∙ idle) in
          inl (
            none_open,
            claim_idle now lease node db idle
                ∙ ap (λ s. (none, s))
                    (requeue_expired_idle now lease node db c (
                      keep_none (is_expired now lease node) (commands_of db) (
                        All-mono _ _ (commands_of db) (unavailable-not-expired now lease node)
                          none_open))),
          )
      | inr (t, found) ↦
          let (u, origin, chosen) =
            next_queued-IsChosen now lease node (commands_of db) t
              (sym (next_queued_swept now lease node db c) ∙ found) in
          let (result, rows) = claim_found now lease node db t found in
          inr (
            u,
            chosen,
            sent_out now t,
            ap (sent_out now) origin ∙ sent_out-swept now lease node u,
            result,
            ap live_rows rows
                ∙ live_rows-flush _
                ∙ live_rows-put (sent_out now t) _
                ∙ ap (replace_row (sent_out now t)) ((requeue_expired-rows now lease node db c).0),
          )
    ]

-- A poll leaves nothing to flush.
pub claim_next_remote_command-IsClean :
    (now lease : ℕ) (node : String) (db : Session)
    → IsClean db.remote_commands
    → IsClean (claim_next_remote_command now node lease db).1.remote_commands
claim_next_remote_command-IsClean now lease node db c =
    elim (Option-cases (next_queued node (requeue_expired now lease node db))) [
      | inl idle ↦
          rw (claim_idle now lease node db idle) ((requeue_expired-rows now lease node db c).1)
      | inr (t, found) ↦ rw ((claim_found now lease node db t found).1) (flush-IsClean _)
    ]
