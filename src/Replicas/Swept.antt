-- ===== src/Replicas/Swept.antt =====
-- The file records after a sweep.
use knowledge_flywheel.Base.{
  ℕ, ◌+◌, String, Bool, true, false, ◌&&◌, not, List, [], ◌∷◌, ◌++◌, ◌≡◌, refl, ap, sym, ◌∙◌, subst,
  arith, All, AllDistinct, map, keep, length, any, Option-cases, Bool-cases, inl, inr,
  if◌then◌else◌, str_eq,
}
use mathlib.Core.List.{append_assoc}
use knowledge_flywheel.Store.Table.{IsClean, live_rows, select, for_each}
use knowledge_flywheel.Store.Laws.{live_rows-flush, live_rows-put, replace_row, select_clean}
use knowledge_flywheel.Models.Status.{file_is, superseded}
use knowledge_flywheel.Models.Rows.{FileRecord, FileReplica, file_entity}
use knowledge_flywheel.Models.Session.{Session, commit, flush_all, audit}
use knowledge_flywheel.Tasks.Queue.{add_task, task_by_key}
use knowledge_flywheel.Alerts.Frame.{IsApart, upsert_alert-view, resolve_alert-view}
use knowledge_flywheel.Files.Report.{save_file}
use knowledge_flywheel.Execution.Pipeline.{queue_repair, repair_key}
use knowledge_flywheel.Replicas.Sweep.{
  Watch, is_enabled, is_overdue, turns_missing, turns_alive, gone, back, missing_key,
  missing_report, sweep_file, audit_lost, is_lost, lost, replica_of_file, sweep_replicas,
  queue_missing_repairs, sweep_repairs, healthy_nodes, one_if, sweep_one, add_counts, no_counts,
  sweep_files, any_file, reconcile_file_liveness,
}
use knowledge_flywheel.Replicas.Records.{id_of, distinct_around, replace_row_middle, same_ids}

abbrev pub files_of : Session → List FileRecord
files_of db = live_rows db.files

-- What a sweep makes of one record.
abbrev pub swept : Watch → FileRecord → FileRecord
swept w f =
    if file_is f.status superseded
    then f
    else if turns_missing w f
    then gone f
    else if turns_alive w f
    then back f
    else f

files_of-IsApart : IsApart files_of
unfolding flush_all
files_of-IsApart = record {
  same = λ db alerts deliveries logs. refl;
  flushed = λ db. live_rows-flush db.files;
}

-- Whether the row is changed; then it is put into the table.
abbrev after_file : Watch → FileRecord → List FileRecord → List FileRecord
after_file w f files =
    if turns_missing w f
    then replace_row (gone f) files
    else if turns_alive w f
    then replace_row (back f) files
    else files

sweep_file-files :
    (w : Watch) (f : FileRecord) (db : Session)
    → files_of (sweep_file w f db).1 ≡ after_file w f (files_of db)
unfolding sweep_file save_file audit
sweep_file-files w f db = elim (Bool-cases (turns_missing w f)) [
  | inl missing ↦
      rw (missing, sweep_file)
        (upsert_alert-view files_of files_of-IsApart w.now w.settings (missing_report w f) _
          ∙ live_rows-put (gone f) db.files)
  | inr stays ↦ elim (Bool-cases (turns_alive w f)) [
    | inl alive ↦
        rw (stays, sweep_file, alive)
          (resolve_alert-view files_of files_of-IsApart w.now (missing_key f) _
            ∙ live_rows-put (back f) db.files)
    | inr same ↦ rw (stays, sweep_file, same) refl
  ]
]

audit_lost-files :
    (f : FileRecord) (rs : List FileReplica) (db : Session) → (audit_lost f rs db).files ≡ db.files
unfolding audit
audit_lost-files f [] db = refl
audit_lost-files f (r ∷ rs) db = audit_lost-files f rs _

sweep_replicas-files :
    (w : Watch) (f : FileRecord) (db : Session) → (sweep_replicas w f db).1.files ≡ db.files
unfolding sweep_replicas
sweep_replicas-files w f db =
    audit_lost-files f (keep (is_lost w) (select (replica_of_file f) db.file_replicas))
      (record db { file_replicas = for_each (replica_of_file f) (lost w) db.file_replicas })

queue_missing_repairs-files :
    (now : ℕ) (f : FileRecord) (nodes : List String) (db : Session)
    → (queue_missing_repairs now f nodes db).1.files ≡ db.files
unfolding queue_missing_repairs queue_repair add_task
queue_missing_repairs-files now f [] db = refl
queue_missing_repairs-files now f (n ∷ ns) db =
    queue_missing_repairs-files now f ns (queue_repair now f.id f.file_hash n db).1
    ∙ elim (Option-cases (task_by_key (repair_key f.id f.file_hash n) db)) [
      | inl new ↦ rw (new, queue_repair) refl
      | inr (t, old) ↦ rw (old, queue_repair) refl
    ]

sweep_repairs-files :
    (now : ℕ) (desired : List String) (f : FileRecord) (db : Session)
    → (sweep_repairs now desired f db).1.files ≡ db.files
unfolding sweep_repairs
sweep_repairs-files now desired f db = elim (Bool-cases f.alive) [
  | inl alive ↦ simp alive (
      queue_missing_repairs-files now f
        (keep (λ node_id. not (any (str_eq node_id) (healthy_nodes f db))) desired) db)
  | inr dead ↦ simp dead refl
]

sweep_one-files :
    (w : Watch) (desired : List String) (f : FileRecord) (db : Session)
    → files_of (sweep_one w desired f db).1 ≡ after_file w f (files_of db)
unfolding sweep_one
sweep_one-files w desired f db =
    let (f', db1) = sweep_file w f db in
    let db2 = (sweep_replicas w f' db1).1 in
    ap live_rows (sweep_repairs-files w.now desired f' db2)
    ∙ ap live_rows (sweep_replicas-files w f' db1)
    ∙ sweep_file-files w f db

swept_id : (w : Watch) (f : FileRecord) → (swept w f).id ≡ f.id
swept_id w f = ground arith

-- One step of the loop, on the records.
step_middle :
    (w : Watch) (xs : List FileRecord) (f : FileRecord) (ys : List FileRecord)
    → AllDistinct (map id_of (xs ++ f ∷ ys))
    → file_is f.status superseded ≡ false
    → after_file w f (xs ++ f ∷ ys) ≡ xs ++ swept w f ∷ ys
step_middle w xs f ys d current =
    let (before, after) = distinct_around xs f ys d in
    elim (Bool-cases (turns_missing w f)) [
      | inl missing ↦ rw (current, missing) (replace_row_middle (gone f) xs f ys refl before after)
      | inr stays ↦ elim (Bool-cases (turns_alive w f)) [
        | inl alive ↦
            rw (current, stays, alive) (replace_row_middle (back f) xs f ys refl before after)
        | inr same ↦ rw (current, stays, same) refl
      ]
    ]

sweep_files_over :
    (w : Watch) (desired : List String) (f : FileRecord) (fs : List FileRecord) (db : Session)
    → file_is f.status superseded ≡ true
    → sweep_files w desired (f ∷ fs) db
      ≡ (add_counts no_counts (sweep_files w desired fs db).0, (sweep_files w desired fs db).1)
unfolding sweep_files
sweep_files_over w desired f fs db over = rw (sweep_files, over) refl

sweep_files_current :
    (w : Watch) (desired : List String) (f : FileRecord) (fs : List FileRecord) (db : Session)
    → file_is f.status superseded ≡ false
    → let (c, db') = sweep_one w desired f db in
      sweep_files w desired (f ∷ fs) db
      ≡ (add_counts c (sweep_files w desired fs db').0, (sweep_files w desired fs db').1)
unfolding sweep_files
sweep_files_current w desired f fs db current = rw (sweep_files, current) refl

sweep_files-files :
    (w : Watch) (desired : List String) (done rest : List FileRecord) (db : Session)
    → files_of db ≡ done ++ rest
    → AllDistinct (map id_of (done ++ rest))
    → files_of (sweep_files w desired rest db).1 ≡ done ++ map (swept w) rest
unfolding sweep_files
sweep_files-files w desired done [] db e d = e
sweep_files-files w desired done (f ∷ fs) db e d =
    let next : (db' : Session)
        → files_of db' ≡ done ++ swept w f ∷ fs
        → files_of (sweep_files w desired fs db').1 ≡ done ++ map (swept w) (f ∷ fs) =
      λ db' e'.
        sweep_files-files w desired (done ++ swept w f ∷ []) fs db'
          (e' ∙ sym (append_assoc done (swept w f ∷ []) fs))
          (subst AllDistinct (sym (same_ids done (swept w f) f fs (swept_id w f))) d)
        ∙ append_assoc done (swept w f ∷ []) (map (swept w) fs) in
    elim (Bool-cases (file_is f.status superseded)) [
      | inl over ↦
          let kept : swept w f ≡ f = rw over refl in
          ap (λ r. files_of r.1) (sweep_files_over w desired f fs db over)
          ∙ next db (e ∙ ap (λ g. done ++ g ∷ fs) (sym kept))
      | inr current ↦
          ap (λ r. files_of r.1) (sweep_files_current w desired f fs db current)
          ∙ next (sweep_one w desired f db).1 (
              sweep_one-files w desired f db
              ∙ ap (after_file w f) e
              ∙ step_middle w done f fs d current)
    ]

abbrev pub goes_missing : Watch → FileRecord → Bool
goes_missing w f = not (file_is f.status superseded) && turns_missing w f

count_step :
    (w : Watch) (f : FileRecord) (fs : List FileRecord)
    → file_is f.status superseded ≡ false
    → length (keep (goes_missing w) (f ∷ fs))
      ≡ one_if (turns_missing w f) + length (keep (goes_missing w) fs)
count_step w f fs current = elim (Bool-cases (turns_missing w f)) [
  | inl missing ↦ rw (current, missing) (omega arith)
  | inr stays ↦ rw (current, stays) (omega arith)
]

count_over :
    (w : Watch) (f : FileRecord) (fs : List FileRecord)
    → file_is f.status superseded ≡ true
    → length (keep (goes_missing w) (f ∷ fs)) ≡ 0 + length (keep (goes_missing w) fs)
count_over w f fs over = rw over (omega arith)

sweep_one-marked :
    (w : Watch) (desired : List String) (f : FileRecord) (db : Session)
    → (sweep_one w desired f db).0.marked_missing ≡ one_if (turns_missing w f)
unfolding sweep_one
sweep_one-marked w desired f db = refl

sweep_files-marked :
    (w : Watch) (desired : List String) (fs : List FileRecord) (db : Session)
    → (sweep_files w desired fs db).0.marked_missing ≡ length (keep (goes_missing w) fs)
unfolding sweep_files
sweep_files-marked w desired [] db = refl
sweep_files-marked w desired (f ∷ fs) db = elim (Bool-cases (file_is f.status superseded)) [
  | inl over ↦
      ap (λ r. r.0.marked_missing) (sweep_files_over w desired f fs db over)
      ∙ ap (λ n. 0 + n) (sweep_files-marked w desired fs db)
      ∙ sym (count_over w f fs over)
  | inr current ↦
      ap (λ r. r.0.marked_missing) (sweep_files_current w desired f fs db current)
      ∙ ap (λ n. n + (sweep_files w desired fs (sweep_one w desired f db).1).0.marked_missing)
          (sweep_one-marked w desired f db)
      ∙ ap (λ n. one_if (turns_missing w f) + n)
          (sweep_files-marked w desired fs (sweep_one w desired f db).1)
      ∙ sym (count_step w f fs current)
]

-- A file that is not superseded is alive exactly if it was seen in time.
abbrev pub IsWatched : Watch → FileRecord → Type 0
IsWatched w f = file_is f.status superseded ≡ false → f.alive ≡ not (is_overdue w f.last_seen_at)

swept-IsWatched : (w : Watch) (f : FileRecord) → IsWatched w (swept w f)
swept-IsWatched w f current = elim (Bool-cases (file_is f.status superseded)) [
  | inl over ↦ let current' = rw over at current in cc
  | inr open_file ↦ elim (Bool-cases (turns_missing w f)) [
    | inl missing ↦ rw (open_file, missing) (gone_late missing)
    | inr stays ↦ elim (Bool-cases (turns_alive w f)) [
      | inl alive ↦ rw (open_file, stays, alive) (back_early alive)
      | inr same ↦ rw (open_file, stays, same) (unchanged stays same)
    ]
  ]
]
  where
    gone_late : turns_missing w f ≡ true → false ≡ not (is_overdue w f.last_seen_at)
    gone_late missing = ground arith

    back_early : turns_alive w f ≡ true → true ≡ not (is_overdue w f.last_seen_at)
    back_early alive = ground arith

    unchanged :
        turns_missing w f ≡ false
        → turns_alive w f ≡ false
        → f.alive ≡ not (is_overdue w f.last_seen_at)
    unchanged stays same = ground arith

All-swept : (w : Watch) (fs : List FileRecord) → All (IsWatched w) (map (swept w) fs)
All-swept w [] = tt
All-swept w (f ∷ fs) = (swept-IsWatched w f, All-swept w fs)

keep_all : (fs : List FileRecord) → keep any_file fs ≡ fs
keep_all [] = refl
keep_all (f ∷ fs) = ap (◌∷◌ f) (keep_all fs)

-- Over committed file records with distinct keys: a sweep leaves each record that is superseded as it
-- was, and of the others it marks those as missing that were not seen in time and sets those alive that
-- were; so afterwards a record that is not superseded is alive exactly if it was seen in time. The
-- report counts the records that were marked.
pub reconcile_file_liveness_watches :
    (w : Watch) (replica_node_ids : List String) (db : Session)
    → IsClean db.files
    → AllDistinct (map id_of (files_of db))
    → let (report, db') = reconcile_file_liveness w replica_node_ids db in
      (files_of db' ≡ map (swept w) (files_of db))
      × All (IsWatched w) (files_of db')
      × (report.counts.marked_missing ≡ length (keep (goes_missing w) (files_of db)))
unfolding reconcile_file_liveness commit flush_all
reconcile_file_liveness_watches w replica_node_ids db c d =
    let desired = keep (is_enabled db) replica_node_ids in
    let listed : select any_file db.files ≡ files_of db =
      select_clean any_file db.files c ∙ keep_all (files_of db) in
    let (counts, db') = sweep_files w desired (select any_file db.files) db in
    let rows : files_of (commit db') ≡ map (swept w) (files_of db) =
      files_of-IsApart.flushed db'
      ∙ rw listed (sweep_files-files w desired [] (files_of db) db refl d) in
    (
      rows,
      subst (All (IsWatched w)) (sym rows) (All-swept w (files_of db)),
      sweep_files-marked w desired (select any_file db.files) db
          ∙ ap (λ fs. length (keep (goes_missing w) fs)) listed,
    )
