-- ===== src/Files/Versions.antt =====
-- The versions of a path: the branch of report_file for a new path and hash.
use knowledge_flywheel.Base.{
  All-units, ◌==◌, ℕ, ◌<◌, String, true, false, ◌&&◌, none, List, [], ◌∷◌, ◌++◌, ◌≡◌, refl, ap, ◌∙◌,
  arith, All, All-mono, All-append, All-of_keep, Bool-cases, Option-cases, inl, inr, str_eq, eq_iff,
}
use knowledge_flywheel.Store.Table.{IsClean, select, first, for_each, add, live_rows}
use knowledge_flywheel.Store.Laws.{
  live_rows-flush, live_rows-add, live_rows-for_each, update_where, All-update_where, select_clean,
}
use knowledge_flywheel.Store.Order.{sort_by, insert_by, insert_by-All}
use knowledge_flywheel.Models.Rows.{FileRecord, FileReplica, file_entity}
use knowledge_flywheel.Models.Session.{Session, commit, flush_all, audit}
use knowledge_flywheel.Tasks.Queue.{add_task}
use knowledge_flywheel.Files.Report.{
  FileReport, is_version, has_path, newer_first, next_version, retired, audit_retired, new_file,
  upsert_file_replica, report_new, prior_versions_of, report_file,
}

abbrev pub files_of : Session → List FileRecord
files_of db = live_rows db.files

newer_first_trans :
    (a b c : FileRecord) → newer_first a b ≡ true → newer_first b c ≡ true → newer_first a c ≡ true
newer_first_trans a b c h k = ground arith

newer_first_total : (a b : FileRecord) → newer_first a b ≡ false → newer_first b a ≡ true
newer_first_total a b h = ground arith

-- The first of the list comes before the others.
abbrev IsLed : List FileRecord → Type 0
IsLed [] = Unit
IsLed (x ∷ xs) = All (λ u. newer_first x u ≡ true) xs

insert_by-IsLed :
    (a : FileRecord) (xs : List FileRecord) → IsLed xs → IsLed (insert_by newer_first a xs)
unfolding insert_by
insert_by-IsLed a [] h = tt
insert_by-IsLed a (x ∷ xs) h = elim (Bool-cases (newer_first a x)) [
  | inl before ↦ rw before (before, All-mono _ _ xs (λ u k. newer_first_trans a x u before k) h)
  | inr after ↦
      rw after (
        insert_by-All newer_first (λ u. newer_first x u ≡ true) a xs (newer_first_total a x after)
          h)
]

sort_by-IsLed : (xs : List FileRecord) → IsLed (sort_by newer_first xs)
unfolding sort_by
sort_by-IsLed [] = tt
sort_by-IsLed (x ∷ xs) = insert_by-IsLed x (sort_by newer_first xs) (sort_by-IsLed xs)

IsLed-next_version : (xs : List FileRecord) → IsLed xs → All (λ u. u.version < next_version xs) xs
IsLed-next_version [] h = tt
IsLed-next_version (x ∷ xs) h = (omega arith, All-mono _ _ xs (λ u k. ground (arith, k)) h)

-- What holds of the sorted list holds of the list.
insert_by-back :
    (P : FileRecord → Type 0) (a : FileRecord) (xs : List FileRecord)
    → All P (insert_by newer_first a xs)
    → P a × All P xs
unfolding insert_by
insert_by-back P a [] h = h
insert_by-back P a (x ∷ xs) h = elim (Bool-cases (newer_first a x)) [
  | inl before ↦ let h' = rw before at h in (h'.0, h'.1)
  | inr after ↦
      let h' = rw after at h in
      let (first_one, others) = insert_by-back P a xs h'.1 in (first_one, (h'.0, others))
]

sort_by-back :
    (P : FileRecord → Type 0) (xs : List FileRecord) → All P (sort_by newer_first xs) → All P xs
unfolding sort_by
sort_by-back P [] h = tt
sort_by-back P (x ∷ xs) h =
    let (first_one, others) = insert_by-back P x (sort_by newer_first xs) h in
    (first_one, sort_by-back P xs others)

audit_retired-files :
    (report : FileReport) (fs : List FileRecord) (db : Session)
    → (audit_retired report fs db).files ≡ db.files
unfolding audit
audit_retired-files report [] db = refl
audit_retired-files report (f ∷ fs) db = elim (Bool-cases f.alive) [
  | inl live ↦ rw live (audit_retired-files report fs _)
  | inr gone ↦ rw gone (audit_retired-files report fs db)
]

upsert_file_replica-files :
    (f : FileRecord) (node hash : String) (now : ℕ) (db : Session)
    → (upsert_file_replica f node hash now db).files ≡ db.files
unfolding upsert_file_replica
upsert_file_replica-files f node hash now db =
    elim (Option-cases
      (first (λ (r : FileReplica). r.file_id == f.id && str_eq r.node_id node) db.file_replicas)) [
        | inl fresh ↦ rw (fresh, upsert_file_replica) refl
        | inr (r, found) ↦ rw (found, upsert_file_replica) refl
      ]

-- The rows after a new version.
report_new-rows :
    (now : ℕ) (report : FileReport) (prior : List FileRecord) (db : Session)
    → IsClean db.files
    → files_of (report_new now report prior db).1
      ≡ update_where (has_path report.path) retired (files_of db)
        ++ new_file now report (next_version prior) db.files ∷ []
unfolding report_new commit flush_all add_task
report_new-rows now report prior db c =
    let f = new_file now report (next_version prior) db.files in
    let db0 = record db { files = add f (for_each (has_path report.path) retired db.files) } in
    live_rows-flush _
    ∙ ap live_rows (upsert_file_replica-files f report.node_id report.file_hash now _)
    ∙ live_rows-flush _
    ∙ ap live_rows (audit_retired-files report prior db0)
    ∙ live_rows-add f _
    ∙ ap (λ rs. rs ++ f ∷ []) (live_rows-for_each (has_path report.path) retired db.files c)

retired-not_alive : (f : FileRecord) → (retired f).alive ≡ false
unfolding retired
retired-not_alive f = elim (Bool-cases f.alive) [
  | inl live ↦ rw live refl
  | inr gone ↦ rw gone refl
]

retired_path : (f : FileRecord) → (retired f).path ≡ f.path
unfolding retired
retired_path f = elim (Bool-cases f.alive) [ inl live ↦ rw live refl | inr gone ↦ rw gone refl ]

-- The file `f` is the new version that a report makes, of the table `rows`.
pub record IsNewVersion (now : ℕ) (report : FileReport) (f : FileRecord)
    (rows rows' : List FileRecord) : Type 0 where
  pub added : rows' ≡ update_where (has_path report.path) retired rows ++ f ∷ []
  pub path : f.path ≡ report.path
  pub hash : f.file_hash ≡ report.file_hash
  pub live : f.alive ≡ true
  pub seen : f.last_seen_at ≡ now
  pub newer : All (λ u. u.path ≡ report.path → u.version < f.version) rows
  pub only_alive : All (λ u. u.path ≡ report.path → u.alive ≡ true → u ≡ f) rows'

next_version-newer :
    (path : String) (db : Session)
    → IsClean db.files
    → All (λ u. u.path ≡ path → u.version < next_version (prior_versions_of path db)) (files_of db)
next_version-newer path db c =
    let n = next_version (prior_versions_of path db) in
    let below : All (λ u. u.version < n) (select (has_path path) db.files) =
      sort_by-back (λ u. u.version < n) (select (has_path path) db.files)
        (IsLed-next_version (prior_versions_of path db)
          (sort_by-IsLed (select (has_path path) db.files))) in
    All-mono _ _ (files_of db) (λ u h same. h ((eq_iff u.path path).1 same))
      (All-of_keep (λ u. u.version < n) (has_path path) (files_of db)
        (rw (← select_clean (has_path path) db.files c) below))

report_new-only_alive :
    (path : String) (f : FileRecord) (rows : List FileRecord)
    → All
        (λ u. u.path ≡ path → u.alive ≡ true → u ≡ f)
        (update_where (has_path path) retired rows ++ f ∷ [])
report_new-only_alive path f rows =
    All-append (λ u. u.path ≡ path → u.alive ≡ true → u ≡ f)
      (update_where (has_path path) retired rows) (f ∷ [])
      (All-update_where (λ u. Unit) (λ u. u.path ≡ path → u.alive ≡ true → u ≡ f) (has_path path)
        retired rows (λ u hit _ same live. cc (retired-not_alive u))
        (λ u miss _ same live. cc ((eq_iff u.path path).1 same)) (All-units rows))
      (λ same live. refl, tt)

report_new-IsNewVersion :
    (now : ℕ) (report : FileReport) (prior : List FileRecord) (db : Session)
    → IsClean db.files
    → prior ≡ prior_versions_of report.path db
    → let (f, db') = report_new now report prior db in
      IsNewVersion now report f (files_of db) (files_of db')
unfolding report_new new_file
report_new-IsNewVersion now report prior db c e = record {
  added = report_new-rows now report prior db c;
  path = refl;
  hash = refl;
  live = refl;
  seen = refl;
  newer = rw e (next_version-newer report.path db c);
  only_alive =
      rw (report_new-rows now report prior db c)
        (report_new-only_alive report.path _ (files_of db));
}

-- Over committed files, a report of a path and hash that the table does not have: the file it
-- returns has the path and hash of the report, is alive and seen now, and has a greater version than
-- every file of that path; it is added to the rows, the other files of the path are retired, and of
-- the rows with that path afterwards only the new one is alive.
pub report_file-IsNewVersion :
    (now : ℕ) (report : FileReport) (db : Session)
    → IsClean db.files
    → first (is_version report.path report.file_hash) db.files ≡ none
    → let (f, db') = report_file now report db in
      IsNewVersion now report f (files_of db) (files_of db')
unfolding report_file
report_file-IsNewVersion now report db c fresh =
    rw (fresh, report_file)
      (report_new-IsNewVersion now report (prior_versions_of report.path db) db c refl)
