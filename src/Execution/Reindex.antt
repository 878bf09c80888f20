-- ===== src/Execution/Reindex.antt =====
-- The chunk table after a parse.
use knowledge_flywheel.Base.{
  ℕ, zero, suc, String, not, some, List, [], ◌∷◌, ◌++◌, ◌≡◌, refl, ap, sym, ◌∙◌, All, map, keep,
  length, Option-cases, Bool-cases, inl, inr, str_eq, eq_iff, Result, ok, err, Result-cases,
}
use mathlib.Core.List.{append_assoc, append-nil}
use knowledge_flywheel.Store.Table.{Table, IsClean, live_rows, delete_where, add}
use knowledge_flywheel.Store.Laws.{live_rows-add, live_rows-delete_where}
use knowledge_flywheel.Models.Json.{Json, str, get_field, Payload}
use knowledge_flywheel.Models.Rows.{Task, FileRecord, DocumentChunk}
use knowledge_flywheel.Models.Session.{Session}
use knowledge_flywheel.Parse.Split.{Text, split_text}
use knowledge_flywheel.Tasks.Queue.{add_task, task_by_key}
use knowledge_flywheel.Files.Report.{save_file}
use knowledge_flywheel.Commands.Ack.{json_eq, file_named}
use knowledge_flywheel.Execution.Setup.{Executor, lineage, content_text, shown_json}
use knowledge_flywheel.Execution.Indexing.{
  some_chunks, new_chunk, add_chunks, of_file, replace_chunks, checked_chunks,
}
use knowledge_flywheel.Execution.Kinds.{embed_key, ensure_embed_task, parsed_chunks, execute_parse}

abbrev pub chunk_rows : Session → List DocumentChunk
chunk_rows db = live_rows db.document_chunks

-- `n` numbers from one on.
abbrev pub count_from : ℕ → ℕ → List ℕ
count_from start zero = []
count_from start (suc n) = start ∷ count_from (suc start) n

-- Rows that hold these texts in order, for a version of a file.
pub record IsIndexOf (env : Executor) (f : FileRecord) (start : ℕ) (texts : List Text)
    (rows : List DocumentChunk) : Type 0 where
  pub contents : map (λ (c : DocumentChunk). c.content) rows ≡ texts
  pub positions : map (λ (c : DocumentChunk). c.chunk_index) rows ≡ count_from start (length texts)
  pub hashes : map (λ (c : DocumentChunk). c.content_hash) rows ≡ map env.sha256 texts
  pub files : All (λ (c : DocumentChunk). (c.file_id ≡ f.id) × (c.file_hash ≡ f.file_hash)) rows

live_rows-add_chunks :
    (env : Executor) (f : FileRecord) (start : ℕ) (texts : List Text) (rs : Table DocumentChunk)
    → (new : List DocumentChunk) × (live_rows (add_chunks env f start texts rs)
        ≡ live_rows rs ++ new)
      × IsIndexOf env f start texts new
unfolding add_chunks new_chunk
live_rows-add_chunks env f start [] rs = (
  [],
  sym (append-nil (live_rows rs)),
  record { contents = refl; positions = refl; hashes = refl; files = tt },
)
live_rows-add_chunks env f start (text ∷ texts) rs =
    let c = new_chunk env f start text rs in
    let (new, rows, index) = live_rows-add_chunks env f (suc start) texts (add c rs) in
    (
      c ∷ new,
      rows ∙ ap (λ xs. xs ++ new) (live_rows-add c rs) ∙ append_assoc (live_rows rs) (c ∷ []) new,
      record {
        contents = ap (◌∷◌ text) index.contents;
        positions = ap (◌∷◌ start) index.positions;
        hashes = ap (◌∷◌ (env.sha256 text)) index.hashes;
        files = ((refl, refl), index.files);
      },
    )

ensure_embed_task-chunks :
    (now : ℕ) (f : FileRecord) (db : Session)
    → (ensure_embed_task now f db).document_chunks ≡ db.document_chunks
unfolding ensure_embed_task add_task
ensure_embed_task-chunks now f db = elim (Option-cases (task_by_key (embed_key f) db)) [
  | inl new ↦ rw (new, ensure_embed_task) refl
  | inr (t, old) ↦ rw (old, ensure_embed_task) refl
]

some_chunks_pass :
    (shown : String) (r : Result (List Text)) (chunks : List Text)
    → some_chunks shown r ≡ ok chunks
    → r ≡ ok chunks
unfolding some_chunks
some_chunks_pass shown (err raised) chunks e = e
some_chunks_pass shown (ok []) chunks e = cc
some_chunks_pass shown (ok (c ∷ cs)) chunks e = e

-- What the content check passed.
pub checked_chunks_pass :
    (env : Executor) (shown : String) (text : Text) (f : FileRecord) (chunks : List Text)
    → checked_chunks env shown text f ≡ ok chunks
    → (env.sha256 text ≡ f.file_hash) × (split_text env.settings.parse_chunk_chars text ≡ ok chunks)
unfolding checked_chunks
checked_chunks_pass env shown text f chunks e =
    elim (Bool-cases (str_eq (env.sha256 text) f.file_hash)) [
      | inr other ↦ let e' = rw (checked_chunks, other) at e in cc
      | inl same ↦ (
        (eq_iff (env.sha256 text) f.file_hash).0 same,
        some_chunks_pass shown (split_text env.settings.parse_chunk_chars text) chunks
            (rw (checked_chunks, same) at e),
      )
    ]

parsed_chunks_pass :
    (env : Executor) (file_id content : Json) (f : FileRecord) (chunks : List Text)
    → parsed_chunks env file_id content f ≡ ok chunks
    → (text : Text) × (content_text content ≡ some text)
      × (env.sha256 text ≡ f.file_hash)
      × (split_text env.settings.parse_chunk_chars text ≡ ok chunks)
unfolding parsed_chunks
parsed_chunks_pass env file_id content f chunks e = elim (Option-cases (content_text content)) [
  | inl bad ↦ let e' = rw (parsed_chunks, bad) at e in cc
  | inr (text, good) ↦
      let (hash, cut) =
        checked_chunks_pass env (shown_json file_id) text f chunks
          (rw (parsed_chunks, good) at e) in
      (text, good, hash, cut)
]

replace_chunks-rows :
    (env : Executor) (f : FileRecord) (chunks : List Text) (db : Session)
    → IsClean db.document_chunks
    → (new : List DocumentChunk) × (chunk_rows (replace_chunks env f chunks db)
        ≡ keep (λ c. not (of_file f.id c)) (chunk_rows db) ++ new)
      × IsIndexOf env f 0 chunks new
unfolding replace_chunks
replace_chunks-rows env f chunks db c =
    let kept = delete_where (of_file f.id) db.document_chunks in
    let (new, rows, index) = live_rows-add_chunks env f 0 chunks kept in
    (
      new,
      rows ∙ ap (λ xs. xs ++ new) (live_rows-delete_where (of_file f.id) db.document_chunks c),
      index,
    )

-- Over committed chunks: where a parse task returns, its content has the hash of the file's record, and
-- the chunk table afterwards has the rows of the other files, as they were, and then exactly the parts
-- into which the content is split, in their order, numbered from zero, each with the hash of its text,
-- for this version of the file.
pub execute_parse_reindexes :
    (env : Executor) (task : Task) (db : Session) (result : Payload)
    → IsClean db.document_chunks
    → (execute_parse env task db).0 ≡ ok result
    → (f : FileRecord) × (file_named (get_field "file_id" task.payload_json) db ≡ some f)
      × (text : Text) × (content_text (get_field "content" task.payload_json) ≡ some text)
      × (env.sha256 text ≡ f.file_hash)
      × (chunks : List Text) × (split_text env.settings.parse_chunk_chars text ≡ ok chunks)
      × (new : List DocumentChunk) × (chunk_rows (execute_parse env task db).1
          ≡ keep (λ c. not (of_file f.id c)) (chunk_rows db) ++ new)
      × IsIndexOf env f 0 chunks new
unfolding execute_parse lineage save_file
execute_parse_reindexes env task db result c e =
    let file_id = get_field "file_id" task.payload_json in
    elim (Option-cases (file_named file_id db)) [
      | inl gone ↦ let e' = rw (execute_parse, lineage, gone) at e in cc
      | inr (f, found) ↦
          elim (Bool-cases (json_eq (str f.file_hash) (get_field "file_hash" task.payload_json))) [
            | inr other ↦ let e' = rw (execute_parse, lineage, found, other) at e in cc
            | inl same ↦
                elim (Result-cases
                  (parsed_chunks env file_id (get_field "content" task.payload_json) f)) [
                    | inr (text, raised) ↦
                        let e' = rw (execute_parse, lineage, found, same, raised) at e in cc
                    | inl (chunks, split) ↦
                        let (text, given, hash, cut) =
                          parsed_chunks_pass env file_id (get_field "content" task.payload_json) f
                            chunks split in
                        let (new, rows, index) = replace_chunks-rows env f chunks db c in
                        (
                          f,
                          found,
                          text,
                          given,
                          hash,
                          chunks,
                          cut,
                          new,
                          rw (execute_parse, lineage, found, same, split)
                              (ap live_rows (ensure_embed_task-chunks env.now f _) ∙ rows),
                          index,
                        )
                  ]
          ]
    ]
