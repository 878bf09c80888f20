-- ===== src/Proposals/Drafted.antt =====
-- A review by the harness, asked for twice.
use knowledge_flywheel.Store.Laws.{first_clean_flush}
use knowledge_flywheel.Store.Order.{sort_by}
use knowledge_flywheel.Models.Rows.{file_entity}
use knowledge_flywheel.Execution.Indexing.{is_version_chunk, index_before, chunks_of}
use knowledge_flywheel.Execution.Reindex.{chunk_rows}
use knowledge_flywheel.Files.Handlers.{join_paragraphs}
use knowledge_flywheel.Proposals.Harness.{Harness, review_document}
use knowledge_flywheel.Proposals.Drafts.{
  review_title, review_body, review_chunks, create_dsh_review_proposal,
}
use knowledge_flywheel.Base.{
  subst, ◌==◌, ok-injective, ℕ, String, Bool, true, none, some, List, [], ◌∷◌, ◌++◌, ◌≡◌, ◌≢◌, refl,
  ap, sym, ◌∙◌, arith, keep, Option-cases, inl, inr, eq_refl, ok, map,
}
use knowledge_flywheel.Store.Table.{IsClean, select, get, add, flush, live_rows}
use knowledge_flywheel.Store.Laws.{
  select_clean, flush-IsClean, live_rows-flush, live_rows-add, keep-All,
}
use knowledge_flywheel.Store.Order.{least, least-All, least-eq-none}
use knowledge_flywheel.Models.Json.{Payload}
use knowledge_flywheel.Models.Rows.{FileRecord, DocumentChunk, Proposal}
use knowledge_flywheel.Models.Session.{Session, commit, flush_all, audit}
use knowledge_flywheel.Proposals.Drafts.{
  is_open_review, newer_proposal, open_review, new_review, add_proposal, propose_review,
}

keep_snoc_hit :
    (p : Proposal → Bool) (xs : List Proposal) (a : Proposal)
    → p a ≡ true
    → keep p xs ≡ []
    → keep p (xs ++ a ∷ []) ≡ a ∷ []
keep_snoc_hit p [] a h e = rw h refl
keep_snoc_hit p (x ∷ xs) a h e = ground (arith, keep_snoc_hit p xs a h)

new_review_open :
    (now : ℕ) (title : String) (body : Payload) (db : Session)
    → is_open_review title (new_review now title body db) ≡ true
unfolding new_review
new_review_open now title body db = rw (eq_refl title) refl

one_least : (p : Proposal) → least newer_proposal (p ∷ []) ≡ some p
unfolding least
one_least p = refl

-- The proposal that was made is the one that the next query finds.
propose_review-open_review :
    (now : ℕ) (title : String) (body : Payload) (db : Session)
    → IsClean db.proposals
    → open_review title (propose_review now title body db).1
      ≡ some (propose_review now title body db).0
unfolding propose_review add_proposal commit flush_all audit
propose_review-open_review now title body db c = elim (Option-cases (open_review title db)) [
  | inr (p, old) ↦ rw (old, propose_review) old
  | inl new ↦ rw (new, propose_review) (alone new)
]
  where
    alone :
        open_review title db ≡ none
        → least newer_proposal (
            select
              (is_open_review title)
              (flush (flush (add (new_review now title body db) db.proposals))))
          ≡ some (new_review now title body db)
    alone new =
        let p = new_review now title body db in
        let none_open : keep (is_open_review title) (live_rows db.proposals) ≡ [] =
          sym (select_clean (is_open_review title) db.proposals c)
          ∙ least-eq-none newer_proposal (select (is_open_review title) db.proposals) new in
        ap (least newer_proposal) (
          select_clean (is_open_review title) (flush (flush (add p db.proposals))) (flush-IsClean _)
          ∙ ap (keep (is_open_review title)) (
              live_rows-flush (flush (add p db.proposals))
              ∙ live_rows-flush (add p db.proposals)
              ∙ live_rows-add p db.proposals)
          ∙ keep_snoc_hit (is_open_review title) (live_rows db.proposals) p
              (new_review_open now title body db) none_open)
        ∙ one_least p

propose_review_status :
    (now : ℕ) (title : String) (body : Payload) (db : Session)
    → IsClean db.proposals
    → is_open_review title (propose_review now title body db).0 ≡ true
unfolding propose_review
propose_review_status now title body db c = elim (Option-cases (open_review title db)) [
  | inl new ↦ rw (new, propose_review) (new_review_open now title body db)
  | inr (p, old) ↦
      rw (old, propose_review)
        (least-All newer_proposal (λ x. is_open_review title x ≡ true)
          (select (is_open_review title) db.proposals) p
          (rw (select_clean (is_open_review title) db.proposals c)
            (keep-All (is_open_review title) (live_rows db.proposals)))
          old)
]

-- What the look-ups of files and chunks find is not changed, nor are the objects of the tasks.
propose_review_keeps :
    (now : ℕ) (title : String) (body : Payload) (db : Session)
    → IsClean db.files
    → IsClean db.document_chunks
    → let db' = (propose_review now title body db).1 in
      ((n : ℕ) → get n db'.files ≡ get n db.files)
      × ((n : ℕ) (h : String) → chunks_of n h db' ≡ chunks_of n h db)
      × (live_rows db'.files ≡ live_rows db.files)
      × (chunk_rows db' ≡ chunk_rows db)
unfolding propose_review add_proposal commit flush_all audit chunks_of
propose_review_keeps now title body db cf cd = elim (Option-cases (open_review title db)) [
  | inr (p, old) ↦ rw (old, propose_review) ((λ n. refl), (λ n h. refl), refl, refl)
  | inl new ↦
      rw (new, propose_review)
        (
          (λ n.
              first_clean_flush (λ (f : FileRecord). f.id == n) (flush db.files)
                (flush-IsClean db.files)
              ∙ first_clean_flush (λ (f : FileRecord). f.id == n) db.files cf),
          (λ n h. ap (sort_by index_before) (
              select_clean (is_version_chunk n h) (flush (flush db.document_chunks))
                (flush-IsClean _)
              ∙ ap (keep (is_version_chunk n h))
                  (live_rows-flush (flush db.document_chunks) ∙ live_rows-flush db.document_chunks)
              ∙ sym (select_clean (is_version_chunk n h) db.document_chunks cd))),
          live_rows-flush (flush db.files) ∙ live_rows-flush db.files,
          live_rows-flush (flush db.document_chunks) ∙ live_rows-flush db.document_chunks,
        )
]

propose_review_again :
    (now : ℕ) (title : String) (body : Payload) (db : Session) (p : Proposal)
    → open_review title db ≡ some p
    → propose_review now title body db ≡ (p, db)
unfolding propose_review
propose_review_again now title body db p e = rw (propose_review, e) refl

-- The proposal waits for a person, the files and chunks are as they were, and it is the proposal of the
-- next review.
abbrev pub IsDrafted :
    Harness → ℕ → FileRecord → List DocumentChunk → Session → Proposal → Session → Type 0
IsDrafted h later f chunks db p db' =
    (is_open_review (review_title f) p ≡ true)
    × ((n : ℕ) → get n db'.files ≡ get n db.files)
    × ((n : ℕ) (hash : String) → chunks_of n hash db' ≡ chunks_of n hash db)
    × (live_rows db'.files ≡ live_rows db.files)
    × (chunk_rows db' ≡ chunk_rows db)
    × (review_chunks h later f chunks db' ≡ (ok p, db'))

review_chunks-IsDrafted :
    (h h' : Harness) (now later : ℕ) (f : FileRecord) (chunks : List DocumentChunk) (db : Session)
    (p : Proposal)
    → IsClean db.files
    → IsClean db.document_chunks
    → IsClean db.proposals
    → (review_chunks h now f chunks db).0 ≡ ok p
    → IsDrafted h' later f chunks db p (review_chunks h now f chunks db).1
unfolding review_chunks
review_chunks-IsDrafted h h' now later f [] db p cf cd cp e = cc
review_chunks-IsDrafted h h' now later f (c ∷ cs) db p cf cd cp e =
    let content = join_paragraphs (map (λ (d : DocumentChunk). d.content) (c ∷ cs)) in
    let body = review_body h (review_document h f.path content) in
    let body' = review_body h' (review_document h' f.path content) in
    let (made, db') = propose_review now (review_title f) body db in
    let same : made ≡ p = ok-injective made p e in
    let (files, chunks, file_rows, rows) =
      propose_review_keeps now (review_title f) body db cf cd in
    let again =
      propose_review_again later (review_title f) body' db' made
        (propose_review-open_review now (review_title f) body db cp) in
    (
      subst (λ x. is_open_review (review_title f) x ≡ true) same
          (propose_review_status now (review_title f) body db cp),
      files,
      chunks,
      file_rows,
      rows,
      ap (λ (r : Proposal × Session). (ok r.0, r.1)) again ∙ ap (λ x. (ok x, db')) same,
    )

create_found :
    (h : Harness) (now file_id : ℕ) (f : FileRecord) (db : Session)
    → get file_id db.files ≡ some f
    → create_dsh_review_proposal h now file_id db
      ≡ review_chunks h now f (chunks_of file_id f.file_hash db) db
unfolding create_dsh_review_proposal
create_found h now file_id f db found = rw (create_dsh_review_proposal, found) refl

create_missing :
    (h : Harness) (now file_id : ℕ) (db : Session) (p : Proposal)
    → get file_id db.files ≡ none
    → (create_dsh_review_proposal h now file_id db).0 ≢ ok p
unfolding create_dsh_review_proposal
create_missing h now file_id db p missing e =
    let e' = rw (create_dsh_review_proposal, missing) at e in cc

-- Over committed files, chunks and proposals: whatever the harness answers, a review that returns a
-- proposal leaves the files and the chunks as they were, the proposal is pending under the title of the
-- file's review, and a later review of the same file returns this proposal again and changes nothing.
pub review_only_proposes :
    (h h' : Harness) (now later file_id : ℕ) (db : Session) (p : Proposal)
    → IsClean db.files
    → IsClean db.document_chunks
    → IsClean db.proposals
    → (create_dsh_review_proposal h now file_id db).0 ≡ ok p
    → let db' = (create_dsh_review_proposal h now file_id db).1 in
      (f : FileRecord) × (get file_id db.files ≡ some f)
      × (is_open_review (review_title f) p ≡ true)
      × (live_rows db'.files ≡ live_rows db.files)
      × (chunk_rows db' ≡ chunk_rows db)
      × (create_dsh_review_proposal h' later file_id db' ≡ (ok p, db'))
review_only_proposes h h' now later file_id db p cf cd cp e =
    elim (Option-cases (get file_id db.files)) [
      | inl missing ↦ absurd (create_missing h now file_id db p missing e)
      | inr (f, found) ↦
          let chunks = chunks_of file_id f.file_hash db in
          let made = create_found h now file_id f db found in
          let (open_one, files, same_chunks, file_rows, rows, again) =
            review_chunks-IsDrafted h h' now later f chunks db p cf cd cp
              (ap (λ r. r.0) (sym made) ∙ e) in
          let db' = (review_chunks h now f chunks db).1 in
          rw made (
            f,
            found,
            open_one,
            file_rows,
            rows,
            create_found h' later file_id f db' (files file_id ∙ found)
                ∙ ap (λ cs. review_chunks h' later f cs db') (same_chunks file_id f.file_hash)
                ∙ again,
          )
    ]
