-- ===== src/Proposals/Drafts.antt =====
-- create_dsh_review_proposal.
use text.Mathlib.TextBridge.{of_list}
use knowledge_flywheel.Base.{
  ℕ, String, Bool, true, ◌&&◌, Option, none, some, List, [], ◌∷◌, map, leb, str_eq, take, show,
  Result, ok, err, ◌<>◌,
}
use knowledge_flywheel.Store.Table.{select, get, add, next_id}
use knowledge_flywheel.Store.Order.{least}
use knowledge_flywheel.Models.Json.{bool, str, compound, Payload}
use knowledge_flywheel.Models.Status.{ProposalStatus, proposal_is}
use knowledge_flywheel.Models.Rows.{
  FileRecord, DocumentChunk, Proposal, file_entity, proposal_entity,
}
use knowledge_flywheel.Models.Session.{Session, flush_all, commit, audit}
use knowledge_flywheel.Blobs.Storage.{characters}
use knowledge_flywheel.Files.Handlers.{join_paragraphs}
use knowledge_flywheel.Execution.Indexing.{chunks_of}
use knowledge_flywheel.Proposals.Harness.{Harness, DshResult, review_document}

abbrev pub review_title : FileRecord → String
review_title f = "文档审核：" <> of_list (take 180 (characters f.path))

-- The `where` clause of the query for a review that is still open.
abbrev pub is_open_review : String → Proposal → Bool
is_open_review title p =
    str_eq p.kind "document_review"
    && (str_eq p.title title && proposal_is p.status ProposalStatus.pending)

-- `order_by(Proposal.created_at.desc())`
abbrev pub newer_proposal : Proposal → Proposal → Bool
newer_proposal a b = leb b.created_at a.created_at

abbrev pub open_review : String → Session → Option Proposal
open_review title db = least newer_proposal (select (is_open_review title) db.proposals)

unfoldable pub review_body : Harness → DshResult → Payload
review_body h result =
    ("source", str result.provider)
    ∷ ("dsh_status", str result.status)
    ∷ ("verdict", str result.verdict)
    ∷ ("confidence", compound result.confidence)
    ∷ ("summary", str result.summary)
    ∷ ("human_review_required", bool true)
    ∷ ("raw", compound (h.json_text result.raw))
    ∷ []

-- `Proposal(...)` with the column defaults.
unfoldable pub new_review : ℕ → String → Payload → Session → Proposal
new_review now title body db = record {
  id = next_id db.proposals;
  kind = "document_review";
  title = title;
  body = body;
  status = ProposalStatus.pending;
  created_by = "dsh-adapter";
  reviewed_by = none;
  reviewed_at = none;
  created_at = now;
}

unfoldable pub add_proposal : Proposal → Session → Session
add_proposal p db = record db { proposals = add p db.proposals }

-- The proposal for a review: the open one, or a new one.
unfoldable pub propose_review : ℕ → String → Payload → Session → Proposal × Session
unfolding new_review add_proposal
propose_review now title body db = elim (open_review title db) [
  | some existing ↦ (existing, db)
  | none ↦
      let p = new_review now title body db in
      (
        p,
        commit (
            audit "dsh-adapter" "proposal.document_review_created" "proposal" (show p.id) []
              (flush_all (add_proposal p db))),
      )
]

-- From `if not chunks:` on.
unfoldable pub review_chunks :
    Harness → ℕ → FileRecord → List DocumentChunk → Session → Result Proposal × Session
unfolding review_document review_body propose_review join_paragraphs
review_chunks h now f [] db = (err "file has no parsed content to review", db)
review_chunks h now f (c ∷ cs) db =
    let content = join_paragraphs (map (λ (d : DocumentChunk). d.content) (c ∷ cs)) in
    let body = review_body h (review_document h f.path content) in
    let (p, db') = propose_review now (review_title f) body db in (ok p, db')

-- `create_dsh_review_proposal`
unfoldable pub create_dsh_review_proposal : Harness → ℕ → ℕ → Session → Result Proposal × Session
unfolding review_chunks chunks_of
create_dsh_review_proposal h now file_id db = elim (get file_id db.files) [
  | none ↦ (err "file not found", db)
  | some f ↦ review_chunks h now f (chunks_of file_id f.file_hash db) db
]
