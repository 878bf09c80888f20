-- ===== src/Tests/Reviews.antt =====
-- The theorem on reviews by the harness at a small table, with the harness disabled.
use knowledge_flywheel.Base.{true, false, none, some, [], ◌∷◌, ◌≡◌, refl, ok, err}
use knowledge_flywheel.Store.Table.{loaded, select, get, live_rows}
use knowledge_flywheel.Store.Order.{sort_by, least}
use knowledge_flywheel.Models.Status.{FileStatus}
use knowledge_flywheel.Models.Rows.{FileRecord, DocumentChunk, Proposal, file_entity}
use knowledge_flywheel.Models.Session.{Session}
use knowledge_flywheel.Execution.Reindex.{chunk_rows}
use knowledge_flywheel.Proposals.Harness.{Harness, review_document}
use knowledge_flywheel.Proposals.Drafts.{
  is_open_review, review_title, new_review, review_body, create_dsh_review_proposal,
}
use knowledge_flywheel.Proposals.Drafted.{review_only_proposes}
use knowledge_flywheel.Tests.Samples.{empty_session}

abbrev no_harness : Harness
no_harness = record {
  enabled = false;
  post_dsh = λ path title content. err "unreachable";
  float_text = λ value. ok "0.5";
  json_text = λ payload. "{}";
  json_list = λ texts. "[]";
}

abbrev memo : FileRecord
memo = record {
  id = 9;
  path = "/docs/memo.txt";
  file_hash = "abcdef12";
  size_bytes = 10;
  status = FileStatus.parsed;
  alive = true;
  last_seen_at = 50;
  version = 1;
  category = "通用";
  source_node_id = "pc-1";
}

abbrev memo_chunk : DocumentChunk
memo_chunk = record {
  id = 1;
  file_id = 9;
  chunk_index = 0;
  content = 120 ∷ [];
  content_hash = "x";
  file_hash = "abcdef12";
  embedding = none;
  embedding_provider = none;
  embedding_status = "pending";
  embedded_at = none;
  hit_count = 0;
  created_at = 10;
}

abbrev one_memo : Session
one_memo = record empty_session {
  files = loaded memo ∷ [];
  document_chunks = loaded memo_chunk ∷ [];
}

abbrev memo_review : Proposal
memo_review =
    new_review 70 (review_title memo)
      (review_body no_harness (review_document no_harness "/docs/memo.txt" (120 ∷ []))) one_memo

review_returns : (create_dsh_review_proposal no_harness 70 9 one_memo).0 ≡ ok memo_review
unfolding create_dsh_review_proposal select sort_by least
review_returns = refl

review_only_proposes_example :
    let db' = (create_dsh_review_proposal no_harness 70 9 one_memo).1 in
    (f : FileRecord) × (get 9 one_memo.files ≡ some f)
    × (is_open_review (review_title f) memo_review ≡ true)
    × (live_rows db'.files ≡ live_rows one_memo.files)
    × (chunk_rows db' ≡ chunk_rows one_memo)
    × (create_dsh_review_proposal no_harness 80 9 db' ≡ (ok memo_review, db'))
review_only_proposes_example =
    review_only_proposes no_harness no_harness 70 80 9 one_memo memo_review (refl, tt) (refl, tt) tt
      review_returns
