-- ===== src/Execution/Indexing.antt =====
-- The chunks of a file: how a parse replaces them and an embedding run fills them in.
use Prim.Native.Nat.{Ordering}
use Prim.Native.String.{compare}
use knowledge_flywheel.Base.{
  ℕ, suc, String, Bool, true, false, ◌&&◌, not, none, some, List, [], ◌∷◌, ◌==◌, str_eq, leb,
  if◌then◌else◌, any, map, Result, ok, err, ◌<>◌,
}
use knowledge_flywheel.Store.Table.{Table, select, for_each, add, delete_where, next_id}
use knowledge_flywheel.Store.Order.{sort_by}
use knowledge_flywheel.Models.Rows.{FileRecord, DocumentChunk, chunk_entity}
use knowledge_flywheel.Models.Session.{Session}
use knowledge_flywheel.Parse.Split.{Text, split_text}
use knowledge_flywheel.Execution.Setup.{Executor}

-- `DocumentChunk(...)` with the column defaults.
unfoldable pub new_chunk : Executor → FileRecord → ℕ → Text → Table DocumentChunk → DocumentChunk
new_chunk env f index chunk rows = record {
  id = next_id rows;
  file_id = f.id;
  chunk_index = index;
  content = chunk;
  content_hash = env.sha256 chunk;
  file_hash = f.file_hash;
  embedding = none;
  embedding_provider = none;
  embedding_status = "pending";
  embedded_at = none;
  hit_count = 0;
  created_at = env.now;
}

-- The loop over `enumerate(chunks)`, from an index on.
unfoldable pub add_chunks :
    Executor → FileRecord → ℕ → List Text → Table DocumentChunk → Table DocumentChunk
unfolding new_chunk
add_chunks env f index [] rows = rows
add_chunks env f index (chunk ∷ chunks) rows =
    add_chunks env f (suc index) chunks (add (new_chunk env f index chunk rows) rows)

abbrev pub of_file : ℕ → DocumentChunk → Bool
of_file file_id c = c.file_id == file_id

-- The bulk delete and the loop after it.
unfoldable pub replace_chunks : Executor → FileRecord → List Text → Session → Session
unfolding add_chunks
replace_chunks env f chunks db = record db {
  document_chunks = add_chunks env f 0 chunks (delete_where (of_file f.id) db.document_chunks);
}

-- `if not chunks: raise`
unfoldable pub some_chunks : String → Result (List Text) → Result (List Text)
some_chunks shown (err raised) = err raised
some_chunks shown (ok []) = err ("file has no parseable text: " <> shown)
some_chunks shown (ok (c ∷ cs)) = ok (c ∷ cs)

-- The content check and the split, with the texts that they raise.
unfoldable pub checked_chunks : Executor → String → Text → FileRecord → Result (List Text)
unfolding some_chunks
checked_chunks env shown text f =
    if str_eq (env.sha256 text) f.file_hash
    then some_chunks shown (split_text env.settings.parse_chunk_chars text)
    else err ("content hash mismatch for file: " <> shown)

abbrev pub is_version_chunk : ℕ → String → DocumentChunk → Bool
is_version_chunk file_id file_hash c = c.file_id == file_id && str_eq c.file_hash file_hash

-- `order_by(DocumentChunk.chunk_index)`
abbrev pub index_before : DocumentChunk → DocumentChunk → Bool
index_before a b = leb a.chunk_index b.chunk_index

unfoldable pub chunks_of : ℕ → String → Session → List DocumentChunk
chunks_of file_id file_hash db =
    sort_by index_before (select (is_version_chunk file_id file_hash) db.document_chunks)

unfoldable pub embedded : Executor → DocumentChunk → DocumentChunk
embedded env c =
    let result = env.embed_text c.content in
    record c {
      embedding = some result.vector;
      embedding_provider = some result.provider;
      embedding_status = result.status;
      embedded_at = some env.now;
    }

-- The loop over the chunks.
unfoldable pub embed_chunks : Executor → ℕ → String → Session → Session
unfolding embedded
embed_chunks env file_id file_hash db = record db {
  document_chunks = for_each (is_version_chunk file_id file_hash) (embedded env) db.document_chunks;
}

abbrev pub text_leb : String → String → Bool
text_leb a b = elim (compare a b) [ Ordering.gt ↦ false | _ ↦ true ]

-- A set of texts, as the list that `sorted` gives.
unfoldable pub text_set : List String → List String
text_set [] = []
text_set (s ∷ ss) = let rest = text_set ss in if any (str_eq s) ss then rest else s ∷ rest

unfoldable pub providers_of : Executor → List DocumentChunk → List String
unfolding text_set
providers_of env chunks =
    sort_by text_leb
      (text_set (map (λ (c : DocumentChunk). (env.embed_text c.content).provider) chunks))

-- `any(item != "ollama" for item in providers)`
abbrev pub is_degraded : List String → Bool
is_degraded providers = any (λ p. not (str_eq p "ollama")) providers
