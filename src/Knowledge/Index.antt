-- ===== src/Knowledge/Index.antt =====
-- The chunk records of a file (`replace_file_chunks`, `prepare_chunk_records` and
-- `_prepare_chunk_record_batch` of backend/services/vector_index_service.py). The embedder is external;
-- a number stands for the vector that it makes of a text.
use dewflow.Base.{
  ℕ, zero, suc, ◌+◌, ◌==◌, String, List, [], ◌∷◌, ◌++◌, map, length, take, if◌then◌else◌, max,
}
use dewflow.Knowledge.Rows.{DocumentChunk, KnowledgeDb}
use dewflow.Knowledge.Files.{delete_chunks_for_file, add_chunks}

-- The exceptions that the ingestion tells apart.
pub data Failure : Type 0 where
  app_exception : String → Failure
  file_not_found_error : Failure
  other_exception : Failure

pub data Result (A : Type 0) : Type 0 where
  ok : A → Result A
  err : Failure → Result A

infixl 5 ◌>>=◌
abbrev pub ◌>>=◌ : {A B : Type 0} → Result A → (A → Result B) → Result B
ok a >>= f = f a
err e >>= f = err e

-- A chunk as `_normalize_chunk` leaves it.
pub record IndexChunk : Type 0 where
  pub content : String
  pub embedding_content : String

pub record IndexService : Type 0 where
  pub embed_batch_size : ℕ
  pub encode_documents : List String → Result (List ℕ)

-- `max(1, embed_batch_size)`
abbrev pub batch_size : IndexService → ℕ
batch_size self = max 1 self.embed_batch_size

abbrev pub drop : {A : Type 0} → ℕ → List A → List A
drop zero xs = xs
drop (suc n) [] = []
drop (suc n) (x ∷ xs) = drop n xs

-- `enumerate(zip(chunks, embeddings))` from an index on
unfoldable pub records_from : ℕ → ℕ → List IndexChunk → List ℕ → List DocumentChunk
records_from file_id start [] vectors = []
records_from file_id start (c ∷ cs) [] = []
records_from file_id start (c ∷ cs) (v ∷ vs) =
    record { file_id = file_id; chunk_index = start; content = c.content; embedding = v }
    ∷ records_from file_id (start + 1) cs vs

module _ (self : IndexService) (file_id : ℕ) where
  abbrev pub with_vectors : ℕ → List IndexChunk → List ℕ → Result (List DocumentChunk)
  with_vectors start chunks vectors =
      if length vectors == length chunks
      then ok (records_from file_id start chunks vectors)
      else err other_exception

  unfoldable pub prepare_chunk_record_batch : ℕ → List IndexChunk → Result (List DocumentChunk)
  prepare_chunk_record_batch start chunks =
      self.encode_documents (map (λ c. c.embedding_content) chunks) >>= with_vectors start chunks

  -- `for start in range(0, len(chunks), batch_size)`, on the chunks from `start` on
  unfoldable pub prepare_batches : ℕ → ℕ → List IndexChunk → Result (List DocumentChunk)
  prepare_batches fuel start [] = ok []
  prepare_batches zero start (c ∷ cs) = ok []
  prepare_batches (suc fuel) start (c ∷ cs) =
      prepare_chunk_record_batch start (take (batch_size self) (c ∷ cs)) >>= λ batch.
      prepare_batches fuel (start + batch_size self) (drop (batch_size self) (c ∷ cs)) >>= λ rest.
      ok (batch ++ rest)

  unfoldable pub prepare_chunk_records : List IndexChunk → Result (List DocumentChunk)
  prepare_chunk_records chunks = prepare_batches (length chunks) 0 chunks

  unfoldable pub replace_file_chunks : List IndexChunk → KnowledgeDb → Result KnowledgeDb
  replace_file_chunks chunks db = prepare_chunk_records chunks >>= λ records.
      ok (add_chunks records (delete_chunks_for_file file_id db))
