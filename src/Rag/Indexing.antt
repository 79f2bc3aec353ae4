-- ===== src/Rag/Indexing.antt =====
-- What indexing stores where the embedding service and the database answer.
use aerp.Prelude.{◌≡◌, List, map, length, ok, String}
use aerp.Rag.Chunker.{DocumentChunk}
use aerp.Rag.Indexer
use aerp.Rag.Indexer.{VectorStore, EmbeddingRow}

-- A store whose services answer, with one vector for each text.
pub record IsUp (store : VectorStore) : Type 0 where
  pub connects : store.connect ≡ ok tt
  pub embeds :
      (texts : List String)
      → (vectors : List store.Vector) × (store.embed texts ≡ ok vectors)
        × (length vectors ≡ length texts)
  pub inserts : (row : EmbeddingRow store.Vector) → store.insert row ≡ ok tt

module _ (store : VectorStore) (review_id : String) (up : IsUp store) where
  abbrev Rows : Type 0
  Rows = List (EmbeddingRow store.Vector)

  abbrev placed : EmbeddingRow store.Vector → String × DocumentChunk
  placed r = (r.pull_request_id, r.chunk)

  abbrev of_review : DocumentChunk → String × DocumentChunk
  of_review c = (review_id, c)

  -- The rows, but for their vectors, are one for each chunk, under the id of the review.
  abbrev pub AreOf : List DocumentChunk → Rows → Type 0
  AreOf chunks rows = map placed rows ≡ map of_review chunks
