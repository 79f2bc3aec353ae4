-- ===== src/Rag/Indexer.antt =====
-- backend/rag/indexer.py: chunks are embedded in batches of 100 and stored in pgvector. The
-- embedding model and the connection are third-party; the state is the table `embeddings`.
use aerp.Prelude.{
  ℕ, zero, suc, ◌+◌, String, List, [], ◌∷◌, ◌++◌, map, take, drop, length, Result, ok, err, Exec,
  pure, lift, modify, ◌>>◌,
}
use aerp.Rag.Chunker.{DocumentChunk}

pub record EmbeddingRow {ℓ} (Vector : Type ℓ) : Type ℓ where
  pub pull_request_id : String
  pub chunk : DocumentChunk
  pub embedding : Vector

-- `connect` and `insert` answer whether the database raised; `embed` is the API's `aembed_documents`.
pub record VectorStore : Type 1 where
  pub Vector : Type 0
  pub connect : Result (Unit {0})
  pub embed : List String → Result (List Vector)
  pub insert : EmbeddingRow Vector → Result (Unit {0})

module _ (store : VectorStore) (review_id : String) where
  open store use {Vector}

  -- `for chunk, embedding in zip(batch, embeddings)`: an `INSERT` for each pair.
  unfoldable pub store_batch :
      List DocumentChunk → List Vector → Exec (List (EmbeddingRow Vector)) (Unit {0})
  store_batch [] vectors = pure tt
  store_batch (c ∷ batch) [] = pure tt
  store_batch (c ∷ batch) (v ∷ vectors) = do
    let row : EmbeddingRow Vector = record { pull_request_id = review_id; chunk = c; embedding = v }
    lift (store.insert row)
    modify (λ rows. rows ++ row ∷ [])
    store_batch batch vectors

  -- A batch that cannot be embedded ends the loop with 0.
  unfoldable pub store_embedded :
      Result (List Vector)
      → List DocumentChunk
      → Exec (List (EmbeddingRow Vector)) ℕ
      → Exec (List (EmbeddingRow Vector)) ℕ
  unfolding store_batch
  store_embedded (err e) batch rest = pure 0
  store_embedded (ok vectors) batch rest = store_batch batch vectors >> rest

  -- The batches that are left; `fuel` bounds their number, and the number of chunks is enough.
  unfoldable pub index_batches : ℕ → ℕ → List DocumentChunk → Exec (List (EmbeddingRow Vector)) ℕ
  unfolding store_embedded
  index_batches fuel total [] = pure total
  index_batches zero total (c ∷ chunks) = pure total
  index_batches (suc fuel) total (c ∷ chunks) =
      let batch = take 100 (c ∷ chunks) in
      store_embedded (store.embed (map (λ (d : DocumentChunk). d.content) batch)) batch
        (index_batches fuel (total + length batch) (drop 100 (c ∷ chunks)))

  unfoldable pub index_chunks : List DocumentChunk → Exec (List (EmbeddingRow Vector)) ℕ
  index_chunks [] = pure 0
  index_chunks (c ∷ chunks) =
      lift store.connect >> index_batches (length (c ∷ chunks)) 0 (c ∷ chunks)
