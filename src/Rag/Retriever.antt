-- ===== src/Rag/Retriever.antt =====
-- backend/rag/retriever.py: the chunks of a review that are nearest to a query, and the tool that
-- shows them to an agent. The query's embedding and pgvector's distance are third-party; the
-- connection is the one of `VectorStore`.
use aerp.Prelude.{
  ℕ, leb, ◌+◌, String, ◌<>◌, str_eq, is_truthy, take_chars, replace_char, title, decimal, join,
  Bool, true, ◌&&◌, Option, none, some, List, [], ◌∷◌, map, keep, take, length, order_by, Result,
  ok, err, if◌then◌else◌,
}
use aerp.Rag.Chunker.{ChunkMetadata}
use aerp.Rag.Indexer.{VectorStore, EmbeddingRow}

-- Distances are natural numbers that are ordered as pgvector's, and `similarity` prints
-- `1 - distance` of one.
pub record Search (store : VectorStore) : Type 0 where
  pub embed_query : String → Result store.Vector
  pub distance : store.Vector → store.Vector → ℕ
  pub similarity : ℕ → String

pub record RetrievedChunk : Type 0 where
  pub content : String
  pub source : String
  pub metadata : ChunkMetadata
  pub distance : ℕ

module _ {store : VectorStore} (vectors : Search store) where
  open store use {Vector}

  -- `if source_filter`: a filter that is missing or empty keeps every source.
  abbrev has_source : Option String → String → Bool
  has_source none source = true
  has_source (some filter) source = if is_truthy filter then str_eq source filter else true

  abbrev pub is_candidate : String → Option String → EmbeddingRow Vector → Bool
  is_candidate review_id source_filter row =
      str_eq row.pull_request_id review_id && has_source source_filter row.chunk.source

  abbrev pub distance_to : Vector → EmbeddingRow Vector → ℕ
  distance_to query_vector row = vectors.distance row.embedding query_vector

  -- `ORDER BY distance ASC`
  abbrev pub is_nearer : Vector → EmbeddingRow Vector → EmbeddingRow Vector → Bool
  is_nearer query_vector row other =
      leb (distance_to query_vector row) (distance_to query_vector other)

  abbrev pub to_retrieved : Vector → EmbeddingRow Vector → RetrievedChunk
  to_retrieved query_vector row = record {
    content = row.chunk.content;
    source = row.chunk.source;
    metadata = row.chunk.metadata;
    distance = distance_to query_vector row;
  }

  -- The rows of the query.
  unfoldable pub nearest_rows :
      Vector → String → ℕ → Option String → List (EmbeddingRow Vector) → List (EmbeddingRow Vector)
  nearest_rows query_vector review_id top_k source_filter rows =
      take top_k
        (order_by (is_nearer query_vector) (keep (is_candidate review_id source_filter) rows))

  -- The query is embedded before the connection is made; either may raise.
  unfoldable pub retrieve_similar_chunks :
      String
      → String
      → ℕ
      → Option String
      → List (EmbeddingRow Vector)
      → Result (List RetrievedChunk)
  unfolding nearest_rows
  retrieve_similar_chunks query review_id top_k source_filter rows =
      elim (vectors.embed_query query) [
        | err e ↦ err e
        | ok query_vector ↦ elim store.connect [
          | err e ↦ err e
          | ok done ↦ ok (
              map (to_retrieved query_vector)
                (nearest_rows query_vector review_id top_k source_filter rows))
        ]
      ]

  shown_chunk : ℕ → RetrievedChunk → String
  shown_chunk i r =
      "\n["
      <> decimal i
      <> "] Source: "
      <> title (replace_char "_" " " r.source)
      <> " (similarity: "
      <> vectors.similarity r.distance
      <> ")\n"
      <> take_chars 800 r.content

  shown_chunks : ℕ → List RetrievedChunk → List String
  unfolding shown_chunk
  shown_chunks i [] = []
  shown_chunks i (r ∷ results) = shown_chunk i r ∷ shown_chunks (i + 1) results

  unfoldable pub search_text : String → List RetrievedChunk → String
  unfolding shown_chunks
  search_text query [] = "No relevant context found for: '" <> query <> "'"
  search_text query (r ∷ results) = join "\n" (
      ("Found " <> decimal (length (r ∷ results)) <> " relevant chunks for '" <> query <> "':\n")
      ∷ shown_chunks 1 (r ∷ results))

  -- `build_rag_tool(review_id)`: the tool that searches one review.
  unfoldable pub search_context :
      String → List (EmbeddingRow Vector) → String → Option String → Result String
  unfolding retrieve_similar_chunks search_text
  search_context review_id rows query source =
      elim (retrieve_similar_chunks query review_id 5 source rows) [
        | err e ↦ err e
        | ok results ↦ ok (search_text query results)
      ]
