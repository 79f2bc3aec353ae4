-- ===== src/Rag.antt =====
-- backend/rag: what is embedded of a review, for the agents to search.
pub mod Chunker
pub mod Indexer
pub mod Indexing
pub mod Retriever
pub mod Nearest
