-- ===== src/Rag/Nearest.antt =====
-- The search answers the nearest chunks of its own review.
use aerp.Prelude.{List}
use aerp.Rag.Retriever
use aerp.Rag.Retriever.{distance_to}
