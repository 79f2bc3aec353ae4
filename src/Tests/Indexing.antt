-- ===== src/Tests/Indexing.antt =====
-- Indexing two chunks on a store that answers.
use aerp.Prelude.{ℕ, ◌≡◌, refl, ap, suc, String, List, [], ◌∷◌, map, length}
use aerp.Rag.Chunker.{DocumentChunk, url}
use aerp.Rag.Indexer
use aerp.Rag.Indexing.{IsUp}
use aerp.Tests.Data.{unit_store}

length-map_unit : (texts : List String) → length (map (λ (t : String). tt {0}) texts) ≡ length texts
length-map_unit [] = refl
length-map_unit (t ∷ texts) = ap (λ (n : ℕ). suc n) (length-map_unit texts)

abbrev unit_store_up : IsUp unit_store
unit_store_up = record {
  connects = refl;
  embeds = λ texts. (map (λ (t : String). tt) texts, refl, length-map_unit texts);
  inserts = λ row. refl;
}

abbrev chunk : String → DocumentChunk
chunk content = record {
  content = content;
  source = "google_doc";
  metadata = record { chunk_index = 0; total_chunks = 1; source = "google_doc"; origin = url "u" };
}
