-- ===== src/Rag/Chunker.antt =====
-- backend/rag/chunker.py: documents split into chunks. `RecursiveCharacterTextSplitter.split_text`
-- is LangChain's; it takes the chunk size, the overlap and the text.
use aerp.Prelude.{
  ℕ, ◌+◌, String, ◌<>◌, str_eq, is_truthy, strip, split_text, has_text, from_end, Option, none,
  some, List, [], ◌∷◌, ◌++◌, keep, length, if◌then◌else◌,
}
use aerp.State.{PrMetadata}

-- The extra context of a chunk, which its caller gives.
pub data Origin : Type 0 where
  pr_file : String → ℕ → String → Origin
  ticket : String → Origin
  url : String → Origin

pub record ChunkMetadata : Type 0 where
  pub chunk_index : ℕ
  pub total_chunks : ℕ
  pub source : String
  pub origin : Origin

pub record DocumentChunk : Type 0 where
  pub content : String
  pub source : String
  pub metadata : ChunkMetadata

pub record ChunkConfig : Type 0 where
  pub chunk_size : ℕ
  pub chunk_overlap : ℕ

-- `CHUNK_CONFIGS`; an unknown source is treated as a document.
unfoldable pub chunk_config : String → ChunkConfig
chunk_config source =
    if str_eq source "github_pr"
    then record { chunk_size = 800; chunk_overlap = 100 }
    else if str_eq source "jira"
    then record { chunk_size = 1500; chunk_overlap = 150 }
    else if str_eq source "google_doc"
    then record { chunk_size = 1500; chunk_overlap = 150 }
    else if str_eq source "repo_file"
    then record { chunk_size = 600; chunk_overlap = 80 }
    else record { chunk_size = 1500; chunk_overlap = 150 }

abbrev pub Splitter : Type 0
Splitter = ℕ → ℕ → String → List String

-- The chunks from the index `i` on, out of `total`.
unfoldable pub number_chunks : String → Origin → ℕ → ℕ → List String → List DocumentChunk
number_chunks source origin total i [] = []
number_chunks source origin total i (text ∷ texts) =
    record {
      content = strip text;
      source = source;
      metadata = record { chunk_index = i; total_chunks = total; source = source; origin = origin };
    }
    ∷ number_chunks source origin total (i + 1) texts

module _ (split : Splitter) where
  unfoldable pub chunk_document : String → String → Origin → List DocumentChunk
  unfolding chunk_config number_chunks
  chunk_document content source origin =
      let config = chunk_config source in
      let texts = split config.chunk_size config.chunk_overlap content in
      if is_truthy (strip content) then number_chunks source origin (length texts) 0 texts else []

  abbrev or_unknown : Option String → String
  or_unknown none = "unknown"
  or_unknown (some s) = s

  -- The name in `a/src/file.py b/src/file.py`, the first line of a file's section.
  unfoldable pub file_name : String → String
  file_name file_diff = elim (split_text file_diff "\n") [
    | [] ↦ "unknown"
    | line ∷ lines ↦
        if has_text line " b/" then or_unknown (from_end 0 (split_text line " b/")) else "unknown"
  ]

  chunk_files : PrMetadata → List String → List DocumentChunk
  unfolding chunk_document file_name
  chunk_files pr [] = []
  chunk_files pr (file_diff ∷ file_diffs) =
      chunk_document ("diff --git " <> file_diff) "github_pr"
        (pr_file (file_name file_diff) pr.pr_number pr.repo_name)
      ++ chunk_files pr file_diffs

  unfoldable pub chunk_pr_diff : String → PrMetadata → List DocumentChunk
  unfolding chunk_files
  chunk_pr_diff diff pr =
      chunk_files pr (keep (λ d. is_truthy (strip d)) (split_text diff "diff --git "))
